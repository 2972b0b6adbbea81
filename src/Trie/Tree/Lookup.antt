-- ===== src/Trie/Tree/Lookup.antt =====
-- `mismatch` from the root, `check_exists` and `value_of`.
use mathlib.Core.Path.{subst}
use op_magic_trie.Prelude.{
  ℕ, zero, suc, ◌+◌, ◌<◌, ◌≡◌, ◌↔◌, refl, sym, ap, ◌∙◌, Bool, true, false, none, some, List, [],
  ◌∷◌, ◌++◌, length, length-append, arith,
}
use op_magic_trie.Trie.Node.{Node}
use op_magic_trie.Trie.Iterator.{
  StemCompareResult, equals, string_end, stem_end, unequals, no_entry, TrieIterator, end_iterator,
  push, update_stem, top_address,
}
use op_magic_trie.Trie.Shape.{Reach, here, step, Down, Holds-Down, Down-Holds, stemmed}
use op_magic_trie.Trie.Tree.{
  Trie, stem_chars, mismatch, enter, round, common_prefix, check_exists, is_equals,
}
use op_magic_trie.Trie.Tree.View.{Stored, AllBytes, links, items, IsTrie, links_entry}
use op_magic_trie.Trie.Tree.Walk.{Stands, Walked, found, missing, inside, short, differs}
use op_magic_trie.Trie.Tree.Descent.{Down-ne_nil, enter-Stands, stem-Stands}
use op_magic_trie.Trie.Tree.Rounds.{AllBytes-append, mismatch-none}
use op_magic_trie.Trie.Tree.Found.{round-Walked}

module _ {V : Type 0} (t : Trie V) (w : IsTrie t) where
  pub mismatch-round :
      (fuel a : ℕ) (n : Node V) (it : TrieIterator) (k : ℕ) (rest : List ℕ) (r : StemCompareResult)
      → t.nodes a ≡ some n
      → mismatch (suc fuel) t (some a) it (k ∷ rest) r
        ≡ round (mismatch fuel t) n (enter it n k) k rest
  unfolding mismatch
  mismatch-round fuel a n it k rest r e = rw (mismatch, e) refl

  -- From a node that the bytes `p` lead to, with one round for each byte of the string and one
  -- more, `mismatch` ends in one of the five ways.
  pub mismatch-Walked :
      (fuel a : ℕ) (n : Node V) (it : TrieIterator) (p : List ℕ) (k : ℕ) (rest : List ℕ)
      (r : StemCompareResult)
      → length (k ∷ rest) < fuel
      → AllBytes (k ∷ rest)
      → Reach (links t) t.root p a
      → t.nodes a ≡ some n
      → top_address it ≡ some a
      → it.prefix ≡ p
      → Walked t (p ++ k ∷ rest) (k ∷ rest) a (mismatch fuel t (some a) it (k ∷ rest) r)
  mismatch-Walked zero a n it p k rest r enough bytes reach root_node top spells =
      absurd (omega (arith, enough))
  mismatch-Walked (suc fuel) a n it p k rest r enough (small, bytes) reach root_node top spells =
      let at_key = enter it n k in
      let stands : Stands at_key a k none (p ++ k ∷ []) =
        enter-Stands n it.position_stack it.prefix p a k top spells in
      subst (Walked t (p ++ k ∷ rest) (k ∷ rest) a)
        (sym (mismatch-round fuel a n it k rest r root_node))
        (round-Walked t w (mismatch fuel t) p a reach n root_node at_key k small stands rest bytes
          (λ i b bs. mismatch-none t fuel i b bs stem_end (omega (arith, enough)))
          (λ e b c bs er entry inner.
            let stem = stem_chars e.stem in
            let link : links t a k ≡ some (stem, c) =
              links_entry t a n root_node k small e entry ∙ ap (stemmed stem) inner in
            let (m, there) = w.closed a k c stem link in
            let sizes : length rest ≡ length stem + length (b ∷ bs) =
              ap length er ∙ length-append stem (b ∷ bs) in
            let size = ((w.good a n root_node).bytes k e small entry).1 in
            let behind =
              stem-Stands at_key.position_stack at_key.prefix p stem a k (omega (arith, size))
                stands in
            mismatch-Walked fuel c m (push (update_stem at_key stem) (some c)) (p ++ k ∷ stem) b bs
              stem_end (omega (arith, enough, sizes))
              (AllBytes-append stem (b ∷ bs) (subst AllBytes er bytes))
              (step p stem a k reach link refl) there refl behind.spells))

  pub common_prefix-Walked :
      (k : ℕ) (rest : List ℕ)
      → AllBytes (k ∷ rest)
      → Walked t (k ∷ rest) (k ∷ rest) t.root (common_prefix t (k ∷ rest))
  unfolding common_prefix
  common_prefix-Walked k rest bytes =
      let (n, there) = w.rooted in
      mismatch-Walked (suc (length (k ∷ rest))) t.root n (push end_iterator (some t.root)) [] k rest
        equals (omega arith) bytes (here refl refl) there refl refl

  pub Down-Stored : (q : List ℕ) (v : V) → Down (links t) (items t) t.root q v → Stored t q v
  unfolding Stored
  Down-Stored q v d = Holds-Down (links t) (items t) t.root [] q t.root v (here refl refl) d

  pub Stored-Down : (q : List ℕ) (v : V) → Stored t q v → Down (links t) (items t) t.root q v
  unfolding Stored
  Stored-Down q v h = Down-Holds (links t) (items t) t.root q v h

  answers :
      (k : ℕ) (rest : List ℕ) (r : StemCompareResult) (it : TrieIterator) (tail : List ℕ)
      → common_prefix t (k ∷ rest) ≡ some (record { result = r; iter = it; rest = tail })
      → check_exists t (k ∷ rest) ≡ some (is_equals r)
  unfolding check_exists
  answers k rest r it tail e = rw (check_exists, e) refl

  -- On a trie under the invariant, for a string of bytes, `check_exists` returns, and it returns
  -- true exactly when the string is a stored key.
  pub check_exists_lem :
      (q : List ℕ)
      → AllBytes q
      → (b : Bool) × (check_exists t q ≡ some b) × ((b ≡ true) ↔ ((v : V) × Stored t q v))
  unfolding check_exists
  check_exists_lem [] bytes = (
    false,
    refl,
    (
      λ e. absurd (ground (arith, e)),
      λ h. absurd (Down-ne_nil t.root h.0 (Stored-Down [] h.0 h.1)),
    ),
  )
  check_exists_lem (k ∷ rest) bytes = elim (common_prefix-Walked k rest bytes) [
    | found it p a n j e out _ _ _ _ _ _ _ d _ ↦ (
      true,
      answers k rest equals it [] out,
      (λ _. (e.value, Down-Stored (k ∷ rest) e.value d), λ _. refl),
    )
    | missing it p a n j tail out _ _ _ _ _ _ _ gone ↦
        absent (answers k rest no_entry it tail out) gone
    | inside it p a n j e m tail out _ _ _ _ _ _ _ _ gone ↦
        absent (answers k rest string_end it [] out) gone
    | short it p a n j e b tail out _ _ _ _ _ _ _ _ gone ↦
        absent (answers k rest stem_end it (b ∷ tail) out) gone
    | differs it p a n j e m x b tail bs out _ _ _ _ _ _ _ _ _ gone ↦
        absent (answers k rest unequals it (b ∷ bs) out) gone
  ]
    where
      absent :
          check_exists t (k ∷ rest) ≡ some false
          → ((v : V) → ¬ Down (links t) (items t) t.root (k ∷ rest) v)
          → (b : Bool) × (check_exists t (k ∷ rest) ≡ some b)
            × ((b ≡ true) ↔ ((v : V) × Stored t (k ∷ rest) v))
      absent out gone = (
        false,
        out,
        (λ e. absurd (ground (arith, e)), λ h. absurd (gone h.0 (Stored-Down (k ∷ rest) h.0 h.1))),
      )
