-- ===== src/Trie/Mixed/Visits.antt =====
-- The default sequence visits the stored keys in order.
use mathlib.Core.List.{Memᴰ}
use mathlib.Core.List.Memᴰ
use mathlib.Core.Path.{subst}
use op_magic_trie.Prelude.{
  ℕ, zero, suc, ◌≤◌, ◌≡◌, ◌↔◌, refl, sym, ap, ◌∙◌, inl, inr, true, false, Option, some, bind_some,
  List, [], ◌∷◌, length, arith,
}
use op_magic_trie.Trie.Iterator.{TriePosition, TrieIterator, is_end}
use op_magic_trie.Trie.Tree.{Trie}
use op_magic_trie.Trie.Tree.View.{Stored, IsTrie}
use op_magic_trie.Trie.Tree.Descent.{iterator}
use op_magic_trie.Trie.Tree.Navigate
use op_magic_trie.Trie.Tree.Navigate.{begin, on_data}
use op_magic_trie.Trie.Tree.Navigate.Lex.{LexLt, LexLt-irrefl, LexLt-trans, LexLe-cases}
use op_magic_trie.Trie.Tree.Navigate.First.{Within}
use op_magic_trie.Trie.Tree.Navigate.Follows.{Follows, found, finished}
use op_magic_trie.Trie.Tree.Navigate.Next.{next-Follows}
use op_magic_trie.Trie.Tree.Navigate.Begin.{begin-Follows}
use op_magic_trie.Trie.Mixed.{
  default_mixer, trie_in_range, sequence_in_range, sequence_next, sequence_start, keys_from, keys,
}
use op_magic_trie.Trie.Mixed.Drop.{drop_one}

-- Each key is less than all behind it.
abbrev pub IsAscending : List (List ℕ) → Type 0
IsAscending [] = Unit
IsAscending (k ∷ ks) = ((q : List ℕ) → Memᴰ q ks → LexLt k q) × IsAscending ks

module _ {V : Type 0} (t : Trie V) (w : IsTrie t) (fuel : ℕ)
    (levels : Within t (suc fuel) t.root) where
  abbrev from : ℕ → Option TrieIterator → Option (List (List ℕ))
  from steps o = keys_from steps (default_mixer fuel) t o

  -- The keys read are those that are stored and have the property, in order.
  abbrev Reads : (List ℕ → Type 0) → List (List ℕ) → Type 0
  Reads Past ks = IsAscending ks × ((q : List ℕ) → Memᴰ q ks ↔ ((v : V) × Stored t q v × Past q))

  from_end : (steps : ℕ) (i : TrieIterator) → is_end i ≡ true → from steps (some i) ≡ some []
  unfolding keys_from sequence_in_range
  from_end zero i at_end = rw at_end refl
  from_end (suc steps) i at_end = rw at_end refl

  from_key :
      (steps : ℕ) (i : TrieIterator) (rest : List (List ℕ))
      → is_end i ≡ false
      → from steps (Navigate.next (suc fuel) t i true) ≡ some rest
      → from (suc steps) (some i) ≡ some (i.prefix ∷ rest)
  unfolding keys_from sequence_in_range sequence_next default_mixer trie_in_range
  from_key steps i rest going e = rw going (bind_some _ e refl)

  data-is_end :
      (ps : List TriePosition) (pre : List ℕ)
      → on_data (iterator ps pre) ≡ true
      → is_end (iterator ps pre) ≡ false
  data-is_end [] pre e = absurd (ground (arith, e))
  data-is_end (p ∷ ps) pre e = refl

  end_is_end : (i : TrieIterator) → i.position_stack ≡ [] → is_end i ≡ true
  end_is_end i e = ap (λ ps. is_end (iterator ps i.prefix)) e

  from-Reads :
      (steps : ℕ) (left : List (List ℕ)) (Past : List ℕ → Type 0) (o : Option TrieIterator)
      → length left ≤ steps
      → ((q r : List ℕ) → Past q → LexLt q r → Past r)
      → ((q : List ℕ) (v : V) → Stored t q v → Past q → Memᴰ q left)
      → Follows t Past o
      → (ks : List (List ℕ)) × (from steps o ≡ some ks) × Reads Past ks
  from-Reads steps left Past o enough up all (finished i out at_end gone) = (
    [],
    ap (from steps) out ∙ from_end steps i (end_is_end i at_end),
    (tt, λ q. (λ h. absurd (Memᴰ.not-nil h), λ h. absurd (gone q h.0 h.1 h.2))),
  )
  from-Reads zero left Past o enough up all (found i c v out track there stored past least) =
      let (rest, sizes, _) = drop_one left i.prefix (all i.prefix v stored past) in
      absurd (omega (arith, enough, sizes))
  from-Reads (suc steps) left Past o enough up all (found i c v out track there stored past least) =
      let going = data-is_end i.position_stack i.prefix there in
      let (rest, sizes, keep) = drop_one left i.prefix (all i.prefix v stored past) in
      let (ks, run, (ordered, reads)) =
        from-Reads steps rest (LexLt i.prefix) (Navigate.next (suc fuel) t i true)
          (omega (arith, enough, sizes)) (LexLt-trans i.prefix)
          (λ q x h less.
            keep q (λ same. LexLt-irrefl i.prefix (subst (LexLt i.prefix) same less))
              (all q x h (up i.prefix q past less)))
          (next-Follows t w (suc fuel) levels i c track going) in
      (
        i.prefix ∷ ks,
        ap (from (suc steps)) out ∙ from_key steps i ks going run,
        (
          ((λ q h. let (_, _, less) = (reads q).0 h in less), ordered),
          λ q. (visited ks reads q, met ks reads q),
        ),
      )
    where
      visited :
          (ks : List (List ℕ))
          → ((q : List ℕ) → Memᴰ q ks ↔ ((v : V) × Stored t q v × LexLt i.prefix q))
          → (q : List ℕ) → Memᴰ q (i.prefix ∷ ks)
          → (x : V) × Stored t q x × Past q
      visited ks reads q (Memᴰ.head same) =
          (v, subst (λ z. Stored t z v) (sym same) stored, subst Past (sym same) past)
      visited ks reads q (Memᴰ.tail h) =
          let (x, held, less) = (reads q).0 h in (x, held, up i.prefix q past less)

      met :
          (ks : List (List ℕ))
          → ((q : List ℕ) → Memᴰ q ks ↔ ((v : V) × Stored t q v × LexLt i.prefix q))
          → (q : List ℕ) → ((x : V) × Stored t q x × Past q)
          → Memᴰ q (i.prefix ∷ ks)
      met ks reads q (x, held, past_q) = elim (LexLe-cases i.prefix q (least q x held past_q)) [
        | inl same ↦ Memᴰ.head (sym same)
        | inr less ↦ Memᴰ.tail ((reads q).1 (x, held, less))
      ]

  -- On a trie under the invariant in which each node has an entry, with fuel for each level below
  -- the root, and a number of steps that is at least the length of a list of all its stored keys,
  -- the default sequence comes to its end, and the keys that it has visited are exactly the stored
  -- ones, in ascending order.
  pub keys-Reads :
      (steps : ℕ) (all : List (List ℕ))
      → length all ≤ steps
      → ((q : List ℕ) (v : V) → Stored t q v → Memᴰ q all)
      → (ks : List (List ℕ)) × (keys steps (default_mixer fuel) t ≡ some ks)
        × IsAscending ks
        × ((q : List ℕ) → Memᴰ q ks ↔ ((v : V) × Stored t q v))
  unfolding keys sequence_start default_mixer
  keys-Reads steps all enough whole =
      let (ks, run, (ordered, reads)) =
        from-Reads steps all (λ q. Unit) (begin fuel t) enough (λ q r _ _. tt)
          (λ q v h _. whole q v h) (begin-Follows t w fuel (inr levels)) in
      (
        ks,
        run,
        ordered,
        λ q. (λ h. let (v, held, _) = (reads q).0 h in (v, held), λ h. (reads q).1 (h.0, h.1, tt)),
      )
