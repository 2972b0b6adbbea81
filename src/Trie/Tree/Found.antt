-- ===== src/Trie/Tree/Found.antt =====
-- The whole walk of `mismatch`, with the rounds that end before a stem is compared.
use mathlib.Core.Path.{subst}
use op_magic_trie.Prelude.{
  ℕ, ◌<◌, ◌≡◌, ◌≢◌, refl, sym, ◌⊎◌, inl, inr, true, false, none, some, List, [], ◌∷◌, ◌++◌, arith,
  Bool-cases,
}
use op_magic_trie.Trie.Node.{Node, NodeData, has_child, has_value, kv_get, presence}
use op_magic_trie.Trie.Node.Copy.{kv_get_cases, presence_marks, kv_get_unmarked}
use op_magic_trie.Trie.Iterator.{stem_end, TrieIterator, push, rat, update_stem}
use op_magic_trie.Trie.Shape.{Reach, Down}
use op_magic_trie.Trie.Tree.{Trie, stem_chars, stem_compare, Further, behind_stem, round}
use op_magic_trie.Trie.Tree.View.{AllBytes, links, items, IsTrie}
use op_magic_trie.Trie.Tree.Walk.{Stands, Walked, missing, inside}
use op_magic_trie.Trie.Tree.Descent.{
  zero-Stands, Down-ne_nil, Down-missing, own, deeper, Down-Below,
}
use op_magic_trie.Trie.Tree.Rounds.{round_missing, round_bare, round_valued, round_inner}
use op_magic_trie.Trie.Tree.Search.{round-Walked_entry}

nil_right : (s r : List ℕ) → [] ≡ s ++ r → r ≡ []
nil_right [] r e = sym e
nil_right (x ∷ s) r e = absurd (cc e)

nil_cases : (s : List ℕ) → (s ≢ []) ⊎ (s ≡ [])
nil_cases [] = inr refl
nil_cases (x ∷ s) = inl (λ e. cc e)

module _ {V : Type 0} (t : Trie V) (w : IsTrie t) (further : Further) (p : List ℕ) (a : ℕ)
    (reach : Reach (links t) t.root p a) (n : Node V) (here : t.nodes a ≡ some n)
    (it : TrieIterator) (k : ℕ) (small : k < 256) (stands : Stands it a k none (p ++ k ∷ [])) where
  -- The walk ends at a byte with neither value nor child.
  round-Walked_missing :
      (rest : List ℕ)
      → AllBytes rest
      → has_value n k ≡ false
      → has_child n k ≡ false
      → Walked t (p ++ k ∷ rest) (k ∷ rest) a (round further n it k rest)
  round-Walked_missing rest bytes bare leaf =
      let unmarked : presence n k ≡ false = ground (arith, presence_marks n k, bare, leaf) in
      let empty : kv_get n k ≡ none = kv_get_unmarked n (w.good a n here).node k small unmarked in
      missing it p a n k rest (round_missing further n it k rest bare leaf) reach here small
        unmarked refl bytes stands (λ v. Down-missing t a n here k rest v empty bare)

  -- The string ends before the stem, at an entry with no value.
  round-Walked_bare :
      (e : NodeData V)
      → kv_get n k ≡ some e
      → has_value n k ≡ false
      → has_child n k ≡ true
      → Walked t (p ++ k ∷ []) (k ∷ []) a (round further n it k [])
  round-Walked_bare e entry bare inner =
      let stem = stem_chars e.stem in
      let open_end : (stem ≢ []) ⊎ ((stem ≡ []) × (has_value n k ≡ false)) = elim (nil_cases stem) [
        | inl ne ↦ inl ne
        | inr empty ↦ inr (empty, bare)
      ] in
      inside (rat it (λ q. record q { stem_size = some 0 })) p a n k e [] stem
        (round_bare further n it k [] bare inner refl) reach here small entry refl open_end refl
        (zero-Stands it.position_stack it.prefix (p ++ k ∷ []) a k stands)
        (λ v d. elim (Down-Below t a n here k [] v small e entry d) [
          | own valued _ _ ↦ ground (arith, bare, valued)
          | deeper c r _ spells below ↦
              Down-ne_nil c v
                (subst (λ z. Down (links t) (items t) c z v) (nil_right stem r spells) below)
        ])

  pub round-Walked :
      (rest : List ℕ)
      → AllBytes rest
      → ((i : TrieIterator) (b : ℕ) (bs : List ℕ)
          → further none i (b ∷ bs) stem_end
            ≡ some (record { result = stem_end; iter = i; rest = b ∷ bs }))
      → ((e : NodeData V) (b c : ℕ) (bs : List ℕ)
          → rest ≡ stem_chars e.stem ++ b ∷ bs
          → kv_get n k ≡ some e
          → e.child ≡ some c
          → Walked t ((p ++ k ∷ stem_chars e.stem) ++ b ∷ bs) (b ∷ bs) c (
              further
                (some c)
                (push (update_stem it (stem_chars e.stem)) (some c))
                (b ∷ bs)
                stem_end))
      → Walked t (p ++ k ∷ rest) (k ∷ rest) a (round further n it k rest)
  round-Walked rest bytes stops goes = elim (kv_get_cases n (w.good a n here).node k small) [
    | inl (unmarked, _) ↦
        let marks = presence_marks n k in
        round-Walked_missing rest bytes (ground (arith, marks, unmarked))
          (ground (arith, marks, unmarked))
    | inr (e, marked, entry) ↦
        let marks = presence_marks n k in
        let compared =
          round-Walked_entry t w further p a reach n here it k small stands e entry rest bytes stops
            (λ b c bs er inner. goes e b c bs er entry inner) in
        elim (Bool-cases (has_value n k)) [
          | inl valued ↦
              subst (Walked t _ _ a) (sym (round_valued further n it k rest e entry valued))
                compared
          | inr bare ↦ unvalued e entry bare (ground (arith, marks, marked, bare)) rest compared
        ]
  ]
    where
      unvalued :
          (e : NodeData V)
          → kv_get n k ≡ some e
          → has_value n k ≡ false
          → has_child n k ≡ true
          → (rest : List ℕ)
          → Walked t
              (p ++ k ∷ rest)
              (k ∷ rest)
              a
              (behind_stem further n it k e.child (stem_compare (stem_chars e.stem) rest))
          → Walked t (p ++ k ∷ rest) (k ∷ rest) a (round further n it k rest)
      unvalued e entry bare inner [] compared = round-Walked_bare e entry bare inner
      unvalued e entry bare inner (b ∷ bs) compared =
          subst (Walked t (p ++ k ∷ b ∷ bs) (k ∷ b ∷ bs) a)
            (sym (round_inner further n it k (b ∷ bs) e entry b bs bare inner refl)) compared
