-- ===== src/Trie/Tree/Navigate/Least.antt =====
-- The least of the keys below the first entry of a node, from a byte on.
use mathlib.Core.List.{append-nil}
use mathlib.Core.Path.{subst}
use native.Mathlib.Decide.{dec_lt}
use op_magic_trie.Prelude.{
  ℕ, ◌≤◌, ◌<◌, ◌≡◌, sym, ap, ◌∙◌, inl, inr, false, none, some, List, [], ◌∷◌, ◌++◌, arith,
  Bool-cases, ltb, true,
}
use op_magic_trie.Trie.Node.{Node, NodeData, presence, has_value, kv_get}
use op_magic_trie.Trie.Node.Copy.{kv_get_unmarked, presence_marks}
use op_magic_trie.Trie.Shape.{Down, item, child}
use op_magic_trie.Trie.Tree.{Trie, stem_chars}
use op_magic_trie.Trie.Tree.View.{
  links, items, links_at, items_at, node_link_outside, node_item_outside, IsTrie,
}
use op_magic_trie.Trie.Tree.Descent.{Down-missing, own, deeper, Down-Below}
use op_magic_trie.Trie.Tree.Navigate.Lex.{LexLe, LexLe-append, LexLe-prefix}

inside_small : (i : ℕ) → ltb i 256 ≡ true → i < 256
inside_small i e = ground (arith, e)

module _ {V : Type 0} (t : Trie V) (w : IsTrie t) (a : ℕ) (n : Node V)
    (there : t.nodes a ≡ some n) where
  pub front :
      (q : List ℕ) (x : V) → Down (links t) (items t) a q x → (j : ℕ) × (r : List ℕ) × (q ≡ j ∷ r)
  front q x (item j s _ spells) = (j, s, spells)
  front q x (child j c s r _ spells _) = (j, s ++ r, spells)

  -- No key starts with a byte that is not marked.
  pub Down-marked :
      (j : ℕ) (r : List ℕ) (x : V)
      → j < 256
      → presence n j ≡ false
      → ¬ Down (links t) (items t) a (j ∷ r) x
  Down-marked j r x small unmarked d =
      let bare : has_value n j ≡ false = ground (arith, presence_marks n j, unmarked) in
      let empty = kv_get_unmarked n (w.good a n there).node j small unmarked in
      Down-missing t a n there j r x empty bare d

  -- Keys are made of bytes as far as the entries go.
  pub Down-small : (j : ℕ) (r : List ℕ) (x : V) → Down (links t) (items t) a (j ∷ r) x → j < 256
  Down-small j r x (item i s stored spells) = elim (Bool-cases (ltb i 256)) [
    | inl inside ↦ let same : j ≡ i = cc spells in omega (arith, same, inside_small i inside)
    | inr outside ↦
        let gone : items t a i ≡ none =
          ap (λ o. items_at o i) there ∙ node_item_outside n i outside in
        absurd (ground (arith, gone, stored))
  ]
  Down-small j r x (child i c s q link spells below) = elim (Bool-cases (ltb i 256)) [
    | inl inside ↦ let same : j ≡ i = cc spells in omega (arith, same, inside_small i inside)
    | inr outside ↦
        let gone : links t a i ≡ none =
          ap (λ o. links_at o i) there ∙ node_link_outside n i outside in
        absurd (ground (arith, gone, link))
  ]

  module _ (from k : ℕ) (small : k < 256)
      (before : (j : ℕ) → from ≤ j → j < k → presence n j ≡ false) where
    -- All keys from the byte `from` on are at least `p` when those at the byte `k` are.
    pub least_at :
        (p : List ℕ)
        → ((r : List ℕ) (x : V) → Down (links t) (items t) a (k ∷ r) x → LexLe p r)
        → (j : ℕ) (r : List ℕ) (x : V) → from ≤ j
        → Down (links t) (items t) a (j ∷ r) x
        → LexLe (k ∷ p) (j ∷ r)
    least_at p at_byte j r x lo d = elim (dec_lt k j) [
      | yes above ↦ inl above
      | no not_above ↦ elim (dec_lt j k) [
        | yes under ↦ absurd (Down-marked j r x (omega (arith, under, small)) (before j lo under) d)
        | no not_under ↦
            let same : j ≡ k = omega (arith, not_above, not_under) in
            inr (sym same, at_byte r x (subst (λ z. Down (links t) (items t) a (z ∷ r) x) same d))
      ]
    ]

  module _ (k : ℕ) (small : k < 256) (e : NodeData V) (entry : kv_get n k ≡ some e) where
    abbrev stem : List ℕ
    stem = stem_chars e.stem

    pub stem_least : (r : List ℕ) (x : V) → Down (links t) (items t) a (k ∷ r) x → LexLe stem r
    stem_least r x d = elim (Down-Below t a n there k r x small e entry d) [
      | own _ spells _ ↦ subst (LexLe stem) (append-nil stem ∙ sym spells) (LexLe-prefix stem [])
      | deeper c r' _ spells _ ↦ subst (LexLe stem) (sym spells) (LexLe-prefix stem r')
    ]

    pub deeper_least :
        (c : ℕ)
        → e.child ≡ some c
        → has_value n k ≡ false
        → (key : List ℕ) → ((q : List ℕ) (x : V) → Down (links t) (items t) c q x → LexLe key q)
        → (r : List ℕ) (x : V) → Down (links t) (items t) a (k ∷ r) x
        → LexLe (stem ++ key) r
    deeper_least c inner bare key least r x d =
        elim (Down-Below t a n there k r x small e entry d) [
          | own valued _ _ ↦ absurd (ground (arith, valued, bare))
          | deeper c' r' inner' spells below ↦
              let same : c' ≡ c = cc (inner', inner) in
              subst (LexLe (stem ++ key)) (sym spells) (
                LexLe-append stem key r'
                  (least r' x (subst (λ z. Down (links t) (items t) z r' x) same below)))
        ]
