-- ===== src/Trie/Tree/Updated.antt =====
-- A node of which one entry is written: what it links to and holds, for each of the operations.
use mathlib.Core.Path.{subst}
use op_magic_trie.Prelude.{
  ℕ, ◌<◌, ◌≡◌, refl, sym, ap, ◌∙◌, ◌⊎◌, inl, inr, Bool, true, false, none, some, List, [], ◌∷◌,
  arith, Bool-cases, ltb, ◌==◌, if◌then◌else◌,
}
use op_magic_trie.Trie.Node.{Node, NodeData, has_child, has_value, kv_get}
use op_magic_trie.Trie.Node.Scan.{is_some, IsNode}
use op_magic_trie.Trie.Node.Split.{stem_of}
use op_magic_trie.Trie.Shape.{stemmed}
use op_magic_trie.Trie.Tree.{stem_chars}
use op_magic_trie.Trie.Tree.View.{
  IsStem, link_of, item_of, node_link, node_item, node_link_outside, node_item_outside,
  node_link_inside, node_item_inside, IsGood,
}

pub stem_chars-stem_of : (s : List ℕ) → stem_chars (stem_of s) ≡ s
unfolding stem_of
stem_chars-stem_of [] = refl
stem_chars-stem_of (a ∷ s) = refl

module _ {V : Type 0} (n m : Node V) (key : ℕ) (small : key < 256) (d : NodeData V) (valued : Bool)
    (reads : (j : ℕ) → j < 256 → kv_get m j ≡ (if j == key then some d else kv_get n j))
    (values : (j : ℕ) → has_value m j ≡ (if j == key then valued else has_value n j))
    (children : (j : ℕ)
      → has_child m j ≡ (if j == key then is_some d.child else has_child n j)) where
  pub updated_link :
      (j : ℕ)
      → node_link m j ≡ (if j == key then stemmed (stem_chars d.stem) d.child else node_link n j)
  updated_link j = elim (Bool-cases (ltb j 256)) [
    | inl inside ↦
        let got = reads j (ground (arith, inside)) in
        node_link_inside m j inside ∙ ap link_of got ∙ elim (Bool-cases (j == key)) [
          | inl e ↦ rw e refl
          | inr e ↦ rw (e, node_link_inside n j inside) refl
        ]
    | inr outside ↦
        let apart : (j == key) ≡ false = ground (arith, outside, small) in
        node_link_outside m j outside ∙ rw (apart, node_link_outside n j outside) refl
  ]

  pub updated_item :
      (j : ℕ)
      → node_item m j ≡ (
          if j == key
          then (if valued then some (stem_chars d.stem, d.value) else none)
          else node_item n j)
  updated_item j = elim (Bool-cases (ltb j 256)) [
    | inl inside ↦
        let got = reads j (ground (arith, inside)) in
        node_item_inside m j inside
        ∙ (λ i. if values j i then item_of (got i) else none)
        ∙ elim (Bool-cases (j == key)) [
          | inl e ↦ rw e refl
          | inr e ↦ rw (e, node_item_inside n j inside) refl
        ]
    | inr outside ↦
        let apart : (j == key) ≡ false = ground (arith, outside, small) in
        node_item_outside m j outside ∙ rw (apart, node_item_outside n j outside) refl
  ]

  pub updated-IsGood :
      IsNode m
      → IsGood n
      → IsStem (stem_chars d.stem)
      → d.stem ≡ stem_of (stem_chars d.stem)
      → IsGood m
  updated-IsGood v g bytes proper = record {
    node = v;
    linked = λ j e l got. elim (entry j e l got) [
      | inl (same, one) ↦ children j ∙ rw (same, one) refl
      | inr (apart, old) ↦ children j ∙ rw apart (g.linked j e l old)
    ];
    bytes = λ j e l got. elim (entry j e l got) [
      | inl (_, one) ↦ subst (λ x. IsStem (stem_chars x.stem)) one bytes
      | inr (_, old) ↦ g.bytes j e l old
    ];
    proper = λ j e l got. elim (entry j e l got) [
      | inl (_, one) ↦ subst (λ x. x.stem ≡ stem_of (stem_chars x.stem)) one proper
      | inr (_, old) ↦ g.proper j e l old
    ];
  }
    where
      entry :
          (j : ℕ) (e : NodeData V)
          → j < 256
          → kv_get m j ≡ some e
          → (((j == key) ≡ true) × (d ≡ e)) ⊎ (((j == key) ≡ false) × (kv_get n j ≡ some e))
      entry j e l got = elim (Bool-cases (j == key)) [
        | inl same ↦
            let one : some d ≡ some e = sym (reads j l ∙ rw same refl) ∙ got in inl (same, cc one)
        | inr apart ↦ inr (apart, sym (reads j l ∙ rw apart refl) ∙ got)
      ]
