-- ===== src/Trie/Tree/Remove/Lost.antt =====
-- A node of which an entry loses its value.
use mathlib.Core.Path.{subst}
use op_magic_trie.Prelude.{
  ℕ, ◌<◌, ◌≡◌, ◌↔◌, refl, sym, ap, ◌∙◌, inl, inr, Bool, true, false, Option, none, some, arith,
  Bool-cases, Option-cases, ltb, ◌==◌, ==_iff, ==_refl, if◌then◌else◌,
}
use op_magic_trie.Trie.Node.{Node, NodeData, presence, has_child, has_value, kv_get}
use op_magic_trie.Trie.Node.Scan.{is_some, IsNode}
use op_magic_trie.Trie.Node.Entries
use op_magic_trie.Trie.Node.Entries.{remove_child}
use op_magic_trie.Trie.Node.Erase.{Erased, erase-Erased}
use op_magic_trie.Trie.Node.Split.{stem_of}
use op_magic_trie.Trie.Shape.{stemmed}
use op_magic_trie.Trie.Tree.{stem_chars}
use op_magic_trie.Trie.Tree.View.{
  IsStem, link_of, item_of, node_link, node_item, node_link_outside, node_item_outside,
  node_link_inside, node_item_inside, IsGood,
}

-- `m` is `n` without the value at the byte.
pub record ValueLost {V : Type 0} (n m : Node V) (key : ℕ) : Type 0 where
  pub good : IsGood m
  pub bare : has_value m key ≡ false
  pub link : (j : ℕ) → node_link m j ≡ node_link n j
  pub item : (j : ℕ) → node_item m j ≡ (if j == key then none else node_item n j)

module _ {V : Type 0} (n m : Node V) (g : IsGood n) (node : IsNode m)
    (linked : (k : ℕ) (e : NodeData V)
      → k < 256
      → kv_get m k ≡ some e
      → has_child m k ≡ is_some e.child)
    (stems : (k : ℕ) (e : NodeData V)
      → k < 256
      → kv_get m k ≡ some e
      → (d : NodeData V) × (kv_get n k ≡ some d) × (e.stem ≡ d.stem)) where
  -- Fewer entries, with the same stems.
  pub fewer-IsGood : IsGood m
  fewer-IsGood = record {
    node = node;
    linked = linked;
    bytes = λ k e l got.
        let (d, old, same) = stems k e l got in
        subst (λ z. IsStem (stem_chars z)) (sym same) (g.bytes k d l old);
    proper = λ k e l got.
        let (d, old, same) = stems k e l got in
        subst (λ z. z ≡ stem_of (stem_chars z)) (sym same) (g.proper k d l old);
  }

module _ {V : Type 0} (n : Node V) (g : IsGood n) (key : ℕ) (small : key < 256) (e : NodeData V)
    (here : kv_get n key ≡ some e) where
  abbrev kept : Option (NodeData V)
  kept = if has_child n key then some e else none

  kept_link : link_of kept ≡ link_of (kv_get n key)
  kept_link = elim (Bool-cases (has_child n key)) [
    | inl inner ↦ rw inner (ap link_of (sym here))
    | inr leaf ↦
        let no_child : is_some e.child ≡ false = sym (g.linked key e small here) ∙ leaf in
        rw leaf (elim (Option-cases e.child) [
          | inl none_there ↦ sym (ap link_of here ∙ ap (stemmed (stem_chars e.stem)) none_there)
          | inr (c, inner) ↦ absurd (ground (arith, no_child, inner))
        ])
  ]

  module _ (m : Node V) (last : Bool) (d : Erased n g.node key e true m last) where
    erased_entry : (k : ℕ) (x : NodeData V) → k < 256 → kv_get m k ≡ some x → (kv_get n k ≡ some x)
    erased_entry k x l got = elim (Bool-cases (k == key)) [
      | inl same ↦
          let at_key : k ≡ key = (==_iff k key).0 same in
          let left : kept ≡ some x = sym (d.reads k l ∙ rw same refl) ∙ got in
          elim (Bool-cases (has_child n key)) [
            | inl inner ↦
                let kept_is : kept ≡ some e = rw inner refl in
                ap (kv_get n) at_key ∙ here ∙ sym kept_is ∙ left
            | inr leaf ↦
                let gone : kept ≡ none = rw leaf refl in absurd (ground (arith, gone, left))
          ]
      | inr other ↦ sym (d.reads k l ∙ rw other refl) ∙ got
    ]

    Erased-ValueLost : ValueLost n m key
    Erased-ValueLost = record {
      good =
          fewer-IsGood n m g d.node
            (λ k x l got. d.children k ∙ g.linked k x l (erased_entry k x l got))
            (λ k x l got. (x, erased_entry k x l got, refl));
      bare = d.values key ∙ rw (==_refl key) refl;
      link = λ j. elim (Bool-cases (ltb j 256)) [
        | inr outside ↦ node_link_outside m j outside ∙ sym (node_link_outside n j outside)
        | inl inside ↦
            node_link_inside m j inside
            ∙ ap link_of (d.reads j (ground (arith, inside)))
            ∙ elim (Bool-cases (j == key)) [
              | inl same ↦
                  rw same kept_link
                  ∙ ap (λ z. link_of (kv_get n z)) (sym ((==_iff j key).0 same))
                  ∙ sym (node_link_inside n j inside)
              | inr other ↦ rw other (sym (node_link_inside n j inside))
            ]
      ];
      item = λ j. elim (Bool-cases (j == key)) [
        | inl same ↦
            let bare : has_value m j ≡ false = d.values j ∙ rw same refl in
            rw same (elim (Bool-cases (ltb j 256)) [
              | inr outside ↦ node_item_outside m j outside
              | inl inside ↦ node_item_inside m j inside ∙ rw bare refl
            ])
        | inr other ↦ rw other (elim (Bool-cases (ltb j 256)) [
          | inr outside ↦ node_item_outside m j outside ∙ sym (node_item_outside n j outside)
          | inl inside ↦
              let values : has_value m j ≡ has_value n j = d.values j ∙ rw other refl in
              let reads : kv_get m j ≡ kv_get n j =
                d.reads j (ground (arith, inside)) ∙ rw other refl in
              node_item_inside m j inside
              ∙ (λ i. if values i then item_of (reads i) else none)
              ∙ sym (node_item_inside n j inside)
        ])
      ];
    }

  -- `erase` with the flag on.
  pub erase-ValueLost :
      (m : Node V) × (last : Bool) × (Entries.erase n key true ≡ some (m, last))
      × ValueLost n m key
      × ((last ≡ true) ↔ ((k : ℕ) → k < 256 → presence m k ≡ false))
  erase-ValueLost =
      let (m, last, run, d) = erase-Erased n g.node key small e here true in
      (m, last, run, Erased-ValueLost m last d, d.empty)
