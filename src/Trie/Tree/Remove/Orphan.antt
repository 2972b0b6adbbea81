-- ===== src/Trie/Tree/Remove/Orphan.antt =====
-- The node that loses a child: `remove_child` and then `erase` with the flag off.
use op_magic_trie.Prelude.{
  ℕ, ◌<◌, ◌≡◌, ◌↔◌, refl, sym, ap, ◌∙◌, ◌⊎◌, inl, inr, Bool, true, false, Option, none, some, arith,
  Bool-cases, ltb, ◌==◌, ==_iff, if◌then◌else◌,
}
use op_magic_trie.Trie.Node.{Node, NodeData, presence, has_child, has_value, kv_get}
use op_magic_trie.Trie.Node.Scan.{is_some}
use op_magic_trie.Trie.Node.Entries
use op_magic_trie.Trie.Node.Entries.{remove_child}
use op_magic_trie.Trie.Node.Removal.{ChildGone, remove_child-ChildGone}
use op_magic_trie.Trie.Node.Erase.{Kept, erase-Kept}
use op_magic_trie.Trie.Tree.View.{
  link_of, item_of, node_link, node_item, node_link_outside, node_item_outside, node_link_inside,
  node_item_inside, IsGood,
}
use op_magic_trie.Trie.Tree.Remove.Lost.{fewer-IsGood}

-- `m` is `n` without the child at the byte.
pub record ChildLost {V : Type 0} (n m : Node V) (key : ℕ) : Type 0 where
  pub good : IsGood m
  pub link : (j : ℕ) → node_link m j ≡ (if j == key then none else node_link n j)
  pub item : (j : ℕ) → node_item m j ≡ node_item n j

module _ {V : Type 0} (n : Node V) (g : IsGood n) (key : ℕ) (small : key < 256) (e : NodeData V)
    (here : kv_get n key ≡ some e) where
  abbrev orphan : NodeData V
  orphan = record e { child = none }

  abbrev orphaned : Option (NodeData V)
  orphaned = if has_value n key then some orphan else none

  orphaned_link : link_of orphaned ≡ none
  orphaned_link = elim (Bool-cases (has_value n key)) [
    | inl valued ↦ rw valued refl
    | inr bare ↦ rw bare refl
  ]

  orphaned_item :
      (if has_value n key then item_of orphaned else none)
      ≡ (if has_value n key then item_of (kv_get n key) else none)
  orphaned_item = elim (Bool-cases (has_value n key)) [
    | inl valued ↦ rw valued (sym (ap item_of here))
    | inr bare ↦ rw bare refl
  ]

  module _ (u : Node V) (gone : ChildGone n g.node key small e here u) (m : Node V) (last : Bool)
      (d : Kept u gone.0 m last) where
    reads : (k : ℕ) → k < 256 → kv_get m k ≡ (if k == key then orphaned else kv_get n k)
    reads k l = d.reads k ∙ gone.3 k l

    values : (k : ℕ) → has_value m k ≡ has_value n k
    values k = d.values k ∙ gone.2 k

    -- An entry of the node is the one of before, or the one without its child.
    orphan_entry :
        (k : ℕ) (x : NodeData V)
        → k < 256
        → kv_get m k ≡ some x
        → (((k == key) ≡ true) × (k ≡ key) × (x ≡ orphan))
          ⊎ (((k == key) ≡ false) × (kv_get n k ≡ some x))
    orphan_entry k x l got = elim (Bool-cases (k == key)) [
      | inr other ↦ inr (other, sym (reads k l ∙ rw other refl) ∙ got)
      | inl same ↦
          let left : orphaned ≡ some x = sym (reads k l ∙ rw same refl) ∙ got in
          elim (Bool-cases (has_value n key)) [
            | inl valued ↦
                let is_orphan : some orphan ≡ some x = sym (rw valued refl) ∙ left in
                inl (same, (==_iff k key).0 same, cc is_orphan)
            | inr bare ↦
                let empty : orphaned ≡ none = rw bare refl in absurd (ground (arith, empty, left))
          ]
    ]

    orphan_linked :
        (k : ℕ) (x : NodeData V) → k < 256 → kv_get m k ≡ some x → has_child m k ≡ is_some x.child
    orphan_linked k x l got = elim (orphan_entry k x l got) [
      | inl (same, _, is_orphan) ↦
          let leaf : has_child m k ≡ false = d.children k ∙ gone.1 k ∙ rw same refl in
          leaf ∙ ap (λ (z : NodeData V). is_some z.child) (sym is_orphan)
      | inr (other, old) ↦ d.children k ∙ gone.1 k ∙ rw other (g.linked k x l old)
    ]

    orphan_stems :
        (k : ℕ) (x : NodeData V)
        → k < 256
        → kv_get m k ≡ some x
        → (y : NodeData V) × (kv_get n k ≡ some y) × (x.stem ≡ y.stem)
    orphan_stems k x l got = elim (orphan_entry k x l got) [
      | inl (_, at_key, is_orphan) ↦
          (e, ap (kv_get n) at_key ∙ here, ap (λ (z : NodeData V). z.stem) is_orphan)
      | inr (_, old) ↦ (x, old, refl)
    ]

    Kept-ChildLost : ChildLost n m key
    Kept-ChildLost = record {
      good = fewer-IsGood n m g d.node orphan_linked orphan_stems;
      link = λ j. elim (Bool-cases (ltb j 256)) [
        | inr outside ↦
            let apart : (j == key) ≡ false = ground (arith, outside, small) in
            node_link_outside m j outside ∙ rw (apart, node_link_outside n j outside) refl
        | inl inside ↦
            node_link_inside m j inside
            ∙ ap link_of (reads j (ground (arith, inside)))
            ∙ elim (Bool-cases (j == key)) [
              | inl same ↦ rw same orphaned_link
              | inr other ↦ rw other (sym (node_link_inside n j inside))
            ]
      ];
      item = λ j. elim (Bool-cases (ltb j 256)) [
        | inr outside ↦ node_item_outside m j outside ∙ sym (node_item_outside n j outside)
        | inl inside ↦
            let got = reads j (ground (arith, inside)) in
            node_item_inside m j inside
            ∙ (λ i. if values j i then item_of (got i) else none)
            ∙ elim (Bool-cases (j == key)) [
              | inl same ↦
                  let at_key : j ≡ key = (==_iff j key).0 same in
                  rw same (
                    ap (λ z. if has_value n z then item_of orphaned else none) at_key
                    ∙ orphaned_item
                    ∙ ap (λ z. if has_value n z then item_of (kv_get n z) else none) (sym at_key)
                    ∙ sym (node_item_inside n j inside))
              | inr other ↦ rw other (sym (node_item_inside n j inside))
            ]
      ];
    }

  -- `remove_child`, and then `erase` with the flag off.
  pub erase-ChildLost :
      has_child n key ≡ true
      → (u : Node V) × (m : Node V) × (last : Bool) × (remove_child n key ≡ some u)
        × (Entries.erase u key false ≡ some (m, last))
        × ChildLost n m key
        × ((last ≡ true) ↔ ((k : ℕ) → k < 256 → presence m k ≡ false))
  erase-ChildLost inner =
      let (u, run, gone) = remove_child-ChildGone n g.node key small e here inner in
      let (m, last, again, d) = erase-Kept u gone.0 key small in
      (u, m, last, run, again, Kept-ChildLost u gone m last d, d.empty)
