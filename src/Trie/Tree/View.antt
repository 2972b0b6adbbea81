-- ===== src/Trie/Tree/View.antt =====
-- The links and items of the nodes of a trie, and its invariant.
use op_magic_trie.Prelude.{
  ℕ, ◌<◌, ◌≡◌, refl, ap, ◌∙◌, true, false, ◌&&◌, Option, none, some, List, [], ◌∷◌, length, ltb,
  arith, if◌then◌else◌,
}
use op_magic_trie.Trie.Node.{Node, NodeData, has_child, has_value, kv_get}
use op_magic_trie.Trie.Node.Scan.{is_some, IsNode}
use op_magic_trie.Trie.Node.Split.{stem_of}
use op_magic_trie.Trie.Shape.{Holds, Links, Items, IsForest, stemmed}
use op_magic_trie.Trie.Tree.{Trie, stem_chars}

abbrev pub AllBytes : List ℕ → Type 0
AllBytes [] = Unit
AllBytes (b ∷ rest) = (b < 256) × AllBytes rest

-- The bytes of a stem, whose length fits `dim_t` as `insert` asserts.
abbrev pub IsStem : List ℕ → Type 0
IsStem s = AllBytes s × (length s < 0xFFFE)

module _ {V : Type 0} where
  abbrev pub link_of : Option (NodeData V) → Option (List ℕ × ℕ)
  link_of none = none
  link_of (some e) = let d = e in stemmed (stem_chars d.stem) d.child

  abbrev pub item_of : Option (NodeData V) → Option (List ℕ × V)
  item_of none = none
  item_of (some e) = let d = e in some (stem_chars d.stem, d.value)

  pub node_link : Node V → ℕ → Option (List ℕ × ℕ)
  node_link n k = if ltb k 256 then link_of (kv_get n k) else none

  pub node_item : Node V → ℕ → Option (List ℕ × V)
  node_item n k = if ltb k 256 && has_value n k then item_of (kv_get n k) else none

  abbrev pub links_at : Option (Node V) → ℕ → Option (List ℕ × ℕ)
  links_at none k = none
  links_at (some n) k = node_link n k

  abbrev pub items_at : Option (Node V) → ℕ → Option (List ℕ × V)
  items_at none k = none
  items_at (some n) k = node_item n k

  abbrev pub links : Trie V → Links
  links t a k = links_at (t.nodes a) k

  abbrev pub items : Trie V → Items V
  items t a k = items_at (t.nodes a) k

  -- A node whose marks of children agree with its entries, over stems of fewer than 65534 bytes,
  -- of which an empty one is nil.
  pub record IsGood (n : Node V) : Type 0 where
    pub node : IsNode n
    pub linked :
        (k : ℕ) (e : NodeData V) → k < 256 → kv_get n k ≡ some e → has_child n k ≡ is_some e.child
    pub bytes :
        (k : ℕ) (e : NodeData V) → k < 256 → kv_get n k ≡ some e → IsStem (stem_chars e.stem)
    pub proper :
        (k : ℕ) (e : NodeData V)
        → k < 256
        → kv_get n k ≡ some e
        → e.stem ≡ stem_of (stem_chars e.stem)

  -- The nodes are good, a link leads to a node, and each node has one parent.
  pub record IsTrie (t : Trie V) : Type 0 where
    pub good : (a : ℕ) (n : Node V) → t.nodes a ≡ some n → IsGood n
    pub rooted : (n : Node V) × (t.nodes t.root ≡ some n)
    pub closed :
        (a k c : ℕ) (s : List ℕ) → links t a k ≡ some (s, c) → (n : Node V) × (t.nodes c ≡ some n)
    pub forest : IsForest (links t) t.root

module _ {V : Type 0} (n : Node V) (k : ℕ) (outside : ltb k 256 ≡ false) where
  pub node_link_outside : node_link n k ≡ none
  unfolding node_link
  node_link_outside = rw outside refl

  pub node_item_outside : node_item n k ≡ none
  unfolding node_item
  node_item_outside = rw outside refl

module _ {V : Type 0} (n : Node V) (k : ℕ) (inside : ltb k 256 ≡ true) where
  pub node_link_inside : node_link n k ≡ link_of (kv_get n k)
  unfolding node_link
  node_link_inside = rw inside refl

  pub node_item_inside : node_item n k ≡ (if has_value n k then item_of (kv_get n k) else none)
  unfolding node_item
  node_item_inside = rw inside refl

-- The trie holds the key `q` with the value `v`.
unfoldable pub Stored : {V : Type 0} → Trie V → List ℕ → V → Type 0
Stored t q v = Holds (links t) (items t) t.root q v

module _ {V : Type 0} (t : Trie V) (a : ℕ) (n : Node V) (here : t.nodes a ≡ some n) (k : ℕ) where
  links_here : links t a k ≡ node_link n k
  links_here = ap (λ o. links_at o k) here

  items_here : items t a k ≡ node_item n k
  items_here = ap (λ o. items_at o k) here

  pub links_empty : kv_get n k ≡ none → links t a k ≡ none
  unfolding node_link
  links_empty e = links_here ∙ ap (λ o. if ltb k 256 then link_of o else none) e ∙ ground arith

  pub items_empty : has_value n k ≡ false → items t a k ≡ none
  unfolding node_item
  items_empty e = items_here ∙ ground (arith, e)

  module _ (small : k < 256) (e : NodeData V) (entry : kv_get n k ≡ some e) where
    pub links_entry : links t a k ≡ stemmed (stem_chars e.stem) e.child
    unfolding node_link
    links_entry =
        let inside : ltb k 256 ≡ true = ground arith in links_here ∙ rw inside (ap link_of entry)

    pub items_entry : has_value n k ≡ true → items t a k ≡ some (stem_chars e.stem, e.value)
    unfolding node_item
    items_entry valued =
        let inside : ltb k 256 ≡ true = ground arith in
        items_here ∙ rw (inside, valued) (ap item_of entry)
