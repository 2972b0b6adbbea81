-- ===== src/Trie/Tree/Remove/Pruned.antt =====
-- A trie in which a node lost a value, or in which an empty node is gone with the link to it.
use mathlib.Core.Path.{subst, transport}
use op_magic_trie.Prelude.{
  ℕ, ◌<◌, ◌≡◌, ◌≢◌, ◌↔◌, refl, sym, ap, ◌∙◌, inl, inr, true, false, none, some, List, ◌∷◌, ◌++◌,
  arith, Bool-cases, ltb, ◌==◌, ==_iff, ==_refl, if◌then◌else◌,
}
use op_magic_trie.Trie.Node.{Node, presence}
use op_magic_trie.Trie.Node.Copy.{kv_get_unmarked, presence_marks}
use op_magic_trie.Trie.Shape.{
  Reach, Holds, IsForest, at_entry, at_entry_cases, Holds-lost, Holds-kept, prune_fewer,
  Holds-prune, IsForest-fewer,
}
use op_magic_trie.Trie.Tree.{Trie}
use op_magic_trie.Trie.Tree.View.{
  Stored, links, items, links_at, items_at, node_link, node_item, links_empty, items_empty, IsGood,
  node_link_outside, node_item_outside, IsTrie,
}
use op_magic_trie.Trie.Tree.Gained.{links_same, stored_node}
use op_magic_trie.Trie.Tree.Remove.Lost.{ValueLost}
use op_magic_trie.Trie.Tree.Remove.Orphan.{ChildLost}

-- An empty node has no links and no items.
module _ {V : Type 0} (t : Trie V) (w : IsTrie t) (a : ℕ) (n : Node V) (there : t.nodes a ≡ some n)
    (bare : (k : ℕ) → k < 256 → presence n k ≡ false) where
  pub bare_links : (j : ℕ) → links t a j ≡ none
  bare_links j = elim (Bool-cases (ltb j 256)) [
    | inl inside ↦
        let small : j < 256 = ground (arith, inside) in
        links_empty t a n there j (kv_get_unmarked n (w.good a n there).node j small (bare j small))
    | inr outside ↦ ap (λ o. links_at o j) there ∙ node_link_outside n j outside
  ]

  pub bare_items : (j : ℕ) → items t a j ≡ none
  bare_items j = elim (Bool-cases (ltb j 256)) [
    | inl inside ↦
        let unmarked = bare j (ground (arith, inside)) in
        items_empty t a n there j (ground (arith, presence_marks n j, unmarked))
    | inr outside ↦ ap (λ o. items_at o j) there ∙ node_item_outside n j outside
  ]

module _ {V : Type 0} (t t' : Trie V) (w : IsTrie t) (a : ℕ) (n m : Node V)
    (there : t.nodes a ≡ some n)
    (nodes' : (b : ℕ) → t'.nodes b ≡ (if b == a then some m else t.nodes b))
    (root' : t'.root ≡ t.root) (k : ℕ) (lost : ValueLost n m k) (p : List ℕ) (s : List ℕ) (v : V)
    (reach : Reach (links t) t.root p a) (stored : items t a k ≡ some (s, v)) where
  links_path : links t' ≡ links t
  links_path = λ i b j. links_same t t' w a n m there nodes' root' lost.good lost.link b j i

  items_lost : (b j : ℕ) → items t' b j ≡ (if at_entry a k b j then none else items t b j)
  items_lost b j = elim (stored_node t t' w a n m there nodes' root' lost.good lost.link b) [
    | inl (same, e) ↦
        let before : items t b j ≡ node_item n j =
          ap (λ o. items_at o j) (ap t.nodes same ∙ there) in
        let at_a : (b == a) ≡ true = rw same (==_refl a) in
        ap (λ o. items_at o j) e ∙ lost.item j ∙ rw (at_a, before) refl
    | inr (apart, e) ↦ ap (λ o. items_at o j) e ∙ rw apart refl
  ]

  -- The stored keys, over the links of before.
  as_held : (q : List ℕ) (x : V) → Stored t' q x ≡ Holds (links t) (items t') t.root q x
  unfolding Stored
  as_held q x = λ i. Holds (links_path i) (items t') (root' i) q x

  pub Stored-lost : (q : List ℕ) (x : V) → Stored t' q x → Stored t q x
  unfolding Stored
  Stored-lost q x h =
      Holds-lost (links t) (items t) (items t') t.root w.forest p a k s v reach stored items_lost q
        x (transport (λ i. as_held q x i) h)

  pub Stored-kept : (q : List ℕ) (x : V) → q ≢ p ++ k ∷ s → Stored t q x → Stored t' q x
  unfolding Stored
  Stored-kept q x other h =
      transport (λ i. sym (as_held q x) i)
        (Holds-kept (links t) (items t) (items t') t.root w.forest p a k s v reach stored items_lost
          q x other h)

module _ {V : Type 0} (t t' : Trie V) (w : IsTrie t) (b k a : ℕ) (n m x : Node V) (s : List ℕ)
    (there : t.nodes b ≡ some n) (gone : t.nodes a ≡ some x)
    (bare : (j : ℕ) → j < 256 → presence x j ≡ false) (link : links t b k ≡ some (s, a))
    (nodes' : (c : ℕ)
      → t'.nodes c ≡ (if c == b then some m else if c == a then none else t.nodes c))
    (root' : t'.root ≡ t.root) (lost : ChildLost n m k) where
  no_links : (j : ℕ) → links t a j ≡ none
  no_links = bare_links t w a x gone bare

  no_items : (j : ℕ) → items t a j ≡ none
  no_items = bare_items t w a x gone bare

  data Place (c : ℕ) : Type 0 where
    upper : c ≡ b → t'.nodes c ≡ some m → Place c
    lower : c ≡ a → (c == b) ≡ false → t'.nodes c ≡ none → Place c
    other : c ≢ a → (c == b) ≡ false → t'.nodes c ≡ t.nodes c → Place c

  Place-at : (c : ℕ) → Place c
  Place-at c = elim (Bool-cases (c == b)) [
    | inl e ↦ upper ((==_iff c b).0 e) (nodes' c ∙ rw e refl)
    | inr e ↦ elim (Bool-cases (c == a)) [
      | inl d ↦ lower ((==_iff c a).0 d) e (nodes' c ∙ rw (e, d) refl)
      | inr d ↦ other (λ same. ground (arith, same, d)) e (nodes' c ∙ rw (e, d) refl)
    ]
  ]

  links_pruned : (c j : ℕ) → links t' c j ≡ (if at_entry b k c j then none else links t c j)
  links_pruned c j = elim (Place-at c) [
    | upper same e ↦
        let before : links t c j ≡ node_link n j =
          ap (λ o. links_at o j) (ap t.nodes same ∙ there) in
        let at_b : (c == b) ≡ true = rw same (==_refl b) in
        ap (λ o. links_at o j) e ∙ lost.link j ∙ rw (at_b, before) refl
    | lower same apart e ↦
        ap (λ o. links_at o j) e ∙ rw apart (sym (ap (λ z. links t z j) same ∙ no_links j))
    | other _ apart e ↦ ap (λ o. links_at o j) e ∙ rw apart refl
  ]

  items_pruned : (c j : ℕ) → items t' c j ≡ items t c j
  items_pruned c j = elim (Place-at c) [
    | upper same e ↦
        ap (λ o. items_at o j) e
        ∙ lost.item j
        ∙ sym (ap (λ o. items_at o j) (ap t.nodes same ∙ there))
    | lower same _ e ↦ ap (λ o. items_at o j) e ∙ sym (ap (λ z. items t z j) same ∙ no_items j)
    | other _ _ e ↦ ap (λ o. items_at o j) e
  ]

  fewer : (c j d : ℕ) (r : List ℕ) → links t' c j ≡ some (r, d) → links t c j ≡ some (r, d)
  fewer =
      prune_fewer (links t) (links t') (items t) (items t') t.root b k a s link no_links no_items
        links_pruned items_pruned

  -- A link that is left does not lead to the node that is gone.
  links_elsewhere : (c j d : ℕ) (r : List ℕ) → links t' c j ≡ some (r, d) → d ≢ a
  links_elsewhere c j d r l same =
      let before : links t c j ≡ some (r, a) = fewer c j d r l ∙ ap (λ z. some (r, z)) same in
      let (eb, ek) = w.forest.single c b j k a r s before link in
      elim (at_entry_cases b k c j) [
        | inl (_, _, e) ↦ absurd (ground (arith, links_pruned c j, e, l))
        | inr e ↦ absurd (ground (arith, e, eb, ek))
      ]

  kept_node :
      (c : ℕ) (y : Node V) → c ≢ a → t.nodes c ≡ some y → (z : Node V) × (t'.nodes c ≡ some z)
  kept_node c y ne e = elim (Place-at c) [
    | upper _ d ↦ (m, d)
    | lower same _ _ ↦ absurd (ne same)
    | other _ _ d ↦ (y, d ∙ e)
  ]

  pub IsTrie-prune : IsTrie t'
  IsTrie-prune = record {
    good = λ c y e. elim (Place-at c) [
      | upper _ d ↦ let same : m ≡ y = cc (e, d) in subst IsGood same lost.good
      | lower _ _ d ↦ absurd (ground (arith, e, d))
      | other _ _ d ↦ w.good c y (sym d ∙ e)
    ];
    rooted =
        let (y, e) = w.rooted in
        let (z, d) =
          kept_node t.root y (λ same. w.forest.top b k s (link ∙ ap (λ z. some (s, z)) (sym same)))
            e in
        (z, ap t'.nodes root' ∙ d);
    closed = λ c j d r l.
        let (y, e) = w.closed c j d r (fewer c j d r l) in
        kept_node d y (links_elsewhere c j d r l) e;
    forest =
        subst (IsForest (links t')) (sym root')
          (IsForest-fewer (links t) (links t') t.root fewer w.forest);
  }

  pub Stored-prune : (q : List ℕ) (v : V) → Stored t' q v ↔ Stored t q v
  unfolding Stored
  Stored-prune q v =
      subst (λ r. Holds (links t') (items t') r q v ↔ Stored t q v) (sym root')
        (Holds-prune (links t) (links t') (items t) (items t') t.root b k a s link no_links no_items
          links_pruned items_pruned q v)
