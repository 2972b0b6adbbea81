-- ===== src/Trie/Tree/Gained.antt =====
-- A trie in which one node has one more value.
use mathlib.Core.Path.{subst}
use op_magic_trie.Prelude.{
  ℕ, ◌≡◌, ◌↔◌, refl, sym, ap, ◌∙◌, ◌⊎◌, inl, inr, true, false, none, some, List, ◌∷◌, ◌++◌,
  Bool-cases, ◌==◌, ==_iff, ==_refl, if◌then◌else◌,
}
use op_magic_trie.Trie.Node.{Node}
use op_magic_trie.Trie.Shape.{Reach, Holds, IsForest, at_entry, Holds-gain}
use op_magic_trie.Trie.Tree.{Trie}
use op_magic_trie.Trie.Tree.View.{
  Stored, links, items, links_at, items_at, node_link, node_item, IsGood, IsTrie,
}

module _ {V : Type 0} (t t' : Trie V) (w : IsTrie t) (a : ℕ) (n m : Node V)
    (there : t.nodes a ≡ some n)
    (nodes' : (b : ℕ) → t'.nodes b ≡ (if b == a then some m else t.nodes b))
    (root' : t'.root ≡ t.root) (good : IsGood m)
    (same_links : (j : ℕ) → node_link m j ≡ node_link n j) where
  pub stored_node :
      (b : ℕ) → ((b ≡ a) × (t'.nodes b ≡ some m)) ⊎ (((b == a) ≡ false) × (t'.nodes b ≡ t.nodes b))
  stored_node b = elim (Bool-cases (b == a)) [
    | inl e ↦ inl ((==_iff b a).0 e, nodes' b ∙ rw e refl)
    | inr e ↦ inr (e, nodes' b ∙ rw e refl)
  ]

  pub links_same : (b j : ℕ) → links t' b j ≡ links t b j
  links_same b j = elim (stored_node b) [
    | inl (same, e) ↦
        ap (λ o. links_at o j) e
        ∙ same_links j
        ∙ sym (ap (λ o. links_at o j) (ap t.nodes same ∙ there))
    | inr (_, e) ↦ ap (λ o. links_at o j) e
  ]

  links_path : links t' ≡ links t
  links_path = λ i b j. links_same b j i

  kept_node : (b : ℕ) (x : Node V) → t.nodes b ≡ some x → (y : Node V) × (t'.nodes b ≡ some y)
  kept_node b x e = elim (stored_node b) [ inl (_, d) ↦ (m, d) | inr (_, d) ↦ (x, d ∙ e) ]

  -- The trie is still under the invariant.
  pub IsTrie-gain : IsTrie t'
  IsTrie-gain = record {
    good = λ b x e. elim (stored_node b) [
      | inl (_, d) ↦ let same : m ≡ x = cc (e, d) in subst IsGood same good
      | inr (_, d) ↦ w.good b x (sym d ∙ e)
    ];
    rooted =
        let (x, e) = w.rooted in let (y, d) = kept_node t.root x e in (y, ap t'.nodes root' ∙ d);
    closed =
        λ b k c s e. let (x, d) = w.closed b k c s (sym (links_same b k) ∙ e) in kept_node c x d;
    forest = transport_forest;
  }
    where
      transport_forest : IsForest (links t') t'.root
      transport_forest =
          subst (IsForest (links t')) (sym root')
            (subst (λ l. IsForest l t.root) (sym links_path) w.forest)

  module _ (p : List ℕ) (k : ℕ) (s : List ℕ) (v : V) (reach : Reach (links t) t.root p a)
      (absent : node_item n k ≡ none)
      (gain : (j : ℕ) → node_item m j ≡ (if j == k then some (s, v) else node_item n j)) where
    items_gain : (b j : ℕ) → items t' b j ≡ (if at_entry a k b j then some (s, v) else items t b j)
    items_gain b j = elim (stored_node b) [
      | inl (same, e) ↦
          let before : items t b j ≡ node_item n j =
            ap (λ o. items_at o j) (ap t.nodes same ∙ there) in
          let apart : (b == a) ≡ true = rw same (==_refl a) in
          ap (λ o. items_at o j) e ∙ gain j ∙ rw (apart, before) refl
      | inr (apart, e) ↦ ap (λ o. items_at o j) e ∙ rw apart refl
    ]

    -- The stored keys are those of before and the new one.
    pub Stored-gain :
        (q : List ℕ) (x : V) → Stored t' q x ↔ (Stored t q x ⊎ ((q ≡ p ++ k ∷ s) × (x ≡ v)))
    unfolding Stored
    Stored-gain q x =
        subst
          (λ r. Holds (links t') (items t') r q x ↔ (Stored t q x ⊎ ((q ≡ p ++ k ∷ s) × (x ≡ v))))
          (sym root')
          (subst
            (λ l. Holds l (items t') t.root q x ↔ (Stored t q x ⊎ ((q ≡ p ++ k ∷ s) × (x ≡ v))))
            (sym links_path)
            (Holds-gain (links t) (items t) (items t') t.root w.forest p a k s v reach
              (ap (λ o. items_at o k) there ∙ absent) items_gain q x))
