-- ===== src/Trie/Tree/Grafted.antt =====
-- A trie in which a new node hangs under one entry.
use mathlib.Core.Path.{subst}
use op_magic_trie.Prelude.{
  ℕ, ◌≡◌, ◌↔◌, refl, sym, ap, ◌∙◌, inl, inr, true, false, Option, none, some, List, ◌∷◌, ◌++◌,
  arith, Bool-cases, ◌==◌, ==_iff, ==_refl, if◌then◌else◌,
}
use op_magic_trie.Trie.Node.{Node}
use op_magic_trie.Trie.Shape.{
  Reach, Holds, IsForest, at_entry, at_entry_cases, IsFresh, stemmed, stemmed-some, Reach-graft,
  Reach-graft_new, IsForest-graft, Holds-hang, Holds-split,
}
use op_magic_trie.Trie.Tree.{Trie}
use op_magic_trie.Trie.Tree.View.{
  Stored, links, items, links_at, items_at, node_link, node_item, IsGood, IsTrie,
}

module _ {V : Type 0} (t t' : Trie V) (w : IsTrie t) (a c : ℕ) (n m u : Node V)
    (there : t.nodes a ≡ some n) (free : t.nodes c ≡ none)
    (nodes' : (b : ℕ)
      → t'.nodes b ≡ (if b == a then some m else if b == c then some u else t.nodes b))
    (root' : t'.root ≡ t.root) (good_m : IsGood m) (good_u : IsGood u) where
  data Place (b : ℕ) : Type 0 where
    upper : b ≡ a → (b == c) ≡ false → t'.nodes b ≡ some m → Place b
    lower : b ≡ c → (b == a) ≡ false → t'.nodes b ≡ some u → Place b
    other : (b == a) ≡ false → (b == c) ≡ false → t'.nodes b ≡ t.nodes b → Place b

  Place-at : (b : ℕ) → Place b
  Place-at b = elim (Bool-cases (b == a)) [
    | inl e ↦
        let same : b ≡ a = (==_iff b a).0 e in upper same (apart b same) (nodes' b ∙ rw e refl)
    | inr e ↦ elim (Bool-cases (b == c)) [
      | inl d ↦ lower ((==_iff b c).0 d) e (nodes' b ∙ rw (e, d) refl)
      | inr d ↦ other e d (nodes' b ∙ rw (e, d) refl)
    ]
  ]
    where
      apart : (b : ℕ) → b ≡ a → (b == c) ≡ false
      apart b same = elim (Bool-cases (b == c)) [
        | inl d ↦
            let as_c : t.nodes a ≡ none = ap t.nodes (sym same ∙ (==_iff b c).0 d) ∙ free in
            absurd (ground (arith, as_c, there))
        | inr d ↦ d
      ]

  free_links : (j : ℕ) → links t c j ≡ none
  free_links j = ap (λ o. links_at o j) free

  free_items : (j : ℕ) → items t c j ≡ none
  free_items j = ap (λ o. items_at o j) free

  c-IsFresh : IsFresh (links t) t.root c
  c-IsFresh = record {
    no_links = free_links;
    no_parent = λ b j s e. let (x, d) = w.closed b j c s e in absurd (ground (arith, free, d));
    not_root = λ same.
        let (x, d) = w.rooted in
        let as_root : t.nodes t.root ≡ none = ap t.nodes (sym same) ∙ free in
        absurd (ground (arith, as_root, d));
  }

  module _ (p : List ℕ) (k : ℕ) (left rest : List ℕ) (x : ℕ) (moved : Option ℕ)
      (reach : Reach (links t) t.root p a)
      (before : node_link n k ≡ stemmed (left ++ x ∷ rest) moved)
      (link_m : (j : ℕ) → node_link m j ≡ (if j == k then some (left, c) else node_link n j))
      (link_u : (j : ℕ) → node_link u j ≡ (if j == x then stemmed rest moved else none)) where
    abbrev old_link : links t a k ≡ stemmed (left ++ x ∷ rest) moved
    old_link = ap (λ o. links_at o k) there ∙ before

    links_graft :
        (b j : ℕ)
        → links t' b j ≡ (
            if at_entry a k b j
            then some (left, c)
            else if at_entry c x b j
            then stemmed rest moved
            else links t b j)
    links_graft b j = elim (Place-at b) [
      | upper same apart e ↦
          let at_b : links t b j ≡ node_link n j =
            ap (λ o. links_at o j) (ap t.nodes same ∙ there) in
          let here : (b == a) ≡ true = rw same (==_refl a) in
          ap (λ o. links_at o j) e ∙ link_m j ∙ rw (here, apart, at_b) refl
      | lower same apart e ↦
          let at_b : links t b j ≡ none = ap (λ z. links t z j) same ∙ free_links j in
          let here : (b == c) ≡ true = rw same (==_refl c) in
          ap (λ o. links_at o j) e ∙ link_u j ∙ rw (here, apart, at_b) refl
      | other e d same ↦ ap (λ o. links_at o j) same ∙ rw (e, d) refl
    ]

    pub grafted-Reach : Reach (links t') t'.root (p ++ k ∷ left) c
    grafted-Reach =
        subst (λ r. Reach (links t') r (p ++ k ∷ left) c) (sym root')
          (Reach-graft_new (links t) (links t') t.root w.forest p a k reach left rest x c moved
            old_link c-IsFresh links_graft)

    pub grafted_kept : Reach (links t') t'.root p a
    grafted_kept =
        subst (λ r. Reach (links t') r p a) (sym root')
          (Reach-graft (links t) (links t') t.root w.forest p a k reach left rest x c moved old_link
            c-IsFresh links_graft p a reach)

    kept_node : (b : ℕ) (y : Node V) → t.nodes b ≡ some y → (z : Node V) × (t'.nodes b ≡ some z)
    kept_node b y e = elim (Place-at b) [
      | upper _ _ d ↦ (m, d)
      | lower _ _ d ↦ (u, d)
      | other _ _ d ↦ (y, d ∙ e)
    ]

    -- The trie is still under the invariant.
    pub IsTrie-graft : IsTrie t'
    IsTrie-graft = record {
      good = λ b y e. elim (Place-at b) [
        | upper _ _ d ↦ let same : m ≡ y = cc (e, d) in subst IsGood same good_m
        | lower _ _ d ↦ let same : u ≡ y = cc (e, d) in subst IsGood same good_u
        | other _ _ d ↦ w.good b y (sym d ∙ e)
      ];
      rooted =
          let (y, e) = w.rooted in let (z, d) = kept_node t.root y e in (z, ap t'.nodes root' ∙ d);
      closed = λ b j d s e. closed_graft b j d s e;
      forest = subst (IsForest (links t')) (sym root') (
          IsForest-graft (links t) (links t') t.root w.forest p a k reach left rest x c moved
            old_link c-IsFresh links_graft);
    }
      where
        old_child :
            (b j d : ℕ) (s : List ℕ)
            → links t b j ≡ some (s, d)
            → (z : Node V) × (t'.nodes d ≡ some z)
        old_child b j d s e = let (y, at_d) = w.closed b j d s e in kept_node d y at_d

        node_c : (z : Node V) × (t'.nodes c ≡ some z)
        node_c = elim (Place-at c) [
          | upper _ _ d ↦ (m, d)
          | lower _ _ d ↦ (u, d)
          | other _ e _ ↦ absurd (ground (arith, e, ==_refl c))
        ]

        closed_graft :
            (b j d : ℕ) (s : List ℕ)
            → links t' b j ≡ some (s, d)
            → (z : Node V) × (t'.nodes d ≡ some z)
        closed_graft b j d s e = elim (at_entry_cases a k b j) [
          | inl (_, _, yes_a) ↦
              let got : some (left, c) ≡ some (s, d) = sym (links_graft b j ∙ rw yes_a refl) ∙ e in
              let same : c ≡ d = cc got in
              subst (λ z. (y : Node V) × (t'.nodes z ≡ some y)) same node_c
          | inr no_a ↦ elim (at_entry_cases c x b j) [
            | inl (_, _, yes_c) ↦
                let got : stemmed rest moved ≡ some (s, d) =
                  sym (links_graft b j ∙ rw (no_a, yes_c) refl) ∙ e in
                let (_, there_d) = stemmed-some rest moved s d got in
                old_child a k d (left ++ x ∷ rest)
                  (old_link ∙ ap (stemmed (left ++ x ∷ rest)) there_d)
            | inr no_c ↦ old_child b j d s (sym (links_graft b j ∙ rw (no_a, no_c) refl) ∙ e)
          ]
        ]

    module _ (item_m : (j : ℕ) → node_item m j ≡ node_item n j)
        (item_u : (j : ℕ) → node_item u j ≡ none) where
      items_hang : (b j : ℕ) → items t' b j ≡ items t b j
      items_hang b j = elim (Place-at b) [
        | upper same _ e ↦
            ap (λ o. items_at o j) e
            ∙ item_m j
            ∙ sym (ap (λ o. items_at o j) (ap t.nodes same ∙ there))
        | lower same _ e ↦
            ap (λ o. items_at o j) e ∙ item_u j ∙ sym (ap (λ z. items t z j) same ∙ free_items j)
        | other _ _ e ↦ ap (λ o. items_at o j) e
      ]

      items_path : items t' ≡ items t
      items_path = λ i b j. items_hang b j i

      -- An empty child stores no key.
      pub Stored-hang : (q : List ℕ) (y : V) → Stored t' q y ↔ Stored t q y
      unfolding Stored
      Stored-hang q y =
          subst (λ r. Holds (links t') (items t') r q y ↔ Stored t q y) (sym root')
            (subst (λ h. Holds (links t') h t.root q y ↔ Stored t q y) (sym items_path)
              (Holds-hang (items t) (items t') (links t) (links t') t.root w.forest p a k reach left
                rest x c moved old_link c-IsFresh free_items links_graft q y))

    module _ (value : Option V) (item_n : node_item n k ≡ stemmed (left ++ x ∷ rest) value)
        (item_m : (j : ℕ) → node_item m j ≡ (if j == k then none else node_item n j))
        (item_u : (j : ℕ) → node_item u j ≡ (if j == x then stemmed rest value else none)) where
      items_split :
          (b j : ℕ)
          → items t' b j ≡ (
              if at_entry a k b j
              then none
              else if at_entry c x b j
              then stemmed rest value
              else items t b j)
      items_split b j = elim (Place-at b) [
        | upper same apart e ↦
            let at_b : items t b j ≡ node_item n j =
              ap (λ o. items_at o j) (ap t.nodes same ∙ there) in
            let here : (b == a) ≡ true = rw same (==_refl a) in
            ap (λ o. items_at o j) e ∙ item_m j ∙ rw (here, apart, at_b) refl
        | lower same apart e ↦
            let at_b : items t b j ≡ none = ap (λ z. items t z j) same ∙ free_items j in
            let here : (b == c) ≡ true = rw same (==_refl c) in
            ap (λ o. items_at o j) e ∙ item_u j ∙ rw (here, apart, at_b) refl
        | other e d same ↦ ap (λ o. items_at o j) same ∙ rw (e, d) refl
      ]

      -- A child that takes the end of the stem, with what stood there, stores the same keys.
      pub Stored-split : (q : List ℕ) (y : V) → Stored t' q y ↔ Stored t q y
      unfolding Stored
      Stored-split q y =
          subst (λ r. Holds (links t') (items t') r q y ↔ Stored t q y) (sym root')
            (Holds-split (items t) (items t') (links t) (links t') t.root w.forest p a k reach left
              rest x c moved old_link c-IsFresh free_items links_graft value
              (ap (λ o. items_at o k) there ∙ item_n) items_split q y)
