-- ===== src/Trie/Shape/Graft.antt =====
-- A new address below an entry; a child that the entry has moves below the new address.
use mathlib.Core.Path.{subst}
use mathlib.Core.List.{append_assoc}
use op_magic_trie.Prelude.{
  ℕ, ◌≡◌, ◌≢◌, refl, sym, ap, ◌∙◌, inl, inr, false, Option, none, some, List, ◌∷◌, ◌++◌, arith,
  if◌then◌else◌,
}
use op_magic_trie.Trie.Shape.Paths.{Links, Reach, here, step, IsForest}
use op_magic_trie.Trie.Shape.Gain.{at_entry, at_entry_cases, at_entry_self}

-- Nothing is known of the address `c` yet.
pub record IsFresh (links : Links) (root c : ℕ) : Type 0 where
  pub no_links : (j : ℕ) → links c j ≡ none
  pub no_parent : (b j : ℕ) (s : List ℕ) → links b j ≢ some (s, c)
  pub not_root : c ≢ root

-- A stem, if the option has a value.
abbrev pub stemmed {ℓ} : {A : Type ℓ} → List ℕ → Option A → Option (List ℕ × A)
stemmed s none = none
stemmed s (some x) = some (s, x)

pub stemmed-some {ℓ} :
    {A : Type ℓ} (s : List ℕ) (o : Option A) (r : List ℕ) (x : A)
    → stemmed s o ≡ some (r, x)
    → (r ≡ s) × (o ≡ some x)
stemmed-some s none r x e = absurd (ground (arith, e))
stemmed-some s (some y) r x e = (cc e, cc e)

module _ (links links' : Links) (root : ℕ) (f : IsForest links root) (p : List ℕ) (a k : ℕ)
    (reach : Reach links root p a) (left rest : List ℕ) (new_key c : ℕ) (moved : Option ℕ)
    (before : links a k ≡ stemmed (left ++ new_key ∷ rest) moved) (fresh : IsFresh links root c)
    (reads : (b j : ℕ)
      → links' b j ≡ (
          if at_entry a k b j
          then some (left, c)
          else if at_entry c new_key b j
          then stemmed rest moved
          else links b j)) where
  pub Reach-ne_fresh : (q : List ℕ) (b : ℕ) → Reach links root q b → b ≢ c
  Reach-ne_fresh q b (here e r) same = fresh.not_root (sym same ∙ r)
  Reach-ne_fresh q b (step t s d j _ l _) same =
      fresh.no_parent d j s (l ∙ ap (λ z. some (s, z)) same)

  -- What a link after the graft is.
  data Link (b j : ℕ) (s : List ℕ) (x : ℕ) : Type 0 where
    new : b ≡ a → j ≡ k → s ≡ left → x ≡ c → Link b j s x
    low : b ≡ c → j ≡ new_key → s ≡ rest → moved ≡ some x → Link b j s x
    old :
        at_entry a k b j ≡ false
        → at_entry c new_key b j ≡ false
        → links b j ≡ some (s, x)
        → Link b j s x

  Link-cases : (b j : ℕ) (s : List ℕ) (x : ℕ) → links' b j ≡ some (s, x) → Link b j s x
  Link-cases b j s x l = elim (at_entry_cases a k b j) [
    | inl (eb, ej, e) ↦
        let got : some (left, c) ≡ some (s, x) = sym (reads b j ∙ rw e refl) ∙ l in
        new eb ej (cc got) (cc got)
    | inr e ↦ elim (at_entry_cases c new_key b j) [
      | inl (eb, ej, d) ↦
          let got : stemmed rest moved ≡ some (s, x) = sym (reads b j ∙ rw (e, d) refl) ∙ l in
          let (stems, there) = stemmed-some rest moved s x got in low eb ej stems there
      | inr d ↦ old e d (sym (reads b j ∙ rw (e, d) refl) ∙ l)
    ]
  ]

  a-ne_fresh : a ≢ c
  a-ne_fresh = Reach-ne_fresh p a reach

  -- The child that moves was below the entry.
  moved_link : (x : ℕ) → moved ≡ some x → links a k ≡ some (left ++ new_key ∷ rest, x)
  moved_link x e = before ∙ ap (stemmed (left ++ new_key ∷ rest)) e

  moved-ne_fresh : (x : ℕ) → moved ≡ some x → x ≢ c
  moved-ne_fresh x e same =
      fresh.no_parent a k (left ++ new_key ∷ rest)
        (moved_link x e ∙ ap (λ z. some (left ++ new_key ∷ rest, z)) same)

  new_link : links' a k ≡ some (left, c)
  new_link = reads a k ∙ rw (at_entry_self a k) refl

  low_link : links' c new_key ≡ stemmed rest moved
  low_link =
      let apart : at_entry a k c new_key ≡ false = ground (arith, a-ne_fresh) in
      reads c new_key ∙ rw (apart, at_entry_self c new_key) refl

  regroup : (t : List ℕ) → t ++ k ∷ (left ++ new_key ∷ rest) ≡ (t ++ k ∷ left) ++ new_key ∷ rest
  regroup t = sym (append_assoc t (k ∷ left) (new_key ∷ rest))

  -- Addresses are reached as before.
  pub Reach-graft : (q : List ℕ) (x : ℕ) → Reach links root q x → Reach links' root q x
  Reach-graft q x (here e r) = here e r
  Reach-graft q x (step t s b j r l e) = elim (at_entry_cases a k b j) [
    | inl (eb, ej, _) ↦
        let whole : stemmed (left ++ new_key ∷ rest) moved ≡ some (s, x) =
          sym before ∙ (λ i. links (sym eb i) (sym ej i)) ∙ l in
        let (stems, there) = stemmed-some (left ++ new_key ∷ rest) moved s x whole in
        let at_a : Reach links' root t a =
          subst (λ z. Reach links' root t z) eb (Reach-graft t b r) in
        let at_c : Reach links' root (t ++ k ∷ left) c = step t left a k at_a new_link refl in
        step (t ++ k ∷ left) rest c new_key at_c (low_link ∙ ap (stemmed rest) there)
          (e ∙ (λ i. t ++ ej i ∷ stems i) ∙ regroup t)
    | inr other ↦
        let ne = Reach-ne_fresh t b r in
        let apart : at_entry c new_key b j ≡ false = ground (arith, ne) in
        step t s b j (Reach-graft t b r) (reads b j ∙ rw (other, apart) l) e
  ]

  -- The new address is reached by the byte and the stem of the entry.
  pub Reach-graft_new : Reach links' root (p ++ k ∷ left) c
  Reach-graft_new = step p left a k (Reach-graft p a reach) new_link refl

  pub data Back (q : List ℕ) (x : ℕ) : Type 0 where
    kept : x ≢ c → Reach links root q x → Back q x
    fresh_at : x ≡ c → (t : List ℕ) → Reach links root t a → q ≡ t ++ k ∷ left → Back q x

  -- What is reached after the graft was reached before, but the new address.
  pub Reach-Back : (q : List ℕ) (x : ℕ) → Reach links' root q x → Back q x
  Reach-Back q x (here e r) = kept (λ same. fresh.not_root (sym same ∙ r)) (here e r)
  Reach-Back q x (step t s b j r l e) = elim (Reach-Back t b r) [
    | kept ne old_r ↦ elim (Link-cases b j s x l) [
      | new eb ej es ex ↦
          fresh_at ex t (subst (λ z. Reach links root t z) eb old_r) (e ∙ (λ i. t ++ ej i ∷ es i))
      | low eb ej es there ↦ absurd (ne eb)
      | old d d' link ↦
          kept (λ same. fresh.no_parent b j s (link ∙ ap (λ z. some (s, z)) same))
            (step t s b j old_r link e)
    ]
    | fresh_at eb t' old_r et ↦ elim (Link-cases b j s x l) [
      | new eb' ej es ex ↦ absurd (a-ne_fresh (sym eb' ∙ eb))
      | low _ ej es there ↦ kept (moved-ne_fresh x there) (
          step t' (left ++ new_key ∷ rest) a k old_r (moved_link x there)
            (e ∙ (λ i. et i ++ ej i ∷ es i) ∙ sym (regroup t')))
      | old d d' link ↦
          let gone : links b j ≡ none = (λ i. links (eb i) j) ∙ fresh.no_links j in
          absurd (ground (arith, gone, link))
    ]
  ]

  graft_single : (b d j i x : ℕ) (s r : List ℕ) → Link b j s x → Link d i r x → (b ≡ d) × (j ≡ i)
  graft_single b d j i x s r (new eb ej _ _) (new ed ei _ _) = (eb ∙ sym ed, ej ∙ sym ei)
  graft_single b d j i x s r (new _ _ _ ex) (low _ _ _ m) = absurd (moved-ne_fresh x m ex)
  graft_single b d j i x s r (new _ _ _ ex) (old _ _ l) =
      absurd (fresh.no_parent d i r (l ∙ ap (λ z. some (r, z)) ex))
  graft_single b d j i x s r (low _ _ _ m) (new _ _ _ ex) = absurd (moved-ne_fresh x m ex)
  graft_single b d j i x s r (low eb ej _ _) (low ed ei _ _) = (eb ∙ sym ed, ej ∙ sym ei)
  graft_single b d j i x s r (low _ _ _ m) (old n _ l) =
      let (ea, ek) = f.single a d k i x _ r (moved_link x m) l in absurd (ground (arith, n, ea, ek))
  graft_single b d j i x s r (old _ _ l) (new _ _ _ ex) =
      absurd (fresh.no_parent b j s (l ∙ ap (λ z. some (s, z)) ex))
  graft_single b d j i x s r (old n _ l) (low _ _ _ m) =
      let (ea, ek) = f.single a b k j x _ s (moved_link x m) l in absurd (ground (arith, n, ea, ek))
  graft_single b d j i x s r (old _ _ l) (old _ _ l') = f.single b d j i x s r l l'

  pub IsForest-graft : IsForest links' root
  IsForest-graft = record {
    single = λ b d j i x s r l l'.
        graft_single b d j i x s r (Link-cases b j s x l) (Link-cases d i r x l');
    top = λ b j s l. elim (Link-cases b j s root l) [
      | new _ _ _ ex ↦ fresh.not_root (sym ex)
      | low _ _ _ m ↦ f.top a k _ (moved_link root m)
      | old _ _ l' ↦ f.top b j s l'
    ];
  }
