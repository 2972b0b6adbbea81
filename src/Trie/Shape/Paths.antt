-- ===== src/Trie/Shape/Paths.antt =====
-- Paths from the root, the keys that are stored, and the descent to them.
use op_magic_trie.Prelude.{ℕ, ◌≡◌, ◌≢◌, refl, sym, ap, ◌∙◌, Option, some, List, [], ◌∷◌, ◌++◌}
use mathlib.Core.Path.{subst}
use mathlib.Core.List.{append_assoc}

-- The stem behind the byte, and the child.
abbrev pub Links : Type 0
Links = ℕ → ℕ → Option (List ℕ × ℕ)

-- The stem behind the byte, and the value.
abbrev pub Items : Type 0 → Type 0
Items V = ℕ → ℕ → Option (List ℕ × V)

-- The bytes `p` lead from the root to the address `a`.
pub data Reach (links : Links) (root : ℕ) : List ℕ → ℕ → Type 0 where
  here : {p : List ℕ} {a : ℕ} → p ≡ [] → a ≡ root → Reach links root p a
  step :
      {p : List ℕ} {a : ℕ} (q s : List ℕ) (b k : ℕ)
      → Reach links root q b
      → links b k ≡ some (s, a)
      → p ≡ q ++ k ∷ s
      → Reach links root p a

-- Below the address `a` the bytes `q` lead to the value `v`.
pub data Down {V : Type 0} (links : Links) (items : Items V) : ℕ → List ℕ → V → Type 0 where
  item :
      {a : ℕ} {q : List ℕ} {v : V} (k : ℕ) (s : List ℕ)
      → items a k ≡ some (s, v)
      → q ≡ k ∷ s
      → Down links items a q v
  child :
      {a : ℕ} {q : List ℕ} {v : V} (k c : ℕ) (s r : List ℕ)
      → links a k ≡ some (s, c)
      → q ≡ k ∷ (s ++ r)
      → Down links items c r v
      → Down links items a q v

-- The key `q` is stored with the value `v`.
pub record Holds {V : Type 0} (links : Links) (items : Items V) (root : ℕ) (q : List ℕ) (v : V)
    : Type 0 where
  pub path : List ℕ
  pub address : ℕ
  pub byte : ℕ
  pub stem : List ℕ
  pub reach : Reach links root path address
  pub stored : items address byte ≡ some (stem, v)
  pub spells : q ≡ path ++ byte ∷ stem

-- No two links lead to one child, and none to the root.
pub record IsForest (links : Links) (root : ℕ) : Type 0 where
  pub single :
      (a b k j c : ℕ) (s r : List ℕ)
      → links a k ≡ some (s, c)
      → links b j ≡ some (r, c)
      → (a ≡ b) × (k ≡ j)
  pub top : (a k : ℕ) (s : List ℕ) → links a k ≢ some (s, root)

-- One path leads to an address.
pub Reach-unique :
    (links : Links) (root : ℕ)
    → IsForest links root
    → (a : ℕ) (p q : List ℕ) → Reach links root p a
    → Reach links root q a
    → p ≡ q
Reach-unique links root f a p q (here e _) (here d _) = e ∙ sym d
Reach-unique links root f a p q (here e r) (step t s b k reach l d) =
    absurd (f.top b k s (l ∙ ap (λ z. some (s, z)) r))
Reach-unique links root f a p q (step t s b k reach l d) (here e r) =
    absurd (f.top b k s (l ∙ ap (λ z. some (s, z)) r))
Reach-unique links root f a p q (step t s b k reach l d) (step t' s' b' k' reach' l' d') =
    let (same_b, same_k) = f.single b b' k k' a s s' l l' in
    let back : Reach links root t' b = subst (λ z. Reach links root t' z) (sym same_b) reach' in
    let paths = Reach-unique links root f b t t' reach back in let stems : s ≡ s' = cc in cc

module _ {V : Type 0} (links : Links) (items : Items V) (root : ℕ) where
  pub Holds-Down :
      (p q : List ℕ) (a : ℕ) (v : V)
      → Reach links root p a
      → Down links items a q v
      → Holds links items root (p ++ q) v
  Holds-Down p q a v reach (item k s stored spells) = record {
    path = p;
    address = a;
    byte = k;
    stem = s;
    reach = reach;
    stored = stored;
    spells = ap (λ z. p ++ z) spells;
  }
  Holds-Down p q a v reach (child k c s r link spells below) =
      let further : Reach links root (p ++ k ∷ s) c = step p s a k reach link refl in
      let whole : p ++ q ≡ (p ++ k ∷ s) ++ r =
        ap (λ z. p ++ z) spells ∙ sym (append_assoc p (k ∷ s) r) in
      subst (λ z. Holds links items root z v) (sym whole)
        (Holds-Down (p ++ k ∷ s) r c v further below)

  Down-Reach :
      (p q : List ℕ) (a : ℕ) (v : V)
      → Reach links root p a
      → Down links items a q v
      → Down links items root (p ++ q) v
  Down-Reach p q a v (here e r) below =
      subst (λ z. Down links items root (z ++ q) v) (sym e)
        (subst (λ z. Down links items z q v) r below)
  Down-Reach p q a v (step t s b k reach link spells) below =
      let longer : Down links items b (k ∷ (s ++ q)) v = child k a s q link refl below in
      let whole : p ++ q ≡ t ++ k ∷ (s ++ q) = ap (λ z. z ++ q) spells ∙ append_assoc t (k ∷ s) q in
      subst (λ z. Down links items root z v) (sym whole)
        (Down-Reach t (k ∷ (s ++ q)) b v reach longer)

  pub Down-Holds : (q : List ℕ) (v : V) → Holds links items root q v → Down links items root q v
  Down-Holds q v h =
      subst (λ z. Down links items root z v) (sym h.spells)
        (Down-Reach h.path (h.byte ∷ h.stem) h.address v h.reach (item h.byte h.stem h.stored refl))
