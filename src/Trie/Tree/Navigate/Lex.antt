-- ===== src/Trie/Tree/Navigate/Lex.antt =====
-- The order of the keys: strings of bytes, a prefix first.
use op_magic_trie.Prelude.{ℕ, ◌<◌, ◌≡◌, refl, ◌∙◌, ◌⊎◌, inl, inr, List, [], ◌∷◌, ◌++◌, arith}

abbrev pub LexLe : List ℕ → List ℕ → Type 0
LexLe [] q = Unit
LexLe (a ∷ p) [] = ⊥
LexLe (a ∷ p) (b ∷ q) = (a < b) ⊎ ((a ≡ b) × LexLe p q)

abbrev pub LexLt : List ℕ → List ℕ → Type 0
LexLt [] [] = ⊥
LexLt [] (b ∷ q) = Unit
LexLt (a ∷ p) [] = ⊥
LexLt (a ∷ p) (b ∷ q) = (a < b) ⊎ ((a ≡ b) × LexLt p q)

-- `q` is greater than every string with the prefix `p`.
abbrev pub Beyond : List ℕ → List ℕ → Type 0
Beyond [] q = ⊥
Beyond (a ∷ p) [] = ⊥
Beyond (a ∷ p) (b ∷ q) = (a < b) ⊎ ((a ≡ b) × Beyond p q)

pub LexLe-append : (s p q : List ℕ) → LexLe p q → LexLe (s ++ p) (s ++ q)
LexLe-append [] p q h = h
LexLe-append (a ∷ s) p q h = inr (refl, LexLe-append s p q h)

pub LexLe-prefix : (s q : List ℕ) → LexLe s (s ++ q)
LexLe-prefix [] q = tt
LexLe-prefix (a ∷ s) q = inr (refl, LexLe-prefix s q)

pub LexLt-prefix : (s : List ℕ) (b : ℕ) (r : List ℕ) → LexLt s (s ++ b ∷ r)
LexLt-prefix [] b r = tt
LexLt-prefix (a ∷ s) b r = inr (refl, LexLt-prefix s b r)

pub Beyond-append : (s p q : List ℕ) → Beyond p q → Beyond (s ++ p) (s ++ q)
Beyond-append [] p q h = h
Beyond-append (a ∷ s) p q h = inr (refl, Beyond-append s p q h)

pub Beyond-LexLe : (p z q : List ℕ) → Beyond p q → LexLe (p ++ z) q
Beyond-LexLe [] z q h = absurd h
Beyond-LexLe (a ∷ p) z [] h = absurd h
Beyond-LexLe (a ∷ p) z (b ∷ q) h = elim h [
  | inl less ↦ inl less
  | inr (same, tail) ↦ inr (same, Beyond-LexLe p z q tail)
]

pub Beyond-LexLt : (p q : List ℕ) → Beyond p q → LexLt p q
Beyond-LexLt [] q h = absurd h
Beyond-LexLt (a ∷ p) [] h = absurd h
Beyond-LexLt (a ∷ p) (b ∷ q) h = elim h [
  | inl less ↦ inl less
  | inr (same, tail) ↦ inr (same, Beyond-LexLt p q tail)
]

pub Beyond-longer : (p z q : List ℕ) → Beyond p q → Beyond (p ++ z) q
Beyond-longer [] z q h = absurd h
Beyond-longer (a ∷ p) z [] h = absurd h
Beyond-longer (a ∷ p) z (b ∷ q) h = elim h [
  | inl less ↦ inl less
  | inr (same, tail) ↦ inr (same, Beyond-longer p z q tail)
]

pub Beyond-prefix : (s r : List ℕ) → ¬ Beyond s (s ++ r)
Beyond-prefix [] r h = h
Beyond-prefix (a ∷ s) r h = elim h [
  | inl less ↦ omega (arith, less)
  | inr (_, tail) ↦ Beyond-prefix s r tail
]

-- Where the first difference is.
pub Beyond-split :
    (p z q : List ℕ) → Beyond (p ++ z) q → Beyond p q ⊎ ((r : List ℕ) × (q ≡ p ++ r) × Beyond z r)
Beyond-split [] z q h = inr (q, refl, h)
Beyond-split (a ∷ p) z [] h = absurd h
Beyond-split (a ∷ p) z (b ∷ q) h = elim h [
  | inl less ↦ inl (inl less)
  | inr (same, tail) ↦ elim (Beyond-split p z q tail) [
    | inl before ↦ inl (inr (same, before))
    | inr (r, spells, behind) ↦ inr (r, cc (same, spells), behind)
  ]
]

-- A greater string has the prefix, or is beyond it.
pub LexLt-split :
    (p q : List ℕ) → LexLt p q → Beyond p q ⊎ ((b : ℕ) × (r : List ℕ) × (q ≡ p ++ b ∷ r))
LexLt-split [] [] h = absurd h
LexLt-split [] (b ∷ q) h = inr (b, q, refl)
LexLt-split (a ∷ p) [] h = absurd h
LexLt-split (a ∷ p) (b ∷ q) h = elim h [
  | inl less ↦ inl (inl less)
  | inr (same, tail) ↦ elim (LexLt-split p q tail) [
    | inl beyond ↦ inl (inr (same, beyond))
    | inr (c, r, spells) ↦ inr (c, r, cc (same, spells))
  ]
]

pub LexLt-irrefl : (p : List ℕ) → ¬ LexLt p p
LexLt-irrefl [] h = h
LexLt-irrefl (a ∷ p) h = elim h [
  | inl less ↦ omega (arith, less)
  | inr (_, tail) ↦ LexLt-irrefl p tail
]

pub LexLt-trans : (p q r : List ℕ) → LexLt p q → LexLt q r → LexLt p r
LexLt-trans [] [] r h k = absurd h
LexLt-trans [] (b ∷ q) [] h k = absurd k
LexLt-trans [] (b ∷ q) (c ∷ r) h k = tt
LexLt-trans (a ∷ p) [] r h k = absurd h
LexLt-trans (a ∷ p) (b ∷ q) [] h k = absurd k
LexLt-trans (a ∷ p) (b ∷ q) (c ∷ r) h k = elim h [
  | inl less ↦ elim k [
    | inl more ↦ inl (omega (arith, less, more))
    | inr (same, _) ↦ inl (omega (arith, less, same))
  ]
  | inr (same, tail) ↦ elim k [
    | inl more ↦ inl (omega (arith, same, more))
    | inr (again, tail') ↦ inr (same ∙ again, LexLt-trans p q r tail tail')
  ]
]

pub LexLe-cases : (p q : List ℕ) → LexLe p q → (p ≡ q) ⊎ LexLt p q
LexLe-cases [] [] h = inl refl
LexLe-cases [] (b ∷ q) h = inr tt
LexLe-cases (a ∷ p) [] h = absurd h
LexLe-cases (a ∷ p) (b ∷ q) h = elim h [
  | inl less ↦ inr (inl less)
  | inr (same, tail) ↦ elim (LexLe-cases p q tail) [
    | inl whole ↦ inl (cc (same, whole))
    | inr less ↦ inr (inr (same, less))
  ]
]
