-- ===== src/Trie/Tree/Compare.antt =====
-- The comparison of a stem and a string.
use op_magic_trie.Prelude.{
  ℕ, ◌≡◌, refl, sym, ap, ◌∙◌, inl, inr, false, List, [], ◌∷◌, ◌++◌, Bool-cases, ◌==◌, ==_iff,
}
use op_magic_trie.Trie.Iterator.{equals, string_end, unequals}
use op_magic_trie.Trie.Tree.{Compared, stem_compare}

-- The stem is a prefix of the string, or the string ends inside the stem, or they differ.
pub data Comparison (stem rest : List ℕ) (c : Compared) : Type 0 where
  full :
      (r : List ℕ)
      → rest ≡ stem ++ r
      → c ≡ record { matched = stem; rest = r; result = equals }
      → Comparison stem rest c
  ended :
      (x : ℕ) (tail : List ℕ)
      → stem ≡ rest ++ x ∷ tail
      → c ≡ record { matched = rest; rest = []; result = string_end }
      → Comparison stem rest c
  differ :
      (m : List ℕ) (x b : ℕ) (tail bs : List ℕ)
      → stem ≡ m ++ x ∷ tail
      → rest ≡ m ++ b ∷ bs
      → (x == b) ≡ false
      → c ≡ record { matched = m; rest = b ∷ bs; result = unequals }
      → Comparison stem rest c

abbrev longer : ℕ → Compared → Compared
longer c d = record { matched = c ∷ d.matched; rest = d.rest; result = d.result }

Comparison-cons :
    (c b : ℕ) (stem rest : List ℕ) {d : Compared}
    → c ≡ b
    → Comparison stem rest d
    → Comparison (c ∷ stem) (b ∷ rest) (longer c d)
Comparison-cons c b stem rest same (full r er ec) =
    let back = sym same in full r (λ i. back i ∷ er i) (ap (longer c) ec)
Comparison-cons c b stem rest same (ended x tail es ec) =
    ended x tail (λ i. same i ∷ es i)
      (ap (longer c) ec ∙ (λ i. record { matched = same i ∷ rest; rest = []; result = string_end }))
Comparison-cons c b stem rest same (differ m x d tail bs es er ne ec) =
    let back = sym same in
    differ (c ∷ m) x d tail bs (ap (λ z. c ∷ z) es) (λ i. back i ∷ er i) ne (ap (longer c) ec)

pub stem_compare-Comparison : (stem rest : List ℕ) → Comparison stem rest (stem_compare stem rest)
unfolding stem_compare
stem_compare-Comparison [] rest = full rest refl refl
stem_compare-Comparison (c ∷ stem) [] = ended c stem refl refl
stem_compare-Comparison (c ∷ stem) (b ∷ rest) = elim (Bool-cases (c == b)) [
  | inl e ↦
      let same : c ≡ b = (==_iff c b).0 e in
      rw e (Comparison-cons c b stem rest same (stem_compare-Comparison stem rest))
  | inr e ↦ rw e (differ [] c b stem rest refl refl e refl)
]
