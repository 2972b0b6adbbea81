-- ===== src/Trie/HashTable/Weight.antt =====
-- The measure by which `restore_on_erase` ends: how far the entries are from their hashes.
use native.Mathlib.Decide.{ℕ_discrete}
use op_magic_trie.Prelude.{
  ℕ, zero, suc, ◌+◌, ◌*◌, ◌≤◌, ◌<◌, ◌≡◌, ◌≢◌, refl, ap, inl, inr, false, arith, Bool-cases, ◌==◌,
  ==_refl, if◌then◌else◌, sym,
}
use op_magic_trie.Trie.HashTable.{Table, write}
use op_magic_trie.Trie.HashTable.Ring.{IsCapacity, neighbors-le_four, dist}
use op_magic_trie.Trie.HashTable.Probe.{home, Present}
use op_magic_trie.Trie.HashTable.Gap.{IsGapped}
use op_magic_trie.Trie.HashTable.Move.{moved_dist}

sum_below : ℕ → (ℕ → ℕ) → ℕ
sum_below zero f = 0
sum_below (suc n) f = f n + sum_below n f

sum_below-congr :
    (n : ℕ) (f g : ℕ → ℕ) → ((j : ℕ) → j < n → f j ≡ g j) → sum_below n f ≡ sum_below n g
unfolding sum_below
sum_below-congr zero f g h = refl
sum_below-congr (suc n) f g h =
    omega (arith, h n (omega arith), sum_below-congr n f g (λ j l. h j (omega arith)))

-- Functions that differ at one point have sums that differ by as much.
sum_below_point :
    (n x : ℕ) (f g : ℕ → ℕ)
    → x < n
    → ((j : ℕ) → j ≢ x → f j ≡ g j)
    → sum_below n f + g x ≡ sum_below n g + f x
unfolding sum_below
sum_below_point zero x f g l h = absurd (omega arith)
sum_below_point (suc n) x f g l h = elim (ℕ_discrete n x) [
  | yes e ↦
      let rest = sum_below-congr n f g (λ j m. h j (omega arith)) in
      omega (arith, rest, ap f e, ap g e)
  | no e ↦ omega (arith, h n e, sum_below_point n x f g (omega arith) h)
]

sum_below-le : (n b : ℕ) (f : ℕ → ℕ) → ((j : ℕ) → j < n → f j ≤ b) → sum_below n f ≤ n * b
unfolding sum_below
sum_below-le zero b f h = omega arith
sum_below-le (suc n) b f h =
    grind (arith, h n (omega arith), sum_below-le n b f (λ j l. h j (omega arith)))

module _ {ℓ} {P : Type ℓ} (c : ℕ) (t : Table P) (p : ℕ) where
  weights : ℕ → ℕ
  weights j = let v = t j in if j == p then 0 else if v.presence then dist c (home c t j) j else 0

  pub weight : ℕ
  weight = sum_below c weights

  weights-le_three : IsGapped c t p → (j : ℕ) → j < c → weights j ≤ 3
  unfolding weights
  weights-le_three g j jc = elim (Bool-cases (j == p)) [
    | inl e ↦ rw e (omega arith)
    | inr e ↦ elim (Bool-cases (t j).presence) [
      | inl h ↦ rw (e, h) (omega (arith, neighbors-le_four c, g.near j jc (ground arith) h))
      | inr h ↦ rw (e, h) (omega arith)
    ]
  ]

  pub weight-le : IsGapped c t p → weight ≤ c * 3
  unfolding weight
  weight-le g = sum_below-le c 3 weights (weights-le_three g)

module _ {ℓ} {P : Type ℓ} (c : ℕ) (cap : IsCapacity c) (t : Table P) (p : ℕ) (g : IsGapped c t p)
    (i : ℕ) (ic : i < c) (away : 0 < dist c p i) (here : Present c t i)
    (needs : dist c p i ≤ dist c (home c t i) i) (ne : i ≢ p) where
  between : ℕ → ℕ
  between j = if j == i then 0 else weights c t p j

  moved_weights : (j : ℕ) → j ≢ p → weights c (write t p (t i)) i j ≡ between j
  unfolding between weights
  moved_weights j n = ground arith

  at_i : (weights c t p i ≡ dist c (home c t i) i) × (between i ≡ 0)
  unfolding between weights
  at_i = (ground (arith, here, ne), rw (==_refl i))

  at_p : (weights c (write t p (t i)) i p ≡ dist c (home c t i) p) × (between p ≡ 0)
  unfolding between weights
  at_p =
      let off : (p == i) ≡ false = ground arith in (rw (off, ==_refl p, here), rw (off, ==_refl p))

  old_weights : (j : ℕ) → j ≢ i → between j ≡ weights c t p j
  unfolding between
  old_weights j n = ground arith

  -- A move lowers the weight by the distance that the entry moves.
  pub weight-moved : weight c (write t p (t i)) i + dist c p i ≡ weight c t p
  unfolding weight
  weight-moved =
      let old = sum_below_point c i (weights c t p) between ic (λ j n. sym (old_weights j n)) in
      let new = sum_below_point c p (weights c (write t p (t i)) i) between g.below moved_weights in
      omega (arith, old, new, at_i, at_p, moved_dist c cap t p g i ic away here needs)
