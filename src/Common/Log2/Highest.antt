-- ===== src/Common/Log2/Highest.antt =====
-- The highest digit of a number.
use Prim.Native.Nat.{◌^◌}
use native.Mathlib.Nat.{two-pow-succ}
use op_magic_trie.Prelude.{
  ℕ, zero, suc, ◌/◌, ◌%◌, ◌≤◌, ◌<◌, ◌≡◌, refl, true, false, inl, inr, arith, Bool-cases, ◌==◌,
  ==_iff,
}
use op_magic_trie.Common.Bits.{bit}

-- Numbers with the same digits are the same.
pub eq_of_bits : (n a b : ℕ) → a < 2 ^ n → b < 2 ^ n → ((j : ℕ) → j < n → bit a j ≡ bit b j) → a ≡ b
unfolding bit
eq_of_bits zero a b h k same = omega (arith, h, k)
eq_of_bits (suc n) a b h k same =
    let high =
      eq_of_bits n (a / 2) (b / 2) (omega (arith, h, two-pow-succ n))
        (omega (arith, k, two-pow-succ n)) (λ j l. same (suc j) (omega (arith, l))) in
    let low : a % 2 ≡ b % 2 = ground (arith, same 0 (omega arith)) in omega (arith, high, low)

-- `h` is the highest digit that is set in `v`.
pub record Highest (v h : ℕ) : Type 0 where
  pub from : 2 ^ h ≤ v
  pub to : v < 2 ^ suc h
  pub is_set : bit v h ≡ true
  pub above : (j : ℕ) → h < j → bit v j ≡ false

pub highest : (n v : ℕ) → 0 < v → v < 2 ^ n → (h : ℕ) × (h < n) × Highest v h
unfolding bit
highest zero v p l = absurd (omega (arith, p, l))
highest (suc n) v p l = elim (Bool-cases (v / 2 == 0)) [
  | inl one ↦
      let half : v / 2 ≡ 0 = (==_iff (v / 2) 0).0 one in
      let is_one : v ≡ 1 = omega (arith, half, p) in
      (
        0,
        omega arith,
        record {
          from = omega (arith, p);
          to = omega (arith, is_one);
          is_set = rw is_one refl;
          above = λ j less. one_above j less half;
        },
      )
  | inr more ↦
      let positive : 0 < v / 2 = ground (arith, more) in
      let (h, small, high) = highest n (v / 2) positive (omega (arith, l, two-pow-succ n)) in
      (
        suc h,
        omega (arith, small),
        record {
          from = omega (arith, high.from, two-pow-succ h);
          to = omega (arith, high.to, two-pow-succ (suc h));
          is_set = high.is_set;
          above = λ j less. higher j h less high.above;
        },
      )
]
  where
    zero_bit : (j : ℕ) → bit 0 j ≡ false
    zero_bit zero = refl
    zero_bit (suc j) = zero_bit j

    one_above : (j : ℕ) → 0 < j → v / 2 ≡ 0 → bit v j ≡ false
    one_above zero less half = absurd (omega (arith, less))
    one_above (suc j) less half = rw half (zero_bit j)

    higher : (j h : ℕ) → suc h < j → ((i : ℕ) → h < i → bit (v / 2) i ≡ false) → bit v j ≡ false
    higher zero h less above = absurd (omega (arith, less))
    higher (suc j) h less above = above j (omega (arith, less))
