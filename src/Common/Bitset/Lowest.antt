-- ===== src/Common/Bitset/Lowest.antt =====
-- The lookups by de Bruijn sequences find the lowest digit of a word.
use Prim.Native.Nat.{min, bit_and, ◌^◌}
use native.Mathlib.Nat.{two-pow-succ}
use native.Mathlib.Decide.{dec_lt, ℕ_discrete}
use op_magic_trie.Prelude.{
  ℕ, zero, suc, ◌+◌, ◌-◌, ◌*◌, ◌/◌, ◌%◌, ◌<◌, ◌≡◌, refl, ◌∙◌, Bool, true, false, arith, Bool-cases,
  inl, inr, ◌==◌, ==_iff, if◌then◌else◌,
}
use op_magic_trie.Common.Bits.{bit, and_halves, bit_low, bit_high, bit-zero, and_low}
use op_magic_trie.Common.Bitset.{
  at, de_bruijn_positions, count_trailing_zero_32, count_trailing_zero_64,
}

-- `k` is the lowest digit that is set in `w`.
pub record Lowest (w k : ℕ) : Type 0 where
  pub is_set : bit w k ≡ true
  pub least : (j : ℕ) → j < k → bit w j ≡ false

and-complement : (n a : ℕ) → a < 2 ^ n → bit_and a (2 ^ n - 1 - a) ≡ 0
and-complement zero a h = let zero_word : a ≡ 0 = omega arith in rw zero_word
and-complement (suc n) a h =
    let halved : (2 ^ suc n - 1 - a) / 2 ≡ 2 ^ n - 1 - a / 2 = omega (arith, two-pow-succ n) in
    let rest = and-complement n (a / 2) (omega (arith, two-pow-succ n)) in
    let step : bit_and a (2 ^ suc n - 1 - a)
        ≡ bit_and (a / 2) (2 ^ n - 1 - a / 2) * 2 + min (a % 2) ((2 ^ suc n - 1 - a) % 2) =
      and_halves a (2 ^ suc n - 1 - a) ∙ rw halved in
    omega (arith, step, rest, two-pow-succ n)

-- `v & (~v + 1)` keeps the lowest digit of `v`.
isolate :
    (n v : ℕ) → 0 < v → v < 2 ^ n → (k : ℕ) × (k < n) × (bit_and v (2 ^ n - v) ≡ 2 ^ k) × Lowest v k
unfolding bit
isolate zero v p h = absurd (omega arith)
isolate (suc n) v p h = elim (Bool-cases (v % 2 == 1)) [
  | inl odd ↦
      let one : v % 2 ≡ 1 = (==_iff (v % 2) 1).0 odd in
      let halved : (2 ^ suc n - v) / 2 ≡ 2 ^ n - 1 - v / 2 = omega (arith, two-pow-succ n) in
      let rest = and-complement n (v / 2) (omega (arith, two-pow-succ n)) in
      let step : bit_and v (2 ^ suc n - v)
          ≡ bit_and (v / 2) (2 ^ n - 1 - v / 2) * 2 + min (v % 2) ((2 ^ suc n - v) % 2) =
        and_halves v (2 ^ suc n - v) ∙ rw halved in
      (
        0,
        omega arith,
        omega (arith, step, rest, two-pow-succ n),
        record { is_set = odd; least = λ j l. absurd (omega arith) },
      )
  | inr even ↦
      let zero_digit : v % 2 ≡ 0 = ground arith in
      let halved : (2 ^ suc n - v) / 2 ≡ 2 ^ n - v / 2 = omega (arith, two-pow-succ n) in
      let (k, l, e, low) = isolate n (v / 2) (omega arith) (omega (arith, two-pow-succ n)) in
      let step : bit_and v (2 ^ suc n - v)
          ≡ bit_and (v / 2) (2 ^ n - v / 2) * 2 + min (v % 2) ((2 ^ suc n - v) % 2) =
        and_halves v (2 ^ suc n - v) ∙ rw halved in
      (
        suc k,
        omega arith,
        omega (arith, step, e, two-pow-succ k),
        record { is_set = low.is_set; least = least_suc v k even low.least },
      )
]
  where
    least_suc :
        (v k : ℕ)
        → (v % 2 == 1) ≡ false
        → ((j : ℕ) → j < k → bit (v / 2) j ≡ false)
        → (j : ℕ) → j < suc k
        → bit v j ≡ false
    least_suc v k even low zero l = even
    least_suc v k even low (suc j) l = low j (omega arith)

-- Where the table of the source places the power `k` of two.
placed : ℕ → ℕ
placed k = at de_bruijn_positions (2 ^ k * 0x077CB531 % 2 ^ 32 / 2 ^ 27)

-- The powers below `bound` are at their places.
checked : ℕ → Bool
checked zero = true
checked (suc k) = let rest = checked k in if placed k == k then rest else false

placed_right : (bound : ℕ) → checked bound ≡ true → (k : ℕ) → k < bound → placed k ≡ k
unfolding checked
placed_right zero e k l = absurd (omega arith)
placed_right (suc bound) e k l = elim (ℕ_discrete k bound) [
  | yes here ↦ rw here (ground (arith, e))
  | no below ↦ placed_right bound (ground (arith, e)) k (omega arith)
]

checked_all : checked 32 ≡ true
unfolding checked placed de_bruijn_positions
checked_all = refl

pub count_trailing_zero_32-Lowest :
    (v : ℕ)
    → 0 < v
    → v < 2 ^ 32
    → Lowest v (count_trailing_zero_32 v) × (count_trailing_zero_32 v < 32)
unfolding count_trailing_zero_32 placed
count_trailing_zero_32-Lowest v p h =
    let (k, l, e, low) = isolate 32 v p h in
    let wrapped : (2 ^ 32 - 1 - v + 1) % 2 ^ 32 ≡ 2 ^ 32 - v = omega arith in
    let found : at de_bruijn_positions (2 ^ k * 0x077CB531 % 2 ^ 32 / 2 ^ 27) ≡ k =
      placed_right 32 checked_all k l in
    rw (wrapped, e, found) (low, l)

-- The lowest digit is there already in the low half, or is the lowest of the high half.
Lowest-low : (q r k : ℕ) → r < 2 ^ 32 → k < 32 → Lowest r k → Lowest (q * 2 ^ 32 + r) k
Lowest-low q r k h l low = record {
  is_set = bit_low 32 q r k h l ∙ low.is_set;
  least = λ j m. bit_low 32 q r j h (omega arith) ∙ low.least j m;
}

Lowest-high : (q k : ℕ) → Lowest q k → Lowest (q * 2 ^ 32 + 0) (32 + k)
Lowest-high q k low = record {
  is_set = bit_high 32 q 0 k (omega arith) ∙ low.is_set;
  least = λ j m. elim (dec_lt j 32) [
    | yes l ↦ bit_low 32 q 0 j (omega arith) l ∙ bit-zero j
    | no l ↦
        let index : 32 + (j - 32) ≡ j = omega arith in
        rw index at (bit_high 32 q 0 (j - 32) (omega arith) ∙ low.least (j - 32) (omega arith))
  ];
}

-- For a word of 64 bits that is not 0, `count_trailing_zero_64` returns a number below 64 at which
-- the word has its lowest set digit.
pub count_trailing_zero_64-Lowest :
    (v : ℕ)
    → 0 < v
    → v < 2 ^ 64
    → Lowest v (count_trailing_zero_64 v) × (count_trailing_zero_64 v < 64)
unfolding count_trailing_zero_64
count_trailing_zero_64-Lowest v p h =
    let fields : v / 2 ^ 32 * 2 ^ 32 + v % 2 ^ 32 ≡ v = omega arith in
    let masked : bit_and v 0xFFFF_FFFF ≡ v % 2 ^ 32 =
      rw fields at (and_low 32 (v / 2 ^ 32) (v % 2 ^ 32) (omega arith)) in
    elim (Bool-cases (v % 2 ^ 32 == 0)) [
      | inl none_low ↦
          let high : v / 2 ^ 32 % 2 ^ 32 ≡ v / 2 ^ 32 = omega arith in
          let clean : v % 2 ^ 32 ≡ 0 = (==_iff _ 0).0 none_low in
          let (low, l) = count_trailing_zero_32-Lowest (v / 2 ^ 32) (omega arith) (omega arith) in
          let same : v / 2 ^ 32 * 2 ^ 32 + 0 ≡ v = omega arith in
          let index : 32 + count_trailing_zero_32 (v / 2 ^ 32)
              ≡ count_trailing_zero_32 (v / 2 ^ 32) + 32 =
            omega arith in
          let whole : Lowest v (32 + count_trailing_zero_32 (v / 2 ^ 32)) =
            rw same at (Lowest-high (v / 2 ^ 32) _ low) in
          rw (masked, none_low, high) (rw index at whole, omega arith)
      | inr some_low ↦
          let (low, l) = count_trailing_zero_32-Lowest (v % 2 ^ 32) (ground arith) (omega arith) in
          rw (masked, some_low)
            (rw fields at (Lowest-low (v / 2 ^ 32) (v % 2 ^ 32) _ (omega arith) l low), omega arith)
    ]
