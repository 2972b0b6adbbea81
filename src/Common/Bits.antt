-- ===== src/Common/Bits.antt =====
-- Binary digits of numbers: what `&`, `|`, `~` and `<<` do to them, at every width.
use Prim.Native.Nat.{min, max, bit_and, bit_or, digits, bit_and-bitwise, bit_or-bitwise, ◌^◌}
use native.Mathlib.Nat.{two-pow-succ, one-le-pow}
use op_magic_trie.Prelude.{
  ℕ, zero, suc, ◌+◌, ◌-◌, ◌*◌, ◌/◌, ◌%◌, ◌≤◌, ◌<◌, ◌≡◌, refl, ap, ◌∙◌, Bool, false, not, ◌&&◌, ◌||◌,
  arith, ltb, ◌==◌, if◌then◌else◌,
}

-- Digit `k` of `w`, the lowest first.
unfoldable pub bit : ℕ → ℕ → Bool
bit w zero = w % 2 == 1
bit w (suc k) = bit (w / 2) k

module _ (on_zero : ℕ → ℕ) (on_digits : ℕ → ℕ → ℕ) where
  -- One more round changes nothing once the rounds reach the first number.
  one_more :
      (n a b : ℕ) → a ≤ n → digits on_zero on_digits (suc n) a b ≡ digits on_zero on_digits n a b
  one_more zero a b l = let none : a ≡ 0 = omega arith in rw none refl
  one_more (suc n) zero b l = refl
  one_more (suc n) (suc a) b l =
      ap (λ r. r * 2 + on_digits (suc a % 2) (b % 2)) (one_more n (suc a / 2) (b / 2) (omega arith))

  spare :
      (d n a b : ℕ) → a ≤ n → digits on_zero on_digits (d + n) a b ≡ digits on_zero on_digits n a b
  spare zero n a b l =
      let none : 0 + n ≡ n = omega arith in ap (λ m. digits on_zero on_digits m a b) none
  spare (suc d) n a b l =
      let step : suc d + n ≡ suc (d + n) = omega arith in
      ap (λ m. digits on_zero on_digits m a b) step
      ∙ one_more (d + n) a b (omega arith)
      ∙ spare d n a b l

  -- The recursion on halves, with as many rounds as the half is large.
  half_rounds :
      (a b : ℕ)
      → digits on_zero on_digits a (suc a / 2) b
        ≡ digits on_zero on_digits (suc a / 2) (suc a / 2) b
  half_rounds a b =
      let split : a - suc a / 2 + suc a / 2 ≡ a = omega arith in
      rw split at (spare (a - suc a / 2) (suc a / 2) (suc a / 2) b (omega arith))

pub and_halves : (w v : ℕ) → bit_and w v ≡ bit_and (w / 2) (v / 2) * 2 + min (w % 2) (v % 2)
and_halves zero v = omega (arith, bit_and-bitwise zero v, bit_and-bitwise zero (v / 2))
and_halves (suc w) v =
    let rounds = half_rounds (λ _. zero) min w (v / 2) in
    omega (arith, bit_and-bitwise (suc w) v, rounds, bit_and-bitwise (suc w / 2) (v / 2))

pub or_halves : (w v : ℕ) → bit_or w v ≡ bit_or (w / 2) (v / 2) * 2 + max (w % 2) (v % 2)
or_halves zero v = omega (arith, bit_or-bitwise zero v, bit_or-bitwise zero (v / 2))
or_halves (suc w) v =
    let rounds = half_rounds (λ c. c) max w (v / 2) in
    omega (arith, bit_or-bitwise (suc w) v, rounds, bit_or-bitwise (suc w / 2) (v / 2))

-- The rounds of the conjunction keep below the mask.
masked-le : (rounds mask word : ℕ) → digits (λ _. zero) min rounds word mask ≤ mask
masked-le (suc rounds) mask (suc word) =
    let rest = masked-le rounds (mask / 2) (suc word / 2) in omega (arith, rest)
masked-le (suc rounds) mask zero = omega arith
masked-le zero mask (suc word) = omega arith
masked-le zero mask zero = omega arith

-- A mask bounds what passes it.
pub and-le : (w m : ℕ) → bit_and w m ≤ m
and-le w m = omega (arith, bit_and-bitwise w m, masked-le w m w)

pub bit-and : (a b k : ℕ) → bit (bit_and a b) k ≡ bit a k && bit b k
unfolding bit
bit-and a b zero = ground (arith, and_halves a b)
bit-and a b (suc k) =
    let halved : bit_and a b / 2 ≡ bit_and (a / 2) (b / 2) = omega (arith, and_halves a b) in
    rw halved (bit-and (a / 2) (b / 2) k)

pub bit-or : (a b k : ℕ) → bit (bit_or a b) k ≡ bit a k || bit b k
unfolding bit
bit-or a b zero = ground (arith, or_halves a b)
bit-or a b (suc k) =
    let halved : bit_or a b / 2 ≡ bit_or (a / 2) (b / 2) = omega (arith, or_halves a b) in
    rw halved (bit-or (a / 2) (b / 2) k)

pub pow_pos : (k : ℕ) → 0 < 2 ^ k
pow_pos k = one-le-pow k 2 (omega arith)

-- `~a` in a word of `n` bits.
unfoldable pub complement : ℕ → ℕ → ℕ
complement n a = 2 ^ n - 1 - a

pub complement_halves :
    (n a : ℕ) → a < 2 ^ suc n → (complement (suc n) a / 2 ≡ complement n (a / 2)) × (a / 2 < 2 ^ n)
unfolding complement
complement_halves n a h = omega (arith, two-pow-succ n, pow_pos n)

pub bit-complement : (n a k : ℕ) → a < 2 ^ n → k < n → bit (complement n a) k ≡ not (bit a k)
unfolding bit complement
bit-complement zero a k h l = absurd (omega arith)
bit-complement (suc n) a zero h l = ground (arith, two-pow-succ n, pow_pos n)
bit-complement (suc n) a (suc k) h l =
    let (halved, less) = complement_halves n a h in
    rw halved (bit-complement n (a / 2) k less (omega arith))

pub bit-zero : (k : ℕ) → bit 0 k ≡ false
unfolding bit
bit-zero zero = refl
bit-zero (suc k) = bit-zero k

pub bit-pow : (k j : ℕ) → bit (2 ^ k) j ≡ j == k
unfolding bit
bit-pow zero zero = refl
bit-pow zero (suc j) = bit-zero j ∙ ground arith
bit-pow (suc k) zero = ground (arith, two-pow-succ k)
bit-pow (suc k) (suc j) =
    let halved : 2 ^ suc k / 2 ≡ 2 ^ k = omega (arith, two-pow-succ k) in
    rw halved (bit-pow k j ∙ ground arith)

and-zero : (a : ℕ) → bit_and a 0 ≡ 0
and-zero a = omega (arith, and-le a 0)

-- `w & (1 << k)`
pub and-pow : (w k : ℕ) → bit_and w (2 ^ k) ≡ (if bit w k then 2 ^ k else 0)
unfolding bit
and-pow w zero = ground (arith, and_halves w 1, and-zero (w / 2))
and-pow w (suc k) =
    let halved : 2 ^ suc k / 2 ≡ 2 ^ k = omega (arith, two-pow-succ k) in
    let even : 2 ^ suc k % 2 ≡ 0 = omega (arith, two-pow-succ k) in
    let step : bit_and w (2 ^ suc k) ≡ bit_and (w / 2) (2 ^ k) * 2 =
      and_halves w (2 ^ suc k) ∙ rw (halved, even) (omega arith) in
    ground (arith, step, and-pow (w / 2) k, two-pow-succ k)

-- `(1 << m) - 1`
pub bit-mask : (m j : ℕ) → bit (2 ^ m - 1) j ≡ ltb j m
unfolding bit
bit-mask zero j = bit-zero j ∙ ground arith
bit-mask (suc m) zero = ground (arith, two-pow-succ m, pow_pos m)
bit-mask (suc m) (suc j) =
    let halved : (2 ^ suc m - 1) / 2 ≡ 2 ^ m - 1 = omega (arith, two-pow-succ m, pow_pos m) in
    rw halved (bit-mask m j ∙ ground arith)

-- A word of `n` bits has no digit behind them.
pub bit_beyond : (n w j : ℕ) → w < 2 ^ n → n ≤ j → bit w j ≡ false
unfolding bit
bit_beyond zero w j h l = let zero_word : w ≡ 0 = omega arith in rw zero_word (bit-zero j)
bit_beyond (suc n) w zero h l = absurd (omega arith)
bit_beyond (suc n) w (suc j) h l =
    bit_beyond n (w / 2) j (omega (arith, two-pow-succ n)) (omega arith)

-- A word with no digit is zero.
pub eq_zero_of_bits : (n w : ℕ) → w < 2 ^ n → ((j : ℕ) → j < n → bit w j ≡ false) → w ≡ 0
unfolding bit
eq_zero_of_bits zero w h none_set = omega arith
eq_zero_of_bits (suc n) w h none_set =
    let high =
      eq_zero_of_bits n (w / 2) (omega (arith, two-pow-succ n))
        (λ j l. none_set (suc j) (omega arith)) in
    let low : w % 2 ≡ 0 = ground (arith, none_set 0 (omega arith)) in omega arith

double_high : (q n : ℕ) → q * 2 ^ suc n ≡ 2 * (q * 2 ^ n)
double_high q n = omega (arith, ap (λ (t : ℕ). q * t) (two-pow-succ n))

-- The digits of a word of two fields.
pub bit_low : (n q r j : ℕ) → r < 2 ^ n → j < n → bit (q * 2 ^ n + r) j ≡ bit r j
unfolding bit
bit_low zero q r j h l = absurd (omega arith)
bit_low (suc n) q r zero h l =
    let parity : (q * 2 ^ suc n + r) % 2 ≡ r % 2 = omega (arith, double_high q n) in rw parity
bit_low (suc n) q r (suc j) h l =
    let halved : (q * 2 ^ suc n + r) / 2 ≡ q * 2 ^ n + r / 2 = omega (arith, double_high q n) in
    rw halved (bit_low n q (r / 2) j (omega (arith, two-pow-succ n)) (omega arith))

pub bit_high : (n q r j : ℕ) → r < 2 ^ n → bit (q * 2 ^ n + r) (n + j) ≡ bit q j
unfolding bit
bit_high zero q r j h =
    let same : q * 2 ^ 0 + r ≡ q = omega arith in
    let index : 0 + j ≡ j = omega arith in rw (same, index)
bit_high (suc n) q r j h =
    let halved : (q * 2 ^ suc n + r) / 2 ≡ q * 2 ^ n + r / 2 = omega (arith, double_high q n) in
    let index : suc n + j ≡ suc (n + j) = omega arith in
    let step : bit ((q * 2 ^ suc n + r) / 2) (n + j) ≡ bit q j =
      rw halved (bit_high n q (r / 2) j (omega (arith, two-pow-succ n))) in
    rw index step

-- `&` with a mask of the low field.
pub and_low : (n q r : ℕ) → r < 2 ^ n → bit_and (q * 2 ^ n + r) (2 ^ n - 1) ≡ r
and_low zero q r h = let nothing : r ≡ 0 = omega arith in and-zero (q * 2 ^ 0 + r) ∙ rw nothing
and_low (suc n) q r h =
    let halved : (q * 2 ^ suc n + r) / 2 ≡ q * 2 ^ n + r / 2 = omega (arith, double_high q n) in
    let masked : (2 ^ suc n - 1) / 2 ≡ 2 ^ n - 1 = omega (arith, two-pow-succ n, pow_pos n) in
    let step : bit_and (q * 2 ^ suc n + r) (2 ^ suc n - 1)
        ≡ bit_and (q * 2 ^ n + r / 2) (2 ^ n - 1) * 2
          + min ((q * 2 ^ suc n + r) % 2) ((2 ^ suc n - 1) % 2) =
      and_halves (q * 2 ^ suc n + r) (2 ^ suc n - 1) ∙ rw (halved, masked) in
    let rest = and_low n q (r / 2) (omega (arith, two-pow-succ n)) in
    omega (arith, step, rest, double_high q n, two-pow-succ n, pow_pos n)

-- `&` and `|` stay within the width of the word.
pub or-lt : (n a b : ℕ) → a < 2 ^ n → b < 2 ^ n → bit_or a b < 2 ^ n
or-lt zero a b h k =
    let first : a ≡ 0 = omega arith in
    let second : b ≡ 0 = omega arith in rw (first, second) (omega arith)
or-lt (suc n) a b h k =
    let rest =
      or-lt n (a / 2) (b / 2) (omega (arith, two-pow-succ n)) (omega (arith, two-pow-succ n)) in
    omega (arith, or_halves a b, rest, two-pow-succ n)

pub and-lt : (n a b : ℕ) → a < 2 ^ n → bit_and a b < 2 ^ n
and-lt zero a b h = let first : a ≡ 0 = omega arith in rw first (omega (arith, bit_and-bitwise 0 b))
and-lt (suc n) a b h =
    let rest = and-lt n (a / 2) (b / 2) (omega (arith, two-pow-succ n)) in
    omega (arith, and_halves a b, rest, two-pow-succ n)

pub pow-lt : (n k : ℕ) → k < n → 2 ^ k < 2 ^ n
pow-lt zero k h = absurd (omega arith)
pow-lt (suc n) zero h = omega (arith, two-pow-succ n, pow_pos n)
pow-lt (suc n) (suc k) h = omega (arith, two-pow-succ n, two-pow-succ k, pow-lt n k (omega arith))
