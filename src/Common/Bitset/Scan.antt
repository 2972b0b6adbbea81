-- ===== src/Common/Bitset/Scan.antt =====
-- `first_set`, `next_set` and `next_set_or_this` find the least bit from a place on.
use Prim.Native.Nat.{bit_and, bit_or, ◌^◌}
use native.Mathlib.Decide.{dec_lt}
use op_magic_trie.Prelude.{
  ℕ, zero, suc, ◌+◌, ◌-◌, ◌*◌, ◌/◌, ◌%◌, ◌≤◌, ◌<◌, ◌≡◌, refl, ap, ◌∙◌, Bool, true, false, not, ◌&&◌,
  arith, Bool-cases, Option, none, some, inl, inr, ltb, ◌==◌, ==_iff,
}
use op_magic_trie.Common.Bits.{
  bit, bit-and, bit-or, bit-pow, bit-mask, bit-complement, complement, bit-zero, or-lt, and-lt,
  pow-lt, and_low,
}
use op_magic_trie.Common.Bitset.{
  Bitset, bit_not, get, first_loop, first_set, next_loop, next_set, next_set_or_this, to_dim,
  count_trailing_zero_64,
}
use op_magic_trie.Common.Bitset.Lowest.{count_trailing_zero_64-Lowest}
use op_magic_trie.Common.Bitset.Access.{IsWords, get-bit}

-- `r` is the least index that passes the test at `from` or behind it, below `to`; `none` if there
-- is none.
abbrev pub LeastFrom : (ℕ → Bool) → ℕ → ℕ → Option ℕ → Type 0
LeastFrom p from to none = (j : ℕ) → from ≤ j → j < to → p j ≡ false
LeastFrom p from to (some k) =
    (from ≤ k) × (k < to) × (p k ≡ true) × ((j : ℕ) → from ≤ j → j < k → p j ≡ false)

-- The cast of an index of fewer than 1024 words.
pub to_dim_small : (k : ℕ) → k < 0xFFFF → to_dim k ≡ some k
unfolding to_dim
to_dim_small k h = ground (arith, h)

LeastFrom-widen :
    (p : ℕ → Bool) (from from' to : ℕ) (r : Option ℕ)
    → from ≤ from'
    → ((j : ℕ) → from ≤ j → j < from' → p j ≡ false)
    → LeastFrom p from' to r
    → LeastFrom p from to r
LeastFrom-widen p from from' to none l clear h =
    λ j lo hi. elim (dec_lt j from') [ yes m ↦ clear j lo m | no m ↦ h j (omega arith) hi ]
LeastFrom-widen p from from' to (some k) l clear (lo, hi, here, before) = (
  omega arith,
  hi,
  here,
  λ j q r. elim (dec_lt j from') [ yes m ↦ clear j q m | no m ↦ before j (omega arith) r ],
)

get_word : (b : Bitset) (i j : ℕ) → j < 64 → get b (i * 64 + j) ≡ bit (b i) j
get_word b i j h =
    let word : (i * 64 + j) / 64 ≡ i = omega arith in
    let offset : (i * 64 + j) % 64 ≡ j = omega arith in get-bit b (i * 64 + j) ∙ rw (word, offset)

-- One word, seen without the bits that the mask hides: those before `from`.
module _ (b : Bitset) (i from mask : ℕ) (w : IsWords b) (m : mask < 2 ^ 64)
    (hides : (j : ℕ) → j < 64 → bit mask j ≡ ltb (i * 64 + j) from) where
  abbrev seen : ℕ
  seen = bit_and (b i) (bit_not 64 mask)

  seen-bit : (j : ℕ) → j < 64 → bit seen j ≡ bit (b i) j && not (ltb (i * 64 + j) from)
  unfolding bit_not complement
  seen-bit j l =
      bit-and (b i) (2 ^ 64 - 1 - mask) j
      ∙ ap (λ x. bit (b i) j && x) (bit-complement 64 mask j m l ∙ ap not (hides j l))

  -- The bits of this word from `from` on.
  clear_before :
      (c : ℕ)
      → c ≤ 64
      → ((j : ℕ) → j < c → bit seen j ≡ false)
      → (j : ℕ) → i * 64 ≤ from
      → from ≤ j
      → j < i * 64 + c
      → get b j ≡ false
  clear_before c small none_seen j lo l h =
      let place : i * 64 + (j - i * 64) ≡ j = omega arith in
      let off : bit seen (j - i * 64) ≡ false = none_seen (j - i * 64) (omega arith) in
      let here = get_word b i (j - i * 64) (omega arith) in
      let word = seen-bit (j - i * 64) (omega arith) in
      let value : get b (i * 64 + (j - i * 64)) ≡ false = ground (arith, off, word, here) in
      rw place at value

  found_here :
      (to : ℕ)
      → i * 64 ≤ from
      → 0 < seen
      → i * 64 + 64 ≤ to
      → i < 1023
      → LeastFrom (get b) from to (to_dim (count_trailing_zero_64 seen + i * 64))
  found_here to lo some_seen width few =
      let (low, l) =
        count_trailing_zero_64-Lowest seen some_seen (and-lt 64 (b i) (bit_not 64 mask) (w i)) in
      let c = count_trailing_zero_64 seen in
      let place : i * 64 + c ≡ c + i * 64 = omega arith in
      let word = seen-bit c l in
      let here = get_word b i c l in
      let value : get b (i * 64 + c) ≡ true = ground (arith, low.is_set, word, here) in
      rw (to_dim_small (c + i * 64) (omega (arith, few, l))) (
        ground (arith, low.is_set, word),
        omega arith,
        rw place at value,
        λ j p q. clear_before c (omega arith) low.least j lo p (omega arith),
      )

-- The words from `i` on, without the bits that the mask hides in the first.
next_loop-LeastFrom :
    (rounds : ℕ) (b : Bitset) (i from : ℕ) (mask : ℕ)
    → IsWords b
    → i * 64 ≤ from
    → from ≤ i * 64 + 64
    → mask < 2 ^ 64
    → i + rounds < 1024
    → ((j : ℕ) → j < 64 → bit mask j ≡ ltb (i * 64 + j) from)
    → LeastFrom (get b) from ((i + rounds) * 64) (next_loop rounds b i mask)
unfolding next_loop
next_loop-LeastFrom zero b i from mask w lo hi m few hides = λ j l u. absurd (omega arith)
next_loop-LeastFrom (suc rounds) b i from mask w lo hi m few hides =
    elim (Bool-cases (seen b i from mask w m hides == 0)) [
      | inl e ↦
          let nothing : seen b i from mask w m hides ≡ 0 = (==_iff _ 0).0 e in
          let rest =
            next_loop-LeastFrom rounds b (i + 1) ((i + 1) * 64) 0 w (omega arith) (omega arith)
              (omega arith) (omega (arith, few)) (λ j l. bit-zero j ∙ ground arith) in
          let end : (i + 1 + rounds) * 64 ≡ (i + suc rounds) * 64 = omega arith in
          rw (e, ← end)
            (LeastFrom-widen (get b) from ((i + 1) * 64) ((i + 1 + rounds) * 64) _ (omega arith)
              (λ j l h.
                clear_before b i from mask w m hides 64 (omega arith)
                  (λ k _. rw nothing (bit-zero k)) j lo l (omega arith))
              rest)
      | inr e ↦ rw e (
          found_here b i from mask w m hides ((i + suc rounds) * 64) lo (ground arith) (omega arith)
            (omega (arith, few)))
    ]

-- `first_set` scans the words with an empty mask.
first_loop-next_loop :
    (rounds : ℕ) (b : Bitset) (i : ℕ) → IsWords b → first_loop rounds b i ≡ next_loop rounds b i 0
unfolding first_loop next_loop bit_not
first_loop-next_loop zero b i w = refl
first_loop-next_loop (suc rounds) b i w =
    let word : 0 * 2 ^ 64 + b i ≡ b i = omega arith in
    let whole : bit_and (b i) (2 ^ 64 - 1 - 0) ≡ b i = rw word at (and_low 64 0 (b i) (w i)) in
    rw (whole, first_loop-next_loop rounds b (i + 1) w)

-- `first_set` on fewer than 1024 words of 64 bits returns the least index that is set, and none
-- when no bit of the set is set.
pub first_set-LeastFrom :
    (n : ℕ) (b : Bitset) → n < 1024 → IsWords b → LeastFrom (get b) 0 (n * 64) (first_set n b)
unfolding first_set
first_set-LeastFrom n b few w =
    let start : 0 + n ≡ n = omega arith in
    rw (first_loop-next_loop n b 0 w) (
      rw start at (
        next_loop-LeastFrom n b 0 0 0 w (omega arith) (omega arith) (omega arith)
          (omega (arith, few)) (λ j l. bit-zero j ∙ ground arith)))

-- `next_set` on fewer than 1024 words of 64 bits, for an index in range, returns the least set
-- index behind it, and none when there is none.
pub next_set-LeastFrom :
    (n : ℕ) (b : Bitset) (prev : ℕ)
    → n < 1024
    → IsWords b
    → prev < n * 64
    → LeastFrom (get b) (suc prev) (n * 64) (next_set n b prev)
unfolding next_set
next_set-LeastFrom n b prev few w h =
    let k = prev % 64 in
    let end : (prev / 64 + (n - prev / 64)) * 64 ≡ n * 64 = omega arith in
    rw end at (
      next_loop-LeastFrom (n - prev / 64) b (prev / 64) (suc prev) (bit_or (2 ^ k) (2 ^ k - 1)) w
        (omega arith) (omega arith)
        (or-lt 64 (2 ^ k) (2 ^ k - 1) (pow-lt 64 k (omega arith))
          (omega (arith, pow-lt 64 k (omega arith))))
        (omega (arith, few, h))
        (λ j l. bit-or (2 ^ k) (2 ^ k - 1) j ∙ rw (bit-pow k j, bit-mask k j) (ground arith)))

-- `next_set_or_this` on fewer than 1024 words of 64 bits, for an index in range, returns the least
-- set index at it or behind it, and none when there is none.
pub next_set_or_this-LeastFrom :
    (n : ℕ) (b : Bitset) (prev : ℕ)
    → n < 1024
    → IsWords b
    → prev < n * 64
    → LeastFrom (get b) prev (n * 64) (next_set_or_this n b prev)
unfolding next_set_or_this
next_set_or_this-LeastFrom n b prev few w h =
    let k = prev % 64 in
    let end : (prev / 64 + (n - prev / 64)) * 64 ≡ n * 64 = omega arith in
    rw end at (
      next_loop-LeastFrom (n - prev / 64) b (prev / 64) prev (2 ^ k - 1) w (omega arith)
        (omega arith) (omega (arith, pow-lt 64 k (omega arith))) (omega (arith, few, h))
        (λ j l. bit-mask k j ∙ ground arith))
