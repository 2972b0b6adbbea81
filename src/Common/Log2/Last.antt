-- ===== src/Common/Log2/Last.antt =====
-- `last_set` finds the greatest bit.
use Prim.Native.Nat.{◌^◌}
use native.Mathlib.Decide.{dec_lt}
use op_magic_trie.Prelude.{
  ℕ, zero, suc, ◌+◌, ◌-◌, ◌*◌, ◌/◌, ◌%◌, ◌≤◌, ◌<◌, ◌≡◌, refl, ap, ◌∙◌, Bool, true, false, Option,
  none, some, inl, inr, arith, Bool-cases, ltb, ◌==◌, ==_iff,
}
use op_magic_trie.Common.Bits.{bit, bit_high, bit-zero}
use op_magic_trie.Common.Bitset.{Bitset, get, to_dim}
use op_magic_trie.Common.Bitset.Scan.{to_dim_small}
use op_magic_trie.Common.Bitset.Access.{IsWords, get-bit}
use op_magic_trie.Common.Log2.{log2_32, log2_64, last_loop, last_set}
use op_magic_trie.Common.Log2.Highest.{Highest}
use op_magic_trie.Common.Log2.Filled.{log2_32-Highest}

-- `k` is the highest digit that is set in `w`.
record Top (w k : ℕ) : Type 0 where
  is_set : bit w k ≡ true
  above : (j : ℕ) → k < j → bit w j ≡ false

Top-high : (q r k : ℕ) → r < 2 ^ 32 → Highest q k → Top (q * 2 ^ 32 + r) (k + 32)
Top-high q r k l high = record {
  is_set =
      let index : k + 32 ≡ 32 + k = omega arith in
      ap (bit (q * 2 ^ 32 + r)) index ∙ bit_high 32 q r k l ∙ high.is_set;
  above = λ j m.
      let index : j ≡ 32 + (j - 32) = omega (arith, m) in
      ap (bit (q * 2 ^ 32 + r)) index
      ∙ bit_high 32 q r (j - 32) l
      ∙ high.above (j - 32) (omega (arith, m));
}

-- `log2_64` of a word that is not 0.
log2_64-Top : (v : ℕ) → 0 < v → v < 2 ^ 64 → Top v (log2_64 v) × (log2_64 v < 64)
unfolding log2_64
log2_64-Top v p l = elim (Bool-cases (ltb 0xFFFF_FFFF v)) [
  | inl large ↦
      let high : v / 2 ^ 32 % 2 ^ 32 ≡ v / 2 ^ 32 = omega (arith, l) in
      let over : 0xFFFF_FFFF < v = ground (arith, large) in
      let fields : v / 2 ^ 32 * 2 ^ 32 + v % 2 ^ 32 ≡ v = omega arith in
      let (top, small) = log2_32-Highest (v / 2 ^ 32) (omega (arith, over)) (omega (arith, l)) in
      let whole : Top v (log2_32 (v / 2 ^ 32) + 32) =
        rw fields at (Top-high (v / 2 ^ 32) (v % 2 ^ 32) _ (omega arith) top) in
      rw (large, high) (whole, omega (arith, small))
  | inr small_word ↦
      let under : v < 2 ^ 32 = ground (arith, small_word) in
      let same : v % 2 ^ 32 ≡ v = omega (arith, under) in
      let (top, small) = log2_32-Highest v p under in
      rw (small_word, same)
        (record { is_set = top.is_set; above = top.above }, omega (arith, small))
]

-- `r` is the greatest index below `to` that passes the test; `none` if there is none.
abbrev pub GreatestBelow : (ℕ → Bool) → ℕ → Option ℕ → Type 0
GreatestBelow p to none = (j : ℕ) → j < to → p j ≡ false
GreatestBelow p to (some k) = (k < to) × (p k ≡ true) × ((j : ℕ) → k < j → j < to → p j ≡ false)

module _ (b : Bitset) (i : ℕ) where
  get_word : (j : ℕ) → j < 64 → get b (j + i * 64) ≡ bit (b i) j
  get_word j l =
      let word : (j + i * 64) / 64 ≡ i = omega (arith, l) in
      let offset : (j + i * 64) % 64 ≡ j = omega (arith, l) in
      get-bit b (j + i * 64) ∙ rw (word, offset) refl

  -- A bit of this word, by its index in the set.
  get_here : (j : ℕ) → i * 64 ≤ j → j < suc i * 64 → get b j ≡ bit (b i) (j - i * 64)
  get_here j lo hi =
      let index : j ≡ j - i * 64 + i * 64 = omega (arith, lo) in
      ap (get b) index ∙ get_word (j - i * 64) (omega (arith, lo, hi))

  skip_word :
      (r : Option ℕ)
      → b i ≡ 0
      → GreatestBelow (get b) (i * 64) r
      → GreatestBelow (get b) (suc i * 64) r
  skip_word none nothing h = λ j l. elim (dec_lt j (i * 64)) [
    | yes low ↦ h j low
    | no high ↦
        get_here j (omega (arith, high)) l
        ∙ ap (λ z. bit z (j - i * 64)) nothing
        ∙ bit-zero (j - i * 64)
  ]
  skip_word (some k) nothing (l, set_there, above) = (
    omega (arith, l),
    set_there,
    λ j m n. elim (dec_lt j (i * 64)) [
      | yes low ↦ above j m low
      | no high ↦
          get_here j (omega (arith, high)) n
          ∙ ap (λ z. bit z (j - i * 64)) nothing
          ∙ bit-zero (j - i * 64)
    ],
  )

  in_word :
      (k : ℕ)
      → i < 1023
      → k < 64
      → Top (b i) k
      → GreatestBelow (get b) (suc i * 64) (to_dim (k + i * 64))
  in_word k few small top = rw (to_dim_small (k + i * 64) (omega (arith, few, small))) (
    omega (arith, small),
    get_word k small ∙ top.is_set,
    λ j m n. get_here j (omega (arith, m)) n ∙ top.above (j - i * 64) (omega (arith, m)),
  )

last_loop-GreatestBelow :
    (b : Bitset) → IsWords b → (n : ℕ) → n < 1024 → GreatestBelow (get b) (n * 64) (last_loop n b)
unfolding last_loop
last_loop-GreatestBelow b w zero few = λ j l. absurd (omega (arith, l))
last_loop-GreatestBelow b w (suc i) few = elim (Bool-cases (b i == 0)) [
  | inl nothing ↦ rw nothing (
      skip_word b i (last_loop i b) ((==_iff (b i) 0).0 nothing)
        (last_loop-GreatestBelow b w i (omega (arith, few))))
  | inr more ↦
      let positive : 0 < b i = ground (arith, more) in
      let (top, small) = log2_64-Top (b i) positive (w i) in
      rw more (in_word b i _ (omega (arith, few)) small top)
]

pub last_set-GreatestBelow :
    (n : ℕ) (b : Bitset) → n < 1024 → IsWords b → GreatestBelow (get b) (n * 64) (last_set n b)
unfolding last_set
last_set-GreatestBelow n b few w = last_loop-GreatestBelow b w n few
