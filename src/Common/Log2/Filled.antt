-- ===== src/Common/Log2/Filled.antt =====
-- The digits below the highest one are filled: `log2`.
use Prim.Native.Nat.{bit_or, ◌^◌}
use native.Mathlib.Nat.{div-add-mod', mod-lt, div-le_self}
use native.Mathlib.Decide.{dec_lt, ℕ_discrete}
use op_magic_trie.Prelude.{
  ℕ, zero, suc, ◌+◌, ◌-◌, ◌*◌, ◌/◌, ◌%◌, ◌≤◌, ◌<◌, ◌≡◌, refl, sym, ap, ◌∙◌, Bool, true, false,
  arith, ◌==◌, if◌then◌else◌,
}
use op_magic_trie.Common.Bits.{bit, bit-or, bit-mask, bit_high, or-lt, pow_pos, pow-lt}
use op_magic_trie.Common.Bitset.{at}
use op_magic_trie.Common.Log2.{log_positions, smear, log2_32}
use op_magic_trie.Common.Log2.Highest.{Highest, highest, eq_of_bits}

bit-shift : (v s j : ℕ) → bit (v / 2 ^ s) j ≡ bit v (s + j)
bit-shift v s j =
    sym (bit_high s (v / 2 ^ s) (v % 2 ^ s) j (mod-lt v (pow_pos s)))
    ∙ ap (λ z. bit z (s + j)) (div-add-mod' v (2 ^ s))

-- The digits at the highest one and below it, as far as `size` of them, are set.
record Fills (h size v : ℕ) : Type 0 where
  below : (j : ℕ) → j ≤ h → h < j + size → bit v j ≡ true
  above : (j : ℕ) → h < j → bit v j ≡ false

Fills-round : (h size v : ℕ) → Fills h size v → Fills h (2 * size) (bit_or v (v / 2 ^ size))
Fills-round h size v f = record {
  below = λ j l m. bit-or v (v / 2 ^ size) j ∙ elim (dec_lt h (j + size)) [
    | yes near ↦ ground (arith, f.below j l near)
    | no far ↦
        let there : bit v (size + j) ≡ true =
          f.below (size + j) (omega (arith, far)) (omega (arith, m)) in
        ground (arith, bit-shift v size j, there)
  ];
  above = λ j l.
      bit-or v (v / 2 ^ size) j
      ∙ ground (arith, f.above j l, bit-shift v size j, f.above (size + j) (omega (arith, l)));
}

or_half-lt : (n v s : ℕ) → v < 2 ^ n → bit_or v (v / 2 ^ s) < 2 ^ n
or_half-lt n v s l = or-lt n v (v / 2 ^ s) l (omega (arith, l, div-le_self v (2 ^ s)))

smear-lt : (n rounds s v : ℕ) → v < 2 ^ n → smear rounds s v < 2 ^ n
unfolding smear
smear-lt n zero s v l = l
smear-lt n (suc rounds) s v l = smear-lt n rounds (2 * s) _ (or_half-lt n v s l)

-- Five rounds fill a word of 32 bits.
smear-Fills : (h v : ℕ) → Fills h 1 v → Fills h 32 (smear 5 1 v)
unfolding smear
smear-Fills h v f =
    Fills-round h 16 _
      (Fills-round h 8 _ (Fills-round h 4 _ (Fills-round h 2 _ (Fills-round h 1 v f))))

-- The word below the power behind the highest digit.
pub smear-Highest : (v h : ℕ) → v < 2 ^ 32 → h < 32 → Highest v h → smear 5 1 v ≡ 2 ^ suc h - 1
smear-Highest v h small hl high =
    eq_of_bits 32 (smear 5 1 v) (2 ^ suc h - 1) (smear-lt 32 5 1 v small) mask_small (λ j l.
      elim (dec_lt h j) [
        | yes past ↦ f.above j past ∙ sym (bit-mask (suc h) j ∙ ground (arith, past))
        | no here ↦
            f.below j (omega (arith, here)) (omega (arith, hl))
            ∙ sym (bit-mask (suc h) j ∙ ground (arith, here))
      ])
  where
    f : Fills h 32 (smear 5 1 v)
    f = smear-Fills h v (record {
      below = λ j l m. let same : j ≡ h = omega (arith, l, m) in ap (bit v) same ∙ high.is_set;
      above = high.above;
    })

    mask_small : 2 ^ suc h - 1 < 2 ^ 32
    mask_small = elim (ℕ_discrete h 31) [
      | yes last ↦ rw last (omega arith)
      | no inner ↦ omega (arith, pow-lt 32 (suc h) (omega (arith, hl, inner)), pow_pos (suc h))
    ]

-- Where the table of the source places the word that is filled up to the digit.
placed : ℕ → ℕ
placed h = at log_positions ((2 ^ suc h - 1) * 0x07C4ACDD % 2 ^ 32 / 2 ^ 27)

checked : ℕ → Bool
checked zero = true
checked (suc h) = let rest = checked h in if placed h == h then rest else false

placed_right : (bound : ℕ) → checked bound ≡ true → (h : ℕ) → h < bound → placed h ≡ h
unfolding checked
placed_right zero e h l = absurd (omega (arith, l))
placed_right (suc bound) e h l = elim (ℕ_discrete h bound) [
  | yes here ↦ rw here (ground (arith, e))
  | no below ↦ placed_right bound (ground (arith, e)) h (omega (arith, l, below))
]

checked_all : checked 32 ≡ true
unfolding checked placed log_positions
checked_all = refl

-- For a word of 32 bits that is not 0, `log2_32` returns the place of its highest set digit.
pub log2_32-Highest : (v : ℕ) → 0 < v → v < 2 ^ 32 → Highest v (log2_32 v) × (log2_32 v < 32)
unfolding log2_32 placed
log2_32-Highest v p l =
    let (h, small, high) = highest 32 v p l in
    let found : at log_positions ((2 ^ suc h - 1) * 0x07C4ACDD % 2 ^ 32 / 2 ^ 27) ≡ h =
      placed_right 32 checked_all h small in
    rw (smear-Highest v h l small high, found) (high, small)
