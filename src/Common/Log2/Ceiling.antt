-- ===== src/Common/Log2/Ceiling.antt =====
-- `ceil_power`.
use Prim.Native.Nat.{◌^◌}
use native.Mathlib.Nat.{two-pow-succ}
use native.Mathlib.Decide.{ℕ_discrete}
use op_magic_trie.Prelude.{ℕ, suc, ◌+◌, ◌-◌, ◌*◌, ◌%◌, ◌≤◌, ◌<◌, ◌≡◌, refl, ap, ◌∙◌, arith}
use op_magic_trie.Common.Bits.{pow_pos, pow-lt}
use op_magic_trie.Common.Log2.{smear, ceil_loop, ceil_power}
use op_magic_trie.Common.Log2.Highest.{highest}
use op_magic_trie.Common.Log2.Filled.{smear-Highest}

ceil_loop-smear : (v : ℕ) → ceil_loop 7 16 1 v ≡ smear 5 1 v
unfolding ceil_loop smear
ceil_loop-smear v = refl

abbrev ends : ℕ → ℕ
ends z = (z + 1) % 2 ^ 32

ceil_power-smear :
    (v x : ℕ) → (v + (2 ^ 32 - 1)) % 2 ^ 32 ≡ x → ceil_power 32 v ≡ ends (smear 5 1 x)
unfolding ceil_power
ceil_power-smear v x e = ap (λ z. ends (ceil_loop 7 16 1 z)) e ∙ ap ends (ceil_loop-smear x)

smear_zero : ends (smear 5 1 0) ≡ 1
unfolding smear
smear_zero = refl

-- For a number from 1 to 2 to the power of 31, `ceil_power` on a word of 32 bits returns a power of
-- two that is at least the number, and less than twice the number.
pub ceil_power_lem :
    (v : ℕ)
    → 0 < v
    → v ≤ 2 ^ 31
    → (e : ℕ) × (ceil_power 32 v ≡ 2 ^ e) × (v ≤ 2 ^ e) × (2 ^ e < 2 * v)
ceil_power_lem v p l =
    let x = v - 1 in
    let before : (v + (2 ^ 32 - 1)) % 2 ^ 32 ≡ x = omega (arith, p, l) in
    elim (ℕ_discrete x 0) [
      | yes nothing ↦
          let one : v ≡ 1 = omega (arith, nothing, p) in
          (
            0,
            ceil_power-smear v 0 (before ∙ nothing) ∙ smear_zero,
            omega (arith, one),
            omega (arith, one),
          )
      | no more ↦
          let small : x < 2 ^ 31 = omega (arith, p, l) in
          let (h, hl, high) = highest 31 x (omega (arith, more)) small in
          let word : x < 2 ^ 32 = omega (arith, small) in
          let filled = smear-Highest x h word (omega (arith, hl)) high in
          let bound : 2 ^ suc h < 2 ^ 32 = pow-lt 32 (suc h) (omega (arith, hl)) in
          let sum : (2 ^ suc h - 1 + 1) % 2 ^ 32 ≡ 2 ^ suc h =
            omega (arith, bound, pow_pos (suc h)) in
          (
            suc h,
            ceil_power-smear v x before ∙ ap ends filled ∙ sum,
            omega (arith, high.to),
            omega (arith, high.from, two-pow-succ h, p, more),
          )
    ]
