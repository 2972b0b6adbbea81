-- ===== src/Common/Log2.antt =====
-- impl/op/common/Bitset.h: the logarithm of a word and the next power of two.
mod Highest
mod Filled
mod Ceiling
pub mod Last
mod Tests
use Prim.Native.Nat.{bit_or, ◌^◌}
use op_magic_trie.Prelude.{
  ℕ, zero, suc, ◌+◌, ◌-◌, ◌*◌, ◌/◌, ◌%◌, Bool, Option, none, some, List, ◌==◌, [], ◌∷◌, ltb, leb,
  if◌then◌else◌,
}
use op_magic_trie.Common.Bitset.{Bitset, at, to_dim}

-- `details::MultiplyDeBruijnBitPosition`
pub log_positions : List ℕ
log_positions =
    0 ∷ 9 ∷ 1 ∷ 10 ∷ 13 ∷ 21 ∷ 2 ∷ 29 ∷ 11 ∷ 14 ∷ 16 ∷ 18 ∷ 22 ∷ 25 ∷ 3 ∷ 30 ∷ 8 ∷ 12 ∷ 20 ∷ 28 ∷ 15
    ∷ 17 ∷ 24 ∷ 7 ∷ 19 ∷ 27 ∷ 23 ∷ 6 ∷ 26 ∷ 5 ∷ 4 ∷ 31 ∷ []

-- `v |= v >> shift`, with the shift doubled from round to round.
pub smear : ℕ → ℕ → ℕ → ℕ
smear zero shift v = v
smear (suc rounds) shift v = smear rounds (2 * shift) (bit_or v (v / 2 ^ shift))

pub log2_32 : ℕ → ℕ
unfolding smear log_positions
log2_32 v = at log_positions (smear 5 1 v * 0x07C4ACDD % 2 ^ 32 / 2 ^ 27)

pub log2_64 : ℕ → ℕ
unfolding log2_32
log2_64 v = if ltb 0xFFFF_FFFF v then log2_32 (v / 2 ^ 32 % 2 ^ 32) + 32 else log2_32 (v % 2 ^ 32)

-- The loop of `ceil_power`, of which `limit` is `sizeof(v) << 2`.
pub ceil_loop : ℕ → ℕ → ℕ → ℕ → ℕ
ceil_loop zero limit i v = v
ceil_loop (suc fuel) limit i v =
    let rest = ceil_loop fuel limit (2 * i) (bit_or v (v / 2 ^ i)) in
    if leb i limit then rest else v

-- On a word of `width` bits, 64 at most: a round doubles the shift, so that seven tests are enough.
pub ceil_power : ℕ → ℕ → ℕ
unfolding ceil_loop
ceil_power width v = (ceil_loop 7 (width / 2) 1 ((v + (2 ^ width - 1)) % 2 ^ width) + 1) % 2 ^ width

-- `revert_presence_index`, over the words below `i`.
pub last_loop : ℕ → Bitset → Option ℕ
unfolding log2_64
last_loop zero b = none
last_loop (suc i) b =
    let rest = last_loop i b in if b i == 0 then rest else to_dim (log2_64 (b i) + i * 64)

pub last_set : ℕ → Bitset → Option ℕ
unfolding last_loop
last_set n b = last_loop n b
