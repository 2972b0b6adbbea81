-- ===== src/Common/Log2/Tests.antt =====
-- The logarithm and the next power of two of 100.
use Prim.Native.Nat.{◌^◌}
use op_magic_trie.Prelude.{ℕ, ◌*◌, ◌≤◌, ◌<◌, ◌≡◌, refl, arith}
use op_magic_trie.Common.Bitset.{Bitset, empty, set}
use op_magic_trie.Common.Log2.{smear, log_positions, log2_32, ceil_loop, ceil_power}
use op_magic_trie.Common.Log2.Ceiling.{ceil_power_lem}

log2_100 : log2_32 100 ≡ 6
unfolding log2_32 smear log_positions
log2_100 = refl

ceil_power_100 : ceil_power 32 100 ≡ 128
unfolding ceil_power ceil_loop
ceil_power_100 = refl

ceil_power_lem_example : (e : ℕ) × (ceil_power 32 100 ≡ 2 ^ e) × (100 ≤ 2 ^ e) × (2 ^ e < 2 * 100)
ceil_power_lem_example = ceil_power_lem 100 (omega arith) (omega arith)

abbrev two_bits : Bitset
two_bits = set (set empty 3) 200
