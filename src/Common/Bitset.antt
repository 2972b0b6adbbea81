-- ===== src/Common/Bitset.antt =====
-- impl/op/common/Bitset.h: bit tricks and the bit set that marks the entries of a trie node.
pub mod Lowest
pub mod Access
pub mod Scan
mod Tests
use Prim.Native.Nat.{bit_and, bit_or, bit_xor, ◌^◌}
use op_magic_trie.Prelude.{
  ℕ, zero, suc, ◌+◌, ◌-◌, ◌*◌, ◌/◌, ◌%◌, Bool, true, false, not, Option, none, some, List, [], ◌∷◌,
  ltb, ◌==◌, if◌then◌else◌,
}

-- `table[i]`, within the 32 entries.
abbrev pub at : List ℕ → ℕ → ℕ
at [] i = 0
at (x ∷ xs) zero = x
at (x ∷ xs) (suc i) = at xs i

-- `MultiplyDeBruijnBitPosition` of `count_trailing_zero_32`.
pub de_bruijn_positions : List ℕ
de_bruijn_positions =
    0 ∷ 1 ∷ 28 ∷ 2 ∷ 29 ∷ 14 ∷ 24 ∷ 3 ∷ 30 ∷ 22 ∷ 20 ∷ 15 ∷ 25 ∷ 17 ∷ 4 ∷ 8 ∷ 31 ∷ 27 ∷ 13 ∷ 23 ∷ 21
    ∷ 19 ∷ 16 ∷ 7 ∷ 26 ∷ 12 ∷ 18 ∷ 6 ∷ 11 ∷ 5 ∷ 10 ∷ 9 ∷ []

-- `~v` on a word of `width` bits.
pub bit_not : ℕ → ℕ → ℕ
bit_not width v = 2 ^ width - 1 - v

pub count_trailing_zero_32 : ℕ → ℕ
unfolding bit_not de_bruijn_positions
count_trailing_zero_32 v =
    let lowest = bit_and v ((bit_not 32 v + 1) % 2 ^ 32) in
    at de_bruijn_positions (lowest * 0x077CB531 % 2 ^ 32 / 2 ^ 27)

pub count_trailing_zero_64 : ℕ → ℕ
count_trailing_zero_64 v =
    if bit_and v 0xFFFF_FFFF == 0
    then count_trailing_zero_32 (v / 2 ^ 32 % 2 ^ 32) + 32
    else count_trailing_zero_32 (v % 2 ^ 32)

-- `Bitset<N, std::uint64_t>`: `N` words. `N` is an argument of the operations that scan them, and
-- `nil_c` is `none`.
abbrev pub Bitset : Type 0
Bitset = ℕ → ℕ

-- The constructor with its default argument.
pub empty : Bitset
empty i = 0

-- `_presence[i] = w`
abbrev pub put : Bitset → ℕ → ℕ → Bitset
put b i w j = if j == i then w else b j

pub get : Bitset → ℕ → Bool
get b index = not (bit_and (b (index / 64)) (2 ^ (index % 64)) == 0)

pub set : Bitset → ℕ → Bitset
set b index = put b (index / 64) (bit_or (b (index / 64)) (2 ^ (index % 64)))

pub clear : Bitset → ℕ → Bitset
unfolding bit_not
clear b index = put b (index / 64) (bit_and (b (index / 64)) (bit_not 64 (2 ^ (index % 64))))

unfoldable pub assign : Bitset → ℕ → Bool → Bitset
assign b index val = if val then set b index else clear b index

-- The previous state, and the set after it.
pub toggle : Bitset → ℕ → Bitset × Bool
toggle b index =
    let mask = 2 ^ (index % 64) in
    let word = bit_xor (b (index / 64)) mask in (put b (index / 64) word, bit_and word mask == 0)

-- `static_cast<dim_t>`: an index modulo 2 ^ 16, of which the last number is `nil_c`.
pub to_dim : ℕ → Option ℕ
to_dim index = if index % 2 ^ 16 == 0xFFFF then none else some (index % 2 ^ 16)

-- The loops over the words from `i` up; `rounds` words are left.
first_loop : ℕ → Bitset → ℕ → Option ℕ
unfolding to_dim
first_loop zero b i = none
first_loop (suc rounds) b i =
    let rest = first_loop rounds b (i + 1) in
    if b i == 0 then rest else to_dim (count_trailing_zero_64 (b i) + i * 64)

pub first_set : ℕ → Bitset → Option ℕ
first_set n b = first_loop n b 0

-- The mask hides bits of the first word only.
next_loop : ℕ → Bitset → ℕ → ℕ → Option ℕ
unfolding to_dim
next_loop zero b i mask = none
next_loop (suc rounds) b i mask =
    let rest = next_loop rounds b (i + 1) 0 in
    let x = bit_and (b i) (bit_not 64 mask) in
    if x == 0 then rest else to_dim (count_trailing_zero_64 x + i * 64)

pub next_set : ℕ → Bitset → ℕ → Option ℕ
unfolding next_loop
next_set n b prev =
    let mask = 2 ^ (prev % 64) in next_loop (n - prev / 64) b (prev / 64) (bit_or mask (mask - 1))

pub next_set_or_this : ℕ → Bitset → ℕ → Option ℕ
unfolding next_loop
next_set_or_this n b prev = next_loop (n - prev / 64) b (prev / 64) (2 ^ (prev % 64) - 1)

-- `BitsetIterator::operator[]`, over the same words.
pub iterator_at : ℕ → Bitset → ℕ → Bool
iterator_at n b index = not (bit_and (b (n - 1 - index / 64)) (2 ^ (index % 64)) == 0)
