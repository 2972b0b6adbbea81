-- ===== src/Common/Bitset/Tests.antt =====
-- The bit set of four words with the bits 3 and 200, and the theorems at this set.
use Prim.Native.Nat.{◌^◌}
use op_magic_trie.Prelude.{◌+◌, ◌*◌, ◌<◌, ◌≡◌, refl, true, not, ◌&&◌, ◌||◌, none, some, arith, ◌==◌}
use op_magic_trie.Common.Bitset.{
  Bitset, empty, get, set, clear, first_set, first_loop, next_set, next_loop, next_set_or_this,
  iterator_at, count_trailing_zero_32, count_trailing_zero_64, de_bruijn_positions, bit_not, to_dim,
}
use op_magic_trie.Common.Bitset.Lowest.{Lowest, count_trailing_zero_64-Lowest}
use op_magic_trie.Common.Bitset.Access.{IsWords, get-set, get-clear, empty-IsWords, set-IsWords}
use op_magic_trie.Common.Bitset.Scan.{
  LeastFrom, first_set-LeastFrom, next_set-LeastFrom, next_set_or_this-LeastFrom,
}

abbrev sample : Bitset
sample = set (set empty 3) 200

sample-IsWords : IsWords sample
sample-IsWords = set-IsWords (set empty 3) 200 (set-IsWords empty 3 empty-IsWords)

program : Unit {0}
unfolding empty get set clear first_set first_loop next_set next_loop next_set_or_this iterator_at
    count_trailing_zero_32 count_trailing_zero_64 de_bruijn_positions bit_not to_dim
program = tt

first_three : first_set 4 sample ≡ some 3
unfolding program
first_three = refl

next_two_hundred : next_set 4 sample 3 ≡ some 200
unfolding program
next_two_hundred = refl

next_none : next_set 4 sample 200 ≡ none
unfolding program
next_none = refl

-- The iterator finds the bit 200 at 8, in the word that it reads first.
iterator_reads : iterator_at 4 sample 8 ≡ true
unfolding program
iterator_reads = refl

get-set_example : get (set sample 77) 3 ≡ (3 == 77) || get sample 3
get-set_example = get-set sample 77 3

get-clear_example : get (clear sample 200) 3 ≡ not (3 == 200) && get sample 3
get-clear_example = get-clear sample 200 3

first_set-LeastFrom_example : LeastFrom (get sample) 0 (4 * 64) (first_set 4 sample)
first_set-LeastFrom_example = first_set-LeastFrom 4 sample (omega arith) sample-IsWords

next_set-LeastFrom_example : LeastFrom (get sample) 4 (4 * 64) (next_set 4 sample 3)
next_set-LeastFrom_example =
    next_set-LeastFrom 4 sample 3 (omega arith) sample-IsWords (omega arith)

next_set_or_this-LeastFrom_example :
    LeastFrom (get sample) 200 (4 * 64) (next_set_or_this 4 sample 200)
next_set_or_this-LeastFrom_example =
    next_set_or_this-LeastFrom 4 sample 200 (omega arith) sample-IsWords (omega arith)

count_trailing_zero_64-Lowest_example :
    Lowest (2 ^ 40 + 2 ^ 63) (count_trailing_zero_64 (2 ^ 40 + 2 ^ 63))
    × (count_trailing_zero_64 (2 ^ 40 + 2 ^ 63) < 64)
count_trailing_zero_64-Lowest_example =
    count_trailing_zero_64-Lowest (2 ^ 40 + 2 ^ 63) (omega arith) (omega arith)
