-- ===== src/Common/Bitset/Access.antt =====
-- `get`, `set`, `clear` and `assign` of the bit set, and the iterator that reads it.
use Prim.Native.Nat.{◌^◌}
use op_magic_trie.Prelude.{
  ℕ, ◌-◌, ◌/◌, ◌%◌, ◌<◌, ◌≡◌, ap, ◌∙◌, Bool, true, false, not, ◌&&◌, ◌||◌, arith, Bool-cases, inl,
  inr, ◌==◌, ==_iff, if◌then◌else◌,
}
use op_magic_trie.Common.Bits.{
  bit, bit-and, bit-or, bit-pow, bit-complement, complement, and-pow, pow_pos, bit-zero, or-lt,
  and-lt, pow-lt,
}
use mathlib.Core.Bool.{or_comm, and_comm}
use op_magic_trie.Common.Bitset.{Bitset, bit_not, get, set, clear, assign, empty}

-- Every word fits 64 bits.
abbrev pub IsWords : Bitset → Type 0
IsWords b = (i : ℕ) → b i < 2 ^ 64

pub get-bit : (b : Bitset) (j : ℕ) → get b j ≡ bit (b (j / 64)) (j % 64)
unfolding get
get-bit b j = ground (arith, and-pow (b (j / 64)) (j % 64), pow_pos (j % 64))

same_word : (i j : ℕ) → (j / 64 == i / 64) ≡ true → (j % 64 == i % 64) ≡ (j == i)
same_word i j e = ground arith

other_word : (i j : ℕ) → (j / 64 == i / 64) ≡ false → (j == i) ≡ false
other_word i j e = ground arith

-- After `set` of an index, `get` is true at the index and as before elsewhere.
pub get-set : (b : Bitset) (i j : ℕ) → get (set b i) j ≡ j == i || get b j
unfolding set
get-set b i j =
    rw (get-bit (set b i) j, get-bit b j)
      (elim (Bool-cases (j / 64 == i / 64)) [
        | inl e ↦
            let word : j / 64 ≡ i / 64 = (==_iff _ _).0 e in
            rw (e, ← word, bit-or, bit-pow, same_word i j e)
              (or_comm (bit (b (j / 64)) (j % 64)) (j == i))
        | inr e ↦ rw (e, other_word i j e)
      ])

-- After `clear` of an index, `get` is false at the index and as before elsewhere.
pub get-clear : (b : Bitset) (i j : ℕ) → get (clear b i) j ≡ not (j == i) && get b j
unfolding clear bit_not complement
get-clear b i j =
    rw (get-bit (clear b i) j, get-bit b j)
      (elim (Bool-cases (j / 64 == i / 64)) [
        | inl e ↦
            let word : j / 64 ≡ i / 64 = (==_iff _ _).0 e in
            rw
              (
                e,
                ← word,
                bit-and,
                cleared (i % 64) (j % 64) (omega arith) (omega arith),
                same_word i j e,
              )
              (and_comm (bit (b (j / 64)) (j % 64)) (not (j == i)))
        | inr e ↦ rw (e, other_word i j e)
      ])
  where
    cleared : (k m : ℕ) → k < 64 → m < 64 → bit (2 ^ 64 - 1 - 2 ^ k) m ≡ not (m == k)
    cleared k m h l = bit-complement 64 (2 ^ k) m (pow-lt 64 k h) l ∙ ap not (bit-pow k m)

pub get-assign :
    (b : Bitset) (i j : ℕ) (val : Bool) → get (assign b i val) j ≡ (if j == i then val else get b j)
unfolding assign
get-assign b i j true = get-set b i j ∙ ground arith
get-assign b i j false = get-clear b i j ∙ ground arith

-- A new set is empty.
pub get-empty : (j : ℕ) → get empty j ≡ false
unfolding empty
get-empty j = get-bit empty j ∙ bit-zero (j % 64)

pub empty-IsWords : IsWords empty
unfolding empty
empty-IsWords i = omega arith

pub set-IsWords : (b : Bitset) (i : ℕ) → IsWords b → IsWords (set b i)
unfolding set
set-IsWords b i h j = elim (Bool-cases (j == i / 64)) [
  | inl e ↦
      rw e (or-lt 64 (b (i / 64)) (2 ^ (i % 64)) (h (i / 64)) (pow-lt 64 (i % 64) (omega arith)))
  | inr e ↦ rw e (h j)
]

pub clear-IsWords : (b : Bitset) (i : ℕ) → IsWords b → IsWords (clear b i)
unfolding clear
clear-IsWords b i h j = elim (Bool-cases (j == i / 64)) [
  | inl e ↦ rw e (and-lt 64 (b (i / 64)) _ (h (i / 64)))
  | inr e ↦ rw e (h j)
]
