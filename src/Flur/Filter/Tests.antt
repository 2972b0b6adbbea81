-- ===== src/Flur/Filter/Tests.antt =====
-- The filter of 1 to 5 by a predicate that keeps odd numbers and stops at 4, and the theorem there.
use op_magic_trie.Prelude.{
  ℕ, ◌≡◌, refl, Bool, true, false, List, [], ◌∷◌, arith, ◌%◌, ◌==◌, if◌then◌else◌,
}
use op_magic_trie.Flur.Sequence.{Sequence, Yields, done, more}
use op_magic_trie.Flur.Filter.{SequenceState, state_start, state_next, Filter, filter_start}
use op_magic_trie.Flur.Filter.Kept.{kept, Filters, filter_start-Filters}

abbrev not_empty : List ℕ → Bool
not_empty [] = false
not_empty (x ∷ xs) = true

abbrev head : List ℕ → ℕ
head [] = 0
head (x ∷ xs) = x

abbrev tail : List ℕ → List ℕ
tail [] = []
tail (x ∷ xs) = xs

abbrev items : List ℕ
items = 1 ∷ 2 ∷ 3 ∷ 4 ∷ 5 ∷ []

abbrev source : Sequence (List ℕ) ℕ
source = record { start = λ _. items; in_range = not_empty; current = head; next = tail }

source-Yields : (xs : List ℕ) → Yields source xs xs
source-Yields [] = done [] refl
source-Yields (x ∷ xs) = more (x ∷ xs) x xs refl refl (source-Yields xs)

abbrev odd_below_four : ℕ → SequenceState → Bool × SequenceState
odd_below_four x st = (x % 2 == 1, if x == 4 then record st { stop = true } else st)

abbrev unstarted : Filter (List ℕ)
unstarted = record {
  end = true;
  src = [];
  seq_state = record { stop = false; generation = 0; step = 0 };
}

odd_items : kept source odd_below_four 10 (state_start unstarted.seq_state) items ≡ 1 ∷ 3 ∷ []
unfolding state_start state_next
odd_items = refl

filter_start-Filters_example :
    Filters source odd_below_four 10
      (filter_start source odd_below_four 10 unstarted)
      (kept source odd_below_four 10 (state_start unstarted.seq_state) items)
filter_start-Filters_example =
    filter_start-Filters source odd_below_four 10 unstarted items (omega arith)
      (source-Yields items)
