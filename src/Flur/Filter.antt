-- ===== src/Flur/Filter.antt =====
-- impl/op/flur/Filter.h with impl/op/flur/SequenceState.h: the elements of a sequence that pass a
-- predicate, which sees the state of the iteration and may stop it.
mod Kept
mod Tests
use Prim.Native.Nat.{◌^◌}
use op_magic_trie.Prelude.{
  ℕ, zero, suc, ◌+◌, ◌%◌, Bool, true, false, not, ◌&&◌, Option, none, some, if◌then◌else◌,
}
use op_magic_trie.Flur.Sequence
use op_magic_trie.Flur.Sequence.{Sequence}

pub record SequenceState : Type 0 where
  pub stop : Bool
  pub generation : ℕ
  pub step : ℕ

-- `Step::next`, on a `size_t` of 64 bits.
abbrev pub step_next : ℕ → ℕ
step_next step = (step + 1) % 2 ^ 64

pub state_start : SequenceState → SequenceState
state_start s = record { stop = false; generation = step_next s.generation; step = 0 }

pub state_next : SequenceState → SequenceState
state_next s = record s { step = step_next s.step }

pub record Filter (Src : Type 0) : Type 0 where
  pub end : Bool
  pub src : Src
  pub seq_state : SequenceState

module _ {Src E : Type 0} (source : Sequence Src E)
    (predicate : E → SequenceState → Bool × SequenceState) where
  -- The loop, with fuel.
  pub filter_seek : ℕ → Filter Src → Option (Filter Src)
  filter_seek zero f = none
  filter_seek (suc fuel) f =
      let end = not (source.in_range f.src) in
      let st = f.seq_state in
      let (keep, st') = predicate (source.current f.src) st in
      let rest =
        filter_seek fuel (record { end = end; src = source.next f.src; seq_state = st' }) in
      if f.end
      then some f
      else if st.stop
      then some f
      else if end
      then some (record f { end = end })
      else if keep
      then some (record { end = end; src = f.src; seq_state = st' })
      else rest

  pub filter_start : ℕ → Filter Src → Option (Filter Src)
  unfolding state_start
  filter_start fuel f =
      let src = source.start f.src in
      filter_seek fuel
        (record { end = not (source.in_range src); src = src; seq_state = state_start f.seq_state })

  pub filter_in_range : Filter Src → Bool
  filter_in_range f = let st = f.seq_state in not f.end && not st.stop

  pub filter_next : ℕ → Filter Src → Option (Filter Src)
  unfolding state_next
  filter_next fuel f =
      filter_seek fuel (record f { src = source.next f.src; seq_state = state_next f.seq_state })
