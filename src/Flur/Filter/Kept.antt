-- ===== src/Flur/Filter/Kept.antt =====
-- The list that a filter produces.
use mathlib.Core.Path.{subst}
use op_magic_trie.Prelude.{
  sym, ◌∙◌, ℕ, zero, suc, ◌<◌, ◌≡◌, refl, ap, Bool, true, false, not, Option, some, List, [], ◌∷◌,
  length, inl, inr, Bool-cases, arith, if◌then◌else◌,
}
use op_magic_trie.Flur.Sequence.{Sequence, Yields, done, more}
use op_magic_trie.Flur.Filter.{
  SequenceState, state_start, state_next, Filter, filter_seek, filter_start, filter_in_range,
  filter_next,
}

module _ {Src E : Type 0} (source : Sequence Src E)
    (predicate : E → SequenceState → Bool × SequenceState) (fuel : ℕ) where
  -- The elements that the predicate keeps until it stops; the step counts the kept ones.
  abbrev pub kept : SequenceState → List E → List E
  kept st [] = []
  kept st (x ∷ xs) =
      let (keep, st') = predicate x st in
      if st'.stop then [] else if keep then x ∷ kept (state_next st') xs else kept st' xs

  -- A loop over the filter, from the state `o`, returns at each step and reads the list.
  pub data Filters : Option (Filter Src) → List E → Type 0 where
    ended :
        (o : Option (Filter Src)) (f : Filter Src)
        → o ≡ some f
        → filter_in_range source predicate f ≡ false
        → Filters o []
    produced :
        (o : Option (Filter Src)) (f : Filter Src) (x : E) (xs : List E)
        → o ≡ some f
        → filter_in_range source predicate f ≡ true
        → source.current f.src ≡ x
        → Filters (filter_next source predicate fuel f) xs
        → Filters o (x ∷ xs)

  abbrev from : Bool → Src → SequenceState → Filter Src
  from end src st = record { end = end; src = src; seq_state = st }

  -- A filter that is stopped produces nothing more, however far its loop runs.
  stopped :
      (rounds : ℕ) (end : Bool) (src : Src) (st : SequenceState)
      → 0 < rounds
      → st.stop ≡ true
      → Filters (filter_seek source predicate rounds (from end src st)) []
  unfolding filter_seek filter_in_range
  stopped zero end src st l s = absurd (omega arith)
  stopped (suc r) true src st l s = ended _ (from true src st) refl refl
  stopped (suc r) false src st l s = ended _ (from false src st) (rw s refl) (rw s refl)

  Filters-same :
      (o p : Option (Filter Src)) (zs ws : List E) → o ≡ p → zs ≡ ws → Filters p ws → Filters o zs
  Filters-same o p zs ws e d h =
      subst (λ r. Filters r zs) (sym e) (subst (λ l. Filters p l) (sym d) h)

  -- A round at an element `x`, before a stop.
  module _ (r : ℕ) (src : Src) (st : SequenceState) (x : E) (xs : List E) (s : st.stop ≡ false)
      (e : source.in_range src ≡ true) (c : source.current src ≡ x) where
    abbrev verdict : Bool × SequenceState
    verdict = predicate x st

    abbrev after : Bool → Option (Filter Src)
    after keep =
        if keep
        then some (from false src verdict.1)
        else filter_seek source predicate r (from false (source.next src) verdict.1)

    abbrev unstopped : Option (Filter Src)
    unstopped =
        let end = not (source.in_range src) in
        let (keep, st') = predicate (source.current src) st in
        if end
        then some (from end src st)
        else if keep
        then some (from end src st')
        else filter_seek source predicate r (from end (source.next src) st')

    seek-round : filter_seek source predicate (suc r) (from false src st) ≡ after verdict.0
    unfolding filter_seek
    seek-round = ap (λ b. if b then some (from false src st) else unstopped) s ∙ rw (e, c) refl

    abbrev list_after : Bool → Bool → List E
    list_after stop keep =
        if stop then [] else if keep then x ∷ kept (state_next verdict.1) xs else kept verdict.1 xs

    round-Filters :
        (stop keep : Bool)
        → verdict.1.stop ≡ stop
        → verdict.0 ≡ keep
        → Filters (after keep) (list_after stop keep)
        → Filters (filter_seek source predicate (suc r) (from false src st)) (kept st (x ∷ xs))
    round-Filters stop keep a b h =
        Filters-same _ _ _ _ (seek-round ∙ ap after b) (λ i. list_after (a i) (b i)) h

  seek-Filters :
      (rounds : ℕ) (src : Src) (st : SequenceState) (xs : List E)
      → length xs < rounds
      → length xs < fuel
      → Yields source src xs
      → st.stop ≡ false
      → Filters (filter_seek source predicate rounds (from false src st)) (kept st xs)
  unfolding filter_seek filter_in_range filter_next state_next
  seek-Filters zero src st xs l m y s = absurd (omega arith)
  seek-Filters (suc r) src st [] l m (done _ e) s = ended _ (from true src st) (rw (s, e) refl) refl
  seek-Filters (suc r) src st (x ∷ xs) l m (more _ _ _ e c y) s =
      let (keep, st') = predicate x st in
      let round = round-Filters r src st x xs s e c in
      elim (Bool-cases st'.stop) [
        | inl halt ↦ elim (Bool-cases keep) [
          | inl k ↦ round true true halt k (ended _ (from false src st') refl (rw halt refl))
          | inr d ↦
              round true false halt d (stopped r false (source.next src) st' (omega arith) halt)
        ]
        | inr on ↦ elim (Bool-cases keep) [
          | inl k ↦
              let rest =
                seek-Filters fuel (source.next src) (state_next st') xs (omega arith) (omega arith)
                  y on in
              round false true on k (
                produced _ (from false src st') x (kept (state_next st') xs) refl (rw on refl) c
                  rest)
          | inr d ↦
              round false false on d
                (seek-Filters r (source.next src) st' xs (omega arith) (omega arith) y on)
        ]
      ]

  abbrev first_step : Filter Src → Bool → Option (Filter Src)
  first_step f inside =
      filter_seek source predicate fuel
        (from (not inside) (source.start f.src) (state_start f.seq_state))

  finished :
      (rounds : ℕ) (src : Src) (st : SequenceState)
      → 0 < rounds
      → Filters (filter_seek source predicate rounds (from true src st)) []
  unfolding filter_seek filter_in_range
  finished zero src st l = absurd (omega arith)
  finished (suc r) src st l = ended _ (from true src st) refl refl

  -- With more fuel than the started source has elements, the filter from `start` on returns at each
  -- step and produces the elements that the predicate keeps, up to the element at which the
  -- predicate stops the sequence, which is not produced; the step that the predicate sees counts
  -- the kept elements.
  pub filter_start-Filters :
      (f : Filter Src) (xs : List E)
      → length xs < fuel
      → Yields source (source.start f.src) xs
      → Filters (filter_start source predicate fuel f) (kept (state_start f.seq_state) xs)
  unfolding filter_start state_start
  filter_start-Filters f [] l (done _ e) =
      Filters-same _ _ _ _ (ap (first_step f) e) refl
        (finished fuel (source.start f.src) (state_start f.seq_state) l)
  filter_start-Filters f (x ∷ xs) l (more _ _ _ e c y) =
      let src = source.start f.src in
      Filters-same _ _ _ _ (ap (first_step f) e) refl
        (seek-Filters fuel src (state_start f.seq_state) (x ∷ xs) l l (more src x xs e c y) refl)
