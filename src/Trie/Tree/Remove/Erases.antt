-- ===== src/Trie/Tree/Remove/Erases.antt =====
-- `erase` of the key of an iterator.
use mathlib.Core.Path.{subst, transport}
use mathlib.Core.List.{append_cancel_left, append-nil}
use op_magic_trie.Prelude.{
  ℕ, ◌≡◌, ◌≢◌, ◌↔◌, refl, sym, ap, ◌∙◌, inl, inr, true, false, Option, some, bind_some, List, [],
  ◌∷◌, ◌++◌, length, arith, Bool-cases, ◌==◌, ==_iff, ==_refl,
}
use op_magic_trie.Trie.Node.{Node, NodeData, has_value}
use op_magic_trie.Trie.Node.Copy.{kv_get_cases}
use op_magic_trie.Trie.Iterator.{TriePosition, TrieIterator, is_end}
use op_magic_trie.Trie.Shape.{Reach, Reach-unique, Down, stemmed, stemmed-some}
use op_magic_trie.Trie.Tree.{Trie, stem_chars, store_node, next_u64}
use op_magic_trie.Trie.Tree.View.{Stored, links, items, IsTrie, items_entry}
use op_magic_trie.Trie.Tree.Gained.{IsTrie-gain}
use op_magic_trie.Trie.Tree.Descent.{iterator, Down-missing, Down-Below, own, deeper, Down-ne_nil}
use op_magic_trie.Trie.Tree.Lookup.{Stored-Down}
use op_magic_trie.Trie.Tree.Written.{entry_link}
use op_magic_trie.Trie.Tree.Navigate.{on_data, next}
use op_magic_trie.Trie.Tree.Navigate.Lex.{LexLt}
use op_magic_trie.Trie.Tree.Navigate.Track.{At, Track, top, down, Track-Reach, Track-Down}
use op_magic_trie.Trie.Tree.Navigate.First.{Within}
use op_magic_trie.Trie.Tree.Navigate.Follows.{Follows, found, finished}
use op_magic_trie.Trie.Tree.Navigate.Next.{next-Follows}
use op_magic_trie.Trie.Tree.Remove.{Removal, previous_u64, erase_loop, erase_impl, erase}
use op_magic_trie.Trie.Tree.Remove.Lost.{ValueLost, erase-ValueLost}
use op_magic_trie.Trie.Tree.Remove.Pruned.{Stored-lost, Stored-kept}
use op_magic_trie.Trie.Tree.Remove.Moved.{Track-moved}
use op_magic_trie.Trie.Tree.Remove.Round.{Same, round_steps, loop_step, loop_end, Track-root}
use op_magic_trie.Trie.Tree.Remove.Unwind.{unwind}

-- The trie `u` has the keys of `t` but `q`.
pub record Without {V : Type 0} (t : Trie V) (q : List ℕ) (u : Trie V) : Type 0 where
  pub trie : IsTrie u
  pub root : u.root ≡ t.root
  pub count : u.count ≡ t.count
  pub stored : (r : List ℕ) (v : V) → Stored u r v ↔ (Stored t r v × (r ≢ q))

module _ {V : Type 0} (t : Trie V) (w : IsTrie t) (ps : List TriePosition) (pre : List ℕ)
    (p : TriePosition) (a k : ℕ) (n : Node V) (e : NodeData V) (path : Track t ps (some a) pre)
    (at : At t p a k n e) (valued : has_value n k ≡ true) where
  abbrev stem : List ℕ
  stem = stem_chars e.stem

  abbrev key : List ℕ
  key = pre ++ k ∷ stem

  module _ (m : Node V) (lost : ValueLost n m k) where
    abbrev after : Trie V
    after = store_node t a m

    after-IsTrie : IsTrie after
    after-IsTrie = IsTrie-gain t after w a n m at.there (λ b. refl) refl lost.good lost.link

    a-Reach : Reach (links t) t.root pre a
    a-Reach = Track-Reach t ps (some a) pre path a refl

    after-Track : Track after ps (some a) pre
    after-Track =
        Track-moved t after refl (length pre)
          (λ c r reach short. elim (Bool-cases (c == a)) [
            | inl same ↦
                let at_a = subst (Reach (links t) t.root r) ((==_iff c a).0 same) reach in
                let paths = Reach-unique (links t) t.root w.forest a r pre at_a a-Reach in
                absurd (omega (arith, short, ap length paths))
            | inr other ↦ rw other refl
          ])
          ps (some a) pre (omega arith) path

    after_node : after.nodes a ≡ some m
    after_node = rw (==_refl a) refl

    -- Nothing is left at the key.
    key_gone : (x : V) → ¬ Stored after key x
    key_gone x h =
        let (a', same, d) =
          Track-Down after ps (some a) pre after-Track k stem x
            (Stored-Down after after-IsTrie key x h) in
        let same_a : a' ≡ a = cc same in
        let low : Down (links after) (items after) a (k ∷ stem) x =
          subst (λ z. Down (links after) (items after) z (k ∷ stem) x) same_a d in
        elim (kv_get_cases m lost.good.node k at.small) [
          | inl (_, empty) ↦ Down-missing after a m after_node k stem x empty lost.bare low
          | inr (e', _, entry) ↦
              elim (Down-Below after a m after_node k stem x at.small e' entry low) [
                | own there _ _ ↦ ground (arith, there, lost.bare)
                | deeper c r inner spells below ↦
                    let whole =
                      sym (entry_link m lost.good k at.small e' entry)
                      ∙ lost.link k
                      ∙ entry_link n (w.good a n at.there) k at.small e at.entry in
                    let (stems, _) =
                      stemmed-some stem e.child (stem_chars e'.stem) c
                        (sym whole ∙ ap (stemmed (stem_chars e'.stem)) inner) in
                    let rest : r ≡ [] =
                      append_cancel_left stem r []
                        (sym (spells ∙ ap (λ z. z ++ r) stems) ∙ sym (append-nil stem)) in
                    Down-ne_nil c x (subst (λ z. Down (links after) (items after) c z x) rest below)
              ]
        ]

    after-Without : Without t key after
    after-Without = record {
      trie = after-IsTrie;
      root = refl;
      count = refl;
      stored = λ r v. (
        λ h. (
          Stored-lost t after w a n m at.there (λ b. refl) refl k lost pre stem e.value a-Reach
              item_here r v h,
          λ same. key_gone v (subst (λ z. Stored after z v) same h),
        ),
        λ h.
            Stored-kept t after w a n m at.there (λ b. refl) refl k lost pre stem e.value a-Reach
              item_here r v h.1 h.0,
      );
    }
      where
        item_here : items t a k ≡ some (stem, e.value)
        item_here = items_entry t a n at.there k at.small e at.entry valued

  Without-Same : (u v : Trie V) → Without t key u → Same u v → Without t key v
  Without-Same u v s r = record {
    trie = r.trie;
    root = r.root ∙ s.root;
    count = r.count ∙ s.count;
    stored = λ q x.
        (λ h. (s.stored q x).0 ((r.stored q x).0 h), λ h. (r.stored q x).1 ((s.stored q x).1 h));
  }

  loop-Without : (u : Trie V) × (erase_loop (p ∷ ps) t true false ≡ some u) × Without t key u
  loop-Without =
      let (m, last, run, lost, empty) =
        erase-ValueLost n (w.good a n at.there) k at.small e at.entry in
      let first = after-Without m lost in
      let step =
        loop_step p ps t true false
        ∙ round_steps (λ u gone. erase_loop ps u false gone) t p true false a k n n m last
            at.address at.key at.there refl run in
      elim (Bool-cases last) [
        | inr more ↦ (after m lost, step ∙ rw more refl, first)
        | inl nothing ↦ elim (Bool-cases (a == t.root)) [
          | inl at_root ↦
              let none_above : ps ≡ [] =
                Track-root t w ps (some a) pre path (ap some ((==_iff a t.root).0 at_root)) in
              (
                after m lost,
                step
                    ∙ rw (nothing, at_root)
                        (ap (λ z. erase_loop z (after m lost) false false) none_above
                          ∙ loop_end (after m lost) false false),
                first,
              )
          | inr below ↦
              let (u, up, rest) =
                unwind ps (after m lost) (some a) pre (after-Track m lost) first.trie a m refl
                  (λ e. ground (arith, e, below)) (after_node m lost) (empty.0 nothing) in
              (u, step ∙ rw (nothing, below) up, Without-Same (after m lost) u first rest)
        ]
      ]

module _ {V : Type 0} (t : Trie V) (w : IsTrie t) where
  erase_loop-Without :
      (ps : List TriePosition) (c : Option ℕ) (pre : List ℕ)
      → Track t ps c pre
      → on_data (iterator ps pre) ≡ true
      → (u : Trie V) × (erase_loop ps t true false ≡ some u) × Without t pre u
  erase_loop-Without _ _ _ top valued = absurd (ground (arith, valued))
  erase_loop-Without _ _ _ (down {ps} {w = pre} {p} {a} {k} {n} {e} path at) valued =
      loop-Without t w ps pre p a k n e path at (sym at.valued ∙ valued)

  counted_down :
      (u : Trie V)
      → IsTrie u
      → IsTrie (record u { count = previous_u64 u.count; version = next_u64 u.version })
  counted_down u x = record {
    good = x.good;
    rooted = x.rooted;
    closed = x.closed;
    forest = x.forest;
  }

  counted_down-Stored :
      (u : Trie V) (q : List ℕ) (v : V)
      → Stored (record u { count = previous_u64 u.count; version = next_u64 u.version }) q v
        ≡ Stored u q v
  unfolding Stored
  counted_down-Stored u q v = refl

  -- What `erase` returns at the iterator.
  pub record Erasure (it : TrieIterator) (r : Removal V) : Type 0 where
    pub trie : IsTrie r.trie
    pub stored : (q : List ℕ) (v : V) → Stored r.trie q v ↔ (Stored t q v × (q ≢ it.prefix))
    pub count : r.trie.count ≡ previous_u64 t.count
    pub erased : r.erased ≡ 1
    pub behind : Follows t (LexLt it.prefix) (some r.iter)

  erase_steps :
      (fuel : ℕ) (it i : TrieIterator) (u : Trie V)
      → is_end it ≡ false
      → next fuel t it true ≡ some i
      → erase_loop it.position_stack t true false ≡ some u
      → erase fuel t it
        ≡ some (record {
          trie = record u { count = previous_u64 u.count; version = next_u64 u.version };
          iter = i;
          erased = 1;
        })
  unfolding erase erase_impl
  erase_steps fuel it i u not_end moved run = rw not_end (bind_some _ moved (bind_some _ run refl))

  -- On a trie under the invariant in which each node has an entry, with fuel for each of its
  -- levels, for an iterator at a value whose positions lead from the root along its prefix, `erase`
  -- returns: a trie under the invariant that stores the keys and values of before but the one of
  -- the prefix, with the count less by one, modulo 2 to the power of 64; the number one; and the
  -- iterator at the least of the stored keys that are greater than the prefix, or the end when
  -- there is none.
  pub erase-Erasure :
      (fuel : ℕ)
      → Within t fuel t.root
      → (it : TrieIterator) (c : Option ℕ) → Track t it.position_stack c it.prefix
      → on_data it ≡ true
      → (r : Removal V) × (erase fuel t it ≡ some r) × Erasure it r
  erase-Erasure fuel levels it c track valued =
      let (u, run, without) = erase_loop-Without it.position_stack c it.prefix track valued in
      let not_end = on_data-is_end it.position_stack it.prefix valued in
      let (i, moved, behind) = returned (next-Follows t w fuel levels it c track not_end) in
      (
        _,
        erase_steps fuel it i u not_end moved run,
        record {
          trie = counted_down u without.trie;
          stored = λ q v. (
            λ h. (without.stored q v).0 (transport (λ j. counted_down-Stored u q v j) h),
            λ h. transport (λ j. sym (counted_down-Stored u q v) j) ((without.stored q v).1 h),
          );
          count = ap previous_u64 without.count;
          erased = refl;
          behind = behind;
        },
      )
    where
      on_data-is_end :
          (ps : List TriePosition) (pre : List ℕ)
          → on_data (iterator ps pre) ≡ true
          → is_end (iterator ps pre) ≡ false
      on_data-is_end [] pre e = absurd (ground (arith, e))
      on_data-is_end (p ∷ ps) pre e = refl

      returned :
          {o : Option TrieIterator}
          → Follows t (LexLt it.prefix) o
          → (i : TrieIterator) × (o ≡ some i) × Follows t (LexLt it.prefix) (some i)
      returned (found i c v out track data_there stored past least) =
          (i, out, found i c v refl track data_there stored past least)
      returned (finished i out at_end gone) = (i, out, finished i refl at_end gone)
