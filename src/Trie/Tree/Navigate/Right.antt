-- ===== src/Trie/Tree/Navigate/Right.antt =====
-- The moves of `_next` behind the last position: to the right in its node, or up.
use mathlib.Core.List.{append-nil}
use mathlib.Core.Path.{subst}
use op_magic_trie.Prelude.{
  ℕ, zero, suc, ◌-◌, ◌<◌, ◌≡◌, refl, sym, ap, ◌∙◌, ◌⊎◌, inl, inr, false, Option, none, some,
  bind_some, List, [], ◌∷◌, ◌++◌, length, take, arith, Option-cases, if◌then◌else◌,
}
use op_magic_trie.Common.Bitset.Scan.{LeastFrom}
use op_magic_trie.Trie.Node.{Node, NodeData, presence, presence_first_set, presence_next_set}
use op_magic_trie.Trie.Node.Scan.{next-LeastFrom}
use op_magic_trie.Trie.Node.Copy.{kv_get_cases}
use op_magic_trie.Trie.Iterator.{TriePosition, TrieIterator}
use op_magic_trie.Trie.Shape.{Down}
use op_magic_trie.Trie.Tree.{Trie, stem_chars}
use op_magic_trie.Trie.Tree.View.{links, items, Stored, IsTrie}
use op_magic_trie.Trie.Tree.Descent.{iterator, Down-Below, own, deeper}
use op_magic_trie.Trie.Tree.Lookup.{Down-Stored, Stored-Down}
use op_magic_trie.Trie.Tree.Navigate.{
  loaded, no_first, delta, updating, on_data, load_iterator, enter_deep_until_terminal, load_right,
  next_loop, settle_down, pop,
}
use op_magic_trie.Trie.Tree.Navigate.Lex.{
  LexLe, LexLe-append, Beyond, Beyond-append, Beyond-LexLe, Beyond-longer, Beyond-prefix,
  Beyond-split,
}
use op_magic_trie.Trie.Tree.Navigate.Least.{Down-marked, Down-small, least_at}
use op_magic_trie.Trie.Tree.Navigate.Track.{At, Track, top, down, Track-Down, Down-Track}
use op_magic_trie.Trie.Tree.Navigate.Load.{take_before, landed_at, load_nothing, load_updating}
use op_magic_trie.Trie.Tree.Navigate.First.{
  Within, enter_deep_until_terminal-AtLeast, entry-Settled,
}
use op_magic_trie.Trie.Tree.Navigate.Follows.{
  Follows, found, finished, Follows-same, entry-Within, Track-Within,
}

module _ {V : Type 0} (t : Trie V) (w : IsTrie t) (ps : List TriePosition) (pre : List ℕ)
    (p : TriePosition) (a k : ℕ) (n : Node V) (e : NodeData V) (path : Track t ps (some a) pre)
    (at : At t p a k n e) where
  abbrev stem : List ℕ
  stem = stem_chars e.stem

  abbrev here_at : TrieIterator
  here_at = iterator (p ∷ ps) (pre ++ k ∷ stem)

  -- A key beyond the position is beyond those above, or behind the byte in the node.
  Beyond-cases :
      (q : List ℕ) (x : V)
      → Stored t q x
      → Beyond (pre ++ k ∷ stem) q
      → Beyond pre q
        ⊎ ((j : ℕ) × (r : List ℕ) × (q ≡ pre ++ j ∷ r)
            × (k < j)
            × Down (links t) (items t) a (j ∷ r) x)
  Beyond-cases q x h beyond = elim (Beyond-split pre (k ∷ stem) q beyond) [
    | inl above ↦ inl above
    | inr (r, spells, behind) ↦ inr (inside r spells behind)
  ]
    where
      inside :
          (r : List ℕ)
          → q ≡ pre ++ r
          → Beyond (k ∷ stem) r
          → (j : ℕ) × (s : List ℕ) × (q ≡ pre ++ j ∷ s)
            × (k < j)
            × Down (links t) (items t) a (j ∷ s) x
      inside [] spells behind = absurd behind
      inside (j ∷ s) spells behind =
          let (a', same, d) =
            Track-Down t ps (some a) pre path j s x
              (subst (λ z. Down (links t) (items t) t.root z x) spells (Stored-Down t w q x h)) in
          let same_a : a' ≡ a = cc same in
          let low : Down (links t) (items t) a (j ∷ s) x =
            subst (λ z. Down (links t) (items t) z (j ∷ s) x) same_a d in
          elim behind [
            | inl less ↦ (j, s, spells, less, low)
            | inr (same_j, tail) ↦
                let low_k = subst (λ z. Down (links t) (items t) a (z ∷ s) x) (sym same_j) low in
                elim (Down-Below t a n at.there k s x at.small e at.entry low_k) [
                  | own _ all _ ↦ absurd (
                      Beyond-prefix stem []
                        (subst (Beyond stem) (all ∙ sym (append-nil stem)) tail))
                  | deeper c r _ all _ ↦
                      absurd (Beyond-prefix stem r (subst (Beyond stem) all tail))
                ]
          ]

  cut : take (length (pre ++ k ∷ stem) - delta p.stem_size) (pre ++ k ∷ stem) ≡ pre
  cut =
      ap (λ o. take (length (pre ++ k ∷ stem) - delta o) (pre ++ k ∷ stem)) at.stem
      ∙ take_before pre (k ∷ stem) _ (omega arith)

  pop_here : pop here_at ≡ iterator ps pre
  unfolding pop
  pop_here = ap (λ z. iterator ps z) cut

  load_right_here :
      load_right t here_at
      ≡ load_iterator t (some a) here_at (λ node. presence_next_set node k) updating
  unfolding load_right
  load_right_here =
      bind_some _ at.key
        (ap (λ o. load_iterator t o here_at (λ node. presence_next_set node k) updating) at.address)

  module _ (rounds fuel : ℕ) where
    next_loop_up :
        load_right t here_at ≡ some no_first
        → next_loop (suc rounds) fuel t here_at false ≡ next_loop rounds fuel t (pop here_at) false
    unfolding next_loop
    next_loop_up e = rw (next_loop, e) refl

    next_loop_right :
        (i : TrieIterator) (c : Option ℕ)
        → load_right t here_at ≡ some (loaded i c)
        → next_loop (suc rounds) fuel t here_at false
          ≡ (if on_data i then some i else enter_deep_until_terminal fuel t c i presence_first_set)
    unfolding next_loop settle_down
    next_loop_right i c e = rw (next_loop, e) refl

    -- Nothing is left in the node: what is beyond the position is beyond the one above.
    up-Follows :
        presence_next_set n k ≡ none
        → Follows t (Beyond pre) (next_loop rounds fuel t (iterator ps pre) false)
        → Follows t (Beyond (pre ++ k ∷ stem)) (next_loop (suc rounds) fuel t here_at false)
    up-Follows e f =
        let run =
          next_loop_up (load_right_here ∙ load_nothing t a n at.there _ here_at updating e)
          ∙ ap (λ z. next_loop rounds fuel t z false) pop_here in
        Follows-same t _ _ _ run (elim f [
          | found i c v out track data_there stored past least ↦
              found i c v out track data_there stored (Beyond-longer pre (k ∷ stem) _ past)
                (λ q x h b. least q x h (above q x h b))
          | finished i out at_end gone ↦
              finished i out at_end (λ q x h b. gone q x h (above q x h b))
        ])
      where
        unmarked : LeastFrom (presence n) (suc k) 256 none
        unmarked =
            subst (LeastFrom (presence n) (suc k) 256) e
              (next-LeastFrom n (w.good a n at.there).node k at.small)

        above : (q : List ℕ) (x : V) → Stored t q x → Beyond (pre ++ k ∷ stem) q → Beyond pre q
        above q x h b = elim (Beyond-cases q x h b) [
          | inl beyond ↦ beyond
          | inr (j, r, _, less, d) ↦
              let small = Down-small t w a n at.there j r x d in
              absurd (
                Down-marked t w a n at.there j r x small (unmarked j (omega (arith, less)) small) d)
        ]

    -- The next entry of the node has the least keys beyond the position.
    right-Follows :
        (j : ℕ)
        → presence_next_set n k ≡ some j
        → Within t fuel a
        → Follows t (Beyond (pre ++ k ∷ stem)) (next_loop (suc rounds) fuel t here_at false)
    right-Follows j e below =
        let g = w.good a n at.there in
        let (lo, small, marked, before) =
          subst (LeastFrom (presence n) (suc k) 256) e (next-LeastFrom n g.node k at.small) in
        elim (kv_get_cases n g.node j small) [
          | inl (unmarked, _) ↦ absurd (ground (arith, unmarked, marked))
          | inr (d, _, entry) ↦
              let landing = landed_at t a n at.there (λ m. some j) j small d entry ps pre in
              let (i, run, s) =
                entry-Settled t w a n at.there j small d entry ps pre fuel marked (λ c inner.
                  enter_deep_until_terminal-AtLeast t w fuel c landing
                    (entry-Within t fuel a n j d below at.there small entry c inner)) in
              let right = next_loop_right landing d.child (
                load_right_here
                ∙ load_updating t a n at.there (λ m. presence_next_set m k) j small d entry e p ps
                    (pre ++ k ∷ stem) pre cut) in
              let (c, track) = s.tracks path in
              found i c s.value (right ∙ run) track s.data_there
                (Down-Stored t w i.prefix s.value (
                  subst (λ z. Down (links t) (items t) t.root z s.value) (sym s.spells)
                    (Down-Track t ps (some a) pre path a refl (j ∷ s.key) s.value s.below)))
                (subst (Beyond (pre ++ k ∷ stem)) (sym s.spells)
                  (Beyond-append pre (k ∷ stem) (j ∷ s.key) (inl (omega (arith, lo)))))
                (λ q x h b.
                  subst (λ z. LexLe z q) (sym s.spells)
                    (elim (Beyond-cases q x h b) [
                      | inl beyond ↦ Beyond-LexLe pre (j ∷ s.key) q beyond
                      | inr (m, r, spells, less, low) ↦
                          subst (LexLe (pre ++ j ∷ s.key)) (sym spells) (
                            LexLe-append pre (j ∷ s.key) (m ∷ r) (
                              least_at t w a n at.there (suc k) j small before s.key s.least m r x
                                (omega (arith, less)) low))
                    ]))
        ]

-- With the way down closed, the next key is the least one beyond the position.
pub next_loop-Follows :
    {V : Type 0} (t : Trie V)
    → IsTrie t
    → (fuel : ℕ) → Within t fuel t.root
    → (ps : List TriePosition) (c : Option ℕ) (pre : List ℕ) → Track t ps c pre
    → (rounds : ℕ) → length ps < rounds
    → Follows t (Beyond pre) (next_loop rounds fuel t (iterator ps pre) false)
unfolding next_loop
next_loop-Follows t w fuel below ps c pre track zero enough = absurd (omega (arith, enough))
next_loop-Follows t w fuel below _ _ _ top (suc rounds) enough =
    finished (iterator [] []) refl refl (λ q x h b. b)
next_loop-Follows t w fuel below _ _ _ (down {ps} {w = pre} {p} {a} {k} {n} {e} path at)
      (suc rounds) enough =
    elim (Option-cases (presence_next_set n k)) [
      | inl end ↦
          up-Follows t w ps pre p a k n e path at rounds fuel end
            (next_loop-Follows t w fuel below ps (some a) pre path rounds (omega (arith, enough)))
      | inr (j, more) ↦
          right-Follows t w ps pre p a k n e path at rounds fuel j more
            (Track-Within t fuel below ps (some a) pre path a refl)
    ]
