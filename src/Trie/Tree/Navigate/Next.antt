-- ===== src/Trie/Tree/Navigate/Next.antt =====
-- `_next` with the way down open.
use mathlib.Core.Path.{subst}
use op_magic_trie.Prelude.{
  ℕ, suc, ◌≡◌, refl, sym, ap, ◌∙◌, inl, inr, true, false, Option, none, some, bind_some, List, [],
  ◌∷◌, ◌++◌, length, arith, Bool-cases, Option-cases,
}
use op_magic_trie.Trie.Node.{Node, NodeData, presence_first_set, has_child}
use op_magic_trie.Trie.Node.Update.{get_child_lem}
use op_magic_trie.Trie.Iterator.{TriePosition, TrieIterator, is_end}
use op_magic_trie.Trie.Shape.{Down}
use op_magic_trie.Trie.Tree.{Trie, stem_chars}
use op_magic_trie.Trie.Tree.View.{links, items, Stored, IsTrie}
use op_magic_trie.Trie.Tree.Descent.{iterator, Down-ne_nil}
use op_magic_trie.Trie.Tree.Lookup.{Down-Stored, Stored-Down}
use op_magic_trie.Trie.Tree.Navigate.{
  over_child, enter_deep_until_terminal, child_of, next_loop, next,
}
use op_magic_trie.Trie.Tree.Navigate.Lex.{
  LexLe, LexLe-append, LexLt, LexLt-prefix, LexLt-split, Beyond, Beyond-LexLe, Beyond-LexLt,
}
use op_magic_trie.Trie.Tree.Navigate.Track.{At, Track, top, down, Track-Down, Down-Track}
use op_magic_trie.Trie.Tree.Navigate.First.{Within, enter_deep_until_terminal-AtLeast}
use op_magic_trie.Trie.Tree.Navigate.Follows.{
  Follows, found, finished, Follows-same, entry-Within, Track-Within,
}
use op_magic_trie.Trie.Tree.Navigate.Right.{next_loop-Follows}

module _ {V : Type 0} (t : Trie V) (w : IsTrie t) (ps : List TriePosition) (pre : List ℕ)
    (p : TriePosition) (a k : ℕ) (n : Node V) (e : NodeData V) (path : Track t ps (some a) pre)
    (at : At t p a k n e) (fuel : ℕ) (levels : Within t fuel t.root) where
  abbrev whole : List ℕ
  whole = pre ++ k ∷ stem_chars e.stem

  abbrev here_at : TrieIterator
  here_at = iterator (p ∷ ps) whole

  here-Track : Track t (p ∷ ps) e.child whole
  here-Track = down path at

  next_right :
      has_child n k ≡ false
      → next fuel t here_at true ≡ next_loop (suc (suc (length ps))) fuel t here_at false
  unfolding next next_loop
  next_right leaf = let not_over : over_child here_at ≡ false = at.linked ∙ leaf in rw not_over refl

  child_of_here : has_child n k ≡ true → child_of t here_at ≡ some e.child
  unfolding child_of
  child_of_here inner =
      let (d, entry, got) = get_child_lem n (w.good a n at.there).node k at.small inner in
      let same : d ≡ e = cc (entry, at.entry) in
      bind_some _ at.address
        (bind_some _ at.there (bind_some _ at.key (got ∙ ap (λ z. some (child_field z)) same)))
    where
      child_field : NodeData V → Option ℕ
      child_field d = d.child

  next_down :
      has_child n k ≡ true
      → next fuel t here_at true
        ≡ enter_deep_until_terminal fuel t e.child here_at presence_first_set
  unfolding next next_loop
  next_down inner =
      let over : over_child here_at ≡ true = at.linked ∙ inner in
      rw over (bind_some _ (child_of_here inner) refl)

  leaf-Follows : has_child n k ≡ false → Follows t (LexLt whole) (next fuel t here_at true)
  leaf-Follows leaf =
      Follows-same t _ _ _ (next_right leaf)
        (elim (next_loop-Follows t w fuel levels (p ∷ ps) e.child whole here-Track
          (suc (suc (length ps))) (omega arith)) [
            | found i c v out track data_there stored past least ↦
                found i c v out track data_there stored (Beyond-LexLt whole i.prefix past)
                  (λ q x h less. least q x h (beyond q x h less))
            | finished i out at_end gone ↦
                finished i out at_end (λ q x h less. gone q x h (beyond q x h less))
          ])
    where
      no_child : e.child ≡ none
      no_child = elim (Option-cases e.child) [
        | inl none_there ↦ none_there
        | inr (c, inner) ↦
            absurd (ground (arith, (w.good a n at.there).linked k e at.small at.entry, leaf, inner))
      ]

      beyond : (q : List ℕ) (x : V) → Stored t q x → LexLt whole q → Beyond whole q
      beyond q x h less = elim (LexLt-split whole q less) [
        | inl b ↦ b
        | inr (b, r, spells) ↦
            let (c, inner, _) =
              Track-Down t (p ∷ ps) e.child whole here-Track b r x
                (subst (λ z. Down (links t) (items t) t.root z x) spells (Stored-Down t w q x h)) in
            absurd (ground (arith, inner, no_child))
      ]

  child-Follows :
      (c : ℕ)
      → e.child ≡ some c
      → has_child n k ≡ true
      → Follows t (LexLt whole) (next fuel t here_at true)
  child-Follows c inner linked =
      let (i, run, s) = enter_deep_until_terminal-AtLeast t w fuel c here_at (
        entry-Within t fuel a n k e (Track-Within t fuel levels ps (some a) pre path a refl)
          at.there at.small at.entry c inner) in
      let track_c : Track t (p ∷ ps) (some c) whole =
        subst (λ z. Track t (p ∷ ps) z whole) inner here-Track in
      let (c', track) = s.tracks track_c in
      found i c' s.value
        (next_down linked
          ∙ ap (λ z. enter_deep_until_terminal fuel t z here_at presence_first_set) inner
          ∙ run)
        track s.data_there
        (Down-Stored t w i.prefix s.value (
          subst (λ z. Down (links t) (items t) t.root z s.value) (sym s.spells)
            (Down-Track t (p ∷ ps) (some c) whole track_c c refl s.key s.value s.below)))
        (subst (LexLt whole) (sym s.spells) (longer s.key s.value s.below))
        (λ q x h less.
          subst (λ z. LexLe z q) (sym s.spells)
            (elim (LexLt-split whole q less) [
              | inl b ↦ Beyond-LexLe whole s.key q b
              | inr (b, r, spells) ↦
                  let (c'', same, d) = Track-Down t (p ∷ ps) (some c) whole track_c b r x (
                    subst (λ z. Down (links t) (items t) t.root z x) spells
                      (Stored-Down t w q x h)) in
                  let same_c : c'' ≡ c = cc same in
                  subst (LexLe (whole ++ s.key)) (sym spells) (
                    LexLe-append whole s.key (b ∷ r) (
                      s.least (b ∷ r) x
                        (subst (λ z. Down (links t) (items t) z (b ∷ r) x) same_c d)))
            ]))
    where
      longer :
          (key : List ℕ) (v : V) → Down (links t) (items t) c key v → LexLt whole (whole ++ key)
      longer [] v d = absurd (Down-ne_nil c v d)
      longer (b ∷ r) v d = LexLt-prefix whole b r

  pub here-Follows : Follows t (LexLt whole) (next fuel t here_at true)
  here-Follows = elim (Bool-cases (has_child n k)) [
    | inr leaf ↦ leaf-Follows leaf
    | inl linked ↦ elim (Option-cases e.child) [
      | inr (c, inner) ↦ child-Follows c inner linked
      | inl gone ↦
          absurd (ground (arith, (w.good a n at.there).linked k e at.small at.entry, linked, gone))
    ]
  ]

module _ {V : Type 0} (t : Trie V) (w : IsTrie t) where
  track-Follows :
      (fuel : ℕ)
      → Within t fuel t.root
      → (ps : List TriePosition) (c : Option ℕ) (pre : List ℕ) → Track t ps c pre
      → is_end (iterator ps pre) ≡ false
      → Follows t (LexLt pre) (next fuel t (iterator ps pre) true)
  track-Follows fuel levels _ _ _ top not_end = absurd (ground (arith, not_end))
  track-Follows fuel levels _ _ _ (down {ps} {w = pre} {p} {a} {k} {n} {e} path at) not_end =
      here-Follows t w ps pre p a k n e path at fuel levels

  -- On a trie under the invariant in which each node has an entry, with fuel for each of its
  -- levels, from an iterator that is not the end and whose positions lead from the root along its
  -- prefix, `_next` returns: either an iterator of the same kind at the least of the stored keys
  -- that are greater than the prefix, or the end when no stored key is greater.
  pub next-Follows :
      (fuel : ℕ)
      → Within t fuel t.root
      → (it : TrieIterator) (c : Option ℕ) → Track t it.position_stack c it.prefix
      → is_end it ≡ false
      → Follows t (LexLt it.prefix) (next fuel t it true)
  next-Follows fuel levels it c track not_end =
      track-Follows fuel levels it.position_stack c it.prefix track not_end
