-- ===== src/Trie/Tree/Remove/Unwind.antt =====
-- The loop of `erase_impl` behind a node that is gone.
use op_magic_trie.Prelude.{
  ℕ, ◌≡◌, ◌≢◌, refl, sym, ap, ◌∙◌, inl, inr, true, false, Option, some, List, [], ◌∷◌, arith,
  Bool-cases, ◌==◌, ==_iff,
}
use op_magic_trie.Trie.Node.{Node}
use op_magic_trie.Trie.Iterator.{TriePosition}
use op_magic_trie.Trie.Tree.{Trie}
use op_magic_trie.Trie.Tree.View.{IsTrie}
use op_magic_trie.Trie.Tree.Navigate.Track.{Track, top, down}
use op_magic_trie.Trie.Tree.Remove.{remove_node, erase_loop}
use op_magic_trie.Trie.Tree.Remove.Round.{
  IsBare, Same, loop_step, loop_end, Track-root, after, after-Same, after-Track, after_node,
  round_gone,
}

module _ {V : Type 0} where
  Same-trans : (t u v : Trie V) → Same t u → Same u v → Same t v
  Same-trans t u v s r = record {
    trie = r.trie;
    root = r.root ∙ s.root;
    count = r.count ∙ s.count;
    stored = λ q x.
        (λ h. (s.stored q x).0 ((r.stored q x).0 h), λ h. (r.stored q x).1 ((s.stored q x).1 h));
  }

  -- The loop cuts off empty nodes up to one with an entry, or the root.
  pub unwind :
      (ps : List TriePosition) (t : Trie V) (c : Option ℕ) (pre : List ℕ)
      → Track t ps c pre
      → IsTrie t
      → (a : ℕ) (x : Node V) → c ≡ some a
      → a ≢ t.root
      → t.nodes a ≡ some x
      → IsBare x
      → (u : Trie V) × (erase_loop ps (remove_node t a) false true ≡ some u) × Same t u
  unwind [] t _ _ top w a x inner not_root gone bare =
      let same : t.root ≡ a = cc inner in absurd (not_root (sym same))
  unwind (p ∷ ps) t _ _ (down {w = pre} {a = b} {k} {n} {e} path at) w a x inner not_root gone
        bare =
      let (m, last, lost, empty, run) =
        round_gone t w ps pre p b k n e path at a inner x gone bare
          (λ u child. erase_loop ps u false child) in
      let t' = after t w ps pre p b k n e path at a inner x gone bare m in
      let same = after-Same t w ps pre p b k n e path at a inner x gone bare m lost in
      let step = loop_step p ps (remove_node t a) false true ∙ run in
      elim (Bool-cases last) [
        | inr more ↦ (t', step ∙ rw more refl, same)
        | inl nothing ↦ elim (Bool-cases (b == t.root)) [
          | inl at_root ↦
              let none_above : ps ≡ [] =
                Track-root t w ps (some b) pre path (ap some ((==_iff b t.root).0 at_root)) in
              (
                t',
                step
                    ∙ rw (nothing, at_root)
                        (ap (λ z. erase_loop z t' false true) none_above ∙ loop_end t' false true),
                same,
              )
          | inr below ↦
              let ne : b ≢ t'.root = λ e. ground (arith, e, below) in
              let (u, up, rest) =
                unwind ps t' (some b) pre
                  (after-Track t w ps pre p b k n e path at a inner x gone bare m lost) same.trie b
                  m refl ne (after_node t w ps pre p b k n e path at a inner x gone bare m lost)
                  (empty.0 nothing) in
              (u, step ∙ rw (nothing, below) up, Same-trans t t' u same rest)
        ]
      ]
