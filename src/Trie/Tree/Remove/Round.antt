-- ===== src/Trie/Tree/Remove/Round.antt =====
-- A round of the loop of `erase_impl` at the parent of a node that is gone.
use mathlib.Core.Path.{subst}
use op_magic_trie.Prelude.{
  ℕ, ◌<◌, ◌≡◌, ◌↔◌, refl, ap, ◌∙◌, inl, inr, Bool, true, false, Option, none, some, bind_some, List,
  [], ◌∷◌, ◌++◌, length, length-append, arith, Bool-cases, ◌==◌, ==_iff, ==_refl, if◌then◌else◌,
}
use op_magic_trie.Trie.Node.{Node, NodeData, presence}
use op_magic_trie.Trie.Node.Scan.{is_some}
use op_magic_trie.Trie.Node.Entries
use op_magic_trie.Trie.Node.Entries.{remove_child}
use op_magic_trie.Trie.Iterator.{TriePosition}
use op_magic_trie.Trie.Shape.{Reach, Reach-unique, stemmed}
use op_magic_trie.Trie.Tree.{Trie, stem_chars, store_node}
use op_magic_trie.Trie.Tree.View.{Stored, links, IsTrie, links_entry}
use op_magic_trie.Trie.Tree.Navigate.Track.{At, Track, top, down, Track-Reach}
use op_magic_trie.Trie.Tree.Remove.{remove_node, erase_round, erase_loop}
use op_magic_trie.Trie.Tree.Remove.Orphan.{ChildLost, erase-ChildLost}
use op_magic_trie.Trie.Tree.Remove.Pruned.{bare_links, IsTrie-prune, Stored-prune}
use op_magic_trie.Trie.Tree.Remove.Moved.{Track-moved}

module _ {V : Type 0} where
  abbrev pub IsBare : Node V → Type 0
  IsBare n = (k : ℕ) → k < 256 → presence n k ≡ false

  -- The trie `u` has the keys of `t`.
  pub record Same (t u : Trie V) : Type 0 where
    pub trie : IsTrie u
    pub root : u.root ≡ t.root
    pub count : u.count ≡ t.count
    pub stored : (q : List ℕ) (v : V) → Stored u q v ↔ Stored t q v

  -- A round, by what the steps return.
  pub round_steps :
      (further : Trie V → Bool → Option (Trie V)) (t : Trie V) (p : TriePosition)
      (first child_gone : Bool) (a k : ℕ) (n c m : Node V) (last : Bool)
      → p.address ≡ some a
      → p.key ≡ some k
      → t.nodes a ≡ some n
      → (if child_gone then remove_child n k else some n) ≡ some c
      → Entries.erase c k first ≡ some (m, last)
      → erase_round further t p first child_gone ≡ (
          if last
          then (if a == t.root
              then further (store_node t a m) child_gone
              else further (remove_node (store_node t a m) a) true)
          else some (store_node t a m))
  unfolding erase_round remove_node
  round_steps further t p first child_gone a k n c m last address key there dropped erased =
      bind_some _ address
        (bind_some _ key (bind_some _ there (bind_some _ dropped (bind_some _ erased refl))))

  pub loop_step :
      (p : TriePosition) (ps : List TriePosition) (t : Trie V) (first child_gone : Bool)
      → erase_loop (p ∷ ps) t first child_gone
        ≡ erase_round (λ u gone. erase_loop ps u false gone) t p first child_gone
  unfolding erase_loop
  loop_step p ps t first child_gone = refl

  pub loop_end : (t : Trie V) (first child_gone : Bool) → erase_loop [] t first child_gone ≡ some t
  unfolding erase_loop
  loop_end t first child_gone = refl

  -- Only the track with no position leads to the root.
  pub Track-root :
      (t : Trie V)
      → IsTrie t
      → (ps : List TriePosition) (c : Option ℕ) (w : List ℕ) → Track t ps c w
      → c ≡ some t.root
      → ps ≡ []
  Track-root t w ps c pre top e = refl
  Track-root t w _ _ _ (down {ps} {w = pre} {p} {a} {k} {n} {e = d} path at) e = absurd (
      w.forest.top a k (stem_chars d.stem)
        (links_entry t a n at.there k at.small d at.entry ∙ ap (stemmed (stem_chars d.stem)) e))

  module _ (t : Trie V) (w : IsTrie t) (ps : List TriePosition) (pre : List ℕ) (p : TriePosition)
      (b k : ℕ) (n : Node V) (e : NodeData V) (path : Track t ps (some b) pre) (at : At t p b k n e)
      (a : ℕ) (inner : e.child ≡ some a) (x : Node V) (gone : t.nodes a ≡ some x)
      (bare : IsBare x) where
    abbrev stem : List ℕ
    stem = stem_chars e.stem

    link : links t b k ≡ some (stem, a)
    link = links_entry t b n at.there k at.small e at.entry ∙ ap (stemmed stem) inner

    apart : (b == a) ≡ false
    apart = elim (Bool-cases (b == a)) [
      | inl same ↦
          let empty : links t b k ≡ none =
            ap (λ z. links t z k) ((==_iff b a).0 same) ∙ bare_links t w a x gone bare k in
          absurd (ground (arith, empty, link))
      | inr other ↦ other
    ]

    -- The trie without the node and the link to it.
    abbrev pub after : Node V → Trie V
    after m = store_node (remove_node t a) b m

    module _ (m : Node V) (lost : ChildLost n m k) where
      pub after-Same : Same t (after m)
      unfolding remove_node
      after-Same = record {
        trie =
            IsTrie-prune t (after m) w b k a n m x stem at.there gone bare link (λ c. refl) refl
              lost;
        root = refl;
        count = refl;
        stored =
            Stored-prune t (after m) w b k a n m x stem at.there gone bare link (λ c. refl) refl
              lost;
      }

      -- The nodes above stay.
      keep :
          (c : ℕ) (r : List ℕ)
          → Reach (links t) t.root r c
          → length r < length pre
          → (after m).nodes c ≡ t.nodes c
      unfolding remove_node
      keep c r reach short =
          let at_b = Track-Reach t ps (some b) pre path b refl in
          let at_a = Track-Reach t (p ∷ ps) e.child (pre ++ k ∷ stem) (down path at) a inner in
          elim (Bool-cases (c == b)) [
            | inl same ↦
                let same_b : c ≡ b = (==_iff c b).0 same in
                let paths =
                  Reach-unique (links t) t.root w.forest b r pre
                    (subst (Reach (links t) t.root r) same_b reach) at_b in
                absurd (omega (arith, short, ap length paths))
            | inr not_b ↦ elim (Bool-cases (c == a)) [
              | inl same ↦
                  let same_a : c ≡ a = (==_iff c a).0 same in
                  let paths =
                    Reach-unique (links t) t.root w.forest a r (pre ++ k ∷ stem)
                      (subst (Reach (links t) t.root r) same_a reach) at_a in
                  absurd (omega (arith, short, ap length paths, length-append pre (k ∷ stem)))
              | inr not_a ↦ rw (not_b, not_a) refl
            ]
          ]

      pub after-Track : Track (after m) ps (some b) pre
      unfolding remove_node
      after-Track =
          Track-moved t (after m) refl (length pre) keep ps (some b) pre (omega arith) path

      pub after_node : (after m).nodes b ≡ some m
      unfolding remove_node
      after_node = rw (==_refl b) refl

    -- The round at the parent of a node that is gone.
    pub round_gone :
        (further : Trie V → Bool → Option (Trie V))
        → (m : Node V) × (last : Bool) × ChildLost n m k
          × ((last ≡ true) ↔ IsBare m)
          × (erase_round further (remove_node t a) p false true ≡ (
              if last
              then (if b == t.root
                  then further (after m) true
                  else further (remove_node (after m) b) true)
              else some (after m)))
    unfolding remove_node
    round_gone further =
        let (u, m, last, run, again, lost, empty) =
          erase-ChildLost n (w.good b n at.there) k at.small e at.entry
            ((w.good b n at.there).linked k e at.small at.entry ∙ ap is_some inner) in
        (
          m,
          last,
          lost,
          empty,
          round_steps further (remove_node t a) p false true b k n u m last at.address at.key
              (rw apart at.there) run again,
        )
