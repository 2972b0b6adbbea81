-- ===== src/Trie/Tree/Remove/Moved.antt =====
-- A track stays one when the nodes above its end stay.
use mathlib.Core.Path.{subst}
use op_magic_trie.Prelude.{
  ℕ, ◌≤◌, ◌<◌, ◌≡◌, refl, ◌∙◌, Option, some, List, [], ◌∷◌, length, length-append, arith,
}
use op_magic_trie.Trie.Iterator.{TriePosition}
use op_magic_trie.Trie.Shape.{Reach}
use op_magic_trie.Trie.Tree.{Trie, stem_chars}
use op_magic_trie.Trie.Tree.View.{links}
use op_magic_trie.Trie.Tree.Navigate.Track.{Track, top, down, Track-Reach}

module _ {V : Type 0} (t u : Trie V) (root' : u.root ≡ t.root) (size : ℕ)
    (keep : (b : ℕ) (r : List ℕ)
      → Reach (links t) t.root r b
      → length r < size
      → u.nodes b ≡ t.nodes b) where
  pub Track-moved :
      (ps : List TriePosition) (c : Option ℕ) (w : List ℕ)
      → length w ≤ size
      → Track t ps c w
      → Track u ps c w
  Track-moved ps c w short top = subst (λ r. Track u [] (some r) []) root' top
  Track-moved _ _ _ short (down {ps} {w} {p} {a} {k} {n} {e} path at) =
      let sizes = length-append w (k ∷ stem_chars e.stem) in
      down (Track-moved ps (some a) w (omega (arith, short, sizes)) path) (record {
        address = at.address;
        there =
            keep a w (Track-Reach t ps (some a) w path a refl) (omega (arith, short, sizes))
            ∙ at.there;
        key = at.key;
        small = at.small;
        entry = at.entry;
        stem = at.stem;
        valued = at.valued;
        linked = at.linked;
      })
