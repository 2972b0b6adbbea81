-- ===== src/Trie/Tree/Navigate/Track.antt =====
-- An iterator that a walk from the root has left: each of its positions is at an entry, and the next
-- one is in the child of that entry.
use mathlib.Core.Path.{subst}
use mathlib.Core.List.{append_assoc, append_cancel_left}
use op_magic_trie.Prelude.{
  ℕ, ◌<◌, ◌≡◌, refl, sym, ap, ◌∙◌, Option, some, List, [], ◌∷◌, ◌++◌, length,
}
use op_magic_trie.Trie.Node.{Node, NodeData, has_child, has_value, kv_get}
use op_magic_trie.Trie.Iterator.{TriePosition}
use op_magic_trie.Trie.Shape.{Reach, here, step, Down, stemmed, Holds-Down, Down-Holds}
use op_magic_trie.Trie.Tree.{Trie, stem_chars}
use op_magic_trie.Trie.Tree.View.{links, items, links_entry}
use op_magic_trie.Trie.Tree.Descent.{Down-Below, own, deeper}
use op_magic_trie.Trie.Tree.Walk.{longer_self}

module _ {V : Type 0} (t : Trie V) where
  -- The position is at the entry of the byte `k` of the node at `a`, behind its stem.
  pub record At (p : TriePosition) (a k : ℕ) (n : Node V) (e : NodeData V) : Type 0 where
    pub address : p.address ≡ some a
    pub there : t.nodes a ≡ some n
    pub key : p.key ≡ some k
    pub small : k < 256
    pub entry : kv_get n k ≡ some e
    pub stem : p.stem_size ≡ some (length (stem_chars e.stem))
    pub valued : p.has_data ≡ has_value n k
    pub linked : p.has_child ≡ has_child n k

  -- The positions spell a string, and lead to a child.
  pub data Track : List TriePosition → Option ℕ → List ℕ → Type 0 where
    top : Track [] (some t.root) []
    down :
        {ps : List TriePosition} {w : List ℕ} {p : TriePosition} {a k : ℕ} {n : Node V}
        {e : NodeData V}
        → Track ps (some a) w
        → At p a k n e
        → Track (p ∷ ps) e.child (w ++ k ∷ stem_chars e.stem)

  pub Track-Reach :
      (ps : List TriePosition) (c : Option ℕ) (w : List ℕ)
      → Track ps c w
      → (a : ℕ) → c ≡ some a
      → Reach (links t) t.root w a
  Track-Reach ps c w top a e = let same : a ≡ t.root = cc e in here refl same
  Track-Reach _ _ _ (down {ps} {w} {p} {a = b} {k} {n} {e = d} path at) a e =
      step w (stem_chars d.stem) b k (Track-Reach ps (some b) w path b refl)
        (links_entry t b n at.there k at.small d at.entry ∙ ap (stemmed (stem_chars d.stem)) e) refl

  -- What lies below the root behind the string of a track lies below its child.
  pub Track-Down :
      (ps : List TriePosition) (c : Option ℕ) (w : List ℕ)
      → Track ps c w
      → (b : ℕ) (r : List ℕ) (v : V) → Down (links t) (items t) t.root (w ++ b ∷ r) v
      → (a : ℕ) × (c ≡ some a) × Down (links t) (items t) a (b ∷ r) v
  Track-Down ps c w top b r v d = (t.root, refl, d)
  Track-Down _ _ _ (down {ps} {w} {p} {a} {k} {n} {e} path at) b r v d =
      let stem = stem_chars e.stem in
      let spells = append_assoc w (k ∷ stem) (b ∷ r) in
      let (a', same, below) =
        Track-Down ps (some a) w path k (stem ++ b ∷ r) v
          (subst (λ z. Down (links t) (items t) t.root z v) spells d) in
      let same_a : a' ≡ a = cc same in
      elim (Down-Below t a n at.there k (stem ++ b ∷ r) v at.small e at.entry
        (subst (λ z. Down (links t) (items t) z (k ∷ (stem ++ b ∷ r)) v) same_a below)) [
          | own _ all _ ↦ absurd (longer_self stem r b (sym all))
          | deeper c' r' inner all low ↦ (
            c',
            inner,
            subst (λ z. Down (links t) (items t) c' z v)
                (sym (append_cancel_left stem (b ∷ r) r' all)) low,
          )
        ]

  -- And the other way round.
  pub Down-Track :
      (ps : List TriePosition) (c : Option ℕ) (w : List ℕ)
      → Track ps c w
      → (a : ℕ) → c ≡ some a
      → (q : List ℕ) (v : V) → Down (links t) (items t) a q v
      → Down (links t) (items t) t.root (w ++ q) v
  Down-Track ps c w track a e q v d =
      Down-Holds (links t) (items t) t.root (w ++ q) v
        (Holds-Down (links t) (items t) t.root w q a v (Track-Reach ps c w track a e) d)
