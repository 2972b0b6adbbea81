-- ===== src/Trie/Tree/Navigate/Load.antt =====
-- `load_iterator` at an entry that is there, for both of its methods.
use mathlib.Core.List.{append_assoc}
use op_magic_trie.Prelude.{
  ℕ, ◌-◌, ◌<◌, ◌≡◌, refl, ap, ◌∙◌, Option, none, some, bind_some, List, [], ◌∷◌, ◌++◌, length,
  length-append, take, take-append, arith,
}
use op_magic_trie.Common.Bitset.Scan.{to_dim_small}
use op_magic_trie.Common.Bitset.{to_dim}
use op_magic_trie.Trie.Node.{Node, NodeData, has_child, has_value, kv_get}
use op_magic_trie.Trie.Iterator.{TriePosition, TrieIterator}
use op_magic_trie.Trie.Tree.{Trie, stem_chars}
use op_magic_trie.Trie.Tree.Descent.{iterator}
use op_magic_trie.Trie.Tree.Navigate.{
  delta, emplace, emplacing, updating, update_back, loaded, no_first, load_iterator, Update,
}
use op_magic_trie.Trie.Tree.Navigate.Track.{At, Track, down}

-- A string without the one that was appended.
pub take_before :
    (w z : List ℕ) (size : ℕ) → length z ≡ size → take (length (w ++ z) - size) (w ++ z) ≡ w
take_before w z size e =
    let n : length (w ++ z) - size ≡ length w = omega (arith, length-append w z, e) in
    ap (λ x. take x (w ++ z)) n ∙ take-append w z

module _ {V : Type 0} (t : Trie V) (a : ℕ) (n : Node V) (there : t.nodes a ≡ some n)
    (locator : Node V → Option ℕ) where
  pub load_nothing :
      (it : TrieIterator) (update : Update)
      → locator n ≡ none
      → load_iterator t (some a) it locator update ≡ some no_first
  unfolding load_iterator
  load_nothing it update e = bind_some _ there (rw e refl)

  module _ (k : ℕ) (small : k < 256) (e : NodeData V) (entry : kv_get n k ≡ some e) where
    abbrev stem : List ℕ
    stem = stem_chars e.stem

    -- The position that the load makes.
    abbrev pub landing : TriePosition
    landing = record {
      address = some a;
      key = some k;
      stem_size = to_dim (length stem);
      has_data = has_value n k;
      has_child = has_child n k;
      version = n.version;
    }

    pub landing-At : length stem < 0xFFFE → At t landing a k n e
    landing-At few = record {
      address = refl;
      there = there;
      key = refl;
      small = small;
      entry = entry;
      stem = to_dim_small (length stem) (omega (arith, few));
      valued = refl;
      linked = refl;
    }

    -- The iterator at the entry, behind the positions `ps` with the prefix `w`.
    abbrev pub landed_at : List TriePosition → List ℕ → TrieIterator
    landed_at ps w = iterator (landing ∷ ps) ((w ++ k ∷ []) ++ stem)

    pub landed_at-Track :
        (ps : List TriePosition) (w : List ℕ)
        → Track t ps (some a) w
        → length stem < 0xFFFE
        → Track t (landing ∷ ps) e.child (w ++ k ∷ stem)
    landed_at-Track ps w path few = down path (landing-At few)

    pub landed_at-prefix : (w : List ℕ) → (w ++ k ∷ []) ++ stem ≡ w ++ k ∷ stem
    landed_at-prefix w = append_assoc w (k ∷ []) stem

    module _ (locates : locator n ≡ some k) where
      pub load_emplacing :
          (it : TrieIterator)
          → load_iterator t (some a) it locator emplacing
            ≡ some (loaded (landed_at it.position_stack it.prefix) e.child)
      unfolding load_iterator emplace
      load_emplacing it = bind_some _ there (rw locates (bind_some _ entry refl))

      pub load_updating :
          (b : TriePosition) (ps : List TriePosition) (pre w : List ℕ)
          → take (length pre - delta b.stem_size) pre ≡ w
          → load_iterator t (some a) (iterator (b ∷ ps) pre) locator updating
            ≡ some (loaded (landed_at ps w) e.child)
      unfolding load_iterator update_back
      load_updating b ps pre w cut =
          bind_some _ there
            (rw locates (bind_some _ entry (ap (λ z. some (loaded (landed_at ps z) e.child)) cut)))
