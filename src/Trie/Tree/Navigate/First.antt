-- ===== src/Trie/Tree/Navigate/First.antt =====
-- `enter_deep_until_terminal` with `first`: the least key below a node.
use mathlib.Core.List.{append_assoc}
use mathlib.Core.Path.{subst}
use op_magic_trie.Prelude.{
  ℕ, zero, suc, ◌≤◌, ◌<◌, ◌≡◌, refl, sym, ap, ◌∙◌, inl, inr, true, false, Option, some, List, ◌∷◌,
  ◌++◌, arith, Bool-cases, Option-cases, if◌then◌else◌,
}
use op_magic_trie.Common.Bitset.Scan.{LeastFrom}
use op_magic_trie.Trie.Node.{Node, NodeData, presence, presence_first_set, has_value, kv_get}
use op_magic_trie.Trie.Node.Scan.{first-LeastFrom}
use op_magic_trie.Trie.Node.Copy.{kv_get_cases, presence_marks}
use op_magic_trie.Trie.Iterator.{TriePosition, TrieIterator}
use op_magic_trie.Trie.Shape.{Down, item, child, stemmed}
use op_magic_trie.Trie.Tree.{Trie, stem_chars}
use op_magic_trie.Trie.Tree.View.{links, items, IsTrie, links_entry, items_entry}
use op_magic_trie.Trie.Tree.Navigate.{
  emplacing, loaded, load_iterator, enter_deep_until_terminal, on_data,
}
use op_magic_trie.Trie.Tree.Navigate.Lex.{LexLe}
use op_magic_trie.Trie.Tree.Navigate.Least.{front, least_at, stem_least, deeper_least}
use op_magic_trie.Trie.Tree.Navigate.Track.{Track}
use op_magic_trie.Trie.Tree.Navigate.Load.{
  landed_at, landed_at-prefix, landed_at-Track, load_emplacing,
}

module _ {V : Type 0} (t : Trie V) where
  -- Below the address there are at most so many levels of nodes, each with an entry.
  pub data Within : ℕ → ℕ → Type 0 where
    level :
        {levels a : ℕ} (n : Node V) (k : ℕ)
        → t.nodes a ≡ some n
        → presence_first_set n ≡ some k
        → ((j c : ℕ) (s : List ℕ) → links t a j ≡ some (s, c) → Within levels c)
        → Within (suc levels) a

  -- The iterator is at the least key below the address.
  pub record AtLeast (a : ℕ) (start i : TrieIterator) : Type 0 where
    pub key : List ℕ
    pub value : V
    pub below : Down (links t) (items t) a key value
    pub spells : i.prefix ≡ start.prefix ++ key
    pub least : (q : List ℕ) (x : V) → Down (links t) (items t) a q x → LexLe key q
    pub tracks :
        Track t start.position_stack (some a) start.prefix
        → (c : Option ℕ) × Track t i.position_stack c i.prefix
    pub data_there : on_data i ≡ true

  pub enter_loaded :
      (levels a : ℕ) (it i : TrieIterator) (below : Option ℕ)
      → load_iterator t (some a) it presence_first_set emplacing ≡ some (loaded i below)
      → enter_deep_until_terminal (suc levels) t (some a) it presence_first_set ≡ (
          if on_data i
          then some i
          else enter_deep_until_terminal levels t below i presence_first_set)
  unfolding enter_deep_until_terminal
  enter_loaded levels a it i below e = rw (enter_deep_until_terminal, e) refl

  -- The iterator is at the least of the keys below the address that start with the byte.
  pub record Settled (a k : ℕ) (ps : List TriePosition) (w : List ℕ) (i : TrieIterator)
      : Type 0 where
    pub key : List ℕ
    pub value : V
    pub below : Down (links t) (items t) a (k ∷ key) value
    pub spells : i.prefix ≡ w ++ k ∷ key
    pub least : (r : List ℕ) (x : V) → Down (links t) (items t) a (k ∷ r) x → LexLe key r
    pub tracks : Track t ps (some a) w → (c : Option ℕ) × Track t i.position_stack c i.prefix
    pub data_there : on_data i ≡ true

  module _ (w : IsTrie t) (a : ℕ) (n : Node V) (there : t.nodes a ≡ some n) (k : ℕ)
      (small : k < 256) (e : NodeData V) (entry : kv_get n k ≡ some e) (ps : List TriePosition)
      (pre : List ℕ) where
    abbrev stem : List ℕ
    stem = stem_chars e.stem

    abbrev at : TrieIterator
    at = landed_at t a n there (λ m. some k) k small e entry ps pre

    at-prefix : at.prefix ≡ pre ++ k ∷ stem
    at-prefix = landed_at-prefix t a n there (λ m. some k) k small e entry pre

    at-Track : Track t ps (some a) pre → Track t at.position_stack e.child at.prefix
    at-Track path =
        subst (λ z. Track t at.position_stack e.child z) (sym at-prefix)
          (landed_at-Track t a n there (λ m. some k) k small e entry ps pre path
            ((w.good a n there).bytes k e small entry).1)

    valued_entry : has_value n k ≡ true → Settled a k ps pre at
    valued_entry valued = record {
      key = stem;
      value = e.value;
      below = item k stem (items_entry t a n there k small e entry valued) refl;
      spells = at-prefix;
      least = stem_least t w a n there k small e entry;
      tracks = λ path. (e.child, at-Track path);
      data_there = valued;
    }

    deeper_entry :
        (c : ℕ) (i : TrieIterator)
        → e.child ≡ some c
        → has_value n k ≡ false
        → AtLeast c at i
        → Settled a k ps pre i
    deeper_entry c i inner bare found = record {
      key = stem ++ found.key;
      value = found.value;
      below =
          child k c stem found.key
            (links_entry t a n there k small e entry ∙ ap (stemmed stem) inner) refl found.below;
      spells =
          found.spells ∙ ap (λ z. z ++ found.key) at-prefix ∙ append_assoc pre (k ∷ stem) found.key;
      least = deeper_least t w a n there k small e entry c inner bare found.key found.least;
      tracks = λ path.
          found.tracks (subst (λ z. Track t at.position_stack z at.prefix) inner (at-Track path));
      data_there = found.data_there;
    }

    -- The end of a load: at the entry, or at the least key below its child.
    pub entry-Settled :
        (levels : ℕ)
        → presence n k ≡ true
        → ((c : ℕ)
            → e.child ≡ some c
            → (i : TrieIterator) × (enter_deep_until_terminal levels t
                  (some c)
                  at
                  presence_first_set
                ≡ some i)
              × AtLeast c at i)
        → (i : TrieIterator) × ((if has_value n k
              then some at
              else enter_deep_until_terminal levels t e.child at presence_first_set)
            ≡ some i)
          × Settled a k ps pre i
    entry-Settled levels marked go = elim (Bool-cases (has_value n k)) [
      | inl valued ↦ (at, rw valued refl, valued_entry valued)
      | inr bare ↦ elim (Option-cases e.child) [
        | inl leaf ↦ absurd (
            ground (
              arith,
              (w.good a n there).linked k e small entry,
              leaf,
              presence_marks n k,
              marked,
              bare,
            ))
        | inr (c, inner) ↦
            let (i, run, found) = go c inner in
            (
              i,
              ap
                    (λ b.
                      if b
                      then some at
                      else enter_deep_until_terminal levels t e.child at presence_first_set)
                    bare
                  ∙ ap (λ o. enter_deep_until_terminal levels t o at presence_first_set) inner
                  ∙ run,
              deeper_entry c i inner bare found,
            )
      ]
    ]

  -- The first entry of a node has the least keys.
  Settled-AtLeast :
      (w : IsTrie t) (a : ℕ) (n : Node V) (there : t.nodes a ≡ some n) (k : ℕ)
      → k < 256
      → ((j : ℕ) → 0 ≤ j → j < k → presence n j ≡ false)
      → (it i : TrieIterator) → Settled a k it.position_stack it.prefix i
      → AtLeast a it i
  Settled-AtLeast w a n there k small before it i s = record {
    key = k ∷ s.key;
    value = s.value;
    below = s.below;
    spells = s.spells;
    least = λ q x d.
        let (j, r, spells) = front t w a n there q x d in
        subst (LexLe (k ∷ s.key)) (sym spells) (
          least_at t w a n there 0 k small before s.key s.least j r x (omega arith)
            (subst (λ z. Down (links t) (items t) a z x) spells d));
    tracks = s.tracks;
    data_there = s.data_there;
  }

  -- On a trie under the invariant, from an address below which there are at most as many levels of
  -- nodes as the fuel, each with an entry, `enter_deep_until_terminal` with the locator `first`
  -- returns, and it appends to the iterator the least of the keys below the address, a prefix being
  -- less.
  pub enter_deep_until_terminal-AtLeast :
      IsTrie t
      → (levels a : ℕ) (it : TrieIterator) → Within levels a
      → (i : TrieIterator) × (enter_deep_until_terminal levels t (some a) it presence_first_set
          ≡ some i)
        × AtLeast a it i
  enter_deep_until_terminal-AtLeast w zero a it below = elim below [ ]
  enter_deep_until_terminal-AtLeast w (suc levels) a it (level n k there first next) =
      let g = w.good a n there in
      let (_, small, marked, before) =
        subst (LeastFrom (presence n) 0 256) first (first-LeastFrom n g.node) in
      elim (kv_get_cases n g.node k small) [
        | inl (unmarked, _) ↦ absurd (ground (arith, unmarked, marked))
        | inr (e, _, entry) ↦
            let stem = stem_chars e.stem in
            let at =
              landed_at t a n there (λ m. some k) k small e entry it.position_stack it.prefix in
            let (i, run, settled) =
              entry-Settled w a n there k small e entry it.position_stack it.prefix levels marked
                (λ c inner. enter_deep_until_terminal-AtLeast w levels c at (
                  next k c stem
                    (links_entry t a n there k small e entry ∙ ap (stemmed stem) inner))) in
            (
              i,
              enter_loaded levels a it at e.child
                    (load_emplacing t a n there presence_first_set k small e entry first it)
                  ∙ run,
              Settled-AtLeast w a n there k small before it i settled,
            )
      ]
