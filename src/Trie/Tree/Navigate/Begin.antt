-- ===== src/Trie/Tree/Navigate/Begin.antt =====
-- `begin`: the least key of the trie.
use mathlib.Core.Path.{subst}
use op_magic_trie.Prelude.{ℕ, suc, ◌≡◌, refl, sym, ◌∙◌, ◌⊎◌, inl, inr, Option, none, some, arith}
use op_magic_trie.Common.Bitset.Scan.{LeastFrom}
use op_magic_trie.Trie.Node.{Node, presence, presence_first_set}
use op_magic_trie.Trie.Node.Scan.{first-LeastFrom}
use op_magic_trie.Trie.Node.Copy.{kv_get_cases}
use op_magic_trie.Trie.Iterator.{TrieIterator, end_iterator}
use op_magic_trie.Trie.Shape.{Down}
use op_magic_trie.Trie.Tree.{Trie}
use op_magic_trie.Trie.Tree.View.{links, items, Stored, IsTrie}
use op_magic_trie.Trie.Tree.Lookup.{Down-Stored, Stored-Down}
use op_magic_trie.Trie.Tree.Navigate.{
  loaded, emplacing, load_iterator, enter_deep_until_terminal, next, begin,
}
use op_magic_trie.Trie.Tree.Navigate.Lex.{LexLe}
use op_magic_trie.Trie.Tree.Navigate.Least.{front, Down-marked, Down-small}
use op_magic_trie.Trie.Tree.Navigate.Track.{top}
use op_magic_trie.Trie.Tree.Navigate.Load.{load_nothing, load_emplacing}
use op_magic_trie.Trie.Tree.Navigate.First.{
  Within, level, enter_loaded, enter_deep_until_terminal-AtLeast,
}
use op_magic_trie.Trie.Tree.Navigate.Follows.{Follows, found, finished}

module _ {V : Type 0} (t : Trie V) (w : IsTrie t) where
  begin_enters :
      (fuel : ℕ) (i : TrieIterator) (c : Option ℕ)
      → load_iterator t (some t.root) end_iterator presence_first_set emplacing ≡ some (loaded i c)
      → begin fuel t
        ≡ enter_deep_until_terminal (suc fuel) t (some t.root) end_iterator presence_first_set
  unfolding begin
  begin_enters fuel i c e = rw (begin, e) (sym (enter_loaded t fuel t.root end_iterator i c e))

  begin_Within :
      (fuel : ℕ)
      → Within t (suc fuel) t.root
      → begin fuel t
        ≡ enter_deep_until_terminal (suc fuel) t (some t.root) end_iterator presence_first_set
  begin_Within fuel (level n k there first next) =
      let g = w.good t.root n there in
      let (_, small, marked, _) =
        subst (LeastFrom (presence n) 0 256) first (first-LeastFrom n g.node) in
      elim (kv_get_cases n g.node k small) [
        | inl (unmarked, _) ↦ absurd (ground (arith, unmarked, marked))
        | inr (e, _, entry) ↦
            begin_enters fuel _ e.child (
              load_emplacing t t.root n there presence_first_set k small e entry first end_iterator)
      ]

  -- On a trie under the invariant whose root is empty, or in which each node has an entry, with
  -- fuel for each level below the root, `begin` returns: either an iterator at the least stored
  -- key, whose positions lead from the root along its prefix, or the end when no key is stored.
  pub begin-Follows :
      (fuel : ℕ)
      → ((n : Node V) × (t.nodes t.root ≡ some n) × (presence_first_set n ≡ none))
        ⊎ Within t (suc fuel) t.root
      → Follows t (λ q. Unit) (begin fuel t)
  unfolding begin
  begin-Follows fuel (inl (n, there, bare)) =
      let nothing = load_nothing t t.root n there presence_first_set end_iterator emplacing bare in
      let run : begin fuel t ≡ some end_iterator = rw (begin, nothing) refl in
      finished end_iterator run refl (λ q x h _.
        let d = Stored-Down t w q x h in
        let (j, r, spells) = front t w t.root n there q x d in
        let at_j = subst (λ z. Down (links t) (items t) t.root z x) spells d in
        let small = Down-small t w t.root n there j r x at_j in
        let unmarked =
          subst (LeastFrom (presence n) 0 256) bare
            (first-LeastFrom n (w.good t.root n there).node) in
        Down-marked t w t.root n there j r x small (unmarked j (omega arith) small) at_j)
  begin-Follows fuel (inr levels) =
      let (i, run, s) =
        enter_deep_until_terminal-AtLeast t w (suc fuel) t.root end_iterator levels in
      let (c, track) = s.tracks top in
      let spells : i.prefix ≡ s.key = s.spells in
      found i c s.value (begin_Within fuel levels ∙ run) track s.data_there
        (subst (λ z. Stored t z s.value) (sym spells) (Down-Stored t w s.key s.value s.below)) tt
        (λ q x h _. subst (λ z. LexLe z q) (sym spells) (s.least q x (Stored-Down t w q x h)))
