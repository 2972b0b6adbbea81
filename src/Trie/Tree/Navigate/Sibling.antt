-- ===== src/Trie/Tree/Navigate/Sibling.antt =====
-- impl/op/trie/Trie.h: `next_sibling`, and the children of a position. The iterator is in sync with
-- the trie.
use op_magic_trie.Prelude.{ℕ, zero, suc, Option, none, some, ◌>>=◌, length, if◌then◌else◌}
use op_magic_trie.Trie.Node.{Node, presence_first_set}
use op_magic_trie.Trie.Node.Last.{presence_last_set}
use op_magic_trie.Trie.Iterator.{TrieIterator, end_iterator, is_end}
use op_magic_trie.Trie.Tree.{Trie}
use op_magic_trie.Trie.Tree.Navigate.{
  loaded, no_first, over_child, enter_deep_until_terminal, child_of, load_right, settle_down, pop,
}
use op_magic_trie.Trie.Tree.Navigate.Track.{Track}
use op_magic_trie.Trie.Tree.Navigate.Follows.{Follows}

module _ {V : Type 0} where
  -- The loop of `next_sibling`: one round for each position, and one more.
  pub sibling_loop : ℕ → ℕ → Trie V → TrieIterator → Option TrieIterator
  unfolding load_right settle_down pop
  sibling_loop zero fuel t i = none
  sibling_loop (suc rounds) fuel t i =
      let up = sibling_loop rounds fuel t (pop i) in
      let right : Option TrieIterator = elim (load_right t i) [
        | none ↦ none
        | some no_first ↦ up
        | some (loaded j child) ↦ settle_down fuel t j child
      ] in
      if is_end i then some i else right

  pub next_sibling : ℕ → Trie V → TrieIterator → Option TrieIterator
  unfolding sibling_loop
  next_sibling fuel t i = sibling_loop (suc (length i.position_stack)) fuel t i

  pub children_navigation : ℕ → Trie V → TrieIterator → (Node V → Option ℕ) → Option TrieIterator
  unfolding child_of enter_deep_until_terminal
  children_navigation fuel t of_this locator =
      let below : Option TrieIterator =
        child_of t of_this >>= λ child. enter_deep_until_terminal fuel t child of_this locator in
      if is_end of_this
      then some end_iterator
      else if over_child of_this
      then below
      else some end_iterator

  pub first_child : ℕ → Trie V → TrieIterator → Option TrieIterator
  unfolding children_navigation
  first_child fuel t of_this = children_navigation fuel t of_this presence_first_set

  pub last_child : ℕ → Trie V → TrieIterator → Option TrieIterator
  unfolding children_navigation
  last_child fuel t of_this = children_navigation fuel t of_this presence_last_set
