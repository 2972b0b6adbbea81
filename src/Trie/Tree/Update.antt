-- ===== src/Trie/Tree/Update.antt =====
-- impl/op/trie/Trie.h: the update of a value. `none` is an assertion that fails; the iterator is in
-- sync with the trie.
mod Replaced
mod Updates
pub mod Upserts
mod Tests
use op_magic_trie.Prelude.{
  ℕ, Bool, true, false, Option, none, some, ◌>>=◌, List, [], ◌∷◌, if◌then◌else◌,
}
use op_magic_trie.Trie.Node.{Node, NodeData}
use op_magic_trie.Trie.Node.Entries.{set_value}
use op_magic_trie.Trie.Iterator.{
  TriePosition, TrieIterator, end_iterator, rat, is_end, top_address, top_key,
}
use op_magic_trie.Trie.Tree.{Trie, Insertion, store_node, insert_impl}
use op_magic_trie.Trie.Tree.Navigate.{on_data}

-- The trie, the position, and how many values were written.
pub record Change (V : Type 0) : Type 0 where
  pub trie : Trie V
  pub pos : TrieIterator
  pub updated : ℕ

-- The trie, the position, and whether the key is new.
pub record Upsertion (V : Type 0) : Type 0 where
  pub trie : Trie V
  pub iter : TrieIterator
  pub inserted : Bool

module _ {V : Type 0} where
  pub update_impl : Trie V → TrieIterator → V → Option (Change V)
  update_impl t pos value =
      let written : Option (Change V) = (do
        a ← top_address pos
        k ← top_key pos
        node ← t.nodes a
        m ← set_value node k value
        some (record {
          trie = store_node t a m;
          pos = rat pos (λ p. record p { version = m.version });
          updated = 1;
        })) in
      if on_data pos then written else none

  pub update : Trie V → TrieIterator → V → Option (Change V)
  unfolding update_impl
  update t pos value =
      let written = update_impl t pos value in
      if is_end pos then some (record { trie = t; pos = pos; updated = 0 }) else written

  -- `upsert`, which is `prefixed_upsert` at the end iterator.
  pub upsert : NodeData V → (Trie V → ℕ) → Trie V → List ℕ → V → Option (Upsertion V)
  unfolding update_impl
  upsert blank allocate t [] value =
      some (record { trie = t; iter = end_iterator; inserted = false })
  upsert blank allocate t (k ∷ rest) value = do
    done ← insert_impl blank allocate t end_iterator (k ∷ rest) value
    let r = done
    let overwritten : Option (Upsertion V) = (do
      c ← update_impl r.trie r.iter value
      let u = c
      some (record { trie = u.trie; iter = u.pos; inserted = false }))
    let added : Upsertion V = record { trie = r.trie; iter = r.iter; inserted = true }
    if r.exists then overwritten else some added
