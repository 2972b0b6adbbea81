-- ===== src/Trie/Tree/Remove.antt =====
-- impl/op/trie/Trie.h: the removal of a key. `none` is an assertion that fails or an exception; the
-- iterator is in sync with the trie.
mod Lost
mod Orphan
mod Pruned
mod Moved
mod Round
mod Unwind
mod Erases
mod Tests
use Prim.Native.Nat.{◌^◌}
use op_magic_trie.Prelude.{
  ℕ, ◌+◌, ◌-◌, ◌%◌, Bool, true, false, Option, none, some, ◌>>=◌, List, [], ◌∷◌, ◌==◌,
  if◌then◌else◌,
}
use op_magic_trie.Trie.Node.{Node}
use op_magic_trie.Trie.Node.Entries
use op_magic_trie.Trie.Node.Entries.{remove_child}
use op_magic_trie.Trie.Iterator.{TriePosition, TrieIterator, end_iterator, is_end}
use op_magic_trie.Trie.Tree.{Trie, store_node, next_u64}
use op_magic_trie.Trie.Tree.Navigate.{next}

-- `--` on a `std::uint64_t`.
abbrev pub previous_u64 : ℕ → ℕ
previous_u64 n = (n + (2 ^ 64 - 1)) % 2 ^ 64

-- The trie, the position behind the key, and how many keys went.
pub record Removal (V : Type 0) : Type 0 where
  pub trie : Trie V
  pub iter : TrieIterator
  pub erased : ℕ

module _ {V : Type 0} where
  pub remove_node : Trie V → ℕ → Trie V
  remove_node t a = record t {
    nodes = λ b. if b == a then none else t.nodes b;
    nodes_allocated = previous_u64 t.nodes_allocated;
  }

  -- A round of the loop of `erase_impl`, with the rest of it: `first` is the first round, and
  -- `child_gone` tells that the child of the position was removed.
  pub erase_round :
      (Trie V → Bool → Option (Trie V)) → Trie V → TriePosition → Bool → Bool → Option (Trie V)
  unfolding remove_node
  erase_round further t back first child_gone = do
    a ← back.address
    k ← back.key
    node ← t.nodes a
    let dropped = remove_child node k
    m ← if child_gone then dropped else some node
    r ← Entries.erase m k first
    let u = store_node t a r.0
    let above : Option (Trie V) =
        if a == t.root then further u child_gone else further (remove_node u a) true
    if r.1 then above else some u

  -- The loop of `erase_impl`, over the positions from the last one on.
  pub erase_loop : List TriePosition → Trie V → Bool → Bool → Option (Trie V)
  unfolding erase_round
  erase_loop [] t first child_gone = some t
  erase_loop (back ∷ below) t first child_gone =
      erase_round (λ u gone. erase_loop below u false gone) t back first child_gone

  -- The next position is looked up before the removal.
  pub erase_impl : ℕ → Trie V → TrieIterator → Option (Removal V)
  unfolding erase_loop
  erase_impl fuel t pos = do
    result ← next fuel t pos true
    u ← erase_loop pos.position_stack t true false
    some (record {
      trie = record u { count = previous_u64 u.count; version = next_u64 u.version };
      iter = result;
      erased = 1;
    })

  pub erase : ℕ → Trie V → TrieIterator → Option (Removal V)
  unfolding erase_impl
  erase fuel t pos =
      let going = erase_impl fuel t pos in
      if is_end pos then some (record { trie = t; iter = end_iterator; erased = 0 }) else going
