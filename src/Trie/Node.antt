-- ===== src/Trie/Node.antt =====
-- impl/op/trie/TrieNode.h, with impl/op/trie/AntiHashTable.h: one node of the trie. Its entries
-- stand in a hash table, or at capacity 256 in an array by key. Strings and values are modelled by
-- what is stored, without the allocator that holds them.
pub mod Scan
pub mod Copy
pub mod Grow
pub mod Insert
pub mod Entries
pub mod Change
pub mod Same
pub mod Update
pub mod Create
pub mod Split
pub mod Filled
pub mod Moved
pub mod Removal
pub mod Erase
pub mod Last
mod Tests
use Prim.Native.Nat.{◌^◌, min}
use op_magic_trie.Prelude.{
  ℕ, zero, suc, ◌+◌, ◌%◌, Bool, true, false, not, ◌&&◌, ◌||◌, Option, none, some, List, [], ◌∷◌,
  length, ltb, ◌==◌, if◌then◌else◌,
}
use op_magic_trie.Common.Bitset
use op_magic_trie.Common.Bitset.{Bitset}
use op_magic_trie.Trie.HashTable
use op_magic_trie.Trie.HashTable.{Table, Inserted, grow_size}

-- A nil address is `none`.
pub record NodeData (V : Type 0) : Type 0 where
  pub child : Option ℕ
  pub stem : Option (List ℕ)
  pub value : V

-- The block that `_hash_table` points to, read by the class that `kv_container` makes.
pub data Store (V : Type 0) : Type 0 where
  hashed : Table (NodeData V) → Store V
  plain : (ℕ → NodeData V) → Store V

pub record Node (V : Type 0) : Type 0 where
  pub child_presence : Bitset
  pub value_presence : Bitset
  pub version : ℕ
  pub capacity : ℕ
  pub store : Store V

-- `++_version` on a `std::uint32_t`.
abbrev pub next_version : ℕ → ℕ
next_version v = (v + 1) % 2 ^ 32

-- The lesser of two indexes that may be nil.
pub nearest : Option ℕ → Option ℕ → Option ℕ
nearest none dt_res = dt_res
nearest (some c) none = some c
nearest (some c) (some d) = some (min d c)

module _ {V : Type 0} where
  pub presence : Node V → ℕ → Bool
  presence n key = Bitset.get n.child_presence key || Bitset.get n.value_presence key

  pub presence_first_set : Node V → Option ℕ
  presence_first_set n =
      nearest (Bitset.first_set 4 n.child_presence) (Bitset.first_set 4 n.value_presence)

  pub presence_next_set : Node V → ℕ → Option ℕ
  presence_next_set n previous =
      nearest (Bitset.next_set 4 n.child_presence previous)
        (Bitset.next_set 4 n.value_presence previous)

  pub presence_next_set_or_this : Node V → ℕ → Option ℕ
  presence_next_set_or_this n previous =
      nearest (Bitset.next_set_or_this 4 n.child_presence previous)
        (Bitset.next_set_or_this 4 n.value_presence previous)

  pub has_child : Node V → ℕ → Bool
  has_child n key = Bitset.get n.child_presence key

  pub has_value : Node V → ℕ → Bool
  has_value n key = Bitset.get n.value_presence key

  -- `get` and `cget` of either container.
  pub store_get : Node V → Store V → ℕ → Option (NodeData V)
  store_get n (hashed t) key = HashTable.get n.capacity t key
  store_get n (plain d) key = if presence n key then some (d key) else none

  pub kv_get : Node V → ℕ → Option (NodeData V)
  unfolding store_get
  kv_get n key = store_get n n.store key

  -- A write through the pointer that `get` returns.
  store_modify : Node V → Store V → ℕ → (NodeData V → NodeData V) → Store V
  store_modify n (hashed t) key f = hashed (HashTable.modify n.capacity t key f)
  store_modify n (plain d) key f = plain (λ j. if j == key then f (d key) else d j)

  pub kv_modify : Node V → ℕ → (NodeData V → NodeData V) → Node V
  unfolding store_modify
  kv_modify n key f = record n { store = store_modify n n.store key f }

  -- `insert` of either container: the store and whether there was room for a new entry. The array
  -- asserts that the key has no entry.
  pub store_insert : Node V → Store V → ℕ → (NodeData V → NodeData V) → Option (Store V × Bool)
  store_insert n (hashed t) key factory =
      let r = HashTable.insert_impl n.capacity t key factory in some (hashed r.table, r.success)
  store_insert n (plain d) key factory =
      if presence n key
      then none
      else some (plain (λ j. if j == key then factory (d key) else d j), true)

  -- `erase` of either container; a plain array keeps the destroyed bytes.
  store_erase : Node V → Store V → ℕ → Option (Store V)
  store_erase n (hashed t) key = elim (HashTable.erase n.capacity t key) [
    | none ↦ none
    | some (u, done) ↦ some (hashed u)
  ]
  store_erase n (plain d) key = some (plain d)

  pub kv_erase : Node V → ℕ → Option (Node V)
  unfolding store_erase
  kv_erase n key = elim (store_erase n n.store key) [
    | none ↦ none
    | some s ↦ some (record n { store = s })
  ]

  -- The loop of `PersistedHashTable::grow_from`, from the key `i`: the new table and whether all entries had
  -- room. `none` is a dereference of a missing entry, or an iteration past the 256 keys.
  pub hashed_grow_loop :
      ℕ → ℕ → Node V → Table (NodeData V) → Option ℕ → Option (Table (NodeData V) × Bool)
  hashed_grow_loop zero capacity from to i = none
  hashed_grow_loop (suc rounds) capacity from to none = some (to, true)
  hashed_grow_loop (suc rounds) capacity from to (some key) = elim (kv_get from key) [
    | none ↦ none
    | some v ↦
        let res = HashTable.insert_impl capacity to key (λ _. v) in
        let rest = hashed_grow_loop rounds capacity from res.table (presence_next_set from key) in
        if res.success then rest else some (to, false)
  ]

  -- `none` is also the assertion that the new table is larger.
  pub hashed_grow_from : ℕ → NodeData V → Node V → Option (Table (NodeData V) × Bool)
  hashed_grow_from capacity blank from =
      let copied =
        hashed_grow_loop 257 capacity from (HashTable.create blank) (presence_first_set from) in
      if ltb from.capacity capacity then copied else none

  -- The loop of `AntiHashTable::grow_from`.
  pub plain_grow_loop : ℕ → Node V → (ℕ → NodeData V) → Option ℕ → Option (ℕ → NodeData V)
  plain_grow_loop zero from to i = none
  plain_grow_loop (suc rounds) from to none = some to
  plain_grow_loop (suc rounds) from to (some key) = elim (kv_get from key) [
    | none ↦ none
    | some v ↦
        plain_grow_loop rounds from (λ j. if j == key then v else to j) (presence_next_set from key)
  ]

  pub plain_grow_from : NodeData V → Node V → Option (ℕ → NodeData V)
  plain_grow_from blank from =
      let copied = plain_grow_loop 257 from (λ _. blank) (presence_first_set from) in
      if ltb from.capacity 256 then copied else none

  abbrev pub grown : Node V → ℕ → Store V → Node V
  grown n capacity store = record n {
    capacity = capacity;
    store = store;
    version = next_version n.version;
  }

  -- The loop of `grow`: the first capacity whose container takes all entries.
  pub grow_to : ℕ → NodeData V → Node V → ℕ → Option (Node V)
  grow_to zero blank n new_capacity = none
  grow_to (suc fuel) blank n new_capacity =
      let larger = grow_to fuel blank n (grow_size new_capacity) in
      let in_hash = hashed_grow_from new_capacity blank n in
      let in_array = plain_grow_from blank n in
      if ltb new_capacity 256
      then elim in_hash [
        | none ↦ none
        | some (t, true) ↦ some (grown n new_capacity (hashed t))
        | some (t, false) ↦ larger
      ]
      else elim in_array [ none ↦ none | some d ↦ some (grown n new_capacity (plain d)) ]

  -- Capacities grow from 8 to 256 by doubling, so that six rounds suffice.
  pub grow : NodeData V → Node V → Option (Node V)
  grow blank n = grow_to 6 blank n (grow_size n.capacity)

  -- The entry that `insert` makes; the stem is the rest of the key.
  unfoldable pub fresh : List ℕ → V → NodeData V
  fresh [] v = record { child = none; stem = none; value = v }
  fresh (a ∷ rest) v = record { child = none; stem = some (a ∷ rest); value = v }

  pub insert_loop : ℕ → NodeData V → Node V → ℕ → List ℕ → V → Option (Node V)
  unfolding store_insert
  insert_loop zero blank n key rest v = none
  insert_loop (suc fuel) blank n key rest v =
      let again : Option (Node V) = elim (grow blank n) [
        | none ↦ none
        | some m ↦ insert_loop fuel blank m key rest v
      ] in
      elim (store_insert n n.store key (λ _. fresh rest v)) [
        | none ↦ none
        | some (s, true) ↦ some (record n {
          store = s;
          value_presence = Bitset.set n.value_presence key;
          version = next_version n.version;
        })
        | some (s, false) ↦ again
      ]

  -- A table grows at most five times. The code asserts that a stem is shorter than the greatest
  -- `dim_t` less one.
  pub insert : NodeData V → Node V → ℕ → List ℕ → V → Option (Node V)
  insert blank n key rest v =
      let stored = insert_loop 6 blank n key rest v in
      if ltb (length rest) 0xFFFE then stored else none
