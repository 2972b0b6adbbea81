-- ===== src/Lib.antt =====
-- Verification of OP.MagicTrie, a collection of C++ header libraries: a persistent trie
-- (impl/op/trie), lazy pipelines (impl/op/flur), virtual transactional memory (impl/op/vtm),
-- shared utilities (impl/op/common) and a unit test framework (impl/op/utest).
--
-- A trie keeps its keys in nodes. A node (TrieNode.h) marks the first bytes of its keys in two bit
-- sets (Bitset.h), one for children and one for values, and keeps an entry for each marked byte in
-- an open-addressing hash table (HashTable.h), or in an array by byte at capacity 256
-- (AntiHashTable.h). The node chooses the container by its capacity, grows it when an insertion
-- finds no room, and copies the entries in the order of the bit sets.
--
-- Trie/HashTable.antt models impl/op/trie/HashTable.h. A table is the memory behind `Content*`, a
-- function from an index to a slot; every index is reduced below the capacity. The functions keep the
-- names of the source: `insert_impl`, `find` for `find_impl`, `restore_on_erase`, `erase`,
-- `less_pos`. The invariant is `IsProbed` in Trie/HashTable/Probe.antt; Insert and Added are about
-- `insert_impl`, Gap, Move, Weight, Erase and Erased about `erase`, Modify about a write through the
-- pointer that `get` returns. The loop of `restore_on_erase` runs on fuel of 16 times the capacity;
-- Weight bounds by 3 for each slot the distance that entries can still move, and a move is at most 4
-- rounds away from the last.
--
-- Trie/Node.antt models the state of a TrieNode with the scans of its bit sets, `kv_container` as
-- the type `Store`, `grow_from` of both containers, `grow` and `insert`; Trie/Node/Entries.antt its
-- operations on one entry; Trie/Node/Create.antt the constructor with `create_interior`;
-- Trie/Node/Split.antt `move_to` and `move_from_entry`; Trie/Node/Last.antt `presence_last_set`. The invariant `IsNode` stands in
-- Trie/Node/Scan.antt. `insert` and `grow` run on fuel of 6 rounds, since a capacity doubles from 8
-- to 256; the loops of `grow_from` run on 257 rounds, since a round moves to a larger byte. Stems
-- and values are modelled by their content, without the allocator that holds them.
--
-- The code asserts that a stem is shorter than the greatest `dim_t` less one when `insert` stores it;
-- `insert` fails otherwise, the invariant of a trie has this bound for every stem, and the stem size of
-- a position is the length cast to `dim_t` by `to_dim`.
--
-- Trie/Iterator.antt models impl/op/trie/TriePosition.h and the changes that impl/op/trie/TrieIterator.h
-- makes of a path: `rat`, `push`, `update_stem`. Trie/Tree.antt models impl/op/trie/Trie.h: the nodes by
-- address with the header of TrieResidence.h, `mismatch` (`round` and `behind_stem` are its body),
-- `common_prefix` from the root, `check_exists`, `value_of`, `new_node`, `insert_impl` with its steps
-- (`place` and `hang_child`, `split_entry` for the cases of its body) and `create_new`. The addresses
-- that the node manager gives out are the parameter `allocate`; a proof of an insertion asks that the
-- address is not in use. `mismatch` runs on one round for each byte of the string and one more, since a
-- round takes a byte. Trie/Shape.antt is the abstract view: links and items by address and byte, the
-- paths from the root, the stored keys, and what a new item and a new child do to them. In Trie/Tree
-- the invariant is `IsTrie` of View; Compare, Walk, Descent, Rounds, Search, Found and Lookup are about
-- the search, Updated, Written and Divided about the links and items of a node that is written, Gained
-- and Grafted about the trie around it, Insert, Place, Cut, Ways and Inserts about the insertion, Built
-- about sequences of insertions, Arrive about the walk to the end of a link, and Branch, with a trie in
-- Forked, about the insertion that fails there.
-- Trie/Tree/Navigate.antt models the moves of an iterator: `load_iterator`, `_next` as `next`,
-- `enter_deep_until_terminal` on fuel for each level of the trie, `lower_bound_impl`, `find`, `begin`.
-- In Trie/Tree/Navigate, Track says that the positions of an iterator lead from the root along its
-- prefix; Lex has the order of the keys; Finds and Tracked are about `find`, Least, Load and First about
-- the walk to the least key, Follows, Right and Next about `_next`, Begin about `begin`; Sibling models `next_sibling`,
-- `first_child` and `last_child`. The fuel of the
-- walk is a parameter, since no bound on the levels of a trie is kept; the theorems ask that it is at
-- least the number of levels. Trie/Tree/Remove.antt models `erase` with `erase_impl`, whose loop is
-- `erase_loop` over the rounds `erase_round`; in Trie/Tree/Remove, Lost and Orphan are about the node that loses
-- a value and a child, Pruned about the trie around it, Moved, Round and Unwind about the loop, Erases about
-- the whole. Trie/Tree/Update.antt models `update_impl`, `update` and `upsert`; in Trie/Tree/Update,
-- Replaced is about the node and the trie with the new value, Updates and Upserts about the operations.
-- The snapshot of the version that an iterator keeps, and with it `sync_iterator`, is left out: an
-- iterator is taken to be in sync.
--
-- Trie/Mixed.antt models impl/op/trie/MixedAdapter.h: a `Mixer` as the record of the methods that the
-- ingredients may replace, and TrieSequence as its `start`, `in_range` and `next`; `keys` is a client
-- that reads the sequence. Trie/Mixed/Visits.antt is about the default sequence.
--
-- Common/Bitset.antt models impl/op/common/Bitset.h on words of 64 bits, with the lemmas on bits in
-- Common/Bits.antt; Common/Log2.antt its logarithm, `ceil_power` and `last_set`. `nil_c` is `none`,
-- and a cast to `dim_t` is `to_dim`, which the theorems keep from wrapping by a bound on the words.
--
-- Flur/Sequence.antt models the interface of impl/op/flur/Sequence.h as a record of functions on the
-- state of a sequence, and Flur/OrderedJoin.antt the join of impl/op/flur/OrderedJoin.h over two such
-- sequences, for sources without `lower_bound`, `implement_exists_c` off and a comparator that
-- compares a number of each element. Its loops run on fuel, since a source may have no end: more
-- fuel than the two sources have elements is enough. Flur/Filter.antt models impl/op/flur/Filter.h with
-- the state of impl/op/flur/SequenceState.h that its predicate sees and may stop, on fuel as well.
--
-- Prelude.antt has the shared notation, tests on numbers and lemmas on lists.
--
-- Not modelled: the other navigation and removal of Trie.h, the other mixers, the other pipelines, the memory
-- managers and transactions, the test framework.
pub mod Common
pub mod Flur
pub mod Prelude
pub mod Trie
