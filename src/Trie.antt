-- ===== src/Trie.antt =====
-- impl/op/trie: the persistent trie.
pub mod HashTable
pub mod Node
pub mod Shape
pub mod Iterator
pub mod Tree
pub mod Mixed
