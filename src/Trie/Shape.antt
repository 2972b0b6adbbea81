-- ===== src/Trie/Shape.antt =====
-- What a trie stores, seen apart from its nodes: at an address and a byte there may be a link to a
-- child and an item, each with the stem behind the byte.
mod Paths
mod Gain
mod Graft
mod Split
mod Prune
pub use Paths.*
pub use Gain.*
pub use Graft.*
pub use Split.*
pub use Prune.*
