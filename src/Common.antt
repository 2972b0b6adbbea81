-- ===== src/Common.antt =====
-- impl/op/common: shared utilities.
pub mod Bits
pub mod Bitset
pub mod Log2
