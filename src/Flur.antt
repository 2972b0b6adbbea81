-- ===== src/Flur.antt =====
-- impl/op/flur: lazy sequences.
pub mod Sequence
pub mod OrderedJoin
pub mod Filter
