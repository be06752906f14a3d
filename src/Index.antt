-- ===== src/Index.antt =====
-- crates/rekha-index: the index of the vectors of a collection.
pub mod Usearch
