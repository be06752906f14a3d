-- ===== src/Core.antt =====
-- crates/rekha-core: the data types that the other crates share.
pub mod Types
pub mod Filter
pub mod Op
pub mod Config
