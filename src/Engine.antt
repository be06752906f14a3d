-- ===== src/Engine.antt =====
-- crates/rekha-engine: the collection engine.
pub mod Bitmap
pub mod ValueKey
pub mod Postings
pub mod Base
pub mod Collection
pub mod Durable
pub mod Validation
pub mod Lookup
pub mod Remote
pub mod Handlers
pub mod Lifecycle
pub mod Query
pub mod Segment
