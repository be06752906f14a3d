-- ===== src/Storage.antt =====
-- crates/rekha-storage/src: the catalog of tenants, databases and collections.
pub mod Catalog
