-- ===== src/Examples.antt =====
-- Instances of the interfaces, and the theorems at concrete inputs.
mod Floats
mod Bitmaps
mod Indexes
mod Filters
mod Postings
mod Queries
mod Validations
mod Lookups
mod Logs
mod Checkpoints
mod Catalogs
mod Clusters
mod Graphs
mod Engines
mod Handlers
mod Segments
mod Snapshots
mod Remotes
mod Restarts
mod Collections
