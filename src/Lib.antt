-- ===== src/Lib.antt =====
-- Verification library of rekha, an embeddable vector database: its write-ahead log, its metadata
-- index, its where filters, the collection that ties them together with its checkpoints, the index
-- of its vectors, the catalog, and what the nodes of a cluster exchange.
--
-- How the program works. A client's batch becomes operations (crates/rekha-core/src/op.rs).
-- `Collection::write_ops` appends each one to the log (crates/rekha-wal/src/lib.rs), and then
-- applies it to the records, to the buffer of vectors that wait for the HNSW index, and to the
-- postings (crates/rekha-engine/src/postings.rs), an inverted index that answers where filters
-- (crates/rekha-core/src/filter.rs). `Collection::open` restores a checkpoint, if there is one,
-- and replays the log behind it. `Collection::checkpoint` writes one and prunes the log.
-- `Collection::query` scans a small collection and asks the index of a large one. A follower asks
-- the leader for the log from a seq on (`Engine::wal_delta`) and applies what it gets; the catalog
-- of collections is a redb database, and the cluster's state is a Raft state machine of openraft.
--
-- Files and code.
--   Core/Types      MetadataValue and Distance of crates/rekha-core/src/types.rs
--   Core/Filter     the where filters of crates/rekha-core/src/filter.rs and their matching; below
--                   it Json (the values of serde_json), Parse (parse_condition and what it calls),
--                   Print (condition_to_value), RoundTrip and Canonical
--   Core/Op         Operation of crates/rekha-core/src/op.rs
--   Core/Config     crates/rekha-core/src/config.rs, with the fields that the engine reads
--   Wal             crates/rekha-wal/src/lib.rs: the state `Wal` with the bytes of its file, and
--                   open_wal (Wal::open), append, read_range and prune; below it Format and Bytes
--                   (the bytes of a file, little-endian integers), Log (what a file holds), Scan,
--                   Recovery, Append, ReadRange, Prune, Batch and Tail
--   Engine/Postings crates/rekha-engine/src/postings.rs; below it Nested (maps of maps),
--                   Represents and Removal (what the postings index), Agreement (against
--                   WhereFilter::matches) and Collision (integers beyond 2^53)
--   Engine/Collection the in-memory state of `Collection` of crates/rekha-engine/src/collection.rs
--                   and apply_operation; below it the invariant and what preserves it
--   Engine/Durable  the log and the checkpoint of a collection: write_ops, replay_after,
--                   flush_buffer; Durable/Open has load_checkpoint and open_collection
--                   (Collection::open), Durable/Lenient what is asked of the index, and the
--                   others prove what survives a crash
--   Engine/Validation validate_add, validate_upsert and validate_update of collection.rs, and
--                   add_ops, upsert_ops and update_ops of crates/rekha-engine/src/lib.rs; below it
--                   Accepts and Ops
--   Engine/Lookup   load_vector of collection.rs and Engine::get of crates/rekha-engine/src/lib.rs;
--                   below it Written and Folded (what operations leave to read)
--   Engine/Query    query, brute_force, hybrid_search, filtered_query and build_scored of
--                   collection.rs; below it Sort, Exact (without a filter), Eligible and Matching
--                   (with one) and Filtered (with one, after a checkpoint)
--   Engine/Segment  SegmentWriter, SegmentHeader and Segment of
--                   crates/rekha-engine/src/segment.rs, on bytes; below it Written
--   Engine/Base     Record and EngineError of crates/rekha-engine/src/lib.rs, and the trait Index
--                   of crates/rekha-index/src/lib.rs
--   Engine/Durable/Checkpoint checkpoint, rebuild_index, optimize and auto_checkpoint of
--                   collection.rs; below it Saved (what a successful checkpoint leaves), Entries,
--                   Vectors, Loaded and Reopened (opening after a crash), and Cut (a checkpoint
--                   that ends before its marker)
--   Engine/Handlers add, upsert, update, delete, count, seq_of and get of `Engine` of
--                   crates/rekha-engine/src/lib.rs; below it Deleted, Rejected (a batch that add
--                   rejects) and Snapshot (snapshot and restore_snapshot), with Restored (what a
--                   restore leaves)
--   Engine/Lifecycle open, create_collection, delete_collection, get_collection and
--                   list_collections of `Engine`, over the catalog; below it Restart, Synced and
--                   Recreated
--   Engine/Remote   wal_delta, wal_last_seq and apply_remote_ops of
--                   crates/rekha-engine/src/lib.rs, and the follower's loop of
--                   crates/rekha-cli/src/main.rs; below it CatchUp
--   Index/Usearch   UsearchIndex of crates/rekha-index/src/usearch_index.rs; below it Labels and
--                   Laws
--   Storage/Catalog RedbCatalog of crates/rekha-storage/src/redb_catalog.rs; below it Keys,
--                   Indexed, Created and Reach
--   Cluster/LogStore MemoryLogStore and RedbLogStore of crates/rekha-cluster/src/log_store.rs and
--                   redb_log_store.rs; below it Range, Table, Last and Refines
--   Cluster/StateMachine ClusterStateMachine of crates/rekha-cluster/src/state_machine.rs,
--                   ClockMap of cluster.rs and the types of raft_types.rs; below it Leader and
--                   Snapshot
--   Cluster/Replication WalDelta of crates/rekha-cluster/src/cluster.rs and WalReplication of
--                   replication.rs
--   Prelude         numbers, lists, and association lists for `HashMap` and `BTreeMap`
--   Examples        instances of the interfaces, and the theorems at concrete inputs
--
-- Interfaces. Code that is not part of the program is an instance argument or a parameter:
-- `Floats` and `OrderedFloats` (f64, and the crate ordered-float), `Bitmap` (the crate roaring),
-- `Index` (the HNSW index, a trait of the program, with its constructor, which takes the space, the
-- dimension and the tuning of a collection), `Graph` (the crate usearch below it),
-- `Catalog` (what the engine calls of the catalog), `Codec`, `StateCodec` and `SnapshotCodec`
-- (crc32fast and bincode), `EngineSnapshotProvider` (a trait that the cluster calls) and
-- `JsonNumber` (the numbers of serde_json). `FloatBytes` (bytemuck and crc32fast on floats) is
-- that of a segment. `Metric` is the distance of two vectors (SIMD kernels of
-- crates/rekha-distance) and the comparison of two distances. `Disk` says which calls of the file
-- system succeed in a checkpoint, and so where it ends.
--
-- Integers keep their wrap-around: seqs, the labels of an index and the delays of a retry are
-- `% 2 ^ 64` and offsets `% 2 ^ 32`, as in a release build. The loops over a file run on fuel. A valid record takes at least 24 bytes, so one more
-- than the length of the file is enough.
--
-- Words. An `Entry` is a record of the log as its frame has it. `Holds` says that the file of a
-- log is its header and the frames of some entries, and that the fields of the log agree. `Torn`
-- bytes are less than a frame. The postings `Represents` some docs when each bitmap has exactly
-- the offsets of the docs that it should. `IsConsistent` is the invariant of a collection.
-- `SameCore` says that two collections have the same records, offsets and postings. A collection
-- is `Replayable` when its log, replayed from the start, gives its core. An index `IsLenient` when
-- it can be made for every dimension, and takes vectors of it as long as there are labels.
--
-- Not modelled: fsync and rename (a crash cuts the bytes of the last write short), failures of the
-- file system but in a checkpoint and where a collection is deleted, failures of a redb
-- transaction, the copies of segments to the object store, the text of JSON, the library usearch,
-- the distances, the requests between nodes, the HTTP API, the command line and the REPL. An
-- iteration over a `HashMap` is in the order of its association list.
pub mod Prelude
pub mod Core
pub mod Engine
pub mod Index
pub mod Wal
pub mod Storage
pub mod Cluster
pub mod Examples
