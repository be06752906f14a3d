-- ===== src/Engine/Durable/Checkpoint.antt =====
-- `checkpoint`, `rebuild_index`, `optimize` and `auto_checkpoint` of
-- crates/rekha-engine/src/collection.rs. Each call on the file system may fail.
pub mod Entries
pub mod Vectors
pub mod Saved
pub mod Loaded
pub mod Reopened
pub mod Cut
use rekha.Prelude.{
  ℕ, ◌+◌, ◌-◌, ◌%◌, String, Bool, true, false, Option, none, some, List, [], ◌∷◌, ◌++◌, length, leb,
  ◌==◌, if◌then◌else◌, str_leb,
}
use rekha.Prelude.Dict
use rekha.Prelude.Dict.{Dict, string_eqv}
use rekha.Core.Types.{Floats}
use rekha.Core.Op.{Operation}
use rekha.Wal.{Codec, Wal, WalOptions, WalResult, open_wal, prune, u64_mod}
use rekha.Wal as Log
use rekha.Engine.Base.{Record, Index, Catalog, EngineError, EngineResult, ok, err}
use rekha.Engine.Durable.{CheckpointMeta, CheckpointDir, Durable, make_index, flush_buffer}
use rekha.Engine.Durable.Open.{strip}
use rekha.Engine.Lookup.{load_vector, or_else}

-- Which calls of the file system succeed, and what a failed save leaves of the index.
pub record Disk (I : Type 0) : Type 0 where
  pub directory : Bool
  pub records : Bool
  pub index : Bool
  pub index_left : Option I
  pub stale : Bool
  pub marker : Bool
  pub segment_directory : Bool
  pub segment : Bool
  pub segment_index : Bool
  pub segment_opened : Bool
  pub cleaned : Bool

-- `?` on a state
unfoldable pub and_then :
    {S : Type 0}
    → S × EngineResult (Unit {0})
    → (S → S × EngineResult (Unit {0}))
    → S × EngineResult (Unit {0})
and_then (s, ok u) f = f s
and_then (s, err e) f = (s, err e)

-- a call of the file system that changes the state if it succeeds
abbrev pub write : {S : Type 0} → Bool → S → S → S × EngineResult (Unit {0})
write done old new = if done then (new, ok tt) else (old, err EngineError.io)

-- The records that have an embedding.
unfoldable pub entries_of : {F V : Type 0} → Dict String (Record F V) → Dict String (List V)
entries_of [] = []
entries_of ((id, r) ∷ rs) = elim r.embedding [
  | none ↦ entries_of rs
  | some embedding ↦ (id, embedding) ∷ entries_of rs
]

-- `sort_by_key`, which is stable: an entry goes before the first that is greater
unfoldable pub insert_entry :
    {V : Type 0} → String × List V → Dict String (List V) → Dict String (List V)
insert_entry e [] = e ∷ []
insert_entry e (d ∷ es) = if str_leb e.0 d.0 then e ∷ d ∷ es else d ∷ insert_entry e es

unfoldable pub sort_by_key : {V : Type 0} → Dict String (List V) → Dict String (List V)
unfolding insert_entry
sort_by_key [] = []
sort_by_key (e ∷ es) = insert_entry e (sort_by_key es)

-- the vectors that are pushed to the segment
unfoldable pub vectors_of : {V : Type 0} → Dict String (List V) → List (List V)
vectors_of [] = []
vectors_of ((id, v) ∷ es) = v ∷ vectors_of es

-- `idx`: the position of each id
unfoldable pub positions_from :
    {V : Type 0} → ℕ → Dict String ℕ → Dict String (List V) → Dict String ℕ
positions_from i idx [] = idx
positions_from i idx ((id, v) ∷ es) = positions_from (i + 1) (Dict.insert idx id i) es

-- seg-0.bin is replaced, other segment files stay
unfoldable pub put_segment :
    {V : Type 0}
    → List (List V)
    → Option (List (Option (List (List V))))
    → Option (List (Option (List (List V))))
put_segment segment none = some (some segment ∷ [])
put_segment segment (some []) = some (some segment ∷ [])
put_segment segment (some (file ∷ files)) = some (some segment ∷ files)

module _ {F V B I : Type 0} where
  -- the directory, and the file of the records
  unfoldable pub write_records :
      Disk I → Durable F V B I → Durable F V B I × EngineResult (Unit {0})
  unfolding and_then
  write_records disk s = and_then (write disk.directory s s) (λ s1.
      write disk.records s1 (record s1 { dir = record s1.dir { records = some s1.coll.records } }))

  -- the file of checkpoint.json
  unfoldable pub write_marker :
      Disk I → CheckpointMeta → Durable F V B I → Durable F V B I × EngineResult (Unit {0})
  write_marker disk meta s =
      write disk.marker s (record s { dir = record s.dir { meta = some meta } })

  -- the segment that was written is opened; if that fails, the old ones stay in use
  unfoldable pub use_segment : Bool → Durable F V B I → Dict String (List V) → Durable F V B I
  unfolding vectors_of positions_from
  use_segment opened s entries =
      if opened
      then record s {
        segments = vectors_of entries ∷ [];
        segment_index = positions_from 0 [] entries;
      }
      else s

  -- the branch for a checkpoint with vectors of one dimension: `push` panics at another, and the
  -- checkpoint does not end
  unfoldable pub write_segment :
      Disk I → Durable F V B I → Dict String (List V) → Durable F V B I × EngineResult (Unit {0})
  unfolding and_then put_segment vectors_of positions_from use_segment
  write_segment disk s entries =
      let segments = put_segment (vectors_of entries) s.dir.segments in
      let idx = positions_from 0 [] entries in
      and_then (write disk.segment s (record s { dir = record s.dir { segments = segments } }))
        (λ s1.
          and_then
            (write disk.segment_index s1
              (record s1 { dir = record s1.dir { segment_index = some idx } }))
            (λ s2. (use_segment disk.segment_opened s2 entries, ok tt)))

  -- the branch for a checkpoint without vectors; a failure to remove a file is ignored
  unfoldable pub drop_segments : Disk I → Durable F V B I → Durable F V B I
  drop_segments disk s = record s {
    dir = if disk.cleaned then record s.dir { segments = none; segment_index = none } else s.dir;
    segments = [];
    segment_index = [];
  }

  -- the block that writes the segment
  unfoldable pub write_entries :
      Disk I → Durable F V B I → Dict String (List V) → Durable F V B I × EngineResult (Unit {0})
  unfolding write_segment drop_segments
  write_entries disk s [] = (drop_segments disk s, ok tt)
  write_entries disk s (e ∷ es) = write_segment disk s (e ∷ es)

  unfoldable pub write_segments :
      Disk I → Durable F V B I → Durable F V B I × EngineResult (Unit {0})
  unfolding and_then write_entries entries_of sort_by_key
  write_segments disk s =
      and_then (write disk.segment_directory s s)
        (λ s1. write_entries disk s1 (sort_by_key (entries_of s1.coll.records)))

  -- the embeddings of the records that the checkpoint covers are dropped
  unfoldable pub strip_covered : CheckpointMeta → Durable F V B I → Durable F V B I
  unfolding strip
  strip_covered meta s = record s {
    coll = record s.coll { records = strip meta.flushed_seq s.coll.records };
  }

module _ {F V B I : Type 0} where
  -- the marker of a checkpoint
  unfoldable pub meta_of : Durable F V B I → CheckpointMeta
  meta_of s = record {
    flushed_seq = s.coll.flushed_seq;
    next_seq = (s.wal.last_seq + 1) % u64_mod;
    record_count = length s.coll.records;
  }

  -- the vector of each record: that of the segment, or else that of the record
  unfoldable pub vectors_to_add : Durable F V B I → Dict String (Record F V) → Dict String (List V)
  unfolding load_vector
  vectors_to_add s [] = []
  vectors_to_add s ((id, r) ∷ rs) = elim (or_else (load_vector s id) r.embedding) [
    | none ↦ vectors_to_add s rs
    | some v ↦ (id, v) ∷ vectors_to_add s rs
  ]

module _ {V I : Type 0} ⦃ix : Index I V⦄ where
  -- Collection::rebuild_index, on the entries in the order of their ids
  unfoldable pub add_entries : I → Dict String (List V) → I × EngineResult (Unit {0})
  add_entries i [] = (i, ok tt)
  add_entries i ((id, v) ∷ es) = elim (ix.add i id v) [
    | none ↦ (i, err EngineError.index)
    | some i' ↦ add_entries i' es
  ]

module _ {F V B I : Type 0} ⦃ix : Index I V⦄ where
  -- the file of the index, or its removal
  unfoldable pub write_index : Disk I → Durable F V B I → Durable F V B I × EngineResult (Unit {0})
  write_index disk s =
      if ix.len s.coll.index == 0
      then write disk.stale s (record s { dir = record s.dir { index = none } })
      else if disk.index
      then (record s { dir = record s.dir { index = some s.coll.index } }, ok tt)
      else (record s { dir = record s.dir { index = disk.index_left } }, err EngineError.index)

  -- what `checkpoint` writes, in this order
  unfoldable pub save_files :
      Disk I → CheckpointMeta → Durable F V B I → Durable F V B I × EngineResult (Unit {0})
  unfolding and_then
  save_files disk meta s = and_then (write_records disk s) (λ s1.
      and_then (write_index disk s1) (λ s2.
        and_then (write_marker disk meta s2)
          (λ s3. and_then (write_segments disk s3) (λ s4. (strip_covered meta s4, ok tt)))))

  unfoldable pub rebuild_index : Durable F V B I → Durable F V B I × EngineResult (Unit {0})
  unfolding add_entries vectors_to_add sort_by_key
  rebuild_index s = elim (make_index ix s.coll.config) [
    | none ↦ (s, err EngineError.index)
    | some made ↦
        let (i, result) = add_entries made (sort_by_key (vectors_to_add s s.coll.records)) in
        (record s { coll = record s.coll { index = i } }, result)
  ]

module _ {F V B I K : Type 0} (c : Codec (Operation F V)) where
  -- the log after the prune is opened again, to resume at the next seq
  unfoldable pub resume_at :
      CheckpointMeta
      → Durable F V B I
      → K
      → WalResult Wal
      → (Durable F V B I × K) × EngineResult (Unit {0})
  resume_at meta s k (Log.err e) = ((s, k), err (EngineError.wal e))
  resume_at meta s k (Log.ok w) =
      ((record s { wal = w; last_checkpoint_seq = meta.flushed_seq }, k), ok tt)

  unfoldable pub reopen_log :
      Bool
      → CheckpointMeta
      → Durable F V B I
      → K
      → WalResult Wal
      → (Durable F V B I × K) × EngineResult (Unit {0})
  unfolding resume_at
  reopen_log fsync meta s k (Log.err e) = ((s, k), err (EngineError.wal e))
  reopen_log fsync meta s k (Log.ok w) =
      let options : WalOptions = record { fsync = fsync; start_seq = some meta.next_seq } in
      resume_at meta (record s { wal = w }) k (open_wal c w.file w.header_epoch options)

  -- the watermark in the catalog, and then the log
  unfoldable pub prune_log :
      Bool
      → CheckpointMeta
      → Durable F V B I
      → K
      → Option K
      → (Durable F V B I × K) × EngineResult (Unit {0})
  unfolding reopen_log
  prune_log fsync meta s k none = ((s, k), err EngineError.catalog)
  prune_log fsync meta s k (some k') = reopen_log fsync meta s k' (prune c s.wal meta.flushed_seq)

module _ {F V B I K : Type 0} ⦃catalog : Catalog K⦄ (c : Codec (Operation F V)) where
  unfoldable pub commit :
      Bool
      → CheckpointMeta
      → K
      → Durable F V B I × EngineResult (Unit {0})
      → (Durable F V B I × K) × EngineResult (Unit {0})
  unfolding prune_log
  commit fsync meta k (s, err e) = ((s, k), err e)
  commit fsync meta k (s, ok u) =
      prune_log c fsync meta s k (catalog.advance_log_offset k s.coll.config.id meta.flushed_seq)

module _ {F V B I K : Type 0} ⦃ix : Index I V⦄ ⦃catalog : Catalog K⦄
    (c : Codec (Operation F V)) where
  -- Collection::checkpoint
  unfoldable pub checkpoint :
      Disk I → Bool → Durable F V B I → K → (Durable F V B I × K) × EngineResult (Unit {0})
  unfolding commit save_files meta_of
  checkpoint disk fsync s k =
      if length s.coll.records == 0
      then ((s, k), ok tt)
      else commit c fsync (meta_of s) k (save_files disk (meta_of s) s)

  -- Collection::optimize, without the statistics
  unfoldable pub optimize :
      Disk I → Bool → Durable F V B I → K → (Durable F V B I × K) × EngineResult (Unit {0})
  unfolding checkpoint rebuild_index
  optimize disk fsync s k =
      let (coll, flushed) = flush_buffer s.coll in
      let flushed_state = record s { coll = coll } in
      elim flushed [
        | err e ↦ ((flushed_state, k), err e)
        | ok u ↦
            let (rebuilt, result) = rebuild_index flushed_state in
            elim result [ err e ↦ ((rebuilt, k), err e) | ok u' ↦ checkpoint disk fsync rebuilt k ]
      ]

  -- Collection::auto_checkpoint
  unfoldable pub auto_checkpoint :
      Disk I → Bool → Durable F V B I → K → (Durable F V B I × K) × EngineResult (Unit {0})
  unfolding checkpoint
  auto_checkpoint disk fsync s k =
      if length s.coll.records == 0
      then ((s, k), ok tt)
      else if leb s.coll.config.hnsw.sync_threshold (s.wal.last_seq - s.last_checkpoint_seq)
      then checkpoint disk fsync s k
      else ((s, k), ok tt)
