-- ===== src/Engine/Durable/Open.antt =====
-- `Collection::open` and `Collection::load_checkpoint` of crates/rekha-engine/src/collection.rs.
use rekha.Prelude.{
  ℕ, ◌+◌, ◌%◌, String, Bool, true, false, Option, none, some, List, [], ◌∷◌, length, leb, ◌==◌,
  if◌then◌else◌,
}
use rekha.Prelude.Dict
use rekha.Prelude.Dict.{Dict, string_eqv, nat_eqv}
use rekha.Core.Types.{Floats}
use rekha.Core.Op.{Operation}
use rekha.Core.Config.{CollectionConfig}
use rekha.Wal.{Codec, Wal, WalOptions, WalResult, or_else, open_wal}
use rekha.Wal as Log
use rekha.Engine.Bitmap.{Bitmap}
use rekha.Engine.ValueKey.{OrderedFloats}
use rekha.Engine.Base.{Record, Index, EngineError, EngineResult, ok, err}
use rekha.Engine.Postings
use rekha.Engine.Collection.{Collection, u32_mod}
use rekha.Engine.Durable.{
  CheckpointMeta, CheckpointDir, Durable, flush_if_needed, make_index, new, replay_after,
}

-- the loop of `load_checkpoint` on the segment files: one that cannot be opened is skipped
unfoldable pub opened_segments : {V : Type 0} → List (Option (List (List V))) → List (List (List V))
opened_segments [] = []
opened_segments (none ∷ files) = opened_segments files
opened_segments (some segment ∷ files) = segment ∷ opened_segments files

unfoldable pub load_segments :
    {V : Type 0}
    → List (List (List V))
    → Option (List (Option (List (List V))))
    → List (List (List V))
unfolding opened_segments
load_segments segments none = segments
load_segments segments (some files) = opened_segments files

-- the embeddings of the checkpointed records are dropped
unfoldable pub strip : {F V : Type 0} → ℕ → Dict String (Record F V) → Dict String (Record F V)
strip flushed_seq [] = []
strip flushed_seq ((id, r) ∷ rs) =
    (id, if leb r.seq flushed_seq then record r { embedding = none } else r) ∷ strip flushed_seq rs

unfoldable pub strip_embeddings :
    {F V : Type 0} → List (List (List V)) → ℕ → Dict String (Record F V) → Dict String (Record F V)
unfolding strip
strip_embeddings [] flushed_seq records = records
strip_embeddings (segment ∷ segments) flushed_seq records = strip flushed_seq records

-- the end of `load_checkpoint`: the log that was opened again, or its failure
unfoldable pub resume_log :
    {F V B I : Type 0} → Durable F V B I → WalResult Wal → Durable F V B I × Bool
resume_log s (Log.err e) = (s, false)
resume_log s (Log.ok w) = (record s { wal = w }, true)

module _ {F V B I : Type 0} ⦃fl : Floats F⦄ ⦃of : OrderedFloats fl⦄ ⦃bm : Bitmap B⦄ where
  -- the body of that loop of `load_checkpoint`: the record gets the next offset
  unfoldable pub restore_entry : Collection F V B I → String → Record F V → Collection F V B I
  restore_entry c id r = record c {
    next_offset = (c.next_offset + 1) % u32_mod;
    offsets = Dict.insert c.offsets id c.next_offset;
    id_by_offset = Dict.insert c.id_by_offset c.next_offset id;
    postings = Postings.insert c.postings c.next_offset r.metadata;
  }

  -- the loop of `load_checkpoint` on the records
  unfoldable pub restore_entries :
      Collection F V B I → Dict String (Record F V) → Collection F V B I
  restore_entries c [] = c
  restore_entries c ((id, r) ∷ entries) = restore_entries (restore_entry c id r) entries

  -- the part of `load_checkpoint` that rebuilds the offsets and the postings
  unfoldable pub restore_records :
      Collection F V B I → Dict String (Record F V) → Collection F V B I
  unfolding restore_entries
  restore_records c entries =
      restore_entries
        (record c {
          records = entries;
          offsets = [];
          id_by_offset = [];
          postings = Postings.new;
          next_offset = 0;
        })
        entries

module _ {F V B I : Type 0} ⦃ix : Index I V⦄ where
  -- `flush_if_needed` of the whole state
  unfoldable pub flush : Durable F V B I → Durable F V B I × EngineResult (Unit {0})
  flush s = let (coll, result) = flush_if_needed s.coll in (record s { coll = coll }, result)

module _ {F V B I : Type 0} ⦃fl : Floats F⦄ ⦃of : OrderedFloats fl⦄ ⦃bm : Bitmap B⦄ ⦃ix : Index I V⦄
    (c : Codec (Operation F V)) where
  -- Collection::load_checkpoint, from the point where the records are known. The log is opened
  -- again, to resume at the seq of the checkpoint.
  unfoldable pub restore_checkpoint :
      Durable F V B I
      → CheckpointMeta
      → Dict String (Record F V)
      → ℕ
      → Bool
      → Durable F V B I × Bool
  unfolding restore_records load_segments strip_embeddings resume_log
  restore_checkpoint s meta records epoch fsync =
      let restored = restore_records s.coll records in
      let segments = load_segments s.segments s.dir.segments in
      let s' = record s {
        coll = record restored {
          records = strip_embeddings segments meta.flushed_seq records;
          flushed_seq = meta.flushed_seq;
          index = or_else s.coll.index s.dir.index;
        };
        last_checkpoint_seq = meta.flushed_seq;
        segments = segments;
        segment_index = or_else s.segment_index s.dir.segment_index;
      } in
      let options : WalOptions = record { fsync = fsync; start_seq = some meta.next_seq } in
      resume_log s' (open_wal c s.wal.file epoch options)

  -- Collection::load_checkpoint, once the two files were read
  unfoldable pub load_files :
      Durable F V B I
      → Option CheckpointMeta
      → Option (Dict String (Record F V))
      → ℕ
      → Bool
      → Durable F V B I × Bool
  unfolding restore_checkpoint
  load_files s none records epoch fsync = (s, false)
  load_files s (some meta) none epoch fsync = (s, false)
  load_files s (some meta) (some records) epoch fsync =
      if length records == meta.record_count
      then restore_checkpoint s meta records epoch fsync
      else (s, false)

  -- Collection::load_checkpoint: whether the checkpoint was restored, and the state, which a
  -- failure of the log leaves half restored
  unfoldable pub load_checkpoint : Durable F V B I → ℕ → Bool → Durable F V B I × Bool
  unfolding load_files
  load_checkpoint s epoch fsync = load_files s s.dir.meta s.dir.records epoch fsync

  -- the flush at the end of `open`, after a replay that succeeded
  unfoldable pub flush_replayed :
      Durable F V B I × EngineResult (Unit {0}) → Durable F V B I × EngineResult (Unit {0})
  flush_replayed (s, err e) = (s, err e)
  flush_replayed (s, ok u) = flush s

  -- the two replays of `open`: after a checkpoint only the tail
  unfoldable pub replay_rest : Durable F V B I × Bool → Durable F V B I × EngineResult (Unit {0})
  replay_rest (s, true) = flush_replayed (replay_after c s s.coll.flushed_seq)
  replay_rest (s, false) = flush_replayed (replay_after c s 0)

  -- what `open` does with an opened log
  unfoldable pub open_on : Durable F V B I → ℕ → Bool → Durable F V B I × EngineResult (Unit {0})
  unfolding replay_rest flush_replayed
  open_on s epoch fsync = replay_rest (load_checkpoint s epoch fsync)

  -- Collection::open
  unfoldable pub open_collection :
      CollectionConfig → List ℕ → ℕ → Bool → CheckpointDir F V I → EngineResult (Durable F V B I)
  open_collection config file epoch fsync dir =
      elim (open_wal c file epoch (record { fsync = fsync; start_seq = none })) [
        | Log.err e ↦ err (EngineError.wal e)
        | Log.ok w ↦ elim (make_index ix config) [
          | none ↦ err EngineError.index
          | some i ↦
              let (s, result) = open_on (new config i w dir) epoch fsync in
              elim result [ err e ↦ err e | ok u ↦ ok s ]
        ]
      ]
