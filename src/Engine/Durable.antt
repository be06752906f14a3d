-- ===== src/Engine/Durable.antt =====
-- `Collection` of crates/rekha-engine/src/collection.rs with its log and its checkpoint directory:
-- writing, replaying, flushing and opening. A file of the directory is the value that it encodes.
pub mod Open
pub mod Checkpoint
pub mod Replay
pub mod Dimension
pub mod Recover
pub mod Lenient
pub mod Reopen
pub mod Restore
pub mod Invariant
pub mod Configured
use rekha.Prelude.{
  ℕ, suc, ◌+◌, ◌-◌, ◌%◌, String, Bool, true, false, not, Option, none, some, List, [], ◌∷◌, ◌++◌,
  length, leb, ltb, ◌==◌, if◌then◌else◌,
}
use rekha.Prelude.Dict
use rekha.Prelude.Dict.{Dict, string_eqv, nat_eqv, get}
use rekha.Core.Types.{Floats}
use rekha.Core.Op.{Operation}
use rekha.Core.Config.{CollectionConfig}
use rekha.Wal.{
  Codec, Wal, wal_options, WalRecord, WalResult, or_else, open_wal, append, read_range, prune,
}
use rekha.Wal as Log
use rekha.Engine.Bitmap.{Bitmap}
use rekha.Engine.ValueKey.{OrderedFloats}
use rekha.Engine.Base.{Record, Index, EngineError, EngineResult, ok, err, index, wal}
use rekha.Engine.Postings
use rekha.Engine.Collection.{Collection, apply_operation, u32_mod}

-- CheckpointMeta
pub record CheckpointMeta : Type 0 where
  pub flushed_seq : ℕ
  pub next_seq : ℕ
  pub record_count : ℕ

-- The files of a checkpoint directory; `none` is a file that is missing or cannot be read, or a
-- missing directory of segments. A segment is its vectors. An index is what loading its file for the
-- space and the dimension of the collection gives.
pub record CheckpointDir (F V I : Type 0) : Type 0 where
  pub meta : Option CheckpointMeta
  pub records : Option (Dict String (Record F V))
  pub index : Option I
  pub segments : Option (List (Option (List (List V))))
  pub segment_index : Option (Dict String ℕ)

-- The remaining fields of Collection.
pub record Durable (F V B I : Type 0) : Type 0 where
  pub coll : Collection F V B I
  pub wal : Wal
  pub dir : CheckpointDir F V I
  pub last_checkpoint_seq : ℕ
  pub segments : List (List (List V))
  pub segment_index : Dict String ℕ

abbrev pub max : ℕ → ℕ → ℕ
max a b = if leb a b then b else a

module _ {Op : Type 0} (c : Codec Op) where
  -- the first loop of `write_ops`: what was appended before an error stays in the log
  unfoldable pub append_all : Wal → List Op → Wal × WalResult (List (WalRecord Op))
  append_all w [] = (w, Log.ok [])
  append_all w (op ∷ ops) = elim (append c w op) [
    | Log.err e ↦ (w, Log.err e)
    | Log.ok (w', rec) ↦
        let (w'', rest) = append_all w' ops in
        elim rest [ Log.err e ↦ (w'', Log.err e) | Log.ok recs ↦ (w'', Log.ok (rec ∷ recs)) ]
  ]

module _ {F V I : Type 0} ⦃ix : Index I V⦄ where
  -- the loop of `flush_buffer`: the index, and the highest seq unless the index fails
  unfoldable pub flush_records : I → List (Record F V) → ℕ → I × Option ℕ
  flush_records i [] max_seq = (i, some max_seq)
  flush_records i (r ∷ rs) max_seq = elim r.embedding [
    | none ↦ flush_records i rs max_seq
    | some embedding ↦ elim (if ix.contains i r.id then ix.delete i r.id else some i) [
      | none ↦ (i, none)
      | some i' ↦ elim (ix.add i' r.id embedding) [
        | none ↦ (i', none)
        | some i'' ↦ flush_records i'' rs (max max_seq r.seq)
      ]
    ]
  ]

module _ {F V B I : Type 0} ⦃ix : Index I V⦄ where
  -- Collection::flush_buffer: the buffer is taken first, so an error loses it.
  unfoldable pub flush_buffer : Collection F V B I → Collection F V B I × EngineResult (Unit {0})
  flush_buffer c =
      let (i, flushed) = flush_records c.index c.buffer 0 in
      elim flushed [
        | none ↦ (record c { buffer = []; index = i }, err EngineError.index)
        | some max_seq ↦
            (record c { buffer = []; index = i; flushed_seq = max c.flushed_seq max_seq }, ok tt)
      ]

  -- Collection::flush_if_needed
  unfoldable pub flush_if_needed : Collection F V B I → Collection F V B I × EngineResult (Unit {0})
  flush_if_needed c =
      if leb c.config.hnsw.batch_size (length c.buffer) then flush_buffer c else (c, ok tt)

-- the call of `UsearchIndex::with_hnsw`
abbrev pub make_index : {V I : Type 0} → Index I V → CollectionConfig → Option I
make_index ix config = ix.with_hnsw config.space config.dimension config.hnsw

module _ {F V B I : Type 0} ⦃fl : Floats F⦄ ⦃of : OrderedFloats fl⦄ ⦃bm : Bitmap B⦄ where
  -- Collection::new, with the index that was made
  unfoldable pub new_collection : CollectionConfig → I → Collection F V B I
  new_collection config i = record {
    config = config;
    records = [];
    buffer = [];
    index = i;
    flushed_seq = 0;
    offsets = [];
    id_by_offset = [];
    next_offset = 0;
    postings = Postings.new;
  }

  -- The state that `Collection::new` makes of a log that was opened and an index that was made,
  -- with a directory as given.
  unfoldable pub new : CollectionConfig → I → Wal → CheckpointDir F V I → Durable F V B I
  new config i w dir = record {
    coll = new_collection config i;
    wal = w;
    dir = dir;
    last_checkpoint_seq = 0;
    segments = [];
    segment_index = [];
  }

module _ {F V B I : Type 0} ⦃fl : Floats F⦄ ⦃of : OrderedFloats fl⦄ ⦃bm : Bitmap B⦄
    ⦃ix : Index I V⦄ where
  -- the second loop of `write_ops`, and the loop of `replay_after`: it stops at the first error
  unfoldable pub apply_all :
      Collection F V B I
      → List (WalRecord (Operation F V))
      → Collection F V B I × EngineResult (Unit {0})
  apply_all c [] = (c, ok tt)
  apply_all c (rec ∷ recs) =
      let (c', result) = apply_operation c rec.op rec.seq in
      elim result [ err e ↦ (c', err e) | ok u ↦ apply_all c' recs ]

  module _ (c : Codec (Operation F V)) where
    -- Collection::write_ops
    unfoldable pub write_ops :
        Durable F V B I → List (Operation F V) → Durable F V B I × EngineResult (Unit {0})
    write_ops s ops =
        let (w, appended) = append_all c s.wal ops in
        elim appended [
          | Log.err e ↦ (record s { wal = w }, err (EngineError.wal e))
          | Log.ok recs ↦
              let (coll, result) = apply_all s.coll recs in
              (record s { wal = w; coll = coll }, result)
        ]

    -- Collection::replay_after
    unfoldable pub replay_after : Durable F V B I → ℕ → Durable F V B I × EngineResult (Unit {0})
    replay_after s flushed_seq =
        if ltb flushed_seq s.wal.last_seq
        then elim (read_range c s.wal (flushed_seq + 1) s.wal.last_seq) [
          | Log.err e ↦ (s, err (EngineError.wal e))
          | Log.ok recs ↦
              let (coll, result) = apply_all s.coll recs in (record s { coll = coll }, result)
        ]
        else (s, ok tt)
