-- ===== src/Engine/Durable/Reopen.antt =====
-- Opening a collection that has no checkpoint, after a crash.
use rekha.Prelude.{
  ℕ, ◌≡◌, refl, sym, ap, ◌∙◌, Bool, false, none, some, List, [], ◌++◌, length, leb, ◌≤◌, arith, inl,
  inr, Bool-cases,
}
use rekha.Core.Types.{Floats}
use rekha.Core.Op.{Operation}
use rekha.Core.Config.{CollectionConfig}
use rekha.Wal.{Codec, Wal, WalOptions, wal_options, WalRecord, open_wal}
use rekha.Wal as Log
use rekha.Wal.Scan.{Torn}
use rekha.Wal.Recovery.{opened, open_wal-image}
use rekha.Wal.Log.{Entry}
use rekha.Wal.Append.{Holds, opened-Holds}
use rekha.Engine.Bitmap.{Bitmap}
use rekha.Engine.ValueKey.{OrderedFloats}
use rekha.Engine.Base.{Index, ok}
use rekha.Engine.Collection.{Collection}
use rekha.Engine.Collection.Core.{SameCore, SameCore-trans}
use rekha.Engine.Durable.{
  CheckpointDir, Durable, flush_records, flush_buffer, flush_if_needed, replay_after, new,
  new_collection, make_index, max,
}
use rekha.Engine.Durable.Open.{
  load_files, load_checkpoint, flush, flush_replayed, replay_rest, open_on, open_collection,
}
use rekha.Engine.Durable.Lenient.{
  IsLenient, flush_records_total, length-run_buffer, run-Ready, few-records_between,
}
use rekha.Engine.Durable.Replay.{run}
use rekha.Engine.Durable.Dimension.{HasDimension, OpsFit, run-HasDimension}
use rekha.Wal.Batch.{all_records}
use mathlib.Core.Path.{subst}
use rekha.Engine.Durable.Recover.{Replayable, replay_after-tail, opened-all_records}

module _ {F V B I : Type 0} ⦃ix : Index I V⦄ where
  flush_buffer-done :
      (c : Collection F V B I) (j : I) (k : ℕ)
      → flush_records c.index c.buffer 0 ≡ (j, some k)
      → flush_buffer c
        ≡ (record c { buffer = []; index = j; flushed_seq = max c.flushed_seq k }, ok tt)
  unfolding flush_buffer
  flush_buffer-done c j k e = rw (e, flush_buffer, e) refl

module _ {F V B I : Type 0} ⦃ix : Index I V⦄ (lenient : IsLenient ix) (d : ℕ) where
  flush_buffer_total :
      (c : Collection F V B I)
      → lenient.Ready d (length c.buffer) c.index
      → HasDimension d c.buffer
      → (c' : Collection F V B I) × (flush_buffer c ≡ (c', ok tt)) × SameCore c' c
  flush_buffer_total c ready fits =
      let (j, k, e) = flush_records_total lenient d c.index c.buffer 0 ready fits in
      (
        _,
        flush_buffer-done c j k e,
        record {
          records = refl;
          offsets = refl;
          id_by_offset = refl;
          next_offset = refl;
          postings = refl;
        },
      )

  -- Flushing vectors of the dimension, for as many as the index is ready, succeeds, and changes no
  -- record, no offset and no posting.
  pub flush_total :
      (s : Durable F V B I)
      → lenient.Ready d (length s.coll.buffer) s.coll.index
      → HasDimension d s.coll.buffer
      → (c' : Collection F V B I) × (flush s ≡ (record s { coll = c' }, ok tt)) × SameCore c' s.coll
  unfolding flush flush_if_needed
  flush_total s ready fits =
      elim (Bool-cases (leb s.coll.config.hnsw.batch_size (length s.coll.buffer))) [
        | inl full ↦
            let (c', e, same) = flush_buffer_total s.coll ready fits in
            (c', rw (full, e) refl, same)
        | inr room ↦ (
          s.coll,
          rw room refl,
          record {
            records = refl;
            offsets = refl;
            id_by_offset = refl;
            next_offset = refl;
            postings = refl;
          },
        )
      ]

module _ {F V B I : Type 0} ⦃fl : Floats F⦄ ⦃of : OrderedFloats fl⦄ ⦃bm : Bitmap B⦄ ⦃ix : Index I V⦄
    (c : Codec (Operation F V)) where
  load_checkpoint-none :
      (s : Durable F V B I) (epoch : ℕ) (fsync : Bool)
      → s.dir.meta ≡ none
      → load_checkpoint c s epoch fsync ≡ (s, false)
  unfolding load_checkpoint load_files
  load_checkpoint-none s epoch fsync e =
      ap (λ meta. load_files c s meta s.dir.records epoch fsync) e

  open_on-replayed :
      (s s' : Durable F V B I) (epoch : ℕ) (fsync : Bool)
      → load_checkpoint c s epoch fsync ≡ (s, false)
      → replay_after c s 0 ≡ (s', ok tt)
      → open_on c s epoch fsync ≡ flush s'
  unfolding open_on replay_rest flush_replayed
  open_on-replayed s s' epoch fsync gone replayed =
      ap (replay_rest c) gone ∙ ap (flush_replayed c) replayed

  pub open_collection-flushed :
      (config : CollectionConfig) (file : List ℕ) (epoch : ℕ) (fsync : Bool)
      (dir : CheckpointDir F V I) (w : Wal) (i : I) (s : Durable F V B I)
      → open_wal c file epoch (wal_options fsync) ≡ Log.ok w
      → make_index ix config ≡ some i
      → open_on c (new config i w dir) epoch fsync ≡ (s, ok tt)
      → open_collection c config file epoch fsync dir ≡ ok s
  unfolding open_collection wal_options
  open_collection-flushed config file epoch fsync dir w i s opening made done =
      rw (opening, open_collection, made, open_collection, done, open_collection, done) refl

  -- Replaying a log and flushing, from an index that is ready for the records of the log.
  pub flush-run :
      (lenient : IsLenient ix) (d : ℕ) (s : Durable F V B I)
      (recs : List (WalRecord (Operation F V)))
      → s.coll.buffer ≡ []
      → lenient.Ready d (length recs) s.coll.index
      → OpsFit d recs
      → (c' : Collection F V B I) × (flush (record s { coll = run s.coll recs })
          ≡ (record s { coll = c' }, ok tt))
        × SameCore c' (run s.coll recs)
  flush-run lenient d s recs empty ready fit =
      let few : length (run s.coll recs).buffer ≤ length recs =
        omega (arith, length-run_buffer s.coll recs, ap length empty) in
      flush_total lenient d (record s { coll = run s.coll recs })
        (lenient.fewer d (length (run s.coll recs).buffer) (length recs) (run s.coll recs).index few
          (run-Ready lenient d (length recs) s.coll recs ready))
        (run-HasDimension d s.coll recs (subst (HasDimension d) (sym empty) tt) fit)

  -- Where no checkpoint is loaded, opening the file of a log, with a torn tail, applies every
  -- operation of the log to a new collection.
  pub open_collection-log :
      (config : CollectionConfig) (w : Wal) (es : List Entry) (tail : List ℕ) (epoch : ℕ)
      (fsync : Bool) (dir : CheckpointDir F V I)
      → IsLenient ix
      → (h : Holds c w es) → OpsFit config.dimension (all_records c w es)
      → ((i : I)
          → load_checkpoint {B = B} c
              (new config i (opened c w.header_epoch es (wal_options fsync)) dir)
              epoch
              fsync
            ≡ (new config i (opened c w.header_epoch es (wal_options fsync)) dir, false))
      → Torn tail
      → (i : I) × (s' : Durable F V B I) × (open_collection c config
            (w.file ++ tail)
            epoch
            fsync
            dir
          ≡ ok s')
        × SameCore s'.coll (run (new_collection config i) (all_records c w es))
  unfolding new new_collection
  open_collection-log config w es tail epoch fsync dir lenient h fit unloaded torn =
      let options : WalOptions = wal_options fsync in
      let w' = opened c w.header_epoch es options in
      let d = config.dimension in
      let (i, made, ready) = lenient.makes config.space d config.hnsw in
      let start : Durable F V B I = new config i w' dir in
      let recs = all_records c w' es in
      let same_recs = opened-all_records c w es options h in
      let opening : open_wal c (w.file ++ tail) epoch options ≡ Log.ok w' =
        rw h.file (open_wal-image c w.header_epoch epoch es tail options h.epoch_fits h.log torn) in
      let replaying =
        replay_after-tail c lenient.deletes start es 0
          (opened-Holds c w.header_epoch es options h.epoch_fits h.log) in
      let few = few-records_between c w.header_epoch 1 w'.last_seq es h.log in
      let (coll, flushed, same) =
        flush-run lenient d start recs refl (ready (length recs) few)
          (subst (OpsFit d) (sym same_recs) fit) in
      let s' : Durable F V B I = record start { coll = coll } in
      (
        i,
        s',
        open_collection-flushed config (w.file ++ tail) epoch fsync dir w' i s' opening made
            (open_on-replayed start _ epoch fsync (unloaded i) replaying ∙ flushed),
        subst (λ l. SameCore coll (run (new_collection config i) l)) same_recs same,
      )

  -- A crash at any point of a later write leaves the log and a torn tail. Opening the collection
  -- without a checkpoint then succeeds, and its records, offsets and postings are those of the
  -- collection before the crash, if the log was replayable, its vectors have the dimension of the
  -- collection, and the index keeps its promises.
  pub open_collection-Replayable :
      (s : Durable F V B I) (tail : List ℕ) (epoch : ℕ) (fsync : Bool)
      → IsLenient ix
      → (r : Replayable c s) → OpsFit s.coll.config.dimension (all_records c s.wal r.entries)
      → s.dir.meta ≡ none
      → Torn tail
      → (s' : Durable F V B I) × (open_collection c s.coll.config
            (s.wal.file ++ tail)
            epoch
            fsync
            s.dir
          ≡ ok s')
        × SameCore s'.coll s.coll
  unfolding new
  open_collection-Replayable s tail epoch fsync lenient r fit gone torn =
      let (i, s', opens, same) =
        open_collection-log s.coll.config s.wal r.entries tail epoch fsync s.dir lenient r.holds fit
          (λ i. load_checkpoint-none _ epoch fsync gone) torn in
      (s', opens, SameCore-trans same (r.replays s.coll.config i))
