-- ===== src/Engine/Durable/Checkpoint/Cut.antt =====
-- A checkpoint that ends before its marker, and opening the collection then: `checkpoint` and
-- `open` of crates/rekha-engine/src/collection.rs.
use rekha.Prelude.{
  ℕ, ◌≡◌, refl, ap, ◌∙◌, String, Bool, true, false, Option, none, some, List, [], ◌∷◌, ◌++◌, length,
  ◌==◌, inl, inr, Bool-cases, str_eq,
}
use rekha.Prelude.Dict.{Dict, string_eqv, get}
use rekha.Core.Types.{Floats}
use rekha.Core.Op.{Operation, op_id}
use rekha.Wal.{Codec, WalRecord}
use rekha.Wal.Log.{Entry}
use rekha.Wal.Scan.{Torn}
use rekha.Wal.Append.{Holds}
use rekha.Wal.Batch.{all_records}
use rekha.Engine.Bitmap.{Bitmap}
use rekha.Engine.ValueKey.{OrderedFloats}
use rekha.Engine.Base.{Record, Index, Catalog, EngineError, EngineResult, ok, err}
use rekha.Engine.Durable.{CheckpointMeta, Durable, new, new_collection}
use rekha.Engine.Durable.Open.{load_files, load_checkpoint, open_collection}
use rekha.Engine.Durable.Dimension.{OpsFit}
use rekha.Engine.Durable.Lenient.{IsLenient}
use rekha.Engine.Durable.Reopen.{open_collection-log}
use rekha.Engine.Durable.Checkpoint.{
  Disk, and_then, write_records, write_index, write_marker, save_files, commit, meta_of, checkpoint,
  write_segments, strip_covered,
}
use rekha.Engine.Lookup.Folded.{folded, run-folded}

-- The disk takes what a checkpoint writes before its marker, and not the marker.
pub record EndsAtMarker {I : Type 0} (disk : Disk I) : Type 0 where
  pub directory : disk.directory ≡ true
  pub records : disk.records ≡ true
  pub index : disk.index ≡ true
  pub stale : disk.stale ≡ true
  pub marker : disk.marker ≡ false

module _ {F V : Type 0} where
  -- The operations leave the id alone.
  abbrev pub LeaveAlone : String → List (WalRecord (Operation F V)) → Type 0
  LeaveAlone id [] = Unit {0}
  LeaveAlone id (x ∷ xs) = (str_eq (op_id x.op) id ≡ false) × LeaveAlone id xs

  folded-alone :
      (recs : List (WalRecord (Operation F V))) (id : String) (r : Option (Record F V))
      → LeaveAlone id recs
      → folded recs id r ≡ r
  folded-alone [] id r h = refl
  folded-alone (x ∷ xs) id r h = rw (h.0) (folded-alone xs id r h.1)

module _ {F V B I : Type 0} ⦃ix : Index I V⦄ where
  -- the index, or no index, is written behind the records
  written_index :
      (disk : Disk I) (s : Durable F V B I)
      → EndsAtMarker disk
      → (i : Option I) × (write_index disk s
          ≡ (record s { dir = record s.dir { index = i } }, ok tt))
  unfolding write_index
  written_index disk s ends = elim (Bool-cases (ix.len s.coll.index == 0)) [
    | inl none_there ↦ (none, rw (none_there, ends.stale) refl)
    | inr some_there ↦ (some s.coll.index, rw (some_there, ends.index) refl)
  ]

  records_written :
      (disk : Disk I) (s : Durable F V B I)
      → EndsAtMarker disk
      → write_records disk s
        ≡ (record s { dir = record s.dir { records = some s.coll.records } }, ok tt)
  unfolding write_records and_then
  records_written disk s ends = rw (ends.directory, ends.records) refl

  marker_missing :
      (disk : Disk I) (meta : CheckpointMeta) (s : Durable F V B I)
      → EndsAtMarker disk
      → write_marker disk meta s ≡ (s, err EngineError.io)
  unfolding write_marker
  marker_missing disk meta s ends = rw (ends.marker) refl

  -- The state that such a checkpoint leaves has the new records beside the old marker.
  save_files-cut :
      (disk : Disk I) (meta : CheckpointMeta) (s : Durable F V B I)
      → EndsAtMarker disk
      → (i : Option I) × (save_files disk meta s ≡ (
        record s { dir = record s.dir { records = some s.coll.records; index = i } },
        err EngineError.io,
      ))
  unfolding save_files and_then
  save_files-cut disk meta s ends =
      let s1 : Durable F V B I = record s {
        dir = record s.dir { records = some s.coll.records };
      } in
      let (i, done) = written_index disk s1 ends in
      let s2 : Durable F V B I = record s1 { dir = record s1.dir { index = i } } in
      let segments : Durable F V B I → Durable F V B I × EngineResult (Unit {0}) =
        λ s3. and_then (write_segments disk s3) (λ s4. (strip_covered meta s4, ok tt)) in
      let marking : Durable F V B I → Durable F V B I × EngineResult (Unit {0}) =
        λ x. and_then (write_marker disk meta x) segments in
      (
        i,
        ap (λ p. and_then p (λ x. and_then (write_index disk x) marking))
              (records_written disk s ends)
            ∙ ap (λ p. and_then p marking) done
            ∙ ap (λ p. and_then p segments) (marker_missing disk meta s2 ends),
      )

module _ {F V B I K : Type 0} ⦃ix : Index I V⦄ ⦃catalog : Catalog K⦄
    (c : Codec (Operation F V)) where
  checkpoint-cut :
      (disk : Disk I) (fsync : Bool) (s : Durable F V B I) (k : K)
      → EndsAtMarker disk
      → (length s.coll.records == 0) ≡ false
      → (i : Option I) × (checkpoint c disk fsync s k ≡ (
        (record s { dir = record s.dir { records = some s.coll.records; index = i } }, k),
        err EngineError.io,
      ))
  unfolding checkpoint commit
  checkpoint-cut disk fsync s k ends live =
      let (i, cut) = save_files-cut disk (meta_of s) s ends in
      (i, rw live (ap (commit c fsync (meta_of s) k) cut))

module _ {F V B I : Type 0} ⦃fl : Floats F⦄ ⦃of : OrderedFloats fl⦄ ⦃bm : Bitmap B⦄ ⦃ix : Index I V⦄
    (c : Codec (Operation F V)) where
  -- Records of another number than the marker says are not loaded.
  load_checkpoint-counted :
      (s : Durable F V B I) (meta : CheckpointMeta) (records : Dict String (Record F V)) (epoch : ℕ)
      (fsync : Bool)
      → s.dir.meta ≡ some meta
      → s.dir.records ≡ some records
      → (length records == meta.record_count) ≡ false
      → load_checkpoint c s epoch fsync ≡ (s, false)
  unfolding load_checkpoint load_files
  load_checkpoint-counted s meta records epoch fsync marker there differ =
      ap (λ o. load_files c s o s.dir.records epoch fsync) marker
      ∙ (ap (λ o. load_files c s (some meta) o epoch fsync) there ∙ rw differ refl)

module _ {F V B I K : Type 0} ⦃fl : Floats F⦄ ⦃of : OrderedFloats fl⦄ ⦃bm : Bitmap B⦄
    ⦃ix : Index I V⦄ ⦃catalog : Catalog K⦄ (c : Codec (Operation F V)) where
  -- A checkpoint that ends before its marker, over an earlier one with another number of records,
  -- loses what only the earlier one had: opening the collection succeeds, and an id on which the
  -- log has no operation has no record, since the new records do not fit the old marker, and the
  -- log was pruned. The log holds some entries with vectors of the dimension of the collection, the
  -- index keeps its promises, there are records, and the log may have a torn tail.
  pub checkpoint-forgets :
      (disk : Disk I) (fsync : Bool) (s : Durable F V B I) (k : K) (es : List Entry)
      (meta : CheckpointMeta) (tail : List ℕ) (epoch : ℕ)
      → IsLenient ix
      → Holds c s.wal es
      → OpsFit s.coll.config.dimension (all_records c s.wal es)
      → s.dir.meta ≡ some meta
      → (length s.coll.records == meta.record_count) ≡ false
      → EndsAtMarker disk
      → (length s.coll.records == 0) ≡ false
      → Torn tail
      → (t u : Durable F V B I) × (checkpoint c disk fsync s k ≡ ((t, k), err EngineError.io))
        × (open_collection c t.coll.config (t.wal.file ++ tail) epoch fsync t.dir ≡ ok u)
        × ((id : String) → LeaveAlone id (all_records c s.wal es) → get u.coll.records id ≡ none)
  unfolding new new_collection get
  checkpoint-forgets disk fsync s k es meta tail epoch lenient h fit marker differ ends live torn =
      let (i, cut) = checkpoint-cut c disk fsync s k ends live in
      let t : Durable F V B I = record s {
        dir = record s.dir { records = some s.coll.records; index = i };
      } in
      let (j, u, opens, core) =
        open_collection-log c s.coll.config s.wal es tail epoch fsync t.dir lenient h fit
          (λ j. load_checkpoint-counted c _ meta s.coll.records epoch fsync marker refl differ)
          torn in
      (
        t,
        u,
        cut,
        opens,
        λ id alone.
            ap (λ rs. get rs id) core.records
            ∙ run-folded (new_collection s.coll.config j) (all_records c s.wal es) id
            ∙ folded-alone (all_records c s.wal es) id none alone,
      )
