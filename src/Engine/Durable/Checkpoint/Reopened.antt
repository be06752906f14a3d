-- ===== src/Engine/Durable/Checkpoint/Reopened.antt =====
-- Opening a collection after a checkpoint and a crash: `checkpoint` and `open` of
-- crates/rekha-engine/src/collection.rs.
use mathlib.Core.Path.{subst}
use mathlib.Core.List.{append-nil}
use rekha.Prelude.{
  ℕ, ◌≡◌, refl, sym, ap, ◌∙◌, String, Bool, true, false, Option, none, some, List, [], ◌++◌, length,
  ◌==◌, ◌≤◌, ◌+◌, inl, inr, Bool-cases, arith,
}
use rekha.Prelude.Dict.{string_eqv, get, Unique}
use rekha.Core.Types.{Floats}
use rekha.Core.Op.{Operation}
use rekha.Wal.{Codec, Wal, or_else, WalOptions, WalRecord, wal_options, open_wal, u64_mod}
use rekha.Wal as Log
use rekha.Wal.Log.{Entry}
use rekha.Wal.Scan.{Torn}
use rekha.Wal.Recovery.{image, opened, open_wal-image}
use rekha.Wal.Append.{Holds, opened-Holds}
use rekha.Wal.Prune.{above, pruned, prune-Holds}
use rekha.Wal.ReadRange.{records_between}
use rekha.Wal.Tail.{tail_records, records_between-split, records_between-above}
use rekha.Wal.Batch.{all_records, IsLog-AllWithin}
use rekha.Engine.Bitmap.{Bitmap}
use rekha.Engine.ValueKey.{OrderedFloats}
use rekha.Engine.Base.{Record, Index, Catalog, ok}
use rekha.Engine.Collection.{Collection}
use rekha.Engine.Durable.{CheckpointMeta, Durable, new, new_collection}
use rekha.Engine.Durable.Open.{open_collection}
use rekha.Engine.Durable.Replay.{run, run-append}
use rekha.Engine.Durable.Dimension.{OpsFit}
use rekha.Engine.Durable.Recover.{Replayable, replay_after-tail}
use rekha.Engine.Durable.Lenient.{IsLenient, few-records_between}
use rekha.Engine.Durable.Reopen.{flush-run, open_collection-flushed}
use rekha.Engine.Durable.Checkpoint.{Disk, checkpoint, entries_of, sort_by_key, meta_of}
use rekha.Engine.Durable.Checkpoint.Entries.{
  vector_of, get-entries_of, entries_of-Unique, get-sort_by_key,
}
use rekha.Engine.Durable.Checkpoint.Saved.{saved, index_file, LogKept, checkpoint-value}
use rekha.Engine.Durable.Checkpoint.Vectors.{
  read_as, read_as-stripped, load_vector-in_first, get_record-read_as,
}
use rekha.Engine.Durable.Checkpoint.Loaded.{
  loaded-vector, get-strip_embeddings, restore_records-buffer, loaded, open_on-loaded,
}
use rekha.Engine.Lookup.{load_vector, get_record}
use rekha.Engine.Lookup.Folded.{folded, lessened, folded-folded, run-folded}

module _ {F V : Type 0} where
  read_as-lessened : (b : Bool) (r : Option (Record F V)) → read_as (lessened b r) (vector_of r) ≡ r
  read_as-lessened b none = refl
  read_as-lessened b (some r) = read_as-stripped b r

module _ {Op : Type 0} (c : Codec Op) where
  -- The log of a checkpoint, when its file is opened.
  kept-opened :
      (w : Wal) (es : List Entry) (m epoch : ℕ) (options : WalOptions) (tail : List ℕ)
      → Holds c w es
      → Torn tail
      → open_wal c (image c w.header_epoch (above m es) ++ tail) epoch options
        ≡ Log.ok (opened c w.header_epoch (above m es) options)
  kept-opened w es m epoch options tail h torn =
      open_wal-image c w.header_epoch epoch (above m es) tail options h.epoch_fits
        (prune-Holds c w es m h).1.log torn

  kept-opened_whole :
      (w : Wal) (es : List Entry) (m epoch : ℕ) (options : WalOptions)
      → Holds c w es
      → open_wal c (image c w.header_epoch (above m es)) epoch options
        ≡ Log.ok (opened c w.header_epoch (above m es) options)
  kept-opened_whole w es m epoch options h =
      ap (λ file. open_wal c file epoch options)
        (sym (append-nil (image c w.header_epoch (above m es))))
      ∙ kept-opened w es m epoch options [] h (inl (omega arith))

module _ {V I : Type 0} ⦃ix : Index I V⦄ where
  -- The index that is loaded is the one that was saved, or a new one.
  ready-index_file :
      (lenient : IsLenient ix) (d n size : ℕ) (i j : I)
      → lenient.Ready d n i
      → lenient.Ready d n j
      → lenient.Ready d n (or_else i (index_file size j))
  ready-index_file lenient d n size i j fresh old = elim (Bool-cases (size == 0)) [
    | inl e ↦ rw e fresh
    | inr e ↦ rw e old
  ]

ok-injective : {a b : Wal} → Log.ok a ≡ Log.ok b → a ≡ b
ok-injective h = ground (arith, h)

module _ {F V B I : Type 0} (c : Codec (Operation F V)) where
  -- The file of the log that a checkpoint leaves.
  kept-file :
      (fsync : Bool) (meta : CheckpointMeta) (s t : Durable F V B I) (es : List Entry)
      → Holds c s.wal es
      → LogKept c fsync meta s t
      → t.wal.file ≡ image c s.wal.header_epoch (above meta.flushed_seq es)
  kept-file fsync meta s t es h kept =
      let m = meta.flushed_seq in
      let epoch = s.wal.header_epoch in
      let options : WalOptions = record { fsync = fsync; start_seq = some meta.next_seq } in
      let same : kept.pruned ≡ pruned c s.wal m es =
        ok-injective (sym kept.prunes ∙ (prune-Holds c s.wal es m h).0) in
      let opening : Log.ok kept.resumed ≡ Log.ok (opened c epoch (above m es) options) =
        sym kept.resumes
        ∙ (ap (λ w. open_wal c w.file w.header_epoch options) same
            ∙ kept-opened_whole c s.wal es m epoch options h) in
      ap (λ x. x.wal.file) kept.state ∙ ap (λ w. w.file) (ok-injective opening)

module _ {F V B I : Type 0} ⦃fl : Floats F⦄ ⦃of : OrderedFloats fl⦄ ⦃bm : Bitmap B⦄ ⦃ix : Index I V⦄
    (c : Codec (Operation F V)) where
  -- The record at an id is what the operations behind a watermark make of some record.
  get-tail :
      (s : Durable F V B I) (r : Replayable c s) (m : ℕ) (id : String)
      → (before : Option (Record F V)) × (get s.coll.records id
          ≡ folded (tail_records c m s.wal r.entries) id before)
  unfolding new_collection
  get-tail s r m id =
      let h = r.holds in
      let start : Collection F V B I = new_collection s.coll.config s.coll.index in
      let early = records_between c 1 m r.entries in
      let late = tail_records c m s.wal r.entries in
      let split : all_records c s.wal r.entries ≡ early ++ late =
        records_between-split c s.wal.header_epoch m s.wal.last_seq none r.entries h.log (
          IsLog-AllWithin c s.wal.header_epoch s.wal.last_seq none r.entries h.log
            (omega (arith, h.last))) in
      let replayed : (run start (all_records c s.wal r.entries)).records ≡ s.coll.records =
        (r.replays s.coll.config s.coll.index).records in
      (
        get (run start early).records id,
        ap (λ rs. get rs id) (sym replayed)
            ∙ (ap (λ l. get (run start l).records id) split
                ∙ (ap (λ x. get x.records id) (run-append start early late)
                    ∙ run-folded (run start early) late id)),
      )

  -- Replaying the operations behind a watermark on the records that they left, whose vectors may
  -- have been taken, gives each record again, without its vector or with it.
  get-replayed :
      (s : Durable F V B I) (r : Replayable c s) (m : ℕ) (u : Collection F V B I) (id : String)
      (b : Bool)
      → get u.records id ≡ lessened b (get s.coll.records id)
      → (b' : Bool) × (get (run u (tail_records c m s.wal r.entries)).records id
          ≡ lessened b' (get s.coll.records id))
  get-replayed s r m u id b there =
      let late = tail_records c m s.wal r.entries in
      let (before, made) = get-tail s r m id in
      let (b', again) = folded-folded late id before b in
      (
        b',
        run-folded u late id
            ∙ (ap (folded late id) (there ∙ ap (lessened b) made)
                ∙ (again ∙ ap (lessened b') (sym made))),
      )

  -- Reading from a loaded checkpoint on which the tail of the log was replayed.
  get_record-reopened :
      (s : Durable F V B I) (r : Replayable c s) (w : Wal) (start u : Durable F V B I) (id : String)
      → start.segments ≡ []
      → start.segment_index ≡ []
      → start.dir ≡ (saved (meta_of s) s).dir
      → u.segments ≡ (loaded c start (meta_of s) s.coll.records w).segments
      → u.segment_index ≡ (loaded c start (meta_of s) s.coll.records w).segment_index
      → Unique s.coll.records
      → get u.coll.records id
        ≡ get
            (run
              (loaded c start (meta_of s) s.coll.records w).coll
              (tail_records c s.coll.flushed_seq s.wal r.entries)).records
            id
      → get_record u id ≡ get s.coll.records id
  unfolding meta_of
  get_record-reopened s r w start u id none_yet no_index dir segments index unique tail =
      let m = s.coll.flushed_seq in
      let now = get s.coll.records id in
      let es = sort_by_key (entries_of s.coll.records) in
      let base = loaded c start (meta_of s) s.coll.records w in
      let (b, stripped) = get-strip_embeddings base.segments m s.coll.records id in
      let (b', again) = get-replayed s r m base.coll id b stripped in
      let (unique', sorted) =
        get-sort_by_key (entries_of s.coll.records) (entries_of-Unique s.coll.records unique) in
      let vector : load_vector u id ≡ vector_of now =
        load_vector-in_first u id
        ∙ (rw (segments, index, none_yet, no_index, dir)
              (loaded-vector es s.dir.segments id unique')
            ∙ (sorted id ∙ get-entries_of s.coll.records id unique)) in
      get_record-read_as u id
      ∙ (ap (λ v. read_as (get u.coll.records id) v) vector
          ∙ (ap (λ x. read_as x (vector_of now)) (tail ∙ again) ∙ read_as-lessened b' now))

  module _ (lenient : IsLenient ix) (s : Durable F V B I) (r : Replayable c s) (tail : List ℕ)
      (epoch : ℕ) (fsync : Bool) where
    open_saved :
        lenient.Ready s.coll.config.dimension
          (length (tail_records c s.coll.flushed_seq s.wal r.entries))
          s.coll.index
        → OpsFit s.coll.config.dimension (tail_records c s.coll.flushed_seq s.wal r.entries)
        → Unique s.coll.records
        → Torn tail
        → (u : Durable F V B I) × (open_collection c s.coll.config
              (image c s.wal.header_epoch (above s.coll.flushed_seq r.entries) ++ tail)
              epoch
              fsync
              (saved (meta_of s) s).dir
            ≡ ok u)
          × ((id : String) → get_record u id ≡ get s.coll.records id)
    unfolding new new_collection meta_of
    open_saved ready fit unique torn =
        let d = s.coll.config.dimension in
        let (i, made, new_ready) = lenient.makes s.coll.config.space d s.coll.config.hnsw in
        let m = s.coll.flushed_seq in
        let h = r.holds in
        let kept = above m r.entries in
        let meta = meta_of s in
        let es = sort_by_key (entries_of s.coll.records) in
        let w = opened c s.wal.header_epoch kept (wal_options fsync) in
        let resume : WalOptions = record { fsync = fsync; start_seq = some meta.next_seq } in
        let w' = opened c s.wal.header_epoch kept resume in
        let log = (prune-Holds c s.wal r.entries m h).1.log in
        let held = opened-Holds c s.wal.header_epoch kept resume h.epoch_fits log in
        let start : Durable F V B I = new s.coll.config i w (saved meta s).dir in
        let base = loaded c start meta s.coll.records w' in
        let late = tail_records c m s.wal r.entries in
        let same_tail : tail_records c m w' kept ≡ late = sym (
          records_between-above c m s.wal.last_seq w'.last_seq r.entries
            (IsLog-AllWithin c s.wal.header_epoch s.wal.last_seq none r.entries h.log
              (omega (arith, h.last)))
            (IsLog-AllWithin c s.wal.header_epoch w'.last_seq none kept log
              (omega (arith, held.last)))) in
        let replaying = replay_after-tail c lenient.deletes base kept m held in
        let few : length late ≤ u64_mod =
          few-records_between c s.wal.header_epoch (m + 1) s.wal.last_seq r.entries h.log in
        let left : lenient.Ready d (length (tail_records c m w' kept)) base.coll.index =
          rw same_tail (
            ready-index_file lenient d (length late) (ix.len s.coll.index) i s.coll.index
              (new_ready (length late) few) ready) in
        let replayed : Durable F V B I = record base {
          coll = run base.coll (tail_records c m w' kept);
        } in
        let (coll, flushed, core) =
          flush-run c lenient d base (tail_records c m w' kept)
            (restore_records-buffer start.coll s.coll.records) left
            (subst (OpsFit d) (sym same_tail) fit) in
        let u : Durable F V B I = record base { coll = coll } in
        let whole : (length s.coll.records == meta.record_count) ≡ true = ground arith in
        (
          u,
          open_collection-flushed c s.coll.config (image c s.wal.header_epoch kept ++ tail) epoch
              fsync (saved meta s).dir w i u
              (kept-opened c s.wal r.entries m epoch (wal_options fsync) tail h torn) made
              (open_on-loaded c start meta s.coll.records w' epoch fsync replayed refl refl whole
                  (kept-opened_whole c s.wal r.entries m epoch resume h) replaying
                ∙ flushed),
          λ id. get_record-reopened s r w' start u id refl refl refl refl refl unique (
              ap (λ rs. get rs id) core.records
              ∙ ap (λ l. get (run base.coll l).records id) same_tail),
        )

module _ {F V B I K : Type 0} ⦃fl : Floats F⦄ ⦃of : OrderedFloats fl⦄ ⦃bm : Bitmap B⦄
    ⦃ix : Index I V⦄ ⦃catalog : Catalog K⦄ (c : Codec (Operation F V)) where
  -- After a checkpoint of a replayable collection that succeeds, and a crash that leaves a torn
  -- tail behind the log, opening the collection succeeds, and reading an id gives the record that
  -- stood in memory before the checkpoint. The vectors that the log has behind the checkpoint have
  -- the dimension of the collection, the index keeps its promises and is ready for as many adds as
  -- there are operations, the segment could be opened and the stale files removed, there are
  -- records, and no two have one id.
  pub checkpoint-open_collection :
      (disk : Disk I) (fsync : Bool) (s t : Durable F V B I) (k l : K) (r : Replayable c s)
      (tail : List ℕ) (epoch : ℕ) (lenient : IsLenient ix)
      → lenient.Ready s.coll.config.dimension
          (length (tail_records c s.coll.flushed_seq s.wal r.entries))
          s.coll.index
      → OpsFit s.coll.config.dimension (tail_records c s.coll.flushed_seq s.wal r.entries)
      → disk.segment_opened ≡ true
      → disk.cleaned ≡ true
      → (length s.coll.records == 0) ≡ false
      → Unique s.coll.records
      → checkpoint c disk fsync s k ≡ ((t, l), ok tt)
      → Torn tail
      → (u : Durable F V B I) × (open_collection c t.coll.config
            (t.wal.file ++ tail)
            epoch
            fsync
            t.dir
          ≡ ok u)
        × ((id : String) → get_record u id ≡ get s.coll.records id)
  unfolding meta_of
  checkpoint-open_collection disk fsync s t k l r tail epoch lenient ready fit opened cleaned live
        unique done torn =
      let kept = checkpoint-value c disk fsync s t k l opened cleaned live done in
      let file = kept-file c fsync (meta_of s) (saved (meta_of s) s) t r.entries r.holds kept in
      let (u, opens, reads) = open_saved c lenient s r tail epoch fsync ready fit unique torn in
      (u, rw (ap (λ x. x.coll.config) kept.state, file, ap (λ x. x.dir) kept.state) opens, reads)
