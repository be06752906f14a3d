-- ===== src/Engine/Durable/Checkpoint/Saved.antt =====
-- What a checkpoint whose files were written leaves.
use rekha.Prelude.{
  ℕ, ◌≡◌, refl, sym, ap, String, Bool, true, false, Option, none, some, List, [], ◌∷◌, length, ◌==◌,
  inl, inr, Bool-cases, if◌then◌else◌, arith,
}
use rekha.Prelude.Dict.{Dict}
use mathlib.Core.Path.{subst}
use rekha.Core.Op.{Operation}
use rekha.Wal.{Codec, Wal, WalOptions, WalResult, open_wal, prune}
use rekha.Wal as Log
use rekha.Engine.Base.{Index, Catalog, EngineResult, ok, err}
use rekha.Engine.Durable.{CheckpointMeta, Durable}
use rekha.Engine.Durable.Open.{strip}
use rekha.Engine.Durable.Checkpoint.{
  Disk, and_then, write, entries_of, sort_by_key, vectors_of, positions_from, put_segment,
  write_records, write_marker, use_segment, write_segment, drop_segments, write_entries,
  write_segments, strip_covered, write_index, save_files, resume_at, reopen_log, prune_log, commit,
  meta_of, checkpoint,
}

module _ {S : Type 0} where
  -- A step that succeeds only in the state `n` is followed by the rest from `n`.
  and_then-value :
      (p : S × EngineResult (Unit {0})) (f : S → S × EngineResult (Unit {0})) (n t : S)
      → ((m : S) → p ≡ (m, ok tt) → m ≡ n)
      → and_then p f ≡ (t, ok tt)
      → f n ≡ (t, ok tt)
  unfolding and_then
  and_then-value (s, ok u) f n t value e = subst (λ x. f x ≡ (t, ok tt)) (value s refl) e
  and_then-value (s, err x) f n t value e = ground arith

  write-value : (done : Bool) (old new t : S) → write done old new ≡ (t, ok tt) → t ≡ new
  write-value true old new t e = sym (ap (λ p. p.0) e)
  write-value false old new t e = ground arith

module _ {V : Type 0} where
  -- the segments, in memory and on the disk, after the entries were written
  abbrev pub segments_for : Dict String (List V) → List (List (List V))
  segments_for [] = []
  segments_for (e ∷ es) = vectors_of (e ∷ es) ∷ []

  abbrev pub segment_files_for :
      Dict String (List V)
      → Option (List (Option (List (List V))))
      → Option (List (Option (List (List V))))
  segment_files_for [] files = none
  segment_files_for (e ∷ es) files = put_segment (vectors_of (e ∷ es)) files

  abbrev pub index_file_for : Dict String (List V) → Option (Dict String ℕ)
  index_file_for [] = none
  index_file_for (e ∷ es) = some (positions_from 0 [] (e ∷ es))

module _ {F V B I : Type 0} where
  abbrev records_written : Durable F V B I → Durable F V B I
  records_written s = record s { dir = record s.dir { records = some s.coll.records } }

  abbrev index_written : Option I → Durable F V B I → Durable F V B I
  index_written i s = record s { dir = record s.dir { index = i } }

  abbrev marker_written : CheckpointMeta → Durable F V B I → Durable F V B I
  marker_written meta s = record s { dir = record s.dir { meta = some meta } }

  abbrev entries_written : Dict String (List V) → Durable F V B I → Durable F V B I
  entries_written es s = record s {
    dir = record s.dir {
      segments = segment_files_for es s.dir.segments;
      segment_index = index_file_for es;
    };
    segments = segments_for es;
    segment_index = positions_from 0 [] es;
  }

  write_records-value :
      (disk : Disk I) (s t : Durable F V B I)
      → write_records disk s ≡ (t, ok tt)
      → t ≡ records_written s
  unfolding write_records
  write_records-value disk s t e =
      write-value disk.records s (records_written s) t
        (and_then-value (write disk.directory s s) _ s t (write-value disk.directory s s) e)

  write_segment-value :
      (disk : Disk I) (s t : Durable F V B I) (e : String × List V) (es : Dict String (List V))
      → disk.segment_opened ≡ true
      → write_segment disk s (e ∷ es) ≡ (t, ok tt)
      → t ≡ entries_written (e ∷ es) s
  unfolding write_segment use_segment
  write_segment-value disk s t e es opened h =
      let first = and_then-value (write disk.segment s _) _ _ t (write-value disk.segment s _) h in
      let second =
        and_then-value (write disk.segment_index _ _) _ _ t (write-value disk.segment_index _ _)
          first in
      sym (ap (λ p. p.0) (rw opened at second))

  write_entries-value :
      (disk : Disk I) (s t : Durable F V B I) (es : Dict String (List V))
      → disk.segment_opened ≡ true
      → disk.cleaned ≡ true
      → write_entries disk s es ≡ (t, ok tt)
      → t ≡ entries_written es s
  unfolding write_entries drop_segments positions_from
  write_entries-value disk s t [] opened cleaned h = sym (ap (λ p. p.0) (rw cleaned at h))
  write_entries-value disk s t (e ∷ es) opened cleaned h =
      write_segment-value disk s t e es opened h

  write_segments-value :
      (disk : Disk I) (s t : Durable F V B I)
      → disk.segment_opened ≡ true
      → disk.cleaned ≡ true
      → write_segments disk s ≡ (t, ok tt)
      → t ≡ entries_written (sort_by_key (entries_of s.coll.records)) s
  unfolding write_segments
  write_segments-value disk s t opened cleaned h = write_entries-value disk s t _ opened cleaned (
      and_then-value (write disk.segment_directory s s) _ s t
        (write-value disk.segment_directory s s) h)

-- the file of an index of so many vectors
abbrev pub index_file : {I : Type 0} → ℕ → I → Option I
index_file len i = if len == 0 then none else some i

module _ {F V B I : Type 0} ⦃ix : Index I V⦄ where
  write_index-value :
      (disk : Disk I) (s t : Durable F V B I)
      → write_index disk s ≡ (t, ok tt)
      → t ≡ index_written (index_file (ix.len s.coll.index) s.coll.index) s
  unfolding write_index
  write_index-value disk s t h = elim (Bool-cases (ix.len s.coll.index == 0)) [
    | inl e ↦ rw e (write-value disk.stale s _ t (rw e at h))
    | inr e ↦ elim (Bool-cases disk.index) [
      | inl d ↦ rw e (sym (ap (λ p. p.0) (rw (e, d) at h)))
      | inr d ↦ ground arith
    ]
  ]

  -- The state after all files of the checkpoint were written.
  abbrev pub saved : CheckpointMeta → Durable F V B I → Durable F V B I
  saved meta s =
      let es = sort_by_key (entries_of s.coll.records) in
      record s {
        coll = record s.coll { records = strip meta.flushed_seq s.coll.records };
        dir = record {
          meta = some meta;
          records = some s.coll.records;
          index = index_file (ix.len s.coll.index) s.coll.index;
          segments = segment_files_for es s.dir.segments;
          segment_index = index_file_for es;
        };
        segments = segments_for es;
        segment_index = positions_from 0 [] es;
      }

  pub save_files-value :
      (disk : Disk I) (meta : CheckpointMeta) (s t : Durable F V B I)
      → disk.segment_opened ≡ true
      → disk.cleaned ≡ true
      → save_files disk meta s ≡ (t, ok tt)
      → t ≡ saved meta s
  unfolding save_files write_marker strip_covered
  save_files-value disk meta s t opened cleaned h =
      let s1 = records_written s in
      let s2 = index_written (index_file (ix.len s.coll.index) s.coll.index) s1 in
      let s3 = marker_written meta s2 in
      let s4 = entries_written (sort_by_key (entries_of s.coll.records)) s3 in
      let h1 = and_then-value (write_records disk s) _ s1 t (write_records-value disk s) h in
      let h2 = and_then-value (write_index disk s1) _ s2 t (write_index-value disk s1) h1 in
      let h3 =
        and_then-value (write_marker disk meta s2) _ s3 t (write-value disk.marker s2 s3) h2 in
      let h4 =
        and_then-value (write_segments disk s3) _ s4 t
          (λ m. write_segments-value disk s3 m opened cleaned) h3 in
      sym (ap (λ p. p.0) h4)

module _ {F V B I : Type 0} (c : Codec (Operation F V)) where
  -- How a checkpoint makes a new log of that of a state.
  pub record LogKept (fsync : Bool) (meta : CheckpointMeta) (s t : Durable F V B I) : Type 0 where
    pub pruned : Wal
    pub resumed : Wal
    pub prunes : prune c s.wal meta.flushed_seq ≡ Log.ok pruned
    pub resumes :
        open_wal c pruned.file pruned.header_epoch
          (record { fsync = fsync; start_seq = some meta.next_seq })
        ≡ Log.ok resumed
    pub state : t ≡ record s { wal = resumed; last_checkpoint_seq = meta.flushed_seq }

module _ {F V B I K : Type 0} (c : Codec (Operation F V)) where
  resume_at-value :
      (meta : CheckpointMeta) (s t : Durable F V B I) (k l : K) (r : WalResult Wal)
      → resume_at c meta s k r ≡ ((t, l), ok tt)
      → (w : Wal) × (r ≡ Log.ok w)
        × (t ≡ record s { wal = w; last_checkpoint_seq = meta.flushed_seq })
  unfolding resume_at
  resume_at-value meta s t k l (Log.err e) h = ground arith
  resume_at-value meta s t k l (Log.ok w) h = (w, refl, sym (ap (λ p. p.0.0) h))

  reopen_log-value :
      (fsync : Bool) (meta : CheckpointMeta) (s t : Durable F V B I) (k l : K) (r : WalResult Wal)
      → prune c s.wal meta.flushed_seq ≡ r
      → reopen_log c fsync meta s k r ≡ ((t, l), ok tt)
      → LogKept c fsync meta s t
  unfolding reopen_log
  reopen_log-value fsync meta s t k l (Log.err e) p h = ground arith
  reopen_log-value fsync meta s t k l (Log.ok w) p h =
      let (w', resumes, state) = resume_at-value meta _ t k l _ h in
      record { pruned = w; resumed = w'; prunes = p; resumes = resumes; state = state }

  prune_log-value :
      (fsync : Bool) (meta : CheckpointMeta) (s t : Durable F V B I) (k l : K) (advanced : Option K)
      → prune_log c fsync meta s k advanced ≡ ((t, l), ok tt)
      → LogKept c fsync meta s t
  unfolding prune_log
  prune_log-value fsync meta s t k l none h = ground arith
  prune_log-value fsync meta s t k l (some k') h = reopen_log-value fsync meta s t k' l _ refl h

module _ {F V B I K : Type 0} ⦃catalog : Catalog K⦄ (c : Codec (Operation F V)) where
  commit-value :
      (fsync : Bool) (meta : CheckpointMeta) (t : Durable F V B I) (k l : K)
      (p : Durable F V B I × EngineResult (Unit {0}))
      → commit c fsync meta k p ≡ ((t, l), ok tt)
      → (s : Durable F V B I) × (p ≡ (s, ok tt)) × LogKept c fsync meta s t
  unfolding commit
  commit-value fsync meta t k l (s, err e) h = ground arith
  commit-value fsync meta t k l (s, ok u) h = (s, refl, prune_log-value c fsync meta s t k l _ h)

module _ {F V B I K : Type 0} ⦃ix : Index I V⦄ ⦃catalog : Catalog K⦄
    (c : Codec (Operation F V)) where
  -- A checkpoint of a collection with records that succeeds has saved the state, and pruned the log.
  pub checkpoint-value :
      (disk : Disk I) (fsync : Bool) (s t : Durable F V B I) (k l : K)
      → disk.segment_opened ≡ true
      → disk.cleaned ≡ true
      → (length s.coll.records == 0) ≡ false
      → checkpoint c disk fsync s k ≡ ((t, l), ok tt)
      → LogKept c fsync (meta_of s) (saved (meta_of s) s) t
  unfolding checkpoint
  checkpoint-value disk fsync s t k l opened cleaned live h =
      let (m, e, kept) = commit-value c fsync (meta_of s) t k l _ (rw live at h) in
      subst (λ x. LogKept c fsync (meta_of s) x t)
        (save_files-value disk (meta_of s) s m opened cleaned e) kept
