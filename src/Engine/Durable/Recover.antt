-- ===== src/Engine/Durable/Recover.antt =====
-- Durability: what `write_ops` acknowledged, opening the collection again brings back.
use rekha.Prelude.{
  ℕ, ◌+◌, ◌<◌, ◌≡◌, ◌≢◌, refl, sym, ap, ◌∙◌, String, false, none, List, [], ◌∷◌, ◌++◌, length, map,
  ◌==◌, ltb, inl, inr, arith, Bool-cases,
}
use mathlib.Core.Path.{subst}
use mathlib.Core.List.{append_assoc, append-nil}
use rekha.Core.Types.{Floats}
use rekha.Core.Op.{Operation}
use rekha.Core.Config.{CollectionConfig}
use rekha.Wal.{
  Codec, Wal, WalOptions, wal_options, WalRecord, WalResult, open_wal, append, read_range, u64_mod,
}
use rekha.Wal as Log
use rekha.Wal.Log.{Entry}
use rekha.Wal.Recovery.{opened}
use rekha.Wal.Append.{Holds, opened-Holds, next_entry, appended, append-Holds}
use rekha.Wal.ReadRange.{records_between, records_between-empty, read_range-Holds}
use rekha.Wal.Batch.{AreWritable, all_records, all_records-append}
use rekha.Engine.Bitmap.{Bitmap}
use rekha.Engine.ValueKey.{OrderedFloats}
use rekha.Engine.Base.{Index, ok}
use rekha.Engine.Collection.Core.{SameCore}
use rekha.Engine.Durable.{
  CheckpointDir, Durable, append_all, write_ops, replay_after, new_collection, new,
}
use rekha.Engine.Durable.Replay.{run, run-append, run-SameCore, apply_all-run}

module _ {Op : Type 0} (c : Codec Op) where
  -- A log after some appends: it holds more entries, and the records that were returned are those
  -- of the operations, and are new.
  pub record Extended (w w' : Wal) (es : List Entry) (ops : List Op) (recs : List (WalRecord Op))
      : Type 0 where
    pub entries : List Entry
    pub operations : map (λ rec. rec.op) recs ≡ ops
    pub last : w'.last_seq ≡ w.last_seq + length ops
    pub holds : Holds c w' entries
    pub new_records : all_records c w' entries ≡ all_records c w es ++ recs

  abbrev AppendsAll : Wal → List Entry → List Op → Type 0
  AppendsAll w es ops =
      (w' : Wal) × (recs : List (WalRecord Op)) × (append_all c w ops ≡ (w', Log.ok recs))
      × Extended w w' es ops recs

  append_all-step :
      (w : Wal) (op : Op) (ops : List Op) (w₁ : Wal) (rec : WalRecord Op) (w' : Wal)
      (recs : List (WalRecord Op))
      → append c w op ≡ Log.ok (w₁, rec)
      → append_all c w₁ ops ≡ (w', Log.ok recs)
      → append_all c w (op ∷ ops) ≡ (w', Log.ok (rec ∷ recs))
  unfolding append_all
  append_all-step w op ops w₁ rec w' recs first rest = ground (arith, first, rest)

  pub append_all-Extended :
      (w : Wal) (es : List Entry) (ops : List Op)
      → Holds c w es
      → w.last_seq + length ops < u64_mod
      → AreWritable c ops
      → AppendsAll w es ops
  unfolding append_all
  append_all-Extended w es [] h room writable = (
    w,
    [],
    refl,
    record {
      entries = es;
      operations = refl;
      last = omega arith;
      holds = h;
      new_records = sym (append-nil (all_records c w es));
    },
  )
  append_all-Extended w es (op ∷ ops) h room writable =
      let (payload, bytes, fits) = writable.0 in
      let first = append-Holds c w es op payload h (omega (arith, room)) bytes fits in
      let entry = next_entry c w payload in
      let (w', recs, done, more) =
        append_all-Extended (appended c w payload) (es ++ entry ∷ []) ops first.1
          (omega (arith, room)) writable.1 in
      let rec : WalRecord Op = record { seq = w.last_seq + 1; epoch = w.header_epoch; op = op } in
      (
        w',
        rec ∷ recs,
        append_all-step w op ops _ rec w' recs first.0 done,
        record {
          entries = more.entries;
          operations = ap (λ l. op ∷ l) more.operations;
          last = omega (arith, more.last);
          holds = more.holds;
          new_records =
              more.new_records
              ∙ ap (λ l. l ++ recs) (all_records-append c w es op payload h bytes)
              ∙ append_assoc (all_records c w es) (rec ∷ []) recs;
        },
      )

  pub opened-all_records :
      (w : Wal) (es : List Entry) (options : WalOptions)
      → Holds c w es
      → all_records c (opened c w.header_epoch es options) es ≡ all_records c w es
  opened-all_records w [] options h = refl
  opened-all_records w (e ∷ es) options h =
      let nonempty : length (e ∷ es) == 0 ≡ false = ground arith in
      let same : (opened c w.header_epoch (e ∷ es) options).last_seq ≡ w.last_seq =
        rw nonempty h.last in
      ap (λ last. records_between c 1 last (e ∷ es)) same

module _ {F V B I : Type 0} ⦃fl : Floats F⦄ ⦃of : OrderedFloats fl⦄ ⦃bm : Bitmap B⦄ where
  -- The core of a new collection depends neither on its configuration nor on its index.
  pub new-SameCore :
      (config config' : CollectionConfig) (i i' : I)
      → SameCore {F = F} {V = V} {B = B} (new_collection config i) (new_collection config' i')
  unfolding new_collection
  new-SameCore config config' i i' = record {
    records = refl;
    offsets = refl;
    id_by_offset = refl;
    next_offset = refl;
    postings = refl;
  }

module _ {F V B I : Type 0} ⦃fl : Floats F⦄ ⦃of : OrderedFloats fl⦄ ⦃bm : Bitmap B⦄ ⦃ix : Index I V⦄
    (c : Codec (Operation F V)) where
  -- The log of a collection holds some entries, and applying all of them to a new collection gives
  -- the records, the offsets and the postings that the collection has.
  pub record Replayable (s : Durable F V B I) : Type 0 where
    pub entries : List Entry
    pub holds : Holds c s.wal entries
    pub replays :
        (config : CollectionConfig) (i : I)
        → SameCore (run (new_collection config i) (all_records c s.wal entries)) s.coll

  -- A collection with an empty log is replayable.
  pub new-Replayable :
      (config : CollectionConfig) (i : I) (epoch : ℕ) (options : WalOptions)
      (dir : CheckpointDir F V I)
      → epoch < u64_mod
      → Replayable (new config i (opened c epoch [] options) dir)
  unfolding new new_collection
  new-Replayable config i epoch options dir small = record {
    entries = [];
    holds = opened-Holds c epoch [] options small tt;
    replays = λ config' i'. new-SameCore config' config i' i;
  }

  module _ (lenient : (i : I) (id : String) → ix.delete i id ≢ none) where
    write_ops-run :
        (s : Durable F V B I) (ops : List (Operation F V)) (w : Wal)
        (recs : List (WalRecord (Operation F V)))
        → append_all c s.wal ops ≡ (w, Log.ok recs)
        → write_ops c s ops ≡ (record s { wal = w; coll = run s.coll recs }, ok tt)
    unfolding write_ops
    write_ops-run s ops w recs done =
        rw (done, write_ops, apply_all-run lenient s.coll recs, done) refl

    -- What `write_ops` makes of a replayable collection.
    pub write_ops-value :
        (s : Durable F V B I) (ops : List (Operation F V)) (r : Replayable s)
        → s.wal.last_seq + length ops < u64_mod
        → AreWritable c ops
        → (w' : Wal) × (recs : List (WalRecord (Operation F V))) × (write_ops c s ops
            ≡ (record s { wal = w'; coll = run s.coll recs }, ok tt))
          × Extended c s.wal w' r.entries ops recs
          × Replayable (record s { wal = w'; coll = run s.coll recs })
    write_ops-value s ops r room writable =
        let (w', recs, done, more) =
          append_all-Extended c s.wal r.entries ops r.holds room writable in
        (
          w',
          recs,
          write_ops-run s ops w' recs done,
          more,
          record {
            entries = more.entries;
            holds = more.holds;
            replays = λ config i.
                rw
                  (
                    more.new_records,
                    run-append (new_collection config i) (all_records c s.wal r.entries) recs,
                  )
                  (run-SameCore _ s.coll recs (r.replays config i));
          },
        )

    -- Writing a batch succeeds and keeps the collection replayable: all records of the log, applied
    -- to a new collection, give its records, offsets and postings. The seqs must not be used up,
    -- each operation must have a payload that fits a frame, and no delete of the index may fail.
    pub write_ops-Replayable :
        (s : Durable F V B I) (ops : List (Operation F V))
        → Replayable s
        → s.wal.last_seq + length ops < u64_mod
        → AreWritable c ops
        → ((write_ops c s ops).1 ≡ ok tt) × Replayable (write_ops c s ops).0
    write_ops-Replayable s ops r room writable =
        let (w', recs, done, more, replayable) = write_ops-value s ops r room writable in
        (ap (λ p. p.1) done, subst (λ p. Replayable p.0) (sym done) replayable)

    -- The replay behind a seq applies the records of the log behind it.
    pub replay_after-tail :
        (s : Durable F V B I) (es : List Entry) (m : ℕ)
        → Holds c s.wal es
        → replay_after c s m
          ≡ (record s { coll = run s.coll (records_between c (m + 1) s.wal.last_seq es) }, ok tt)
    unfolding replay_after
    replay_after-tail s es m h = elim (Bool-cases (ltb m s.wal.last_seq)) [
      | inl some_seq ↦
          rw
            (
              some_seq,
              read_range-Holds c s.wal es (m + 1) s.wal.last_seq h,
              replay_after,
              apply_all-run lenient s.coll (records_between c (m + 1) s.wal.last_seq es),
            )
            refl
      | inr no_seq ↦
          rw (no_seq, records_between-empty c (m + 1) s.wal.last_seq es (ground (arith, no_seq)))
            refl
    ]
