-- ===== src/Engine/Handlers/Deleted.antt =====
-- What `delete` of crates/rekha-engine/src/lib.rs leaves of a collection.
use mathlib.Core.Path.{subst}
use rekha.Prelude.{
  ℕ, ◌+◌, ◌-◌, ◌<◌, ◌≡◌, ◌≢◌, refl, sym, ap, ◌∙◌, String, Bool, true, false, none, some, List, [],
  ◌∷◌, length, map, any, leb, ◌==◌, if◌then◌else◌, str_eq, arith, Bool-cases, inl, inr,
}
use rekha.Prelude.Dict.{string_eqv, get}
use rekha.Core.Types.{Floats}
use rekha.Core.Op.{Operation, op_id, delete as delete_op}
use rekha.Wal.{Codec, Wal, WalRecord, u64_mod}
use rekha.Wal.Batch.{AreWritable}
use rekha.Engine.Bitmap.{Bitmap}
use rekha.Engine.ValueKey.{OrderedFloats}
use rekha.Engine.Base.{Index, Catalog, ok}
use rekha.Engine.Collection.{Collection, apply_operation}
use rekha.Engine.Durable.{Durable, write_ops}
use rekha.Engine.Durable.Checkpoint.{Disk, auto_checkpoint}
use rekha.Engine.Durable.Replay.{run}
use rekha.Engine.Durable.Configured.{run-config}
use rekha.Engine.Durable.Recover.{Replayable, write_ops-value}
use rekha.Engine.Lookup.{load_vector, get_record}
use rekha.Engine.Lookup.Written.{apply_operation-written}
use rekha.Engine.Handlers.{Engine, Outcome, put, write_batch, delete_from, delete}
use rekha.Engine.Handlers.Rejected.{on_collection-some, put-collections}

length-map : {A B : Type 0} (f : A → B) (xs : List A) → length (map f xs) ≡ length xs
length-map f [] = refl
length-map f (x ∷ xs) = omega (arith, length-map f xs)

-- The id is among them.
abbrev pub listed : String → List String → Bool
listed j ids = any (λ i. str_eq i j) ids

module _ {F V B I : Type 0} ⦃fl : Floats F⦄ ⦃of : OrderedFloats fl⦄ ⦃bm : Bitmap B⦄
    ⦃ix : Index I V⦄ where
  delete-get :
      (c : Collection F V B I) (op : Operation F V) (id : String) (seq : ℕ) (j : String)
      → op ≡ delete_op id
      → get (apply_operation c op seq).0.records j ≡ (if str_eq id j then none else get c.records j)
  unfolding op_id
  delete-get c op id seq j e =
      subst
        (λ o.
          get (apply_operation c o seq).0.records j
          ≡ (if str_eq id j then none else get c.records j))
        (sym e) (apply_operation-written c (delete_op id) seq j)

  run-deletes :
      (c : Collection F V B I) (recs : List (WalRecord (Operation F V))) (ids : List String)
      (j : String)
      → map (λ rec. rec.op) recs ≡ map delete_op ids
      → get (run c recs).records j ≡ (if listed j ids then none else get c.records j)
  run-deletes c [] [] j e = refl
  run-deletes c [] (id ∷ ids) j e = ground arith
  run-deletes c (x ∷ xs) [] j e = ground arith
  run-deletes c (x ∷ xs) (id ∷ ids) j e =
      let head : x.op ≡ delete_op id = ground (arith, e) in
      let tail : map (λ rec. rec.op) xs ≡ map delete_op ids = ground (arith, e) in
      let here = delete-get c x.op id x.seq j head in
      let later = run-deletes (apply_operation c x.op x.seq).0 xs ids j tail in
      ground (arith, here, later)

module _ {F V B I : Type 0} where
  -- Reading depends on the records and the segment only.
  get_record-dropped :
      (s : Durable F V B I) (w : Wal) (coll : Collection F V B I) (j : String) (b : Bool)
      → get coll.records j ≡ (if b then none else get s.coll.records j)
      → get_record (record s { wal = w; coll = coll }) j ≡ (if b then none else get_record s j)
  unfolding get_record load_vector
  get_record-dropped s w coll j true e = rw (e, get_record) refl
  get_record-dropped s w coll j false e = rw (e, get_record) refl

module _ {F V B I K : Type 0} ⦃fl : Floats F⦄ ⦃of : OrderedFloats fl⦄ ⦃bm : Bitmap B⦄
    ⦃ix : Index I V⦄ ⦃catalog : Catalog K⦄ (c : Codec (Operation F V)) (disk : Disk I)
    (fsync : Bool) where
  auto_checkpoint-idle :
      (s : Durable F V B I) (k : K)
      → s.wal.last_seq - s.last_checkpoint_seq < s.coll.config.hnsw.sync_threshold
      → auto_checkpoint c disk fsync s k ≡ ((s, k), ok tt)
  unfolding auto_checkpoint
  auto_checkpoint-idle s k idle =
      let test : leb s.coll.config.hnsw.sync_threshold (s.wal.last_seq - s.last_checkpoint_seq)
          ≡ false =
        ground (arith, idle) in
      elim (Bool-cases (length s.coll.records == 0)) [
        | inl t ↦ rw (t, auto_checkpoint) refl
        | inr f ↦ rw (f, auto_checkpoint, test, auto_checkpoint) refl
      ]

  write_batch-idle :
      (s t : Durable F V B I) (k : K) (ops : List (Operation F V))
      → write_ops c s ops ≡ (t, ok tt)
      → auto_checkpoint c disk fsync t k ≡ ((t, k), ok tt)
      → write_batch c disk fsync s k ops ≡ ((t, k), ok tt)
  unfolding write_batch
  write_batch-idle s t k ops done idle =
      rw (ap (λ p. p.1) done, write_batch)
        (ap (λ p. auto_checkpoint c disk fsync p.0 k) done ∙ idle)

  -- A delete on a replayable collection, when no checkpoint is due, succeeds: afterwards none of
  -- the ids can be read, every other id reads as before, the collection is replayable, and the
  -- other collections are as they were. The seqs must not be used up, each delete must have a
  -- payload that fits a frame, and no delete of the index may fail.
  pub delete-removes :
      ((i : I) (id : String) → ix.delete i id ≢ none)
      → (e : Engine F V B I K) (id : String) (s : Durable F V B I) (ids : List String)
      → get e.collections id ≡ some s
      → Replayable c s
      → s.wal.last_seq + length ids < u64_mod
      → AreWritable c (map delete_op ids)
      → s.wal.last_seq + length ids - s.last_checkpoint_seq < s.coll.config.hnsw.sync_threshold
      → (e' : Engine F V B I K) × (s' : Durable F V B I) × (delete c disk fsync e id ids
          ≡ some (e', ok tt))
        × ((j : String)
            → get e'.collections j ≡ (if str_eq id j then some s' else get e.collections j))
        × Replayable c s'
        × ((j : String) → get_record s' j ≡ (if listed j ids then none else get_record s j))
  unfolding delete delete_from put
  delete-removes lenient e id s ids found r room writable idle =
      let (w, recs, done, more, replayable) =
        write_ops-value c lenient s (map delete_op ids) r
          (omega (arith, room, length-map {B = Operation F V} delete_op ids)) writable in
      let s' : Durable F V B I = record s { wal = w; coll = run s.coll recs } in
      let outcome : Outcome F V B I K = ((s', e.catalog), ok tt) in
      let config : s'.coll.config ≡ s.coll.config = run-config s.coll recs in
      let due : s'.wal.last_seq - s'.last_checkpoint_seq < s'.coll.config.hnsw.sync_threshold =
        rw (config, more.last, length-map {B = Operation F V} delete_op ids) idle in
      (
        (put e id outcome).0,
        s',
        on_collection-some e id s outcome (delete_from c disk fsync ids) found (
            ap some (
              write_batch-idle s s' e.catalog (map delete_op ids) done
                (auto_checkpoint-idle s' e.catalog due))),
        λ j. put-collections e id outcome j,
        replayable,
        λ j.
            get_record-dropped s w (run s.coll recs) j (listed j ids)
              (run-deletes s.coll recs ids j more.operations),
      )
