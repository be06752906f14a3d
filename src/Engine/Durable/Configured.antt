-- ===== src/Engine/Durable/Configured.antt =====
-- The configuration of a collection, which opening it leaves as it was given.
use rekha.Prelude.{
  ℕ, ◌+◌, ◌≡◌, ◌⊎◌, refl, sym, ap, ◌∙◌, String, Bool, true, false, Option, none, some, List, [],
  ◌∷◌, ltb, inl, inr, Bool-cases, Option-cases, arith,
}
use rekha.Prelude.Dict.{Dict}
use rekha.Core.Types.{Floats}
use rekha.Core.Op.{Operation, add, upsert, update, delete}
use rekha.Core.Config.{CollectionConfig}
use rekha.Wal.{Codec, Wal, WalRecord, WalResult, wal_options, open_wal, read_range}
use rekha.Wal as Log
use rekha.Engine.Bitmap.{Bitmap}
use rekha.Engine.ValueKey.{OrderedFloats}
use rekha.Engine.Base.{Record, Index, EngineError, EngineResult, ok, err}
use rekha.Engine.Collection.{
  Collection, apply_operation, apply_upsert, apply_update, apply_delete, offset_for, release_offset,
  index_result,
}
use rekha.Engine.Durable.{
  CheckpointMeta, CheckpointDir, Durable, apply_all, replay_after, flush_buffer, flush_if_needed,
  new, new_collection, make_index,
}
use rekha.Engine.Durable.Open.{
  resume_log, restore_entries, restore_entry, restore_records, restore_checkpoint, load_files,
  load_checkpoint, flush, flush_replayed, replay_rest, open_on, open_collection,
}
use rekha.Engine.Durable.Replay.{run}
use rekha.Engine.Durable.Invariant.{result-cases}

WalResult-cases :
    {A : Type 0} (r : WalResult A)
    → ((e : Log.WalError) × (r ≡ Log.err e)) ⊎ ((a : A) × (r ≡ Log.ok a))
WalResult-cases (Log.err e) = inl (e, refl)
WalResult-cases (Log.ok a) = inr (a, refl)

module _ {F V B I : Type 0} where
  resume_log-config :
      (s : Durable F V B I) (r : WalResult Wal) → (resume_log s r).0.coll.config ≡ s.coll.config
  unfolding resume_log
  resume_log-config s (Log.err e) = refl
  resume_log-config s (Log.ok w) = refl

module _ {F V B I : Type 0} ⦃ix : Index I V⦄ where
  flush-config : (s : Durable F V B I) → (flush s).0.coll.config ≡ s.coll.config
  unfolding flush flush_if_needed flush_buffer
  flush-config s = ground arith

module _ {F V B I : Type 0} ⦃fl : Floats F⦄ ⦃of : OrderedFloats fl⦄ ⦃bm : Bitmap B⦄ where
  restore_entries-config :
      (c : Collection F V B I) (rs : Dict String (Record F V))
      → (restore_entries c rs).config ≡ c.config
  unfolding restore_entries restore_entry
  restore_entries-config c [] = refl
  restore_entries-config c ((id, r) ∷ rs) = restore_entries-config (restore_entry c id r) rs

module _ {F V B I : Type 0} ⦃fl : Floats F⦄ ⦃of : OrderedFloats fl⦄ ⦃bm : Bitmap B⦄
    ⦃ix : Index I V⦄ where
  apply_operation-config :
      (c : Collection F V B I) (op : Operation F V) (seq : ℕ)
      → (apply_operation c op seq).0.config ≡ c.config
  unfolding apply_operation apply_upsert apply_update apply_delete offset_for release_offset
      index_result
  apply_operation-config c (add id e m t) seq = ground arith
  apply_operation-config c (upsert id e m t) seq = ground arith
  apply_operation-config c (update id m t) seq = ground arith
  apply_operation-config c (delete id) seq = ground arith

  pub run-config :
      (c : Collection F V B I) (recs : List (WalRecord (Operation F V)))
      → (run c recs).config ≡ c.config
  run-config c [] = refl
  run-config c (x ∷ xs) =
      run-config (apply_operation c x.op x.seq).0 xs ∙ apply_operation-config c x.op x.seq

  apply_all-config :
      (c : Collection F V B I) (recs : List (WalRecord (Operation F V)))
      → (apply_all c recs).0.config ≡ c.config
  unfolding apply_all
  apply_all-config c [] = refl
  apply_all-config c (x ∷ xs) = ground (
    arith,
    apply_all-config (apply_operation c x.op x.seq).0 xs,
    apply_operation-config c x.op x.seq,
  )

module _ {F V B I : Type 0} ⦃fl : Floats F⦄ ⦃of : OrderedFloats fl⦄ ⦃bm : Bitmap B⦄ ⦃ix : Index I V⦄
    (c : Codec (Operation F V)) where
  flush_replayed-config :
      (p : Durable F V B I × EngineResult (Unit {0}))
      → (flush_replayed c p).0.coll.config ≡ p.0.coll.config
  unfolding flush_replayed
  flush_replayed-config (s, err e) = refl
  flush_replayed-config (s, ok u) = flush-config s

  replay_after-config :
      (s : Durable F V B I) (n : ℕ) → (replay_after c s n).0.coll.config ≡ s.coll.config
  unfolding replay_after
  replay_after-config s n = elim (Bool-cases (ltb n s.wal.last_seq)) [
    | inl t ↦ elim (WalResult-cases (read_range c s.wal (n + 1) s.wal.last_seq)) [
      | inl (e, failed) ↦ rw (t, replay_after, failed) refl
      | inr (recs, read) ↦ rw (t, replay_after, read) (apply_all-config s.coll recs)
    ]
    | inr f ↦ rw f refl
  ]

  restore_checkpoint-config :
      (s : Durable F V B I) (m : CheckpointMeta) (rs : Dict String (Record F V)) (epoch : ℕ)
      (fsync : Bool)
      → (restore_checkpoint c s m rs epoch fsync).0.coll.config ≡ s.coll.config
  unfolding restore_checkpoint restore_records
  restore_checkpoint-config s m rs epoch fsync = resume_log-config _ _ ∙ restore_entries-config _ rs

  load_files-config :
      (s : Durable F V B I) (m : Option CheckpointMeta) (rs : Option (Dict String (Record F V)))
      (epoch : ℕ) (fsync : Bool)
      → (load_files c s m rs epoch fsync).0.coll.config ≡ s.coll.config
  unfolding load_files
  load_files-config s none rs epoch fsync = refl
  load_files-config s (some m) none epoch fsync = refl
  load_files-config s (some m) (some rs) epoch fsync =
      ground (arith, restore_checkpoint-config s m rs epoch fsync)

  replay_rest-config :
      (p : Durable F V B I × Bool) → (replay_rest c p).0.coll.config ≡ p.0.coll.config
  unfolding replay_rest
  replay_rest-config (s, true) =
      flush_replayed-config (replay_after c s s.coll.flushed_seq)
      ∙ replay_after-config s s.coll.flushed_seq
  replay_rest-config (s, false) =
      flush_replayed-config (replay_after c s 0) ∙ replay_after-config s 0

  open_on-config :
      (s : Durable F V B I) (epoch : ℕ) (fsync : Bool)
      → (open_on c s epoch fsync).0.coll.config ≡ s.coll.config
  unfolding open_on load_checkpoint
  open_on-config s epoch fsync =
      replay_rest-config (load_checkpoint c s epoch fsync)
      ∙ load_files-config s s.dir.meta s.dir.records epoch fsync

  pub opened_not :
      (config : CollectionConfig) (file : List ℕ) (epoch : ℕ) (fsync : Bool)
      (dir : CheckpointDir F V I) (e : Log.WalError)
      → open_wal c file epoch (wal_options fsync) ≡ Log.err e
      → open_collection {B = B} c config file epoch fsync dir ≡ err (EngineError.wal e)
  unfolding open_collection wal_options
  opened_not config file epoch fsync dir e failed = rw (failed, open_collection) refl

  -- A collection that could be opened has the configuration that it was opened with.
  pub open_collection-config :
      (config : CollectionConfig) (file : List ℕ) (epoch : ℕ) (fsync : Bool)
      (dir : CheckpointDir F V I) (s : Durable F V B I)
      → open_collection c config file epoch fsync dir ≡ ok s
      → s.coll.config ≡ config
  unfolding open_collection new new_collection wal_options
  open_collection-config config file epoch fsync dir s done =
      elim (WalResult-cases (open_wal c file epoch (wal_options fsync))) [
        | inl (e, failed) ↦
            absurd (ground (arith, done, opened_not config file epoch fsync dir e failed))
        | inr (w, opens) ↦ elim (Option-cases (make_index ix config)) [
          | inl failed ↦
              let value : open_collection {B = B} c config file epoch fsync dir
                  ≡ err EngineError.index =
                rw (opens, open_collection, failed, open_collection) refl in
              absurd (ground (arith, done, value))
          | inr (i, made) ↦
              let start : Durable F V B I = new config i w dir in
              elim (result-cases (open_on c start epoch fsync).1) [
                | inl (x, broken) ↦
                    let value : open_collection {B = B} c config file epoch fsync dir ≡ err x =
                      rw (opens, open_collection, made, open_collection, broken, open_collection)
                        refl in
                    absurd (ground (arith, done, value))
                | inr fine ↦
                    let value : open_collection c config file epoch fsync dir
                        ≡ ok (open_on c start epoch fsync).0 =
                      rw (opens, open_collection, made, open_collection, fine, open_collection)
                        refl in
                    let same : (open_on c start epoch fsync).0 ≡ s = ground (arith, done, value) in
                    ap (λ x. x.coll.config) (sym same) ∙ open_on-config start epoch fsync
              ]
        ]
      ]
