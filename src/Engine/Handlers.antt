-- ===== src/Engine/Handlers.antt =====
-- The handlers of `Engine` of crates/rekha-engine/src/lib.rs that work on one collection. A handler
-- that panics gives `none`.
pub mod Deleted
pub mod Rejected
pub mod Restored
pub mod Snapshot
use rekha.Prelude.{
  ℕ, zero, suc, ◌+◌, String, Bool, true, false, Option, none, some, List, [], ◌∷◌, length, ◌==◌,
  if◌then◌else◌, map,
}
use rekha.Prelude.Dict
use rekha.Prelude.Dict.{Dict, string_eqv, get}
use rekha.Core.Types.{Floats, Metadata}
use rekha.Core.Op.{Operation, delete as delete_op}
use rekha.Wal.{Codec}
use rekha.Engine.Bitmap.{Bitmap}
use rekha.Engine.ValueKey.{OrderedFloats}
use rekha.Engine.Base.{
  Record, Index, Catalog, EngineError, EngineResult, ok, err, collection_not_found, validation,
  not_found,
}
use rekha.Engine.Collection.{Collection}
use rekha.Engine.Durable.{Durable, flush_if_needed, write_ops}
use rekha.Engine.Durable.Checkpoint.{Disk, auto_checkpoint}
use rekha.Engine.Lookup.{get_records}
use rekha.Engine.Validation.{
  validate_add, validate_upsert, validate_update, add_ops, upsert_ops, update_ops,
}

-- Engine: its collections and its catalog
pub record Engine (F V B I K : Type 0) : Type 0 where
  pub collections : Dict String (Durable F V B I)
  pub catalog : K

-- a collection and the catalog, with the result of a handler
abbrev pub Outcome : Type 0 → Type 0 → Type 0 → Type 0 → Type 0 → Type 0
Outcome F V B I K = (Durable F V B I × K) × EngineResult (Unit {0})

module _ {F V B I K : Type 0} where
  -- Engine::collection
  unfoldable pub collection : Engine F V B I K → String → EngineResult (Durable F V B I)
  collection e id = elim (get e.collections id) [ none ↦ err collection_not_found | some s ↦ ok s ]

  -- the collection is changed in place, and the catalog with it
  unfoldable pub put :
      Engine F V B I K → String → Outcome F V B I K → Engine F V B I K × EngineResult (Unit {0})
  put e id ((s, k), result) =
      (record { collections = Dict.insert e.collections id s; catalog = k }, result)

  -- a handler on the collection that is locked
  unfoldable pub on_collection :
      Engine F V B I K
      → String
      → (Durable F V B I → K → Option (Outcome F V B I K))
      → Option (Engine F V B I K × EngineResult (Unit {0}))
  unfolding collection put
  on_collection e id handler = elim (collection e id) [
    | err x ↦ some (e, err x)
    | ok s ↦ elim (handler s e.catalog) [ none ↦ none | some outcome ↦ some (put e id outcome) ]
  ]

  -- Engine::count
  unfoldable pub count : Engine F V B I K → String → EngineResult ℕ
  unfolding collection
  count e id = elim (collection e id) [ err x ↦ err x | ok s ↦ ok (length s.coll.records) ]

  -- Engine::seq_of
  unfoldable pub seq_of : Engine F V B I K → String → String → EngineResult ℕ
  unfolding collection
  seq_of e collection_id id = elim (collection e collection_id) [
    | err x ↦ err x
    | ok s ↦ elim (get s.coll.records id) [ none ↦ err (validation not_found) | some r ↦ ok r.seq ]
  ]

  -- Engine::get
  unfoldable pub get_all :
      Engine F V B I K → String → List String → EngineResult (List (Option (Record F V)))
  unfolding collection get_records
  get_all e id ids = elim (collection e id) [ err x ↦ err x | ok s ↦ ok (get_records s ids) ]

module _ {F V B I : Type 0} where
  -- the dimension of the first embedding, where the collection has none yet
  unfoldable pub infer_dimension : Durable F V B I → List (List V) → Durable F V B I × Option ℕ
  infer_dimension s [] = (s, none)
  infer_dimension s (embedding ∷ embeddings) =
      if s.coll.config.dimension == 0
      then (
        record s {
          coll = record s.coll { config = record s.coll.config { dimension = length embedding } };
        },
        some (length embedding),
      )
      else (s, none)

-- the inferred dimension is saved; a failure is only logged
unfoldable pub persist_inferred : {K : Type 0} ⦃catalog : Catalog K⦄ → K → String → Option ℕ → K
persist_inferred k id none = k
persist_inferred ⦃catalog = catalog⦄ k id (some dimension) =
    elim (catalog.update_collection_dimension k id dimension) [ none ↦ k | some k' ↦ k' ]

module _ {F V B I K : Type 0} ⦃fl : Floats F⦄ ⦃of : OrderedFloats fl⦄ ⦃bm : Bitmap B⦄
    ⦃ix : Index I V⦄ ⦃catalog : Catalog K⦄ (c : Codec (Operation F V)) (disk : Disk I)
    (fsync : Bool) where
  -- the operations are written, and a checkpoint is made if one is due
  unfoldable pub write_batch : Durable F V B I → K → List (Operation F V) → Outcome F V B I K
  unfolding write_ops auto_checkpoint
  write_batch s k ops =
      let (s', written) = write_ops c s ops in
      elim written [ err x ↦ ((s', k), err x) | ok u ↦ auto_checkpoint c disk fsync s' k ]

  -- the same with a flush of the buffer between
  unfoldable pub write_vectors : Durable F V B I → K → List (Operation F V) → Outcome F V B I K
  unfolding write_ops flush_if_needed auto_checkpoint
  write_vectors s k ops =
      let (s', written) = write_ops c s ops in
      elim written [
        | err x ↦ ((s', k), err x)
        | ok u ↦
            let (coll, flushed) = flush_if_needed s'.coll in
            let s'' = record s' { coll = coll } in
            elim flushed [ err x ↦ ((s'', k), err x) | ok u' ↦ auto_checkpoint c disk fsync s'' k ]
      ]

  -- what follows the validation of a batch of vectors
  unfoldable pub write_validated :
      Durable F V B I × Option ℕ
      → K
      → String
      → EngineResult (Unit {0})
      → Option (List (Operation F V))
      → Option (Outcome F V B I K)
  unfolding write_vectors persist_inferred
  write_validated (s, inferred) k id (err x) ops = some ((s, k), err x)
  write_validated (s, inferred) k id (ok u) none = none
  write_validated (s, inferred) k id (ok u) (some ops) =
      some (write_vectors s (persist_inferred k id inferred) ops)

  -- the body of `Engine::add`
  unfoldable pub add_to :
      String
      → List String
      → List (List V)
      → Option (List (Option (Metadata F)))
      → Option (List (Option String))
      → Durable F V B I
      → K
      → Option (Outcome F V B I K)
  unfolding infer_dimension write_validated validate_add add_ops
  add_to id ids embeddings metadatas documents s k =
      let inferred = infer_dimension s embeddings in
      write_validated inferred k id
        (validate_add inferred.0.coll ids embeddings metadatas documents)
        (add_ops ids embeddings metadatas documents)

  -- Engine::add
  unfoldable pub add :
      Engine F V B I K
      → String
      → List String
      → List (List V)
      → Option (List (Option (Metadata F)))
      → Option (List (Option String))
      → Option (Engine F V B I K × EngineResult (Unit {0}))
  unfolding on_collection add_to
  add e id ids embeddings metadatas documents =
      on_collection e id (add_to id ids embeddings metadatas documents)

  -- the body of `Engine::upsert`
  unfoldable pub upsert_to :
      String
      → List String
      → List (List V)
      → Option (List (Option (Metadata F)))
      → Option (List (Option String))
      → Durable F V B I
      → K
      → Option (Outcome F V B I K)
  unfolding infer_dimension write_validated validate_upsert upsert_ops
  upsert_to id ids embeddings metadatas documents s k =
      let inferred = infer_dimension s embeddings in
      write_validated inferred k id
        (validate_upsert inferred.0.coll ids embeddings metadatas documents)
        (upsert_ops ids embeddings metadatas documents)

  -- Engine::upsert
  unfoldable pub upsert :
      Engine F V B I K
      → String
      → List String
      → List (List V)
      → Option (List (Option (Metadata F)))
      → Option (List (Option String))
      → Option (Engine F V B I K × EngineResult (Unit {0}))
  unfolding on_collection upsert_to
  upsert e id ids embeddings metadatas documents =
      on_collection e id (upsert_to id ids embeddings metadatas documents)

  -- the body of `Engine::update`
  unfoldable pub update_validated :
      Durable F V B I
      → K
      → EngineResult (Unit {0})
      → Option (List (Operation F V))
      → Option (Outcome F V B I K)
  unfolding write_batch
  update_validated s k (err x) ops = some ((s, k), err x)
  update_validated s k (ok u) none = none
  update_validated s k (ok u) (some ops) = some (write_batch s k ops)

  -- Engine::update
  unfoldable pub update :
      Engine F V B I K
      → String
      → List String
      → Option (List (Option (Metadata F)))
      → Option (List (Option String))
      → Option (Engine F V B I K × EngineResult (Unit {0}))
  unfolding on_collection update_validated validate_update update_ops
  update e id ids metadatas documents = on_collection e id (λ s k.
      update_validated s k (validate_update s.coll ids metadatas documents)
        (update_ops ids metadatas documents))

  -- the body of `Engine::delete`
  unfoldable pub delete_from : List String → Durable F V B I → K → Option (Outcome F V B I K)
  unfolding write_batch
  delete_from ids s k = some (write_batch s k (map delete_op ids))

  -- Engine::delete
  unfoldable pub delete :
      Engine F V B I K → String → List String → Option (Engine F V B I K × EngineResult (Unit {0}))
  unfolding on_collection delete_from
  delete e id ids = on_collection e id (delete_from ids)
