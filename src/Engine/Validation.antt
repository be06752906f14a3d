-- ===== src/Engine/Validation.antt =====
-- What `Collection` of crates/rekha-engine/src/collection.rs demands of a batch, and the operations
-- that crates/rekha-engine/src/lib.rs makes of it.
pub mod Accepts
pub mod Ops
use rekha.Prelude.{
  ℕ, zero, suc, ◌+◌, String, Bool, true, false, not, ◌&&◌, ◌||◌, Option, none, some, List, [], ◌∷◌,
  length, str_eq, ◌==◌, if◌then◌else◌, is_some, get_elem?, any,
}
use rekha.Prelude.Dict.{string_eqv, get}
use rekha.Core.Types.{Metadata}
use rekha.Core.Op.{Operation, add, update, upsert}
use rekha.Engine.Base.{
  EngineResult, ok, err, ◌>>◌, validation, Invalid, embedding_count, slice_count, wrong_dimension,
  already_exists, duplicate_in_batch, not_found,
}
use rekha.Engine.Collection.{Collection}

unfoldable pub check_slice_lengths :
    {T : Type 0} → List String → Option (List (Option T)) → EngineResult (Unit {0})
check_slice_lengths ids none = ok tt
check_slice_lengths ids (some slice) =
    if length slice == length ids then ok tt else err (validation slice_count)

unfoldable pub check_lengths : {V : Type 0} → List (List V) → ℕ → EngineResult (Unit {0})
check_lengths [] n = ok tt
check_lengths (embedding ∷ embeddings) n =
    if length embedding == n then check_lengths embeddings n else err (validation wrong_dimension)

-- A dimension of 0 is not set yet.
unfoldable pub check_dimensions : {V : Type 0} → List (List V) → ℕ → EngineResult (Unit {0})
unfolding check_lengths
check_dimensions embeddings n = if n == 0 then ok tt else check_lengths embeddings n

module _ {F V B I : Type 0} where
  -- the loop of `validate_add`, with the ids that it has seen
  unfoldable pub check_fresh :
      Collection F V B I → List String → List String → EngineResult (Unit {0})
  check_fresh c seen [] = ok tt
  check_fresh c seen (id ∷ ids) =
      if is_some (get c.records id)
      then err (validation already_exists)
      else if any (λ s. str_eq s id) seen
      then err (validation duplicate_in_batch)
      else check_fresh c (id ∷ seen) ids

  -- the common part of `validate_add` and `validate_upsert`
  unfoldable pub validate_counts :
      Collection F V B I
      → List String
      → List (List V)
      → Option (List (Option (Metadata F)))
      → Option (List (Option String))
      → EngineResult (Unit {0})
  unfolding check_slice_lengths check_dimensions
  validate_counts c ids embeddings metadatas documents =
      if length ids == length embeddings
      then (check_slice_lengths ids metadatas
          >> check_slice_lengths ids documents
          >> check_dimensions embeddings c.config.dimension)
      else err (validation embedding_count)

  -- Collection::validate_add
  unfoldable pub validate_add :
      Collection F V B I
      → List String
      → List (List V)
      → Option (List (Option (Metadata F)))
      → Option (List (Option String))
      → EngineResult (Unit {0})
  unfolding validate_counts check_fresh
  validate_add c ids embeddings metadatas documents =
      validate_counts c ids embeddings metadatas documents >> check_fresh c [] ids

  -- Collection::validate_upsert
  unfoldable pub validate_upsert :
      Collection F V B I
      → List String
      → List (List V)
      → Option (List (Option (Metadata F)))
      → Option (List (Option String))
      → EngineResult (Unit {0})
  unfolding validate_counts
  validate_upsert c ids embeddings metadatas documents =
      validate_counts c ids embeddings metadatas documents

  -- the loop of `validate_update`
  unfoldable pub check_known : Collection F V B I → List String → EngineResult (Unit {0})
  check_known c [] = ok tt
  check_known c (id ∷ ids) =
      if is_some (get c.records id) then check_known c ids else err (validation not_found)

  -- Collection::validate_update
  unfoldable pub validate_update :
      Collection F V B I
      → List String
      → Option (List (Option (Metadata F)))
      → Option (List (Option String))
      → EngineResult (Unit {0})
  unfolding check_slice_lengths check_known
  validate_update c ids metadatas documents =
      check_slice_lengths ids metadatas >> check_slice_lengths ids documents >> check_known c ids

-- `slice.map(|m| m[i].clone()).unwrap_or(None)`: `none` is a panic
unfoldable pub entry_at : {T : Type 0} → Option (List (Option T)) → ℕ → Option (Option T)
entry_at none i = some none
entry_at (some slice) i = get_elem? slice i

-- the operation of an id, unless an index is out of bounds
abbrev pub with_entries :
    {F V : Type 0}
    → Option (List (Option (Metadata F)))
    → Option (List (Option String))
    → ℕ
    → (Option (Metadata F) → Option String → Operation F V)
    → Option (Operation F V)
with_entries metadatas documents i make = elim (entry_at metadatas i) [
  | none ↦ none
  | some metadata ↦ elim (entry_at documents i) [
    | none ↦ none
    | some document ↦ some (make metadata document)
  ]
]

-- `ids.iter().enumerate().map(..).collect()`, from an index on
abbrev pub ops_from :
    {F V : Type 0}
    → (ℕ → String → Option (Operation F V))
    → ℕ
    → List String
    → Option (List (Operation F V))
ops_from make i [] = some []
ops_from make i (id ∷ ids) =
    let rest = ops_from make (i + 1) ids in
    elim (make i id) [
      | none ↦ none
      | some op ↦ elim rest [ none ↦ none | some ops ↦ some (op ∷ ops) ]
    ]

module _ {F V : Type 0} where
  unfoldable pub update_ops :
      List String
      → Option (List (Option (Metadata F)))
      → Option (List (Option String))
      → Option (List (Operation F V))
  unfolding entry_at
  update_ops ids metadatas documents =
      ops_from (λ i id. with_entries metadatas documents i (λ m d. update id m d)) 0 ids

  unfoldable pub add_ops :
      List String
      → List (List V)
      → Option (List (Option (Metadata F)))
      → Option (List (Option String))
      → Option (List (Operation F V))
  unfolding entry_at
  add_ops ids embeddings metadatas documents =
      ops_from
        (λ i id. elim (get_elem? embeddings i) [
          | none ↦ none
          | some e ↦ with_entries metadatas documents i (λ m d. add id e m d)
        ])
        0 ids

  unfoldable pub upsert_ops :
      List String
      → List (List V)
      → Option (List (Option (Metadata F)))
      → Option (List (Option String))
      → Option (List (Operation F V))
  unfolding entry_at
  upsert_ops ids embeddings metadatas documents =
      ops_from
        (λ i id. elim (get_elem? embeddings i) [
          | none ↦ none
          | some e ↦ with_entries metadatas documents i (λ m d. upsert id e m d)
        ])
        0 ids
