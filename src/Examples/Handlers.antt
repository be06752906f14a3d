-- ===== src/Examples/Handlers.antt =====
-- The theorems on the handlers, at an engine of one collection.
use rekha.Prelude.{
  true, ℕ, ◌≡◌, refl, String, none, some, List, [], ◌∷◌, str_eq, if◌then◌else◌, arith,
}
use rekha.Prelude.Dict.{Dict, string_eqv, get}
use rekha.Wal.{wal_options}
use rekha.Wal.Recovery.{opened}
use rekha.Engine.Base.{ok, err, validation, wrong_dimension, slice_count}
use rekha.Engine.Collection.{apply_operation, apply_upsert, offset_for}
use rekha.Engine.Durable.{Durable, new_collection, new}
use rekha.Engine.Durable.Recover.{Replayable}
use rekha.Engine.Lookup.{get_record}
use rekha.Engine.Validation.{
  validate_add, validate_counts, check_slice_lengths, check_dimensions, check_lengths,
}
use rekha.Engine.Handlers.{Engine, delete, add, infer_dimension}
use rekha.Engine.Handlers.Deleted.{listed, delete-removes}
use rekha.Engine.Handlers.Rejected.{add-rejected, add-keeps_dimension}
use rekha.Examples.Floats.{Float, floats, ordered_floats}
use rekha.Examples.Bitmaps.{list_bitmap}
use rekha.Examples.Indexes.{dict_index, codec, config}
use rekha.Examples.Checkpoints.{watermark, disk}
use rekha.Examples.Collections.{no_checkpoint, upserted, upserted-Replayable, lenient}

abbrev FloatEngine : Type 0
FloatEngine = Engine Float ℕ (List ℕ) (Dict String (List ℕ)) ℕ

abbrev engine : FloatEngine
engine = record { collections = ("c1", upserted) ∷ []; catalog = 0 }

delete-removes_example :
    (e' : FloatEngine) × (s' : Durable Float ℕ (List ℕ) (Dict String (List ℕ))) × (delete codec disk
        true engine "c1"
        ("a" ∷ [])
      ≡ some (e', ok tt))
    × ((j : String)
        → get e'.collections j ≡ (if str_eq "c1" j then some s' else get engine.collections j))
    × Replayable codec s'
    × ((j : String)
        → get_record s' j ≡ (if listed j ("a" ∷ []) then none else get_record upserted j))
unfolding get new new_collection apply_operation apply_upsert offset_for
delete-removes_example =
    delete-removes codec disk true lenient engine "c1" upserted ("a" ∷ []) refl upserted-Replayable
      (omega arith) (([], refl, omega arith), tt) (omega arith)

add-rejected_example :
    (e' : FloatEngine) × (add codec disk true engine "c1"
        ("b" ∷ [])
        ((1 ∷ 2 ∷ 3 ∷ []) ∷ [])
        none
        none
      ≡ some (e', err (validation wrong_dimension)))
    × (e'.catalog ≡ engine.catalog)
    × ((j : String) → get e'.collections j ≡ get engine.collections j)
unfolding get new new_collection validate_add validate_counts check_slice_lengths check_dimensions
    check_lengths apply_operation apply_upsert offset_for
add-rejected_example =
    add-rejected codec disk true engine "c1" upserted ("b" ∷ []) ((1 ∷ 2 ∷ 3 ∷ []) ∷ []) none none
      (validation wrong_dimension) refl refl refl

-- a collection without a dimension
abbrev unset : Durable Float ℕ (List ℕ) (Dict String (List ℕ))
unset =
    new (record config { dimension = 0 }) [] (opened codec 5 [] (wal_options true)) no_checkpoint

abbrev unset_engine : FloatEngine
unset_engine = record { collections = ("c1", unset) ∷ []; catalog = 0 }

add-keeps_dimension_example :
    (e' : FloatEngine) × (e'' : FloatEngine) × (add codec disk true unset_engine "c1"
        ("a" ∷ [])
        ((1 ∷ 2 ∷ 3 ∷ []) ∷ [])
        (some [])
        none
      ≡ some (e', err (validation slice_count)))
    × (add codec disk true e' "c1" ("a" ∷ []) ((1 ∷ 2 ∷ []) ∷ []) none none
        ≡ some (e'', err (validation wrong_dimension)))
unfolding get new new_collection validate_add validate_counts check_slice_lengths infer_dimension
add-keeps_dimension_example =
    add-keeps_dimension codec disk true unset_engine "c1" unset ("a" ∷ []) ("a" ∷ [])
      (1 ∷ 2 ∷ 3 ∷ []) (1 ∷ 2 ∷ []) [] [] (some []) none (validation slice_count) refl refl refl
      (omega arith) (omega arith) refl
