-- ===== src/Examples/Validations.antt =====
-- The theorems on validation, at small batches.
use rekha.Prelude.{
  ℕ, ◌≡◌, refl, String, true, false, ◌&&◌, ◌||◌, not, none, some, List, [], ◌∷◌, length, ◌==◌, all,
  map,
}
use rekha.Prelude.Dict.{Dict, string_eqv, get}
use rekha.Core.Op.{Operation, op_id}
use rekha.Engine.Collection.{Collection}
use rekha.Engine.Durable.{new_collection}
use rekha.Engine.Validation.{
  validate_add, validate_counts, check_slice_lengths, check_dimensions, check_lengths, check_fresh,
  add_ops,
}
use rekha.Engine.Validation.Accepts.{accepted, distinct, is_known, validate_add-accepts}
use rekha.Engine.Validation.Ops.{add_ops-accepted}
use rekha.Examples.Floats.{Float, floats, ordered_floats}
use rekha.Examples.Bitmaps.{list_bitmap}
use rekha.Examples.Indexes.{dict_index, config}

abbrev fresh : Collection Float ℕ (List ℕ) (Dict String (List ℕ))
fresh = new_collection config []

abbrev ids : List String
ids = "a" ∷ "b" ∷ []

abbrev embeddings : List (List ℕ)
embeddings = (1 ∷ 2 ∷ []) ∷ (3 ∷ 4 ∷ []) ∷ []

validate_add-accepts_example :
    accepted (validate_add fresh ids embeddings none none)
    ≡ (true && (true && (true && (false || all (λ e. length e == 2) embeddings))))
      && (all (λ id. not (is_known fresh id)) ids && distinct ids)
unfolding new_collection
validate_add-accepts_example = validate_add-accepts fresh ids embeddings none none

fresh_accepts : accepted (validate_add fresh ids embeddings none none) ≡ true
unfolding new_collection validate_add validate_counts check_slice_lengths check_dimensions
    check_lengths check_fresh get
fresh_accepts = refl

add_ops-accepted_example :
    (ops : List (Operation Float ℕ)) × (add_ops ids embeddings none none ≡ some ops)
    × (map op_id ops ≡ ids)
add_ops-accepted_example = add_ops-accepted fresh ids embeddings none none fresh_accepts
