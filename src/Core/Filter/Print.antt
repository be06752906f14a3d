-- ===== src/Core/Filter/Print.antt =====
-- The printer of crates/rekha-core/src/filter.rs, from where filters to JSON values.
use rekha.Prelude.{String, none, some, List, [], ◌∷◌}
use rekha.Core.Types.{MetadataValue, str, bool, int, float}
use rekha.Core.Filter.{
  ComparisonOp, eq, ne, gt, gte, lt, lte, in_list, nin, WhereCondition, comparison, and, or,
  WhereConditions, nil, cons,
}
use rekha.Core.Filter.Json.{
  JsonNumber, Json, null, boolean, number, string, array, object, Items, no_items, item, no_members,
  member,
}

-- an object of one entry
abbrev pub singleton : {N : Type 0} → String → Json N → Json N
singleton key value = object (member key value no_members)

module _ {N F : Type 0} ⦃jn : JsonNumber N F⦄ where
  -- `Value::from` of an f64
  unfoldable pub float_to_json : F → Json N
  float_to_json f = elim (jn.from_float f) [ none ↦ null | some n ↦ number n ]

  unfoldable pub metadata_value_to_json : MetadataValue F → Json N
  unfolding float_to_json
  metadata_value_to_json (str s) = string s
  metadata_value_to_json (bool b) = boolean b
  metadata_value_to_json (int i) = number (jn.from_int i)
  metadata_value_to_json (float f) = float_to_json f

  unfoldable pub metadata_values_to_json : List (MetadataValue F) → Items N
  unfolding metadata_value_to_json
  metadata_values_to_json [] = no_items
  metadata_values_to_json (v ∷ vs) = item (metadata_value_to_json v) (metadata_values_to_json vs)

  unfoldable pub op_to_value : ComparisonOp F → Json N
  unfolding metadata_value_to_json metadata_values_to_json float_to_json
  op_to_value (eq v) = singleton "$eq" (metadata_value_to_json v)
  op_to_value (ne v) = singleton "$ne" (metadata_value_to_json v)
  op_to_value (gt n) = singleton "$gt" (float_to_json n)
  op_to_value (gte n) = singleton "$gte" (float_to_json n)
  op_to_value (lt n) = singleton "$lt" (float_to_json n)
  op_to_value (lte n) = singleton "$lte" (float_to_json n)
  op_to_value (in_list vs) = singleton "$in" (array (metadata_values_to_json vs))
  op_to_value (nin vs) = singleton "$nin" (array (metadata_values_to_json vs))

  unfoldable mutual
    pub condition_to_value : WhereCondition F → Json N
    condition_to_value (comparison key op) = singleton key (op_to_value op)
    condition_to_value (and conds) = singleton "$and" (array (conditions_to_values conds))
    condition_to_value (or conds) = singleton "$or" (array (conditions_to_values conds))

    pub conditions_to_values : WhereConditions F → Items N
    conditions_to_values nil = no_items
    conditions_to_values (cons c cs) = item (condition_to_value c) (conditions_to_values cs)
