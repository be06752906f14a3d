-- ===== src/Core/Filter/Parse.antt =====
-- The parser of crates/rekha-core/src/filter.rs, from JSON values to where filters.
use rekha.Prelude.{
  String, Bool, true, false, Option, none, some, List, [], ◌∷◌, str_eq, if◌then◌else◌,
}
use rekha.Core.Types.{MetadataValue, str, bool, int, float}
use rekha.Core.Filter.{
  ComparisonOp, eq, ne, gt, gte, lt, lte, in_list, nin, WhereCondition, comparison, and, or,
  WhereConditions, nil, cons, WhereFilter,
}
use rekha.Core.Filter.Json.{
  JsonNumber, Json, null, boolean, number, string, array, object, Items, no_items, item, Members,
  no_members, member,
}

-- WhereParseError
pub data WhereParseError : Type 0 where
  expected_object : String → WhereParseError
  expected_array : String → String → WhereParseError
  unknown_operator : String → WhereParseError
  expected_number : String → String → WhereParseError
  empty_ops : String → WhereParseError
  invalid_value : String → WhereParseError
  number_out_of_range and_or_conflict or_with_other_keys empty : WhereParseError
  empty_list : String → WhereParseError
  invalid_json : String → WhereParseError

pub data ParseResult {ℓ} (A : Type ℓ) : Type ℓ where
  ok : A → ParseResult A
  err : WhereParseError → ParseResult A

infixl 5 ◌>>=◌
abbrev pub ◌>>=◌ {ℓ κ} :
    {A : Type ℓ} {B : Type κ} → ParseResult A → (A → ParseResult B) → ParseResult B
ok a >>= f = f a
err e >>= f = err e

unfoldable pub describe : {N : Type 0} → Json N → String
describe null = "null"
describe (boolean b) = "boolean"
describe (number n) = "number"
describe (string s) = "string"
describe (array items) = "array"
describe (object map) = "object"

-- `push` and `extend` of a vector of conditions
abbrev pub extend : {F : Type 0} → WhereConditions F → WhereConditions F → WhereConditions F
extend nil ds = ds
extend (cons c cs) ds = cons c (extend cs ds)

abbrev pub push : {F : Type 0} → WhereConditions F → WhereCondition F → WhereConditions F
push cs c = extend cs (cons c nil)

unfoldable pub normalize_list :
    {F : Type 0} → WhereConditions F → String → ParseResult (WhereCondition F)
normalize_list nil what = err (empty_list what)
normalize_list (cons c nil) what = ok c
normalize_list (cons c (cons d cs)) what = ok (and (cons c (cons d cs)))

-- the end of the branch of `$or`
unfoldable pub normalize_or : {F : Type 0} → WhereConditions F → ParseResult (WhereCondition F)
normalize_or nil = err (empty_list "$or")
normalize_or (cons c nil) = ok c
normalize_or (cons c (cons d cs)) = ok (or (cons c (cons d cs)))

-- What the loop of `parse_object` has gathered. The lists of `$and` and `$or` are kept as what
-- `parse_list` makes of them, which is looked at only after the loop.
pub record Gathered (F : Type 0) : Type 0 where
  pub fields : WhereConditions F
  pub explicit_and : Option (ParseResult (WhereConditions F))
  pub explicit_or : Option (ParseResult (WhereConditions F))

abbrev pub is_nil : {F : Type 0} → WhereConditions F → Bool
is_nil nil = true
is_nil (cons c cs) = false

-- `parse_object` behind its loop
unfoldable pub finish : {F : Type 0} → Gathered F → ParseResult (WhereCondition F)
unfolding normalize_list normalize_or
finish g = elim g.explicit_or [
  | none ↦ elim g.explicit_and [
    | none ↦ normalize_list g.fields "field"
    | some and_list ↦ and_list >>= λ conds. normalize_list (extend conds g.fields) "$and"
  ]
  | some or_list ↦ elim g.explicit_and [
    | some and_list ↦ err and_or_conflict
    | none ↦
        if is_nil g.fields
        then (or_list >>= λ conds. normalize_or conds)
        else err or_with_other_keys
  ]
]

module _ {N F : Type 0} ⦃jn : JsonNumber N F⦄ where
  unfoldable pub metadata_value : Json N → ParseResult (MetadataValue F)
  unfolding describe
  metadata_value (string s) = ok (str s)
  metadata_value (boolean b) = ok (bool b)
  metadata_value (number n) = elim (jn.as_i64 n) [
    | some i ↦ ok (int i)
    | none ↦ elim (jn.as_f64 n) [ some f ↦ ok (float f) | none ↦ err number_out_of_range ]
  ]
  metadata_value null = err (invalid_value (describe {N = N} null))
  metadata_value (array items) = err (invalid_value (describe (array items)))
  metadata_value (object map) = err (invalid_value (describe (object map)))

  -- `number` of the source
  unfoldable pub number_of : Json N → String → ParseResult F
  unfolding describe
  number_of (number n) op = elim (jn.as_f64 n) [
    | some f ↦ ok f
    | none ↦ err (expected_number op (describe (number n)))
  ]
  number_of value op = err (expected_number op (describe value))

  unfoldable pub metadata_values : Items N → ParseResult (List (MetadataValue F))
  metadata_values no_items = ok []
  metadata_values (item v vs) =
      let rest = metadata_values vs in metadata_value v >>= λ x. rest >>= λ xs. ok (x ∷ xs)

  unfoldable pub value_list : Json N → String → ParseResult (List (MetadataValue F))
  unfolding describe metadata_values
  value_list (array items) op = metadata_values items
  value_list value op = err (expected_array op (describe value))

  unfoldable pub parse_op : String → Json N → ParseResult (ComparisonOp F)
  unfolding metadata_value number_of value_list
  parse_op op value =
      if str_eq op "$eq"
      then (metadata_value value >>= λ v. ok (eq v))
      else if str_eq op "$ne"
      then (metadata_value value >>= λ v. ok (ne v))
      else if str_eq op "$gt"
      then (number_of value "$gt" >>= λ n. ok (gt n))
      else if str_eq op "$gte"
      then (number_of value "$gte" >>= λ n. ok (gte n))
      else if str_eq op "$lt"
      then (number_of value "$lt" >>= λ n. ok (lt n))
      else if str_eq op "$lte"
      then (number_of value "$lte" >>= λ n. ok (lte n))
      else if str_eq op "$in"
      then (value_list value "$in" >>= λ vs. ok (in_list vs))
      else if str_eq op "$nin"
      then (value_list value "$nin" >>= λ vs. ok (nin vs))
      else err (unknown_operator op)

  -- the conditions of one field
  unfoldable pub parse_ops : String → Members N → ParseResult (WhereConditions F)
  parse_ops key no_members = ok nil
  parse_ops key (member op value ops) =
      let rest = parse_ops key ops in
      parse_op op value >>= λ o. rest >>= λ cs. ok (cons (comparison key o) cs)

  unfoldable pub parse_field_condition : String → Json N → ParseResult (WhereCondition F)
  unfolding parse_ops normalize_list metadata_value
  parse_field_condition key (object no_members) = err (empty_ops key)
  parse_field_condition key (object (member op value ops)) =
      parse_ops key (member op value ops) >>= λ conds. normalize_list conds "operator"
  parse_field_condition key value = metadata_value value >>= λ v. ok (comparison key (eq v))

  unfoldable mutual
    pub parse_condition : Json N → ParseResult (WhereCondition F)
    parse_condition (object map) =
        parse_members map (record { fields = nil; explicit_and = none; explicit_or = none })
        >>= λ g. finish g
    parse_condition null = err (expected_object "null")
    parse_condition (boolean b) = err (expected_object "boolean")
    parse_condition (number n) = err (expected_object "number")
    parse_condition (string s) = err (expected_object "string")
    parse_condition (array items) = err (expected_object "array")

    pub parse_list : Items N → ParseResult (WhereConditions F)
    parse_list no_items = ok nil
    parse_list (item v vs) =
        let rest = parse_list vs in parse_condition v >>= λ c. rest >>= λ cs. ok (cons c cs)

    -- `as_array`, and the list behind it
    pub parse_array : Json N → String → ParseResult (ParseResult (WhereConditions F))
    parse_array (array items) op = ok (parse_list items)
    parse_array null op = err (expected_array op "null")
    parse_array (boolean b) op = err (expected_array op "boolean")
    parse_array (number n) op = err (expected_array op "number")
    parse_array (string s) op = err (expected_array op "string")
    parse_array (object map) op = err (expected_array op "object")

    -- the loop of `parse_object`
    pub parse_members : Members N → Gathered F → ParseResult (Gathered F)
    parse_members no_members g = ok g
    parse_members (member key value map) g =
        let rest = λ (g' : Gathered F). parse_members map g' in
        let and_array = parse_array value "$and" in
        let or_array = parse_array value "$or" in
        if str_eq key "$and"
        then (and_array >>= λ conds. rest (record g { explicit_and = some conds }))
        else if str_eq key "$or"
        then (or_array >>= λ conds. rest (record g { explicit_or = some conds }))
        else (parse_field_condition key value >>= λ c. rest (record g { fields = push g.fields c }))

  -- WhereFilter::from_json_value
  unfoldable pub from_json_value : Json N → ParseResult (WhereFilter F)
  unfolding parse_condition
  from_json_value value = parse_condition value >>= λ c. ok (record { condition = c })
