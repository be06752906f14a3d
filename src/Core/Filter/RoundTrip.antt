-- ===== src/Core/Filter/RoundTrip.antt =====
-- Printing a filter and parsing it again.
use rekha.Prelude.{
  ◌≡◌, refl, ap, String, true, false, List, [], ◌∷◌, str_eq, is_some, arith, Option-cases, inl, inr,
}
use rekha.Core.Types.{MetadataValue, str, bool, int, float}
use rekha.Core.Filter.{
  ComparisonOp, eq, ne, gt, gte, lt, lte, in_list, nin, WhereCondition, comparison, and, or,
  WhereConditions, nil, cons, WhereFilter,
}
use rekha.Core.Filter.Json.{JsonNumber, Json, array, Items}
use rekha.Core.Filter.Parse.{
  ok, extend, metadata_value, number_of, metadata_values, value_list, parse_op, parse_ops,
  parse_field_condition, normalize_list, normalize_or, finish, parse_condition, parse_list,
  from_json_value,
}
use rekha.Core.Filter.Print.{
  singleton, float_to_json, metadata_value_to_json, metadata_values_to_json, op_to_value,
  condition_to_value, conditions_to_values,
}

module _ {N F : Type 0} (jn : JsonNumber N F) where
  -- JSON has a number for the value.
  abbrev pub IsPrintable : MetadataValue F → Type 0
  IsPrintable (float f) = is_some (jn.from_float f) ≡ true
  IsPrintable (str s) = Unit
  IsPrintable (bool b) = Unit
  IsPrintable (int i) = Unit

  abbrev pub ArePrintable : List (MetadataValue F) → Type 0
  ArePrintable [] = Unit
  ArePrintable (v ∷ vs) = IsPrintable v × ArePrintable vs

  abbrev pub IsPrintableOp : ComparisonOp F → Type 0
  IsPrintableOp (eq v) = IsPrintable v
  IsPrintableOp (ne v) = IsPrintable v
  IsPrintableOp (gt f) = is_some (jn.from_float f) ≡ true
  IsPrintableOp (gte f) = is_some (jn.from_float f) ≡ true
  IsPrintableOp (lt f) = is_some (jn.from_float f) ≡ true
  IsPrintableOp (lte f) = is_some (jn.from_float f) ≡ true
  IsPrintableOp (in_list vs) = ArePrintable vs
  IsPrintableOp (nin vs) = ArePrintable vs

  -- What the parser can give: fields are not named as the connectives are, and a connective has two
  -- conditions or more.
  abbrev mutual
    pub IsCanonical : WhereCondition F → Type 0
    IsCanonical (comparison key op) =
        (str_eq key "$and" ≡ false) × (str_eq key "$or" ≡ false) × IsPrintableOp op
    IsCanonical (and nil) = ⊥
    IsCanonical (and (cons c nil)) = ⊥
    IsCanonical (and (cons c (cons d cs))) = AreCanonical (cons c (cons d cs))
    IsCanonical (or nil) = ⊥
    IsCanonical (or (cons c nil)) = ⊥
    IsCanonical (or (cons c (cons d cs))) = AreCanonical (cons c (cons d cs))

    pub AreCanonical : WhereConditions F → Type 0
    AreCanonical nil = Unit
    AreCanonical (cons c cs) = IsCanonical c × AreCanonical cs

extend-nil : {F : Type 0} (cs : WhereConditions F) → extend cs nil ≡ cs
extend-nil nil = refl
extend-nil (cons c cs) = ap (cons c) (extend-nil cs)

module _ {F : Type 0} (N : Type 0) ⦃jn : JsonNumber N F⦄ where
  float-round_trip :
      (f : F) (op : String)
      → is_some (jn.from_float f) ≡ true
      → number_of {N = N} (float_to_json f) op ≡ ok f
  unfolding number_of float_to_json
  float-round_trip f op h = elim (Option-cases (jn.from_float f)) [
    | inl e ↦ absurd (ground (arith, e, h))
    | inr (n, e) ↦ rw (e, number_of, jn.as_f64-from_float f n e) refl
  ]

  value-round_trip :
      (v : MetadataValue F)
      → IsPrintable jn v
      → metadata_value {N = N} (metadata_value_to_json v) ≡ ok v
  unfolding metadata_value metadata_value_to_json float_to_json
  value-round_trip (str s) h = refl
  value-round_trip (bool b) h = refl
  value-round_trip (int i) h = rw (jn.as_i64-from_int i) refl
  value-round_trip (float f) h = elim (Option-cases (jn.from_float f)) [
    | inl e ↦ absurd (ground (arith, e, h))
    | inr (n, e) ↦
        rw (e, metadata_value, jn.as_i64-from_float f n e, jn.as_f64-from_float f n e) refl
  ]

  values-round_trip :
      (vs : List (MetadataValue F))
      → ArePrintable jn vs
      → metadata_values {N = N} (metadata_values_to_json vs) ≡ ok vs
  unfolding metadata_values metadata_values_to_json
  values-round_trip [] h = refl
  values-round_trip (v ∷ vs) h = rw (value-round_trip v h.0, values-round_trip vs h.1) refl

  field-round_trip :
      (key : String) (op : ComparisonOp F)
      → IsPrintableOp jn op
      → parse_field_condition {N = N} key (op_to_value op) ≡ ok (comparison key op)
  unfolding parse_field_condition parse_ops parse_op op_to_value normalize_list value_list
  field-round_trip key (eq v) h = rw (value-round_trip v h) refl
  field-round_trip key (ne v) h = rw (value-round_trip v h) refl
  field-round_trip key (gt f) h = rw (float-round_trip f "$gt" h) refl
  field-round_trip key (gte f) h = rw (float-round_trip f "$gte" h) refl
  field-round_trip key (lt f) h = rw (float-round_trip f "$lt" h) refl
  field-round_trip key (lte f) h = rw (float-round_trip f "$lte" h) refl
  field-round_trip key (in_list vs) h = rw (values-round_trip vs h) refl
  field-round_trip key (nin vs) h = rw (values-round_trip vs h) refl

  parse_condition-comparison :
      (key : String) (value : Json N) (c : WhereCondition F)
      → str_eq key "$and" ≡ false
      → str_eq key "$or" ≡ false
      → parse_field_condition key value ≡ ok c
      → parse_condition (singleton key value) ≡ ok c
  unfolding parse_condition finish normalize_list
  parse_condition-comparison key value c not_and not_or e = rw (not_and, not_or, e) refl

  parse_condition-and :
      (items : Items N) (c d : WhereCondition F) (cs : WhereConditions F)
      → parse_list items ≡ ok (cons c (cons d cs))
      → parse_condition (singleton "$and" (array items)) ≡ ok (and (cons c (cons d cs)))
  unfolding parse_condition finish normalize_list
  parse_condition-and items c d cs e = rw (e, extend-nil cs) refl

  parse_condition-or :
      (items : Items N) (c d : WhereCondition F) (cs : WhereConditions F)
      → parse_list items ≡ ok (cons c (cons d cs))
      → parse_condition (singleton "$or" (array items)) ≡ ok (or (cons c (cons d cs)))
  unfolding parse_condition finish normalize_or
  parse_condition-or items c d cs e = rw e refl

  mutual
    unfolding condition_to_value parse_condition

    condition-round_trip :
        (c : WhereCondition F)
        → IsCanonical jn c
        → parse_condition {N = N} (condition_to_value c) ≡ ok c
    condition-round_trip (comparison key op) h =
        parse_condition-comparison key (op_to_value op) (comparison key op) h.0 h.1
          (field-round_trip key op h.2)
    condition-round_trip (and nil) h = absurd h
    condition-round_trip (and (cons c nil)) h = absurd h
    condition-round_trip (and (cons c (cons d cs))) h =
        parse_condition-and (conditions_to_values (cons c (cons d cs))) c d cs
          (conditions-round_trip (cons c (cons d cs)) h)
    condition-round_trip (or nil) h = absurd h
    condition-round_trip (or (cons c nil)) h = absurd h
    condition-round_trip (or (cons c (cons d cs))) h =
        parse_condition-or (conditions_to_values (cons c (cons d cs))) c d cs
          (conditions-round_trip (cons c (cons d cs)) h)

    conditions-round_trip :
        (cs : WhereConditions F)
        → AreCanonical jn cs
        → parse_list {N = N} (conditions_to_values cs) ≡ ok cs
    conditions-round_trip nil h = refl
    conditions-round_trip (cons c cs) h =
        rw (condition-round_trip c h.0, conditions-round_trip cs h.1) refl

  -- Printing a filter and parsing the JSON gives the filter again, if no field is named as a
  -- connective, each connective has at least two conditions, and JSON has a number for each float.
  pub from_json_value-condition_to_value :
      (f : WhereFilter F)
      → IsCanonical jn f.condition
      → from_json_value {N = N} (condition_to_value f.condition) ≡ ok f
  unfolding from_json_value
  from_json_value-condition_to_value f h = rw (condition-round_trip f.condition h) refl
