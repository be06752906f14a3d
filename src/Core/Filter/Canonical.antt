-- ===== src/Core/Filter/Canonical.antt =====
-- What the parser of filters gives is canonical.
use rekha.Prelude.{
  ◌≡◌, String, Bool, true, false, Option, none, some, List, str_eq, is_some, Option-cases,
  Bool-cases, inl, inr, if◌then◌else◌,
}
use mathlib.Core.Path.{subst}
use rekha.Core.Types.{MetadataValue}
use rekha.Core.Filter.{
  ComparisonOp, eq, ne, gt, gte, lt, lte, in_list, nin, WhereConditions, nil, cons, WhereFilter,
}
use rekha.Core.Filter.Json.{
  JsonNumber, Json, null, boolean, number, string, array, object, Items, no_items, item, Members,
  no_members, member,
}
use rekha.Core.Filter.Parse.{
  WhereParseError, ParseResult, ok, err, ◌>>=◌, extend, push, metadata_value, number_of,
  metadata_values, value_list, parse_op, parse_ops, parse_field_condition, normalize_list,
  normalize_or, Gathered, is_nil, finish, parse_condition, parse_list, parse_members, parse_array,
  from_json_value,
}
use rekha.Core.Filter.Print.{condition_to_value}
use rekha.Core.Filter.RoundTrip.{
  IsPrintable, ArePrintable, IsPrintableOp, IsCanonical, AreCanonical,
  from_json_value-condition_to_value,
}

-- The predicate holds of what was parsed, if it was.
unfoldable Parsed : {A : Type 0} → (A → Type 0) → ParseResult A → Type 0
Parsed P (ok a) = P a
Parsed P (err e) = Unit

Parsed-bind :
    {A B : Type 0} (P : A → Type 0) (Q : B → Type 0) (m : ParseResult A) (f : A → ParseResult B)
    → Parsed P m
    → ((a : A) → P a → Parsed Q (f a))
    → Parsed Q (m >>= f)
unfolding Parsed
Parsed-bind P Q (ok a) f h k = k a h
Parsed-bind P Q (err e) f h k = tt

Parsed-if :
    {A : Type 0} (P : A → Type 0) (b : Bool) (x y : ParseResult A)
    → Parsed P x
    → Parsed P y
    → Parsed P (if b then x else y)
Parsed-if P true x y h k = h
Parsed-if P false x y h k = k

Parsed-map :
    {A B : Type 0} (P : A → Type 0) (Q : B → Type 0) (m : ParseResult A) (f : A → B)
    → Parsed P m
    → ((a : A) → P a → Q (f a))
    → Parsed Q (m >>= λ a. ok (f a))
unfolding Parsed
Parsed-map P Q (ok a) f h k = k a h
Parsed-map P Q (err e) f h k = tt

Parsed-err : {A : Type 0} (P : A → Type 0) (e : WhereParseError) → Parsed P (err e)
unfolding Parsed
Parsed-err P e = tt

module _ (F N : Type 0) ⦃jn : JsonNumber N F⦄ where
  Finite : F → Type 0
  Finite f = is_some (jn.from_float f) ≡ true

  metadata_value-IsPrintable : (v : Json N) → Parsed (IsPrintable jn) (metadata_value v)
  unfolding Parsed metadata_value
  metadata_value-IsPrintable (string s) = tt
  metadata_value-IsPrintable (boolean b) = tt
  metadata_value-IsPrintable null = tt
  metadata_value-IsPrintable (array items) = tt
  metadata_value-IsPrintable (object map) = tt
  metadata_value-IsPrintable (number n) = elim (Option-cases (jn.as_i64 n)) [
    | inr (i, e) ↦ rw (e, metadata_value) tt
    | inl e ↦ elim (Option-cases (jn.as_f64 n)) [
      | inr (f, e') ↦ rw (e, metadata_value, e', metadata_value) (jn.as_f64-finite n f e')
      | inl e' ↦ rw (e, metadata_value, e', metadata_value) tt
    ]
  ]

  number_of-Finite : (v : Json N) (op : String) → Parsed Finite (number_of v op)
  unfolding Parsed number_of Finite
  number_of-Finite (string s) op = tt
  number_of-Finite (boolean b) op = tt
  number_of-Finite null op = tt
  number_of-Finite (array items) op = tt
  number_of-Finite (object map) op = tt
  number_of-Finite (number n) op = elim (Option-cases (jn.as_f64 n)) [
    | inr (f, e) ↦ rw (e, number_of) (jn.as_f64-finite n f e)
    | inl e ↦ rw (e, number_of) tt
  ]

  metadata_values-ArePrintable : (vs : Items N) → Parsed (ArePrintable jn) (metadata_values vs)
  unfolding Parsed metadata_values
  metadata_values-ArePrintable no_items = tt
  metadata_values-ArePrintable (item v vs) =
      Parsed-bind (IsPrintable jn) _ (metadata_value v) _ (metadata_value-IsPrintable v) (λ x p.
        Parsed-bind (ArePrintable jn) _ (metadata_values vs) _ (metadata_values-ArePrintable vs)
          (λ xs ps. (p, ps)))

  value_list-ArePrintable : (v : Json N) (op : String) → Parsed (ArePrintable jn) (value_list v op)
  unfolding Parsed value_list
  value_list-ArePrintable (string s) op = tt
  value_list-ArePrintable (boolean b) op = tt
  value_list-ArePrintable null op = tt
  value_list-ArePrintable (number n) op = tt
  value_list-ArePrintable (object map) op = tt
  value_list-ArePrintable (array items) op = metadata_values-ArePrintable items

  parse_op-IsPrintableOp : (op : String) (v : Json N) → Parsed (IsPrintableOp jn) (parse_op op v)
  unfolding parse_op Finite
  parse_op-IsPrintableOp op v =
      let of_value =
        λ (f : MetadataValue F → ComparisonOp F)
            (k : (x : MetadataValue F) → IsPrintable jn x → IsPrintableOp jn (f x)).
          Parsed-map (IsPrintable jn) (IsPrintableOp jn) (metadata_value v) f
            (metadata_value-IsPrintable v) k in
      let of_number =
        λ (what : String) (f : F → ComparisonOp F)
            (k : (x : F) → Finite x → IsPrintableOp jn (f x)).
          Parsed-map Finite (IsPrintableOp jn) (number_of v what) f (number_of-Finite v what) k in
      let of_list =
        λ (what : String) (f : List (MetadataValue F) → ComparisonOp F)
            (k : (xs : List (MetadataValue F)) → ArePrintable jn xs → IsPrintableOp jn (f xs)).
          Parsed-map (ArePrintable jn) (IsPrintableOp jn) (value_list v what) f
            (value_list-ArePrintable v what) k in
      Parsed-if _ _ _ _ (of_value eq (λ x p. p)) (
        Parsed-if _ _ _ _ (of_value ne (λ x p. p)) (
          Parsed-if _ _ _ _ (of_number "$gt" gt (λ x p. p)) (
            Parsed-if _ _ _ _ (of_number "$gte" gte (λ x p. p)) (
              Parsed-if _ _ _ _ (of_number "$lt" lt (λ x p. p)) (
                Parsed-if _ _ _ _ (of_number "$lte" lte (λ x p. p)) (
                  Parsed-if _ _ _ _ (of_list "$in" in_list (λ x p. p))
                    (Parsed-if _ _ _ _ (of_list "$nin" nin (λ x p. p)) (Parsed-err _ _))))))))

  parse_ops-AreCanonical :
      (key : String) (ops : Members N)
      → str_eq key "$and" ≡ false
      → str_eq key "$or" ≡ false
      → Parsed (AreCanonical jn) (parse_ops key ops)
  unfolding Parsed parse_ops
  parse_ops-AreCanonical key no_members not_and not_or = tt
  parse_ops-AreCanonical key (member op v ops) not_and not_or =
      Parsed-bind (IsPrintableOp jn) _ (parse_op op v) _ (parse_op-IsPrintableOp op v) (λ o p.
        Parsed-bind (AreCanonical jn) _ (parse_ops key ops) _
          (parse_ops-AreCanonical key ops not_and not_or) (λ cs ps. ((not_and, not_or, p), ps)))

  normalize_list-IsCanonical :
      (cs : WhereConditions F) (what : String)
      → AreCanonical jn cs
      → Parsed (IsCanonical jn) (normalize_list cs what)
  unfolding Parsed normalize_list
  normalize_list-IsCanonical nil what h = tt
  normalize_list-IsCanonical (cons c nil) what h = h.0
  normalize_list-IsCanonical (cons c (cons d cs)) what h = h

  normalize_or-IsCanonical :
      (cs : WhereConditions F) → AreCanonical jn cs → Parsed (IsCanonical jn) (normalize_or cs)
  unfolding Parsed normalize_or
  normalize_or-IsCanonical nil h = tt
  normalize_or-IsCanonical (cons c nil) h = h.0
  normalize_or-IsCanonical (cons c (cons d cs)) h = h

  parse_field_condition-IsCanonical :
      (key : String) (v : Json N)
      → str_eq key "$and" ≡ false
      → str_eq key "$or" ≡ false
      → Parsed (IsCanonical jn) (parse_field_condition key v)
  unfolding Parsed parse_field_condition
  parse_field_condition-IsCanonical key (object no_members) not_and not_or = tt
  parse_field_condition-IsCanonical key (object (member op v ops)) not_and not_or =
      Parsed-bind (AreCanonical jn) _ (parse_ops key (member op v ops)) _
        (parse_ops-AreCanonical key (member op v ops) not_and not_or)
        (λ cs h. normalize_list-IsCanonical cs "operator" h)
  parse_field_condition-IsCanonical key (string s) not_and not_or = (not_and, not_or, tt)
  parse_field_condition-IsCanonical key (boolean b) not_and not_or = (not_and, not_or, tt)
  parse_field_condition-IsCanonical key null not_and not_or = tt
  parse_field_condition-IsCanonical key (array items) not_and not_or = tt
  parse_field_condition-IsCanonical key (number n) not_and not_or =
      Parsed-bind (IsPrintable jn) _ (metadata_value (number n)) _
        (metadata_value-IsPrintable (number n)) (λ x p. (not_and, not_or, p))

  AreCanonical-extend :
      (cs ds : WhereConditions F)
      → AreCanonical jn cs
      → AreCanonical jn ds
      → AreCanonical jn (extend cs ds)
  AreCanonical-extend nil ds h k = k
  AreCanonical-extend (cons c cs) ds h k = (h.0, AreCanonical-extend cs ds h.1 k)

  abbrev IsCanonicalList : Option (ParseResult (WhereConditions F)) → Type 0
  IsCanonicalList none = Unit
  IsCanonicalList (some r) = Parsed (AreCanonical jn) r

  record IsGathered (g : Gathered F) : Type 0 where
    fields : AreCanonical jn g.fields
    explicit_and : IsCanonicalList g.explicit_and
    explicit_or : IsCanonicalList g.explicit_or

  finish_options :
      (cs : WhereConditions F) (a o : Option (ParseResult (WhereConditions F)))
      → AreCanonical jn cs
      → IsCanonicalList a
      → IsCanonicalList o
      → Parsed (IsCanonical jn) (finish (record { fields = cs; explicit_and = a; explicit_or = o }))
  unfolding Parsed finish
  finish_options cs none none h k l = normalize_list-IsCanonical cs "field" h
  finish_options cs (some r) none h k l =
      Parsed-bind (AreCanonical jn) _ r _ k
        (λ ds m. normalize_list-IsCanonical (extend ds cs) "$and" (AreCanonical-extend ds cs m h))
  finish_options cs (some r) (some r') h k l = tt
  finish_options cs none (some r) h k l =
      Parsed-if _ (is_nil cs) (r >>= λ ds. normalize_or ds) _
        (Parsed-bind (AreCanonical jn) _ r _ l (λ ds m. normalize_or-IsCanonical ds m)) tt

  mutual
    unfolding parse_condition Parsed

    condition-IsCanonical : (v : Json N) → Parsed (IsCanonical jn) (parse_condition v)
    condition-IsCanonical (object map) =
        Parsed-bind IsGathered (IsCanonical jn) (parse_members map _) _
          (members-IsGathered map (record { fields = nil; explicit_and = none; explicit_or = none })
            (record { fields = tt; explicit_and = tt; explicit_or = tt }))
          (λ g h.
            finish_options g.fields g.explicit_and g.explicit_or h.fields h.explicit_and
              h.explicit_or)
    condition-IsCanonical null = tt
    condition-IsCanonical (boolean b) = tt
    condition-IsCanonical (number n) = tt
    condition-IsCanonical (string s) = tt
    condition-IsCanonical (array items) = tt

    list-AreCanonical : (vs : Items N) → Parsed (AreCanonical jn) (parse_list vs)
    list-AreCanonical no_items = tt
    list-AreCanonical (item v vs) =
        Parsed-bind (IsCanonical jn) _ (parse_condition v) _ (condition-IsCanonical v) (λ c p.
          Parsed-bind (AreCanonical jn) _ (parse_list vs) _ (list-AreCanonical vs)
            (λ cs ps. (p, ps)))

    array-AreCanonical :
        (v : Json N) (op : String) → Parsed (λ r. Parsed (AreCanonical jn) r) (parse_array v op)
    array-AreCanonical (array items) op = list-AreCanonical items
    array-AreCanonical null op = tt
    array-AreCanonical (boolean b) op = tt
    array-AreCanonical (number n) op = tt
    array-AreCanonical (string s) op = tt
    array-AreCanonical (object map) op = tt

    members-IsGathered :
        (map : Members N) (g : Gathered F) → IsGathered g → Parsed IsGathered (parse_members map g)
    members-IsGathered no_members g h = h
    members-IsGathered (member key v map) g h =
        let rest = λ (g' : Gathered F) (k : IsGathered g'). members-IsGathered map g' k in
        let and_array = array-AreCanonical v "$and" in
        let or_array = array-AreCanonical v "$or" in
        elim (Bool-cases (str_eq key "$and")) [
          | inl is_and ↦ rw is_and (
              Parsed-bind (λ r. Parsed (AreCanonical jn) r) IsGathered (parse_array v "$and") _
                and_array
                (λ r p.
                  rest (record g { explicit_and = some r })
                    (record { fields = h.fields; explicit_and = p; explicit_or = h.explicit_or })))
          | inr not_and ↦ elim (Bool-cases (str_eq key "$or")) [
            | inl is_or ↦
                rw (not_and, is_or)
                  (Parsed-bind (λ r. Parsed (AreCanonical jn) r) IsGathered (parse_array v "$or") _
                    or_array
                    (λ r p.
                      rest (record g { explicit_or = some r })
                        (record {
                          fields = h.fields;
                          explicit_and = h.explicit_and;
                          explicit_or = p;
                        })))
            | inr not_or ↦
                rw (not_and, not_or)
                  (Parsed-bind (IsCanonical jn) IsGathered (parse_field_condition key v) _
                    (parse_field_condition-IsCanonical key v not_and not_or)
                    (λ c p.
                      rest (record g { fields = push g.fields c })
                        (record {
                          fields = AreCanonical-extend g.fields (cons c nil) h.fields (p, tt);
                          explicit_and = h.explicit_and;
                          explicit_or = h.explicit_or;
                        })))
          ]
        ]

  -- A filter that the parser accepts in any form is printed to JSON that the parser reads as the
  -- same filter.
  pub from_json_value-canonical :
      (v : Json N) (f : WhereFilter F)
      → from_json_value v ≡ ok f
      → from_json_value {N = N} (condition_to_value f.condition) ≡ ok f
  unfolding Parsed from_json_value
  from_json_value-canonical v f h =
      let whole : Parsed (λ g. IsCanonical jn g.condition) (from_json_value v) =
        Parsed-map (IsCanonical jn) (λ g. IsCanonical jn g.condition) (parse_condition v)
          (λ c. record { condition = c }) (condition-IsCanonical v) (λ c p. p) in
      from_json_value-condition_to_value N f
        (subst (Parsed (λ g. IsCanonical jn g.condition)) h whole)
