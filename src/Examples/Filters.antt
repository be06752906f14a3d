-- ===== src/Examples/Filters.antt =====
-- The theorems on the JSON form of filters, at a small filter.
use rekha.Prelude.{◌≡◌, refl, true, Option, none, some, [], ◌∷◌, is_some, arith}
use rekha.Prelude.Int.{ℤ, pos}
use rekha.Core.Types.{str, int}
use rekha.Core.Filter.{eq, gt, in_list, comparison, and, or, nil, cons, WhereFilter}
use rekha.Core.Filter.Json.{JsonNumber, Json, number, string, object, no_members, member}
use rekha.Core.Filter.Parse.{
  ok, err, empty_list, from_json_value, parse_condition, parse_field_condition, metadata_value,
  normalize_list, finish,
}
use rekha.Core.Filter.Print.{condition_to_value}
use rekha.Core.Filter.Canonical.{from_json_value-canonical}
use rekha.Examples.Floats.{Float, nan, num}

-- a JSON number: an integer, or a finite float
data Number : Type 0 where
  whole : ℤ → Number
  real : ℤ → Number

abbrev as_i64 : Number → Option ℤ
as_i64 (whole i) = some i
as_i64 (real f) = none

abbrev as_f64 : Number → Option Float
as_f64 (whole i) = some (num i)
as_f64 (real f) = some (num f)

abbrev from_float : Float → Option Number
from_float nan = none
from_float (num f) = some (real f)

as_i64-from_float : (f : Float) (n : Number) → from_float f ≡ some n → as_i64 n ≡ none
as_i64-from_float nan n h = ground arith
as_i64-from_float (num f) n h = ground arith

as_f64-from_float : (f : Float) (n : Number) → from_float f ≡ some n → as_f64 n ≡ some f
as_f64-from_float nan n h = ground arith
as_f64-from_float (num f) n h = ground arith

as_f64-finite : (n : Number) (f : Float) → as_f64 n ≡ some f → is_some (from_float f) ≡ true
as_f64-finite (whole i) f h = ground arith
as_f64-finite (real g) f h = ground arith

instance abbrev numbers : JsonNumber Number Float
numbers = record {
  as_i64 = as_i64;
  as_f64 = as_f64;
  from_int = whole;
  from_float = from_float;
  as_i64-from_int = λ i. refl;
  as_i64-from_float = as_i64-from_float;
  as_f64-from_float = as_f64-from_float;
  as_f64-finite = as_f64-finite;
}

-- {"$or": [{"score": {"$gt": 3}}, {"tag": {"$in": ["a"]}}]}
abbrev two : WhereFilter Float
two = record {
  condition = or (
      cons (comparison "score" (gt (num (pos 3))))
        (cons (comparison "tag" (in_list (str "a" ∷ []))) nil));
}

-- {"score": 5, "tag": "a"}
abbrev shorthand : Json Number
shorthand = object (member "score" (number (whole (pos 5))) (member "tag" (string "a") no_members))

abbrev both : WhereFilter Float
both = record {
  condition =
      and
        (cons (comparison "score" (eq (int (pos 5)))) (cons (comparison "tag" (eq (str "a"))) nil));
}

shorthand-both : from_json_value shorthand ≡ ok both
unfolding from_json_value parse_condition parse_field_condition metadata_value finish normalize_list
shorthand-both = refl

from_json_value-canonical_example :
    from_json_value {N = Number} (condition_to_value both.condition) ≡ ok both
from_json_value-canonical_example =
    from_json_value-canonical Float Number shorthand both shorthand-both

-- The empty object is refused as an empty list of fields.
empty_object :
    from_json_value {N = Number} {F = Float} (object no_members) ≡ err (empty_list "field")
unfolding from_json_value parse_condition finish normalize_list
empty_object = refl
