-- ===== src/Core/Types.antt =====
-- crates/rekha-core/src/types.rs: metadata values and distance spaces. A float is an element of
-- a type `F` with the comparisons of IEEE 754, since there are no floats to compute with.
use rekha.Prelude.{
  suc, ◌≡◌, String, Bool, true, false, Option, none, some, str_eq, leb, if◌then◌else◌,
}
use rekha.Prelude.Dict.{Dict}
use rekha.Prelude.Int.{ℤ, pos, negsuc, eq_ℤ}

-- Every integer of at most 53 bits is a float, so equality of such integers survives `as f64`.
abbrev pub is_exact : ℤ → Bool
is_exact (pos n) = leb n 0x20_0000_0000_0000
is_exact (negsuc n) = leb (suc n) 0x20_0000_0000_0000

-- f64 with `==`, `<`, `<=`, `is_nan` and the conversion `i as f64`, and what IEEE 754 says of
-- them; a NaN differs from itself.
pub record Floats (F : Type 0) : Type 0 where
  pub of_int : ℤ → F
  pub feq : F → F → Bool
  pub flt : F → F → Bool
  pub fle : F → F → Bool
  pub is_nan : F → Bool
  pub is_nan-of_int : (i : ℤ) → is_nan (of_int i) ≡ false
  pub feq-of_int :
      (i j : ℤ) → is_exact i ≡ true → is_exact j ≡ true → feq (of_int i) (of_int j) ≡ eq_ℤ i j

-- MetadataValue
pub data MetadataValue (F : Type 0) : Type 0 where
  str : String → MetadataValue F
  bool : Bool → MetadataValue F
  int : ℤ → MetadataValue F
  float : F → MetadataValue F

-- MetadataValue::as_f64
unfoldable pub as_f64 : {F : Type 0} ⦃fl : Floats F⦄ → MetadataValue F → Option F
as_f64 ⦃fl⦄ (int i) = some (fl.of_int i)
as_f64 (float f) = some f
as_f64 _ = none

-- Metadata
abbrev pub Metadata : Type 0 → Type 0
Metadata F = Dict String (MetadataValue F)

-- Distance
pub data Distance : Type 0 where
  l2 cosine ip : Distance

-- Distance::name
unfoldable pub name : Distance → String
name l2 = "l2"
name cosine = "cosine"
name ip = "ip"

-- Distance::from_str, with `to_ascii_lowercase` of the standard library as an argument.
unfoldable pub distance_from_str : (String → String) → String → Option Distance
distance_from_str lower s =
    if str_eq (lower s) "l2"
    then some l2
    else if str_eq (lower s) "cosine"
    then some cosine
    else if str_eq (lower s) "ip"
    then some ip
    else none
