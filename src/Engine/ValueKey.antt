-- ===== src/Engine/ValueKey.antt =====
-- `ValueKey` of crates/rekha-engine/src/postings.rs, and the `OrderedFloat` of the crate
-- `ordered_float` in it: an order on all floats that agrees with `==`, `<` and `<=` except at NaN.
use rekha.Prelude.{◌≡◌, String, Bool, true, false, str_eq, eq_refl, arith}
use rekha.Prelude.Dict.{Eqv, str_eq_sym, str_eq_trans}
use rekha.Core.Types.{Floats, MetadataValue}
use rekha.Core.Filter.{bool_eq}

pub record OrderedFloats {F : Type 0} (fl : Floats F) : Type 0 where
  pub key : Eqv F
  pub key_lt : F → F → Bool
  pub key_le : F → F → Bool
  pub key-feq : (a b : F) → fl.is_nan a ≡ false → fl.is_nan b ≡ false → key.beq a b ≡ fl.feq a b
  pub key_lt-flt : (a b : F) → fl.is_nan a ≡ false → fl.is_nan b ≡ false → key_lt a b ≡ fl.flt a b
  pub key_le-fle : (a b : F) → fl.is_nan a ≡ false → fl.is_nan b ≡ false → key_le a b ≡ fl.fle a b
  pub key-of_feq : (a b : F) → fl.feq a b ≡ true → key.beq a b ≡ true
  pub key_lt-left : (a b c : F) → key.beq a b ≡ true → key_lt a c ≡ key_lt b c
  pub key_lt-right : (a b c : F) → key.beq a b ≡ true → key_lt c a ≡ key_lt c b
  pub key_le-left : (a b c : F) → key.beq a b ≡ true → key_le a c ≡ key_le b c
  pub key_le-right : (a b c : F) → key.beq a b ≡ true → key_le c a ≡ key_le c b

-- ValueKey
pub data ValueKey (F : Type 0) : Type 0 where
  str : String → ValueKey F
  bool : Bool → ValueKey F
  num : F → ValueKey F

-- ValueKey::from_value
unfoldable pub from_value : {F : Type 0} ⦃fl : Floats F⦄ → MetadataValue F → ValueKey F
from_value (MetadataValue.str s) = ValueKey.str s
from_value (MetadataValue.bool b) = ValueKey.bool b
from_value ⦃fl⦄ (MetadataValue.int i) = num (fl.of_int i)
from_value (MetadataValue.float f) = num f

module _ {F : Type 0} ⦃fl : Floats F⦄ ⦃of : OrderedFloats fl⦄ where
  -- the derived `PartialEq`
  abbrev pub value_key_eq : ValueKey F → ValueKey F → Bool
  value_key_eq (ValueKey.str s) (ValueKey.str t) = str_eq s t
  value_key_eq (ValueKey.bool b) (ValueKey.bool c) = bool_eq b c
  value_key_eq (num f) (num g) = of.key.beq f g
  value_key_eq _ _ = false

  pub value_key_eq_refl : (a : ValueKey F) → value_key_eq a a ≡ true
  value_key_eq_refl (ValueKey.str s) = eq_refl s
  value_key_eq_refl (ValueKey.bool b) = ground arith
  value_key_eq_refl (num f) = of.key.beq_refl f

  pub value_key_eq_sym : (a b : ValueKey F) → value_key_eq a b ≡ true → value_key_eq b a ≡ true
  value_key_eq_sym (ValueKey.str s) (ValueKey.str t) h = str_eq_sym s t h
  value_key_eq_sym (ValueKey.bool b) (ValueKey.bool c) h = ground arith
  value_key_eq_sym (num f) (num g) h = of.key.beq_sym f g h
  value_key_eq_sym _ _ h = cc

  pub value_key_eq_trans :
      (a b c : ValueKey F)
      → value_key_eq a b ≡ true
      → value_key_eq b c ≡ true
      → value_key_eq a c ≡ true
  value_key_eq_trans (ValueKey.str s) (ValueKey.str t) (ValueKey.str u) h k = str_eq_trans s t u h k
  value_key_eq_trans (ValueKey.bool b) (ValueKey.bool c) (ValueKey.bool d) h k = ground arith
  value_key_eq_trans (num f) (num g) (num i) h k = of.key.beq_trans f g i h k
  value_key_eq_trans _ _ _ h k = cc

  instance abbrev pub value_key_eqv : Eqv (ValueKey F)
  value_key_eqv = record {
    beq = value_key_eq;
    beq_refl = value_key_eq_refl;
    beq_sym = value_key_eq_sym;
    beq_trans = value_key_eq_trans;
  }
