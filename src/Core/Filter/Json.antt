-- ===== src/Core/Filter/Json.antt =====
-- The JSON values of crates/rekha-core/src/filter.rs. They are those of serde_json, which is not
-- part of the program; its numbers are an interface.
use rekha.Prelude.{String, Bool, Option, some, none, ◌≡◌, is_some, true}
use rekha.Prelude.Int.{ℤ}

-- serde_json::Number: `from_float` gives no number for a float that is not finite.
pub record JsonNumber (N F : Type 0) : Type 0 where
  pub as_i64 : N → Option ℤ
  pub as_f64 : N → Option F
  pub from_int : ℤ → N
  pub from_float : F → Option N
  pub as_i64-from_int : (i : ℤ) → as_i64 (from_int i) ≡ some i
  pub as_i64-from_float : (f : F) (n : N) → from_float f ≡ some n → as_i64 n ≡ none
  pub as_f64-from_float : (f : F) (n : N) → from_float f ≡ some n → as_f64 n ≡ some f
  pub as_f64-finite : (n : N) (f : F) → as_f64 n ≡ some f → is_some (from_float f) ≡ true

-- serde_json::Value, with its arrays, and its objects in the order of an iteration
mutual
  pub data Json (N : Type 0) : Type 0 where
    null : Json N
    boolean : Bool → Json N
    number : N → Json N
    string : String → Json N
    array : Items N → Json N
    object : Members N → Json N

  pub data Items (N : Type 0) : Type 0 where
    no_items : Items N
    item : Json N → Items N → Items N

  pub data Members (N : Type 0) : Type 0 where
    no_members : Members N
    member : String → Json N → Members N → Members N
