-- ===== src/Examples/Floats.antt =====
-- Floats of this program's interface: integers of at most 53 bits, larger ones rounded to the
-- largest, and a NaN.
use rekha.Prelude.{◌≡◌, Bool, true, false, leb, ltb, if◌then◌else◌, arith}
use rekha.Prelude.Int.{ℤ, pos, negsuc, eq_ℤ}
use rekha.Core.Types.{Floats, is_exact}
use rekha.Engine.ValueKey.{OrderedFloats}

pub data Float : Type 0 where
  nan : Float
  num : ℤ → Float

abbrev pub round : ℤ → Float
round (pos n) = if leb n 0x20_0000_0000_0000 then num (pos n) else num (pos 0x20_0000_0000_0000)
round (negsuc n) =
    if leb n 0x1f_ffff_ffff_ffff then num (negsuc n) else num (negsuc 0x1f_ffff_ffff_ffff)

abbrev le_ℤ : ℤ → ℤ → Bool
le_ℤ (pos a) (pos b) = leb a b
le_ℤ (pos a) (negsuc b) = false
le_ℤ (negsuc a) (pos b) = true
le_ℤ (negsuc a) (negsuc b) = leb b a

abbrev lt_ℤ : ℤ → ℤ → Bool
lt_ℤ (pos a) (pos b) = ltb a b
lt_ℤ (pos a) (negsuc b) = false
lt_ℤ (negsuc a) (pos b) = true
lt_ℤ (negsuc a) (negsuc b) = ltb b a

abbrev feq : Float → Float → Bool
feq (num a) (num b) = eq_ℤ a b
feq _ _ = false

abbrev flt : Float → Float → Bool
flt (num a) (num b) = lt_ℤ a b
flt _ _ = false

abbrev fle : Float → Float → Bool
fle (num a) (num b) = le_ℤ a b
fle _ _ = false

abbrev is_nan : Float → Bool
is_nan nan = true
is_nan (num a) = false

pub is_nan-round : (i : ℤ) → is_nan (round i) ≡ false
is_nan-round i = ground arith

pub feq-round :
    (i j : ℤ) → is_exact i ≡ true → is_exact j ≡ true → feq (round i) (round j) ≡ eq_ℤ i j
feq-round (pos a) j h k = ground arith
feq-round (negsuc a) j h k = ground arith

instance abbrev pub floats : Floats Float
floats = record {
  of_int = round;
  feq = feq;
  flt = flt;
  fle = fle;
  is_nan = is_nan;
  is_nan-of_int = is_nan-round;
  feq-of_int = feq-round;
}

-- `OrderedFloat`: a NaN equals itself and is above all numbers.
abbrev key_eq : Float → Float → Bool
key_eq nan nan = true
key_eq (num a) (num b) = eq_ℤ a b
key_eq _ _ = false

abbrev key_lt : Float → Float → Bool
key_lt nan b = false
key_lt (num a) nan = true
key_lt (num a) (num b) = lt_ℤ a b

abbrev key_le : Float → Float → Bool
key_le a nan = true
key_le nan (num b) = false
key_le (num a) (num b) = le_ℤ a b

pub key_eq_refl : (a : Float) → key_eq a a ≡ true
key_eq_refl a = ground arith

pub key_eq_sym : (a b : Float) → key_eq a b ≡ true → key_eq b a ≡ true
key_eq_sym a b h = ground arith

pub key_eq_iff : (a b : Float) → key_eq a b ≡ true → a ≡ b
key_eq_iff a b h = ground arith

pub key_eq_trans : (a b c : Float) → key_eq a b ≡ true → key_eq b c ≡ true → key_eq a c ≡ true
key_eq_trans a b c h k = rw (key_eq_iff a b h) k

pub key-feq : (a b : Float) → is_nan a ≡ false → is_nan b ≡ false → key_eq a b ≡ feq a b
key-feq a b h k = ground arith

pub key_lt-flt : (a b : Float) → is_nan a ≡ false → is_nan b ≡ false → key_lt a b ≡ flt a b
key_lt-flt a b h k = ground arith

pub key_le-fle : (a b : Float) → is_nan a ≡ false → is_nan b ≡ false → key_le a b ≡ fle a b
key_le-fle a b h k = ground arith

pub key-of_feq : (a b : Float) → feq a b ≡ true → key_eq a b ≡ true
key-of_feq a b h = ground arith

instance abbrev pub ordered_floats : OrderedFloats floats
ordered_floats = record {
  key = record {
    beq = key_eq;
    beq_refl = key_eq_refl;
    beq_sym = key_eq_sym;
    beq_trans = key_eq_trans;
  };
  key_lt = key_lt;
  key_le = key_le;
  key-feq = key-feq;
  key_lt-flt = key_lt-flt;
  key_le-fle = key_le-fle;
  key-of_feq = key-of_feq;
  key_lt-left = λ a b c h. rw (key_eq_iff a b h);
  key_lt-right = λ a b c h. rw (key_eq_iff a b h);
  key_le-left = λ a b c h. rw (key_eq_iff a b h);
  key_le-right = λ a b c h. rw (key_eq_iff a b h);
}
