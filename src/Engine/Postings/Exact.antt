-- ===== src/Engine/Postings/Exact.antt =====
-- The filters and the records on which `Postings` of crates/rekha-engine/src/postings.rs and
-- `WhereFilter::matches` of crates/rekha-core/src/filter.rs compare values alike.
use rekha.Prelude.{
  ◌≡◌, refl, String, Bool, true, false, not, ◌&&◌, Option, none, some, List, [], ◌∷◌, arith,
  is_some_and, any,
}
use rekha.Prelude.Dict.{string_eqv, get}
use rekha.Core.Types.{Floats, MetadataValue, str, bool, int, float, as_f64, Metadata, is_exact}
use rekha.Core.Filter.{
  ComparisonOp, eq, ne, gt, gte, lt, lte, in_list, nin, WhereCondition, comparison, and, or,
  WhereConditions, nil, cons, WhereFilter, values_equal, numeric, match_op, matches,
}
use rekha.Engine.ValueKey.{OrderedFloats, ValueKey, from_value, value_key_eqv, value_key_eq}
use rekha.Engine.Postings.{Bound, included, excluded, unbounded, above, below}
use rekha.Engine.Postings.Represents.{value_at}

module _ {F : Type 0} ⦃fl : Floats F⦄ where
  -- Integers of at most 53 bits and floats that are no NaN: what `f64` compares as `==` does.
  abbrev pub IsExact : MetadataValue F → Type 0
  IsExact (int i) = is_exact i ≡ true
  IsExact (float f) = fl.is_nan f ≡ false
  IsExact _ = Unit

  abbrev pub AllExact : List (MetadataValue F) → Type 0
  AllExact [] = Unit
  AllExact (v ∷ vs) = IsExact v × AllExact vs

  abbrev pub OpIsExact : ComparisonOp F → Type 0
  OpIsExact (eq v) = IsExact v
  OpIsExact (ne v) = IsExact v
  OpIsExact (gt n) = fl.is_nan n ≡ false
  OpIsExact (gte n) = fl.is_nan n ≡ false
  OpIsExact (lt n) = fl.is_nan n ≡ false
  OpIsExact (lte n) = fl.is_nan n ≡ false
  OpIsExact (in_list vs) = AllExact vs
  OpIsExact (nin vs) = AllExact vs

  abbrev mutual
    pub CondIsExact : WhereCondition F → Type 0
    CondIsExact (comparison key op) = OpIsExact op
    CondIsExact (and cs) = CondsAreExact cs
    CondIsExact (or cs) = CondsAreExact cs

    pub CondsAreExact : WhereConditions F → Type 0
    CondsAreExact nil = Unit
    CondsAreExact (cons c cs) = CondIsExact c × CondsAreExact cs

  -- Every value of the record is exact.
  abbrev pub DocIsExact : Option (Option (Metadata F)) → Type 0
  DocIsExact d = (key : String) (v : MetadataValue F) → value_at d key ≡ some v → IsExact v

  -- The oracle on an indexed record: one without metadata is matched against the empty map.
  abbrev pub eligible : WhereFilter F → Option (Option (Metadata F)) → Bool
  eligible f none = false
  eligible f (some none) = matches f []
  eligible f (some (some m)) = matches f m

abbrev pub metadata_of : {F : Type 0} → Option (Option (Metadata F)) → Metadata F
metadata_of none = []
metadata_of (some none) = []
metadata_of (some (some m)) = m

module _ {F : Type 0} ⦃fl : Floats F⦄ ⦃of : OrderedFloats fl⦄ where
  pub key-values_equal :
      (a v : MetadataValue F)
      → IsExact a
      → IsExact v
      → value_key_eq (from_value a) (from_value v) ≡ values_equal a v
  unfolding from_value values_equal
  key-values_equal (int x) (int y) h k = ground (
    arith,
    of.key-feq (fl.of_int x) (fl.of_int y),
    fl.is_nan-of_int x,
    fl.is_nan-of_int y,
    fl.feq-of_int x y,
  )
  key-values_equal (int x) (float y) h k =
      ground (arith, of.key-feq (fl.of_int x) y, fl.is_nan-of_int x)
  key-values_equal (float x) (int y) h k =
      ground (arith, of.key-feq x (fl.of_int y), fl.is_nan-of_int y)
  key-values_equal (float x) (float y) h k = of.key-feq x y h k
  key-values_equal (str x) v h k = ground arith
  key-values_equal (bool x) v h k = ground arith
  key-values_equal _ _ h k = refl

  -- What a comparison says of the value at its key.
  abbrev pub match_value : ComparisonOp F → Option (MetadataValue F) → Bool
  match_value (eq v) o = is_some_and o (λ a. values_equal a v)
  match_value (ne v) o = is_some_and o (λ a. not (values_equal a v))
  match_value (gt n) o = is_some_and o (λ a. is_some_and (as_f64 a) (λ x. fl.flt n x))
  match_value (gte n) o = is_some_and o (λ a. is_some_and (as_f64 a) (λ x. fl.fle n x))
  match_value (lt n) o = is_some_and o (λ a. is_some_and (as_f64 a) (λ x. fl.flt x n))
  match_value (lte n) o = is_some_and o (λ a. is_some_and (as_f64 a) (λ x. fl.fle x n))
  match_value (in_list vs) o = is_some_and o (λ a. any (λ v. values_equal a v) vs)
  match_value (nin vs) o = not (is_some_and o (λ a. any (λ v. values_equal a v) vs))

  pub match_op-match_value :
      (key : String) (op : ComparisonOp F) (m : Metadata F)
      → match_op key op m ≡ match_value op (get m key)
  unfolding match_op numeric
  match_op-match_value key (eq v) m = refl
  match_op-match_value key (ne v) m = refl
  match_op-match_value key (gt n) m = ground arith
  match_op-match_value key (gte n) m = ground arith
  match_op-match_value key (lt n) m = ground arith
  match_op-match_value key (lte n) m = ground arith
  match_op-match_value key (in_list vs) m = refl
  match_op-match_value key (nin vs) m = ground arith

  -- The numeric value at a key, as the range scans see it.
  abbrev pub num_at : Option (MetadataValue F) → Option F
  num_at none = none
  num_at (some v) = as_f64 v

  pub as_f64-exact :
      (v : MetadataValue F) (x : F) → IsExact v → as_f64 v ≡ some x → fl.is_nan x ≡ false
  unfolding as_f64
  as_f64-exact (int i) x h e = ground (arith, fl.is_nan-of_int i)
  as_f64-exact (float f) x h e = ground arith
  as_f64-exact _ x h e = cc

  abbrev pub key_at : Option (MetadataValue F) → Option (ValueKey F)
  key_at none = none
  key_at (some v) = some (from_value v)

  pub above_respects : (b : Bound F) (x y : F) → of.key.beq x y ≡ true → above b x ≡ above b y
  above_respects (included n) x y h = of.key_le-right x y n h
  above_respects (excluded n) x y h = of.key_lt-right x y n h
  above_respects unbounded x y h = refl

  pub below_respects : (b : Bound F) (x y : F) → of.key.beq x y ≡ true → below b x ≡ below b y
  below_respects (included n) x y h = of.key_le-left x y n h
  below_respects (excluded n) x y h = of.key_lt-left x y n h
  below_respects unbounded x y h = refl

  pub range_respects :
      (lo hi : Bound F) (x y : F)
      → of.key.beq x y ≡ true
      → (above lo x && below hi x) ≡ (above lo y && below hi y)
  range_respects lo hi x y h = cc (above_respects lo x y h, below_respects hi x y h)
