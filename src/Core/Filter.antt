-- ===== src/Core/Filter.antt =====
-- crates/rekha-core/src/filter.rs: `where` filters and their evaluation against metadata.
pub mod Json
pub mod Parse
pub mod Print
pub mod RoundTrip
pub mod Canonical
use rekha.Prelude.{
  String, Bool, true, false, not, ◌&&◌, ◌||◌, Option, none, some, List, str_eq, any, is_some_and,
}
use rekha.Prelude.Dict.{string_eqv, get}
use rekha.Prelude.Int.{eq_ℤ}
use rekha.Core.Types.{Floats, MetadataValue, str, bool, int, float, as_f64, Metadata}

-- ComparisonOp
pub data ComparisonOp (F : Type 0) : Type 0 where
  eq : MetadataValue F → ComparisonOp F
  ne : MetadataValue F → ComparisonOp F
  gt : F → ComparisonOp F
  gte : F → ComparisonOp F
  lt : F → ComparisonOp F
  lte : F → ComparisonOp F
  in_list : List (MetadataValue F) → ComparisonOp F
  nin : List (MetadataValue F) → ComparisonOp F

-- WhereCondition, with the lists that it holds
mutual
  pub data WhereCondition (F : Type 0) : Type 0 where
    comparison : String → ComparisonOp F → WhereCondition F
    and : WhereConditions F → WhereCondition F
    or : WhereConditions F → WhereCondition F

  pub data WhereConditions (F : Type 0) : Type 0 where
    nil : WhereConditions F
    cons : WhereCondition F → WhereConditions F → WhereConditions F

-- WhereFilter
pub record WhereFilter (F : Type 0) : Type 0 where
  pub condition : WhereCondition F

abbrev pub bool_eq : Bool → Bool → Bool
bool_eq true true = true
bool_eq false false = true
bool_eq _ _ = false

module _ {F : Type 0} ⦃fl : Floats F⦄ where
  unfoldable pub values_equal : MetadataValue F → MetadataValue F → Bool
  values_equal (str x) (str y) = str_eq x y
  values_equal (bool x) (bool y) = bool_eq x y
  values_equal (int x) (int y) = eq_ℤ x y
  values_equal (float x) (float y) = fl.feq x y
  values_equal (int x) (float y) = fl.feq (fl.of_int x) y
  values_equal (float x) (int y) = fl.feq x (fl.of_int y)
  values_equal _ _ = false

  unfoldable pub numeric : Metadata F → String → Option F
  unfolding as_f64
  numeric metadata key = elim (get metadata key) [ none ↦ none | some v ↦ as_f64 v ]

  unfoldable pub match_op : String → ComparisonOp F → Metadata F → Bool
  unfolding values_equal numeric
  match_op key (eq v) metadata = is_some_and (get metadata key) (λ actual. values_equal actual v)
  match_op key (ne v) metadata =
      is_some_and (get metadata key) (λ actual. not (values_equal actual v))
  match_op key (gt n) metadata = is_some_and (numeric metadata key) (λ actual. fl.flt n actual)
  match_op key (gte n) metadata = is_some_and (numeric metadata key) (λ actual. fl.fle n actual)
  match_op key (lt n) metadata = is_some_and (numeric metadata key) (λ actual. fl.flt actual n)
  match_op key (lte n) metadata = is_some_and (numeric metadata key) (λ actual. fl.fle actual n)
  match_op key (in_list vs) metadata =
      is_some_and (get metadata key) (λ actual. any (λ v. values_equal actual v) vs)
  match_op key (nin vs) metadata = elim (get metadata key) [
    | none ↦ true
    | some actual ↦ not (any (λ v. values_equal actual v) vs)
  ]

  -- `match_condition`, with `all` and `any` over the sub-conditions
  unfoldable mutual
    pub match_condition : WhereCondition F → Metadata F → Bool
    match_condition (comparison key op) metadata = match_op key op metadata
    match_condition (and conds) metadata = all_match conds metadata
    match_condition (or conds) metadata = any_match conds metadata

    pub all_match : WhereConditions F → Metadata F → Bool
    all_match nil metadata = true
    all_match (cons c cs) metadata = match_condition c metadata && all_match cs metadata

    pub any_match : WhereConditions F → Metadata F → Bool
    any_match nil metadata = false
    any_match (cons c cs) metadata = match_condition c metadata || any_match cs metadata

  -- WhereFilter::matches
  unfoldable pub matches : WhereFilter F → Metadata F → Bool
  matches f metadata = match_condition f.condition metadata
