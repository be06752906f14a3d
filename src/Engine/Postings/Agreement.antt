-- ===== src/Engine/Postings/Agreement.antt =====
-- The semantics contract of crates/rekha-engine/src/postings.rs: `Postings::evaluate` agrees with
-- `WhereFilter::matches` of crates/rekha-core/src/filter.rs.
use rekha.Prelude.{
  ℕ, ◌≡◌, refl, String, Bool, true, false, ◌&&◌, ◌||◌, none, some, List, [], ◌∷◌, arith,
  Option-cases, ◌⊎◌, inl, inr, is_some_and, is_some, any,
}
use rekha.Prelude.Dict.{string_eqv, get}
use rekha.Core.Types.{Floats, MetadataValue, as_f64}
use rekha.Core.Filter.{
  ComparisonOp, eq, ne, gt, gte, lt, lte, in_list, nin, WhereCondition, comparison, and, or,
  WhereConditions, nil, cons, WhereFilter, values_equal, match_op, match_condition, all_match,
  any_match, matches,
}
use rekha.Engine.Bitmap.{Bitmap}
use rekha.Engine.ValueKey.{OrderedFloats, ValueKey, from_value, value_key_eqv}
use rekha.Engine.Postings.{
  Postings, Bound, included, excluded, unbounded, above, below, key_present, eq_bitmap, num_range,
  eq_bitmaps, eval_op, eval_condition, eval_and, eval_or, evaluate,
}
use rekha.Engine.Postings.Nested.Union.{contains-union_at, union_where-nil}
use rekha.Engine.Postings.Represents.{Docs, value_at, Represents}
use rekha.Engine.Postings.Exact.{
  IsExact, AllExact, OpIsExact, CondIsExact, CondsAreExact, DocIsExact, eligible, key-values_equal,
  match_value, match_op-match_value, num_at, key_at, range_respects, metadata_of, as_f64-exact,
}

module _ {F B : Type 0} ⦃fl : Floats F⦄ ⦃of : OrderedFloats fl⦄ ⦃bm : Bitmap B⦄ where
  module _ {p : Postings F B} {docs : Docs F} (r : Represents p docs) (o : ℕ) where
    contains-eq_bitmap :
        (key : String) (v : MetadataValue F)
        → DocIsExact (docs o)
        → IsExact v
        → bm.contains (eq_bitmap p key (from_value v)) o
          ≡ is_some_and (value_at (docs o) key) (λ a. values_equal a v)
    unfolding eq_bitmap
    contains-eq_bitmap key v x h = elim (Option-cases (value_at (docs o) key)) [
      | inl e ↦ ground (arith, r.eqs key (from_value v) o, e)
      | inr (a, e) ↦
          ground (arith, r.eqs key (from_value v) o, e, key-values_equal a v (x key a e) h)
    ]

    contains-eq_bitmaps :
        (key : String) (vs : List (MetadataValue F)) (out : B)
        → DocIsExact (docs o)
        → AllExact vs
        → bm.contains (eq_bitmaps p key vs out) o ≡ (
            bm.contains out o
            || is_some_and (value_at (docs o) key) (λ a. any (λ v. values_equal a v) vs))
    unfolding eq_bitmaps
    contains-eq_bitmaps key [] out x h = ground arith
    contains-eq_bitmaps key (v ∷ vs) out x h =
        let b = eq_bitmap p key (from_value v) in
        ground (
          arith,
          contains-eq_bitmaps key vs (bm.union out b) x h.1,
          bm.contains-union out b o,
          contains-eq_bitmap key v x h.0,
        )

    contains-key_present :
        (key : String) → bm.contains (key_present p key) o ≡ is_some (value_at (docs o) key)
    unfolding key_present
    contains-key_present key = ground (
      arith,
      contains-union_at (λ _. true) p.eq key o (key_at (value_at (docs o) key)) r.eq_well
          (λ k. ground (arith, r.eqs key k o)) (λ j k h. refl),
      union_where-nil {K = ValueKey F} (λ _. true) bm.empty,
    )

    contains-num_range :
        (key : String) (lo hi : Bound F)
        → bm.contains (num_range p key lo hi) o
          ≡ is_some_and (num_at (value_at (docs o) key)) (λ x. above lo x && below hi x)
    unfolding num_range
    contains-num_range key lo hi = ground (
      arith,
      contains-union_at ⦃e = of.key⦄ (λ x. above lo x && below hi x) p.num key o
          (num_at (value_at (docs o) key)) r.num_well (λ k. ground (arith, r.nums key k o))
          (range_respects lo hi),
      union_where-nil {K = F} ⦃e = of.key⦄ (λ x. above lo x && below hi x) bm.empty,
    )

    num_cases :
        (key : String)
        → DocIsExact (docs o)
        → (num_at (value_at (docs o) key) ≡ none)
          ⊎ ((a : MetadataValue F) × (y : F) × (value_at (docs o) key ≡ some a)
              × (as_f64 a ≡ some y)
              × (fl.is_nan y ≡ false))
    num_cases key x = elim (Option-cases (value_at (docs o) key)) [
      | inl e ↦ inl (ground (arith, e))
      | inr (a, e) ↦ elim (Option-cases (as_f64 a)) [
        | inl g ↦ inl (ground (arith, e, g))
        | inr (y, g) ↦ inr (a, y, e, g, as_f64-exact a y (x key a e) g)
      ]
    ]

    eval_op-match_value :
        (key : String) (op : ComparisonOp F)
        → DocIsExact (docs o)
        → OpIsExact op
        → bm.contains (eval_op p key op) o
          ≡ (is_some (docs o) && match_value op (value_at (docs o) key))
    unfolding eval_op
    eval_op-match_value key (eq v) x h = ground (arith, contains-eq_bitmap key v x h)
    eval_op-match_value key (ne v) x h = ground (
      arith,
      contains-eq_bitmap key v x h,
      contains-key_present key,
      bm.contains-diff (key_present p key) (eq_bitmap p key (from_value v)) o,
    )
    eval_op-match_value key (gt n) x h = elim (num_cases key x) [
      | inl e ↦ ground (arith, contains-num_range key (excluded n) unbounded, e)
      | inr (a, y, e, g, k) ↦
          ground (arith, contains-num_range key (excluded n) unbounded, e, g, of.key_lt-flt n y h k)
    ]
    eval_op-match_value key (gte n) x h = elim (num_cases key x) [
      | inl e ↦ ground (arith, contains-num_range key (included n) unbounded, e)
      | inr (a, y, e, g, k) ↦
          ground (arith, contains-num_range key (included n) unbounded, e, g, of.key_le-fle n y h k)
    ]
    eval_op-match_value key (lt n) x h = elim (num_cases key x) [
      | inl e ↦ ground (arith, contains-num_range key unbounded (excluded n), e)
      | inr (a, y, e, g, k) ↦
          ground (arith, contains-num_range key unbounded (excluded n), e, g, of.key_lt-flt y n k h)
    ]
    eval_op-match_value key (lte n) x h = elim (num_cases key x) [
      | inl e ↦ ground (arith, contains-num_range key unbounded (included n), e)
      | inr (a, y, e, g, k) ↦
          ground (arith, contains-num_range key unbounded (included n), e, g, of.key_le-fle y n k h)
    ]
    eval_op-match_value key (in_list vs) x h =
        ground (arith, contains-eq_bitmaps key vs bm.empty x h, bm.contains-empty o)
    eval_op-match_value key (nin vs) x h = ground (
      arith,
      contains-eq_bitmaps key vs bm.empty x h,
      bm.contains-empty o,
      r.all o,
      bm.contains-diff p.all (eq_bitmaps p key vs bm.empty) o,
    )

    eval_op-match_op :
        (key : String) (op : ComparisonOp F)
        → DocIsExact (docs o)
        → OpIsExact op
        → bm.contains (eval_op p key op) o
          ≡ (is_some (docs o) && match_op key op (metadata_of (docs o)))
    unfolding get
    eval_op-match_op key op x h = elim (Option-cases (docs o)) [
      | inl e ↦ ground (arith, eval_op-match_value key op x h, e)
      | inr (none, e) ↦
          ground (arith, eval_op-match_value key op x h, e, match_op-match_value key op [])
      | inr (some m, e) ↦
          ground (arith, eval_op-match_value key op x h, e, match_op-match_value key op m)
    ]

    mutual
      unfolding eval_condition match_condition

      eval_condition-match_condition :
          (c : WhereCondition F)
          → DocIsExact (docs o)
          → CondIsExact c
          → bm.contains (eval_condition p c) o
            ≡ (is_some (docs o) && match_condition c (metadata_of (docs o)))
      eval_condition-match_condition (comparison key op) x h = eval_op-match_op key op x h
      eval_condition-match_condition (and nil) x h = ground (arith, r.all o)
      eval_condition-match_condition (and (cons c cs)) x h =
          eval_and-all_match cs (eval_condition p c) (match_condition c (metadata_of (docs o))) x
            h.1 (eval_condition-match_condition c x h.0)
      eval_condition-match_condition (or cs) x h =
          ground (arith, eval_or-any_match cs bm.empty x h, bm.contains-empty o)

      eval_and-all_match :
          (cs : WhereConditions F) (out : B) (b : Bool)
          → DocIsExact (docs o)
          → CondsAreExact cs
          → bm.contains out o ≡ (is_some (docs o) && b)
          → bm.contains (eval_and p cs out) o
            ≡ (is_some (docs o) && (b && all_match cs (metadata_of (docs o))))
      eval_and-all_match nil out b x h e = ground arith
      eval_and-all_match (cons c cs) out b x h e =
          let m = metadata_of (docs o) in
          let ih =
            eval_and-all_match cs (bm.inter out (eval_condition p c)) (b && match_condition c m) x
              h.1
              (ground (
                arith,
                e,
                bm.contains-inter out (eval_condition p c) o,
                eval_condition-match_condition c x h.0,
              )) in
          ground (arith, ih)

      eval_or-any_match :
          (cs : WhereConditions F) (out : B)
          → DocIsExact (docs o)
          → CondsAreExact cs
          → bm.contains (eval_or p cs out) o
            ≡ (bm.contains out o || (is_some (docs o) && any_match cs (metadata_of (docs o))))
      eval_or-any_match nil out x h = ground arith
      eval_or-any_match (cons c cs) out x h = ground (
        arith,
        eval_or-any_match cs (bm.union out (eval_condition p c)) x h.1,
        bm.contains-union out (eval_condition p c) o,
        eval_condition-match_condition c x h.0,
      )

  -- If the postings index the records docs, an offset is in the bitmap of a filter exactly when it
  -- is live and its record's metadata matches the filter, for each filter and record whose integers
  -- are exact as floats and whose floats are no NaN.
  pub evaluate-matches :
      {p : Postings F B} {docs : Docs F} (f : WhereFilter F) (o : ℕ)
      → Represents p docs
      → DocIsExact (docs o)
      → CondIsExact f.condition
      → bm.contains (evaluate p f) o ≡ eligible f (docs o)
  unfolding evaluate matches
  evaluate-matches {docs = docs} f o r x h = elim (Option-cases (docs o)) [
    | inl e ↦ ground (arith, eval_condition-match_condition r o f.condition x h, e)
    | inr (none, e) ↦ ground (arith, eval_condition-match_condition r o f.condition x h, e)
    | inr (some m, e) ↦ ground (arith, eval_condition-match_condition r o f.condition x h, e)
  ]
