-- ===== src/Engine/Postings.antt =====
-- `Postings` of crates/rekha-engine/src/postings.rs: an inverted index from metadata to the
-- offsets of the records that carry it. The equality postings and the numeric postings are nested
-- maps of one shape, and the helpers on that shape are in `Nested`.
pub mod Nested
pub mod Represents
pub mod Removal
pub mod Exact
pub mod Agreement
pub mod Collision
use Nested.{NestedMap, index_in, unindex_in, drop_in, bitmap_in, union_where}
use rekha.Prelude.{ℕ, String, Bool, true, false, ◌&&◌, Option, none, some, List, [], ◌∷◌}
use rekha.Prelude.Dict.{Dict, string_eqv, get}
use rekha.Core.Types.{Floats, MetadataValue, as_f64, Metadata}
use rekha.Core.Filter.{
  ComparisonOp, eq, ne, gt, gte, lt, lte, in_list, nin, WhereCondition, comparison, and, or,
  WhereConditions, nil, cons, WhereFilter,
}
use rekha.Engine.Bitmap.{Bitmap}
use rekha.Engine.ValueKey.{OrderedFloats, ValueKey, from_value, value_key_eqv}

-- Postings
pub record Postings (F B : Type 0) : Type 0 where
  pub eq : NestedMap (ValueKey F) B
  pub num : NestedMap F B
  pub all : B

-- std::ops::Bound
pub data Bound (F : Type 0) : Type 0 where
  included : F → Bound F
  excluded : F → Bound F
  unbounded : Bound F

module _ {F : Type 0} ⦃fl : Floats F⦄ ⦃of : OrderedFloats fl⦄ where
  -- whether a key lies in the range `(lo, hi)`
  abbrev pub above : Bound F → F → Bool
  above (included n) x = of.key_le n x
  above (excluded n) x = of.key_lt n x
  above unbounded x = true

  abbrev pub below : Bound F → F → Bool
  below (included n) x = of.key_le x n
  below (excluded n) x = of.key_lt x n
  below unbounded x = true

module _ {F B : Type 0} ⦃fl : Floats F⦄ ⦃of : OrderedFloats fl⦄ ⦃bm : Bitmap B⦄ where
  -- Postings::new
  unfoldable pub new : Postings F B
  new = record { eq = []; num = []; all = bm.empty }

  -- the body of the loop of `insert`
  unfoldable pub insert_entry : ℕ → Postings F B → String → MetadataValue F → Postings F B
  unfolding as_f64 from_value
  insert_entry offset p key value = record p {
    eq = index_in p.eq key (from_value value) offset;
    num = elim (as_f64 value) [ none ↦ p.num | some n ↦ index_in ⦃e = of.key⦄ p.num key n offset ];
  }

  unfoldable pub insert_entries : ℕ → Metadata F → Postings F B → Postings F B
  unfolding insert_entry
  insert_entries offset [] p = p
  insert_entries offset ((key, value) ∷ metadata) p =
      insert_entries offset metadata (insert_entry offset p key value)

  -- Postings::insert
  unfoldable pub insert : Postings F B → ℕ → Option (Metadata F) → Postings F B
  insert p offset none = record p { all = bm.insert p.all offset }
  insert p offset (some metadata) =
      insert_entries offset metadata (record p { all = bm.insert p.all offset })

  -- the body of the loop of `remove`
  unfoldable pub remove_entry : ℕ → Postings F B → String → MetadataValue F → Postings F B
  unfolding as_f64 from_value
  remove_entry offset p key value = record p {
    eq = unindex_in p.eq key (from_value value) offset;
    num = elim (as_f64 value) [
      | none ↦ p.num
      | some n ↦ unindex_in ⦃e = of.key⦄ p.num key n offset
    ];
  }

  unfoldable pub remove_entries : ℕ → Metadata F → Postings F B → Postings F B
  unfolding remove_entry
  remove_entries offset [] p = p
  remove_entries offset ((key, value) ∷ metadata) p =
      remove_entries offset metadata (remove_entry offset p key value)

  -- Postings::remove
  unfoldable pub remove : Postings F B → ℕ → Option (Metadata F) → Postings F B
  remove p offset none = record p { all = bm.remove p.all offset }
  remove p offset (some metadata) =
      remove_entries offset metadata (record p { all = bm.remove p.all offset })

  -- Postings::remove_all
  unfoldable pub remove_all : Postings F B → ℕ → Postings F B
  remove_all p offset = record {
    eq = drop_in p.eq offset;
    num = drop_in p.num offset;
    all = bm.remove p.all offset;
  }

  unfoldable pub key_present : Postings F B → String → B
  unfolding union_where
  key_present p key = elim (get p.eq key) [
    | none ↦ bm.empty
    | some key_map ↦ union_where (λ _. true) key_map bm.empty
  ]

  unfoldable pub eq_bitmap : Postings F B → String → ValueKey F → B
  eq_bitmap p key v = bitmap_in p.eq key v

  unfoldable pub num_range : Postings F B → String → Bound F → Bound F → B
  unfolding union_where
  num_range p key lo hi = elim (get p.num key) [
    | none ↦ bm.empty
    | some key_map ↦ union_where (λ x. above lo x && below hi x) key_map bm.empty
  ]

  -- the union of the postings of a list of values
  unfoldable pub eq_bitmaps : Postings F B → String → List (MetadataValue F) → B → B
  unfolding eq_bitmap from_value
  eq_bitmaps p key [] out = out
  eq_bitmaps p key (v ∷ vs) out =
      eq_bitmaps p key vs (bm.union out (eq_bitmap p key (from_value v)))

  unfoldable pub eval_op : Postings F B → String → ComparisonOp F → B
  unfolding eq_bitmap from_value key_present num_range eq_bitmaps
  eval_op p key (eq v) = eq_bitmap p key (from_value v)
  eval_op p key (ne v) = bm.diff (key_present p key) (eq_bitmap p key (from_value v))
  eval_op p key (gt n) = num_range p key (excluded n) unbounded
  eval_op p key (gte n) = num_range p key (included n) unbounded
  eval_op p key (lt n) = num_range p key unbounded (excluded n)
  eval_op p key (lte n) = num_range p key unbounded (included n)
  eval_op p key (in_list vs) = eq_bitmaps p key vs bm.empty
  eval_op p key (nin vs) = bm.diff p.all (eq_bitmaps p key vs bm.empty)

  -- An empty `$and` matches everything; the parser rejects it.
  unfoldable mutual
    pub eval_condition : Postings F B → WhereCondition F → B
    eval_condition p (comparison key op) = eval_op p key op
    eval_condition p (and nil) = p.all
    eval_condition p (and (cons first rest)) = eval_and p rest (eval_condition p first)
    eval_condition p (or conds) = eval_or p conds bm.empty

    pub eval_and : Postings F B → WhereConditions F → B → B
    eval_and p nil out = out
    eval_and p (cons c cs) out = eval_and p cs (bm.inter out (eval_condition p c))

    pub eval_or : Postings F B → WhereConditions F → B → B
    eval_or p nil out = out
    eval_or p (cons c cs) out = eval_or p cs (bm.union out (eval_condition p c))

  -- Postings::evaluate
  unfoldable pub evaluate : Postings F B → WhereFilter F → B
  evaluate p filter = eval_condition p filter.condition
