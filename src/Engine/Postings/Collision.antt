-- ===== src/Engine/Postings/Collision.antt =====
-- Where the postings leave the oracle: integers that are one `f64` but differ.
use rekha.Prelude.{ℕ, ◌≡◌, String, true, false, some, arith}
use rekha.Prelude.Int.{ℤ, eq_ℤ}
use rekha.Prelude.Dict.{string_eqv, get}
use rekha.Core.Types.{Floats, int, Metadata}
use rekha.Core.Filter.{eq, comparison, values_equal, match_op, match_condition, matches}
use rekha.Engine.Bitmap.{Bitmap}
use rekha.Engine.ValueKey.{OrderedFloats, from_value, value_key_eqv}
use rekha.Engine.Postings.{Postings, eq_bitmap, eval_op, eval_condition, evaluate}
use rekha.Engine.Postings.Represents.{Docs, Represents}
use rekha.Engine.Postings.Exact.{eligible}

module _ {F B : Type 0} ⦃fl : Floats F⦄ ⦃of : OrderedFloats fl⦄ ⦃bm : Bitmap B⦄ where
  -- If the postings index a record with the integer i at a key, and j is another integer with the
  -- same float, then the record is in the bitmap of the filter that asks for j, although the filter
  -- does not match its metadata.
  pub evaluate_collision :
      {p : Postings F B} {docs : Docs F} (o : ℕ) (m : Metadata F) (key : String) (i j : ℤ)
      → Represents p docs
      → docs o ≡ some (some m)
      → get m key ≡ some (int i)
      → of.key.beq (fl.of_int i) (fl.of_int j) ≡ true
      → eq_ℤ i j ≡ false
      → (bm.contains (evaluate p (record { condition = comparison key (eq (int j)) })) o ≡ true)
        × (eligible (record { condition = comparison key (eq (int j)) }) (docs o) ≡ false)
  unfolding evaluate eval_condition eval_op eq_bitmap from_value matches match_condition match_op
      values_equal
  evaluate_collision o m key i j r live at same differ =
      (ground (arith, r.eqs key (from_value (int j)) o, live, at, same), ground (arith, live, at))
