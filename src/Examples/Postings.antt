-- ===== src/Examples/Postings.antt =====
-- The theorems on postings, at a small index.
use rekha.Prelude.{ℕ, ◌≡◌, refl, true, false, Option, none, some, List, [], ◌∷◌, arith}
use rekha.Prelude.Int.{pos}
use rekha.Prelude.Dict.{string_eqv, get}
use rekha.Core.Types.{str, int, Metadata}
use rekha.Core.Filter.{
  eq, ne, gte, comparison, and, nil, cons, WhereFilter, values_equal, numeric, match_op,
  match_condition, matches,
}
use rekha.Engine.ValueKey.{value_key_eqv}
use rekha.Engine.Postings.{Postings, new, insert, evaluate}
use rekha.Engine.Postings.Represents.{Docs, put, Represents, insert-Represents}
use rekha.Engine.Postings.Removal.{new-Represents}
use rekha.Engine.Postings.Exact.{DocIsExact, eligible}
use rekha.Engine.Postings.Agreement.{evaluate-matches}
use rekha.Engine.Postings.Collision.{evaluate_collision}
use rekha.Examples.Floats.{Float, num, floats, ordered_floats}
use rekha.Examples.Bitmaps.{list_bitmap, contains}

abbrev scored : Option (Metadata Float)
scored = some (("score", int (pos 5)) ∷ ("tag", str "a") ∷ [])

abbrev index : Postings Float (List ℕ)
index = insert new 1 scored

abbrev docs : Docs Float
docs = put (λ _. none) 1 (some scored)

indexed : Represents index docs
unfolding get
indexed = insert-Represents 1 scored (new-Represents {B = List ℕ}) refl (refl, (refl, tt))

abbrev filter : WhereFilter Float
filter = record {
  condition =
      and (
        cons (comparison "score" (gte (num (pos 3)))) (cons (comparison "tag" (ne (str "b"))) nil));
}

scored_exact : DocIsExact (docs 1)
unfolding get
scored_exact key v h = ground arith

evaluate-matches_example : contains (evaluate index filter) 1 ≡ eligible filter (docs 1)
evaluate-matches_example = evaluate-matches filter 1 indexed scored_exact (refl, (tt, tt))

filter-eligible : eligible filter (docs 1) ≡ true
unfolding matches match_condition match_op numeric values_equal get
filter-eligible = refl

abbrev big : Metadata Float
big = ("n", int (pos 0x20_0000_0000_0000)) ∷ []

big_indexed :
    Represents {B = List ℕ} (insert new 1 (some big)) (put (λ _. none) 1 (some (some big)))
unfolding get
big_indexed = insert-Represents 1 (some big) (new-Represents {B = List ℕ}) refl (refl, tt)

evaluate_collision_example :
    (contains
        (evaluate {B = List ℕ}
          (insert new 1 (some big))
          (record { condition = comparison "n" (eq (int (pos 0x20_0000_0000_0001))) }))
        1
      ≡ true)
    × (eligible {F = Float}
          (record { condition = comparison "n" (eq (int (pos 0x20_0000_0000_0001))) })
          (some (some big))
        ≡ false)
unfolding get
evaluate_collision_example =
    evaluate_collision 1 big "n" (pos 0x20_0000_0000_0000) (pos 0x20_0000_0000_0001) big_indexed
      refl refl refl refl
