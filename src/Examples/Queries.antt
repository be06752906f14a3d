-- ===== src/Examples/Queries.antt =====
-- The theorems on queries, at a collection of two records and at one after a checkpoint.
use mathlib.Core.Path.{subst}
use rekha.Prelude.{
  true, not, ltb, ◌&&◌, ◌<◌, str_eq, Bool-cases, inl, String, ℕ, ◌+◌, ◌-◌, ◌≡◌, refl, inr, some,
  none, List, [], ◌∷◌, leb, arith,
}
use rekha.Prelude.Dict.{Dict, string_eqv, nat_eqv, get}
use rekha.Core.Types.{int}
use rekha.Core.Filter.{WhereFilter, comparison, nin}
use rekha.Prelude.Int.{pos}
use rekha.Engine.Base.{Record, ok}
use rekha.Engine.Durable.{Durable, new_collection}
use rekha.Engine.Lookup.{load_vector}
use rekha.Engine.Postings.{evaluate, eval_condition, eval_op}
use rekha.Engine.Postings.Nested.{bitmap_in}
use rekha.Engine.Query.{
  Metric, QueryOptions, ScoredPoint, query, find, brute_force, scan_records, sort_by, insert_point,
}
use rekha.Engine.Query.Exact.{searched_vector, IsNearest, query-IsNearest}
use rekha.Engine.Query.Sort.{IsOrdered}
use rekha.Engine.Query.Filtered.{query-checkpoint}
use rekha.Examples.Floats.{Float, floats, ordered_floats}
use rekha.Examples.Bitmaps.{list_bitmap}
use rekha.Examples.Indexes.{dict_index, codec}
use rekha.Core.Filter.{eq, match_condition, match_op}
use rekha.Engine.Postings
use rekha.Engine.Postings.{insert_entries}
use rekha.Engine.Postings.Nested.{index_in}
use rekha.Prelude.{eq_iff}
use rekha.Engine.Collection.{apply_operation, apply_upsert, offset_for, retain_others, unindex_old}
use rekha.Engine.Collection.Consistent.{docs_of}
use rekha.Engine.Postings.Exact.{DocIsExact}
use rekha.Engine.Query.{
  filtered_query, filter_matches_opt, buffer_distances, candidate_distances, build_scored,
}
use rekha.Engine.Query.Eligible.{IsKeyed}
use rekha.Engine.Query.Matching.{AllMatch, query-AllMatch}
use rekha.Examples.Collections.{added, added-IsConsistent, some_metadata}
use rekha.Prelude.Dict
use rekha.Examples.Checkpoints.{watermark, disk, note, before, once, checkpointed, note-AllCovered}

abbrev gap : List ℕ → List ℕ → ℕ
gap (x ∷ xs) (y ∷ ys) = (x - y) + (y - x) + gap xs ys
gap _ _ = 0

-- a distance of 1000 or more is no number: it is not greater than another, nor another than it
abbrev metric : Metric ℕ
metric = record {
  distance = λ space a b. gap a b;
  gt = λ a b. ltb a 1000 && ltb b 1000 && not (leb a b);
}

abbrev IsNumber : ℕ → Type 0
IsNumber d = d < 1000

metric-IsOrdered : IsOrdered metric IsNumber
metric-IsOrdered = record {
  asymmetric = λ a b h. ground arith;
  transitive = λ a b c x y z h k. ground arith;
}

-- two records, the second with its vector in the segment
abbrev two : Durable Float ℕ (List ℕ) (Dict String (List ℕ))
two = record before {
  coll = record before.coll {
    records = ("a", note) ∷ ("b", record note { id = "b"; embedding = none }) ∷ [];
  };
  segments = ((1 ∷ 2 ∷ []) ∷ []) ∷ [];
  segment_index = ("b", 0) ∷ [];
}

abbrev plain : QueryOptions Float
plain = record { ef = 0; where_filter = none; oversampling = 4 }

abbrev near : ScoredPoint Float ℕ
near = record { id = "b"; distance = 1; metadata = none; document = none }

nearest_first : query metric two (1 ∷ 3 ∷ []) 1 plain ≡ ok (near ∷ [])
unfolding query find brute_force scan_records sort_by insert_point new_collection get load_vector
nearest_first = refl

two-numbers :
    (id : String) (r : Record Float ℕ) (v : List ℕ)
    → get two.coll.records id ≡ some r
    → searched_vector two id r ≡ some v
    → IsNumber (metric.distance two.coll.config.space (1 ∷ 3 ∷ []) v)
unfolding new_collection get load_vector
two-numbers id r v found has = elim (Bool-cases (str_eq "a" id)) [
  | inl t ↦
      let same = (eq_iff "a" id).0 t in
      let here : note ≡ r = ground (arith, rw (← same) at found) in
      let vector : 7 ∷ 8 ∷ [] ≡ v = ground (arith, rw (← same, ← here) at has) in
      subst (λ x. gap (1 ∷ 3 ∷ []) x < 1000) vector (omega arith)
  | inr f ↦
      let second : str_eq "b" id ≡ true = ground (arith, f, found) in
      let same = (eq_iff "b" id).0 second in
      let vector : 1 ∷ 2 ∷ [] ≡ v = ground (arith, rw (← same) at has) in
      subst (λ x. gap (1 ∷ 3 ∷ []) x < 1000) vector (omega arith)
]

query-IsNearest_example :
    (out : List (ScoredPoint Float ℕ)) × (rest : List (ScoredPoint Float ℕ)) × (query metric two
        (1 ∷ 3 ∷ [])
        1
        plain
      ≡ ok out)
    × IsNearest metric two (1 ∷ 3 ∷ []) 1 out rest
unfolding new_collection get
query-IsNearest_example =
    query-IsNearest metric IsNumber two (1 ∷ 3 ∷ []) 1 plain metric-IsOrdered two-numbers
      (refl, (refl, tt)) refl (inr refl) (omega arith)

-- the records without a score of 5, as the record "a" is
abbrev unscored : WhereFilter Float
unscored = record { condition = comparison "score" (nin (int (pos 5) ∷ [])) }

abbrev filtered : QueryOptions Float
filtered = record plain { where_filter = some unscored }

query-checkpoint_example : query metric once (7 ∷ 8 ∷ []) 3 filtered ≡ ok []
unfolding new_collection get evaluate eval_condition eval_op bitmap_in
query-checkpoint_example =
    query-checkpoint {K = ℕ} metric codec disk true before once 0 1 (7 ∷ 8 ∷ []) 3 filtered unscored
      refl refl refl note-AllCovered refl checkpointed refl (inr refl) (omega arith)

eligible : evaluate before.coll.postings unscored ≡ 0 ∷ []
unfolding new_collection get evaluate eval_condition eval_op bitmap_in
eligible = refl

-- a collection whose record has a score of 5
abbrev scored : Durable Float ℕ (List ℕ) (Dict String (List ℕ))
scored = record before { coll = added }

abbrev five : WhereFilter Float
five = record { condition = comparison "score" (eq (int (pos 5))) }

abbrev with_five : QueryOptions Float
with_five = record plain { where_filter = some five }

abbrev found : ScoredPoint Float ℕ
found = record { id = "a"; distance = 0; metadata = some_metadata; document = none }

added-IsKeyed : IsKeyed added
unfolding new_collection apply_operation apply_upsert offset_for get Dict.insert
added-IsKeyed id r e = ground (arith, e, eq_iff "a" id)

added-exact : (o : ℕ) → DocIsExact (docs_of added o)
unfolding new_collection apply_operation apply_upsert offset_for get Dict.insert
added-exact o key v h = ground (arith, h)

scored_found : query metric scored (1 ∷ 2 ∷ []) 1 with_five ≡ ok (found ∷ [])
unfolding new_collection apply_operation apply_upsert offset_for get Dict.insert query find
    filtered_query filter_matches_opt buffer_distances candidate_distances build_scored evaluate
    eval_condition eval_op sort_by insert_point retain_others bitmap_in Postings.insert
    insert_entries index_in unindex_old Postings.new match_condition match_op
scored_found = refl

query-AllMatch_example : AllMatch added five (found ∷ [])
unfolding new_collection apply_operation apply_upsert offset_for get Dict.insert retain_others
query-AllMatch_example =
    query-AllMatch metric scored (1 ∷ 2 ∷ []) 1 with_five five (found ∷ []) added-IsConsistent
      added-IsKeyed
      (
        (
          record {
            id = "a";
            embedding = some (1 ∷ 2 ∷ []);
            metadata = some_metadata;
            document = none;
            seq = 1;
          },
          refl,
          refl,
        ),
        tt,
      )
      added-exact refl refl scored_found
