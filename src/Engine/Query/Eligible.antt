-- ===== src/Engine/Query/Eligible.antt =====
-- A query with a filter gives only records that match it: `filtered_query` of
-- crates/rekha-engine/src/collection.rs. Below, what each of its loops adds to the distances.
use rekha.Prelude.{
  ℕ, ◌≡◌, refl, sym, ap, ◌∙◌, String, Bool, true, false, Option, none, some, List, [], ◌∷◌, ◌==◌,
  any, Bool-cases, Option-cases, inl, inr, if◌then◌else◌, is_some, arith,
}
use rekha.Prelude.Dict
use rekha.Prelude.Dict.{Dict, string_eqv, nat_eqv, get}
use rekha.Core.Types.{Floats, Distance}
use rekha.Core.Filter.{WhereFilter}
use rekha.Engine.Bitmap.{Bitmap}
use rekha.Engine.ValueKey.{OrderedFloats}
use rekha.Engine.Base.{Record, IndexHit}
use rekha.Engine.Postings.{evaluate}
use rekha.Engine.Postings.Exact.{CondIsExact, DocIsExact, eligible}
use rekha.Engine.Postings.Agreement.{evaluate-matches}
use rekha.Engine.Collection.{Collection}
use rekha.Engine.Collection.Consistent.{IsConsistent, docs_of}
use rekha.Engine.Query.{
  Metric, filter_matches_opt, or_insert, buffer_distances, candidate, scan_candidate,
  candidate_distances, eligible_hits,
}

module _ {F V B I : Type 0} ⦃fl : Floats F⦄ where
  -- A live record whose metadata matches.
  abbrev pub IsEligible : Collection F V B I → WhereFilter F → String → Type 0
  IsEligible c filter id =
      (r : Record F V) × (get c.records id ≡ some r) × (filter_matches_opt filter r.metadata ≡ true)

  abbrev pub AllEligible : Collection F V B I → WhereFilter F → Dict String V → Type 0
  AllEligible c filter [] = Unit
  AllEligible c filter ((id, d) ∷ dist) = IsEligible c filter id × AllEligible c filter dist

  -- Each record has the metadata of the live record with its id.
  abbrev pub AreFresh : Collection F V B I → List (Record F V) → Type 0
  AreFresh c [] = Unit
  AreFresh c (r ∷ rs) =
      ((live : Record F V) × (get c.records r.id ≡ some live) × (live.metadata ≡ r.metadata))
      × AreFresh c rs

  module _ (c : Collection F V B I) (filter : WhereFilter F) where
    insert-AllEligible :
        (dist : Dict String V) (id : String) (d : V)
        → AllEligible c filter dist
        → IsEligible c filter id
        → AllEligible c filter (Dict.insert dist id d)
    unfolding Dict.insert
    insert-AllEligible [] id d all here = (here, tt)
    insert-AllEligible ((j, w) ∷ dist) id d all here = elim (Bool-cases (string_eqv.beq j id)) [
      | inl t ↦ rw (t, Dict.insert) (all.0, all.1)
      | inr f ↦ rw (f, Dict.insert) (all.0, insert-AllEligible dist id d all.1 here)
    ]

    or_insert-AllEligible :
        (dist : Dict String V) (id : String) (d : V)
        → AllEligible c filter dist
        → IsEligible c filter id
        → AllEligible c filter (or_insert dist id d)
    unfolding or_insert
    or_insert-AllEligible dist id d all here = elim (Bool-cases (is_some (get dist id))) [
      | inl t ↦ rw (t, or_insert) all
      | inr f ↦ rw (f, or_insert) (insert-AllEligible dist id d all here)
    ]

    buffered-AllEligible :
        (b : Bool) (o : Option (List V)) (id : String) (d : List V → V) (dist : Dict String V)
        → AllEligible c filter dist
        → (b ≡ true → IsEligible c filter id)
        → AllEligible c filter
            (if b then (elim o [ none ↦ dist | some v ↦ Dict.insert dist id (d v) ]) else dist)
    buffered-AllEligible false o id d dist all here = all
    buffered-AllEligible true none id d dist all here = all
    buffered-AllEligible true (some v) id d dist all here =
        insert-AllEligible dist id (d v) all (here refl)

  module _ (metric : Metric V) (c : Collection F V B I) (filter : WhereFilter F) where
    pub buffer_distances-AllEligible :
        (q : List V) (space : Distance) (rs : List (Record F V)) (dist : Dict String V)
        → AllEligible c filter dist
        → AreFresh c rs
        → AllEligible c filter (
            buffer_distances metric
              (λ (r : Record F V). filter_matches_opt filter r.metadata)
              q
              space
              dist
              rs)
    unfolding buffer_distances
    buffer_distances-AllEligible q space [] dist all fresh = all
    buffer_distances-AllEligible q space (r ∷ rs) dist all fresh =
        let (live, found, same) = fresh.0 in
        buffer_distances-AllEligible q space rs _
          (buffered-AllEligible c filter (filter_matches_opt filter r.metadata) r.embedding r.id
            (λ v. metric.distance space q v) dist all (λ t. (live, found, rw same t)))
          fresh.1

    scan_candidate-AllEligible :
        (q : List V) (space : Distance) (dist : Dict String V) (o : Option (Record F V))
        → AllEligible c filter dist
        → ((r : Record F V) → o ≡ some r → IsEligible c filter r.id)
        → AllEligible c filter (scan_candidate metric q space dist o)
    unfolding scan_candidate
    scan_candidate-AllEligible q space dist none all here = all
    scan_candidate-AllEligible q space dist (some r) all here = elim (Option-cases r.embedding) [
      | inl n ↦ rw (n, scan_candidate) all
      | inr (v, e) ↦
          rw (e, scan_candidate)
            (or_insert-AllEligible c filter dist r.id (metric.distance space q v) all (here r refl))
    ]

-- Each offset is in the bitmap.
abbrev AllContained : {B : Type 0} → ⦃bm : Bitmap B⦄ → B → List ℕ → Type 0
AllContained b [] = Unit
AllContained ⦃bm = bm⦄ b (o ∷ os) = (bm.contains b o ≡ true) × AllContained b os

module _ {B : Type 0} ⦃bm : Bitmap B⦄ where
  members-AllContained :
      (b : B) (os : List ℕ)
      → ((o : ℕ) → any (λ i. i == o) os ≡ true → bm.contains b o ≡ true)
      → AllContained b os
  members-AllContained b [] h = tt
  members-AllContained b (o ∷ os) h =
      (h o (ground arith), members-AllContained b os (λ j there. h j (ground (arith, there))))

  pub iter-AllContained : (b : B) → AllContained b (bm.iter b)
  iter-AllContained b =
      members-AllContained b (bm.iter b) (λ o there. ground (arith, there, bm.contains-iter b o))

module _ {F V : Type 0} ⦃fl : Floats F⦄ where
  eligible-matches :
      (filter : WhereFilter F) (r : Record F V)
      → eligible filter (some r.metadata) ≡ filter_matches_opt filter r.metadata
  unfolding filter_matches_opt
  eligible-matches filter r = elim (Option-cases r.metadata) [
    | inl n ↦ rw (n, filter_matches_opt, eligible) refl
    | inr (m, e) ↦ rw (e, filter_matches_opt, eligible) refl
  ]

module _ {F V B I : Type 0} where
  -- Each record stands at its id.
  abbrev pub IsKeyed : Collection F V B I → Type 0
  IsKeyed c = (id : String) (r : Record F V) → get c.records id ≡ some r → r.id ≡ id

module _ {F V B I : Type 0} ⦃fl : Floats F⦄ ⦃of : OrderedFloats fl⦄ ⦃bm : Bitmap B⦄
    (c : Collection F V B I) (filter : WhereFilter F) (k : IsConsistent c)
    (docs : (o : ℕ) → DocIsExact (docs_of c o)) (cond : CondIsExact filter.condition) where
  contained-eligible :
      (o : ℕ)
      → bm.contains (evaluate c.postings filter) o ≡ true
      → eligible filter (docs_of c o) ≡ true
  contained-eligible o there =
      ground (arith, evaluate-matches filter o k.indexed (docs o) cond, there)

  -- The offset of an id that the bitmap has is that of a record that matches.
  offset-IsEligible :
      (o : ℕ) (id : String)
      → get c.id_by_offset o ≡ some id
      → bm.contains (evaluate c.postings filter) o ≡ true
      → IsEligible c filter id
  offset-IsEligible o id at there =
      let passes = contained-eligible o there in
      elim (Option-cases (get c.records id)) [
        | inl n ↦
            let d : docs_of c o ≡ none = ground (arith, at, n) in
            absurd (ground (arith, ap (eligible filter) d, passes))
        | inr (r, e) ↦
            let d : docs_of c o ≡ some r.metadata = ground (arith, at, e) in
            (r, e, sym (eligible-matches filter r) ∙ (sym (ap (eligible filter) d) ∙ passes))
      ]

  candidate-IsEligible :
      (o : ℕ) (r : Record F V)
      → IsKeyed c
      → bm.contains (evaluate c.postings filter) o ≡ true
      → candidate c o ≡ some r
      → IsEligible c filter r.id
  unfolding candidate
  candidate-IsEligible o r keyed there e = elim (Option-cases (get c.id_by_offset o)) [
    | inl n ↦ absurd (ground (arith, n, e))
    | inr (id, at) ↦
        let found : get c.records id ≡ some r = ground (arith, at, e) in
        rw (keyed id r found) (offset-IsEligible o id at there)
  ]

  pub candidate_distances-AllEligible :
      (metric : Metric V) (q : List V) (space : Distance) (os : List ℕ) (dist : Dict String V)
      → IsKeyed c
      → AllContained (evaluate c.postings filter) os
      → AllEligible c filter dist
      → AllEligible c filter (candidate_distances metric c q space dist os)
  unfolding candidate_distances
  candidate_distances-AllEligible metric q space [] dist keyed within all = all
  candidate_distances-AllEligible metric q space (o ∷ os) dist keyed within all =
      candidate_distances-AllEligible metric q space os _ keyed within.1 (
        scan_candidate-AllEligible metric c filter q space dist (candidate c o) all
          (λ r e. candidate-IsEligible o r keyed within.0 e))

  hit-IsEligible :
      (o : Option ℕ) (hit : IndexHit V) (dist : Dict String V)
      → get c.offsets hit.id ≡ o
      → AllEligible c filter dist
      → AllEligible c filter (elim o [
        | none ↦ dist
        | some offset ↦
            if bm.contains (evaluate c.postings filter) offset
            then or_insert dist hit.id hit.distance
            else dist
      ])
  hit-IsEligible none hit dist e all = all
  hit-IsEligible (some o) hit dist e all =
      elim (Bool-cases (bm.contains (evaluate c.postings filter) o)) [
        | inl t ↦ rw t (
            or_insert-AllEligible c filter dist hit.id hit.distance all
              (offset-IsEligible o hit.id (k.forward hit.id o e) t))
        | inr f ↦ rw f all
      ]

  pub eligible_hits-AllEligible :
      (hits : List (IndexHit V)) (dist : Dict String V)
      → AllEligible c filter dist
      → AllEligible c filter (eligible_hits c (evaluate c.postings filter) dist hits)
  unfolding eligible_hits
  eligible_hits-AllEligible [] dist all = all
  eligible_hits-AllEligible (hit ∷ hits) dist all =
      eligible_hits-AllEligible hits _ (hit-IsEligible (get c.offsets hit.id) hit dist refl all)
