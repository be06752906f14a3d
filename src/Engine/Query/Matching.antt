-- ===== src/Engine/Query/Matching.antt =====
-- A query with a filter gives only live records that match it: `query` and `filtered_query` of
-- crates/rekha-engine/src/collection.rs, on the exact path and on that of the index.
use mathlib.Core.Path.{subst}
use rekha.Prelude.{
  ℕ, zero, suc, ◌≡◌, refl, ap, ◌∙◌, String, true, not, ◌&&◌, some, List, [], ◌∷◌, ◌==◌, Bool-cases,
  inl, inr, if◌then◌else◌, length, take, leb, arith,
}
use rekha.Prelude.Dict.{Dict, string_eqv, get}
use rekha.Core.Types.{Floats, Distance}
use rekha.Core.Filter.{WhereFilter}
use rekha.Engine.Bitmap.{Bitmap}
use rekha.Engine.ValueKey.{OrderedFloats}
use rekha.Engine.Base.{Record, Index, EngineResult, ok, err, ◌>>=◌}
use rekha.Engine.Postings.{evaluate}
use rekha.Engine.Postings.Exact.{CondIsExact, DocIsExact}
use rekha.Engine.Collection.{Collection}
use rekha.Engine.Collection.Consistent.{IsConsistent, docs_of}
use rekha.Engine.Durable.{Durable, max}
use rekha.Engine.Query.{
  Metric, QueryOptions, ScoredPoint, filter_matches_opt, build_scored, buffer_distances,
  candidate_distances, eligible_hits, filtered_query, searched, fetch, find, sort_by, query,
}
use rekha.Engine.Query.Sort.{In, sort_by-In}
use rekha.Engine.Query.Eligible.{
  AllEligible, AreFresh, IsKeyed, buffer_distances-AllEligible, candidate_distances-AllEligible,
  eligible_hits-AllEligible, iter-AllContained,
}

In-take : {A : Type 0} (n : ℕ) (x : A) (xs : List A) → In x (take n xs) → In x xs
In-take zero x xs h = absurd h
In-take (suc n) x [] h = h
In-take (suc n) x (y ∷ xs) (inl here) = inl here
In-take (suc n) x (y ∷ xs) (inr there) = inr (In-take n x xs there)

ok-injective : {A : Type 0} {a b : A} → ok a ≡ ok b → a ≡ b
ok-injective h = ground (arith, h)

-- What follows a success has its result.
ok-bind :
    {A C : Type 0} (m : EngineResult A) (f : A → C) (out : C)
    → (m >>= λ a. ok (f a)) ≡ ok out
    → (a : A) × (m ≡ ok a) × (f a ≡ out)
ok-bind (ok a) f out h = (a, refl, ground (arith, h))
ok-bind (err e) f out h = absurd (ground (arith, h))

module _ {F V B I : Type 0} ⦃fl : Floats F⦄ where
  -- A point of a live record that matches, with its metadata and its document.
  abbrev pub IsMatch : Collection F V B I → WhereFilter F → ScoredPoint F V → Type 0
  IsMatch c filter p =
      (r : Record F V) × (get c.records p.id ≡ some r)
      × (filter_matches_opt filter r.metadata ≡ true)
      × (p.metadata ≡ r.metadata)
      × (p.document ≡ r.document)

  abbrev pub AllMatch : Collection F V B I → WhereFilter F → List (ScoredPoint F V) → Type 0
  AllMatch c filter ps = (p : ScoredPoint F V) → In p ps → IsMatch c filter p

  build_scored-AllMatch :
      (c : Collection F V B I) (filter : WhereFilter F) (dist : Dict String V)
      → AllEligible c filter dist
      → AllMatch c filter (build_scored c dist)
  unfolding build_scored
  build_scored-AllMatch c filter [] all p h = absurd h
  build_scored-AllMatch c filter ((id, d) ∷ dist) all p (inr there) =
      build_scored-AllMatch c filter dist all.1 p there
  build_scored-AllMatch c filter ((id, d) ∷ dist) all p (inl here) =
      let (r, found, passes) = all.0 in
      let same : p
          ≡ record { id = id; distance = d; metadata = r.metadata; document = r.document } =
        rw (found, build_scored) at here in
      (
        r,
        ap (λ x. get c.records x.id) same ∙ found,
        passes,
        ap (λ x. x.metadata) same,
        ap (λ x. x.document) same,
      )

module _ {F V B I : Type 0} ⦃fl : Floats F⦄ ⦃of : OrderedFloats fl⦄ ⦃bm : Bitmap B⦄ ⦃ix : Index I V⦄
    (metric : Metric V) where
  filtered_query-AllMatch :
      (c : Collection F V B I) (q : List V) (n ef : ℕ) (space : Distance) (filter : WhereFilter F)
      (oversampling : ℕ) (out : List (ScoredPoint F V))
      → IsConsistent c
      → IsKeyed c
      → AreFresh c c.buffer
      → ((o : ℕ) → DocIsExact (docs_of c o))
      → CondIsExact filter.condition
      → filtered_query metric c q n ef space filter oversampling ≡ ok out
      → AllMatch c filter out
  unfolding filtered_query
  filtered_query-AllMatch c q n ef space filter oversampling out k keyed fresh docs cond h =
      let buffered = buffer_distances-AllEligible metric c filter q space c.buffer [] tt fresh in
      let dist =
        buffer_distances metric (λ (r : Record F V). filter_matches_opt filter r.metadata) q space
          [] c.buffer in
      let candidates = evaluate c.postings filter in
      elim (Bool-cases (leb (length (bm.iter candidates)) c.config.hnsw.max_scan)) [
        | inl t ↦
            let exact =
              candidate_distances-AllEligible c filter k docs cond metric q space
                (bm.iter candidates) dist keyed (iter-AllContained candidates) buffered in
            subst (AllMatch c filter) (ok-injective (rw t at h)) (
              build_scored-AllMatch c filter
                (candidate_distances metric c q space dist (bm.iter candidates)) exact)
        | inr f ↦
            let (hits, found, same) =
              ok-bind (searched (ix.search c.index q (fetch n oversampling) ef))
                (λ hits. build_scored c (eligible_hits c candidates dist hits)) out (rw f at h) in
            subst (AllMatch c filter) same (
              build_scored-AllMatch c filter (eligible_hits c candidates dist hits)
                (eligible_hits-AllEligible c filter k docs cond hits dist buffered))
      ]

  -- Each point of a query with a filter that succeeds is that of a live record whose metadata match
  -- the filter, with the metadata and the document of the record, on the exact path and on that of
  -- the index. The collection is consistent, each record stands at its id, the records in the
  -- buffer have the metadata of the live ones, and the integers of records and filter are exact as
  -- floats and no float is a NaN.
  pub query-AllMatch :
      (s : Durable F V B I) (q : List V) (n : ℕ) (options : QueryOptions F) (filter : WhereFilter F)
      (out : List (ScoredPoint F V))
      → IsConsistent s.coll
      → IsKeyed s.coll
      → AreFresh s.coll s.coll.buffer
      → ((o : ℕ) → DocIsExact (docs_of s.coll o))
      → CondIsExact filter.condition
      → options.where_filter ≡ some filter
      → query metric s q n options ≡ ok out
      → AllMatch s.coll filter out
  unfolding query find
  query-AllMatch s q n options filter out k keyed fresh docs cond filtered h =
      let top = max n 1 in
      let ef = if options.ef == 0 then s.coll.config.hnsw.ef_search else options.ef in
      elim (Bool-cases
        (not (s.coll.config.dimension == 0) && not (length q == s.coll.config.dimension))) [
          | inl t ↦ absurd (ground (arith, rw t at h))
          | inr f ↦
              let (points, found, same) =
                ok-bind
                  (filtered_query metric s.coll q top ef s.coll.config.space filter
                    options.oversampling)
                  (λ ps. take top (sort_by metric ps)) out (rw (f, filtered) at h) in
              let all =
                filtered_query-AllMatch s.coll q top ef s.coll.config.space filter
                  options.oversampling points k keyed fresh docs cond found in
              subst (AllMatch s.coll filter) same (λ p h'.
                all p (sort_by-In metric p points (In-take top p (sort_by metric points) h')))
        ]
