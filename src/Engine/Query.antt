-- ===== src/Engine/Query.antt =====
-- `query` of crates/rekha-engine/src/collection.rs and the searches below it, with `QueryOptions`
-- and `ScoredPoint` of crates/rekha-engine/src/lib.rs.
pub mod Sort
pub mod Exact
pub mod Eligible
pub mod Filtered
pub mod Matching
use rekha.Prelude.{
  ℕ, ◌+◌, ◌-◌, ◌*◌, ◌%◌, String, Bool, true, false, not, ◌&&◌, Option, none, some, List, [], ◌∷◌,
  ◌++◌, length, take, leb, ◌==◌, if◌then◌else◌, is_some,
}
use rekha.Prelude.Dict
use rekha.Prelude.Dict.{Dict, string_eqv, nat_eqv, get}
use rekha.Core.Types.{Floats, Distance, Metadata}
use rekha.Core.Filter.{WhereFilter, matches}
use rekha.Wal.{u64_mod}
use rekha.Engine.Bitmap.{Bitmap}
use rekha.Engine.ValueKey.{OrderedFloats}
use rekha.Engine.Base.{
  Record, Index, IndexHit, EngineError, EngineResult, ok, err, ◌>>=◌, Invalid, query_dimension,
}
use rekha.Engine.Postings.{evaluate}
use rekha.Engine.Collection.{Collection}
use rekha.Engine.Durable.{Durable, max}
use rekha.Engine.Lookup.{load_vector, or_else}

-- rekha_distance::distance, and whether `partial_cmp` of two distances is `Greater`
pub record Metric (V : Type 0) : Type 0 where
  pub distance : Distance → List V → List V → V
  pub gt : V → V → Bool

-- QueryOptions
pub record QueryOptions (F : Type 0) : Type 0 where
  pub ef : ℕ
  pub where_filter : Option (WhereFilter F)
  pub oversampling : ℕ

-- ScoredPoint
pub record ScoredPoint (F V : Type 0) : Type 0 where
  pub id : String
  pub distance : V
  pub metadata : Option (Metadata F)
  pub document : Option String

-- filter_matches_opt
unfoldable pub filter_matches_opt :
    {F : Type 0} ⦃fl : Floats F⦄ → WhereFilter F → Option (Metadata F) → Bool
unfolding matches
filter_matches_opt filter none = matches filter []
filter_matches_opt filter (some metadata) = matches filter metadata

-- dist.entry(id).or_insert(distance)
unfoldable pub or_insert : {V : Type 0} → Dict String V → String → V → Dict String V
or_insert dist id d = if is_some (get dist id) then dist else Dict.insert dist id d

-- the loop of `hybrid_search` on the hits
unfoldable pub hit_distances : {V : Type 0} → Dict String V → List (IndexHit V) → Dict String V
unfolding or_insert
hit_distances dist [] = dist
hit_distances dist (hit ∷ hits) = hit_distances (or_insert dist hit.id hit.distance) hits

module _ {F V : Type 0} (metric : Metric V) where
  -- `sort_by`, which is stable: a point goes before those behind it that are not closer
  unfoldable pub insert_point : ScoredPoint F V → List (ScoredPoint F V) → List (ScoredPoint F V)
  insert_point p [] = p ∷ []
  insert_point p (q ∷ qs) =
      if metric.gt p.distance q.distance then q ∷ insert_point p qs else p ∷ q ∷ qs

  -- `sort_by` on the distances, which is stable. Where a distance is a NaN, the comparison is no
  -- order and the source promises nothing of the result.
  unfoldable pub sort_by : List (ScoredPoint F V) → List (ScoredPoint F V)
  unfolding insert_point
  sort_by [] = []
  sort_by (p ∷ ps) = insert_point p (sort_by ps)

module _ {F V B I : Type 0} (metric : Metric V) where
  -- Collection::brute_force
  unfoldable pub scan_records :
      Durable F V B I → List V → Distance → Dict String (Record F V) → List (ScoredPoint F V)
  scan_records s query space [] = []
  scan_records s query space ((id, r) ∷ rs) =
      let rest = scan_records s query space rs in
      elim (or_else (load_vector s id) r.embedding) [
        | none ↦ rest
        | some v ↦
            record {
              id = id;
              distance = metric.distance space query v;
              metadata = r.metadata;
              document = r.document;
            }
            ∷ rest
      ]

  unfoldable pub brute_force : Durable F V B I → List V → Distance → List (ScoredPoint F V)
  unfolding scan_records
  brute_force s query space = scan_records s query space s.coll.records

module _ {F V : Type 0} (metric : Metric V) where
  -- the loops of `hybrid_search` and `filtered_query` on the buffer
  unfoldable pub buffer_distances :
      (Record F V → Bool) → List V → Distance → Dict String V → List (Record F V) → Dict String V
  buffer_distances keep query space dist [] = dist
  buffer_distances keep query space dist (r ∷ rs) =
      buffer_distances keep query space
        (if keep r
          then (elim r.embedding [
            | none ↦ dist
            | some v ↦ Dict.insert dist r.id (metric.distance space query v)
          ])
          else dist)
        rs

module _ {F V B I : Type 0} where
  -- Collection::build_scored
  unfoldable pub build_scored : Collection F V B I → Dict String V → List (ScoredPoint F V)
  build_scored c [] = []
  build_scored c ((id, d) ∷ dist) =
      record {
        id = id;
        distance = d;
        metadata = elim (get c.records id) [ none ↦ none | some r ↦ r.metadata ];
        document = elim (get c.records id) [ none ↦ none | some r ↦ r.document ];
      }
      ∷ build_scored c dist

  -- the live record at an offset
  unfoldable pub candidate : Collection F V B I → ℕ → Option (Record F V)
  candidate c offset = elim (get c.id_by_offset offset) [ none ↦ none | some id ↦ get c.records id ]

module _ {F V : Type 0} (metric : Metric V) where
  -- a candidate of the exact path: a record without an embedding is passed over
  unfoldable pub scan_candidate :
      List V → Distance → Dict String V → Option (Record F V) → Dict String V
  unfolding or_insert
  scan_candidate query space dist none = dist
  scan_candidate query space dist (some r) = elim r.embedding [
    | none ↦ dist
    | some v ↦ or_insert dist r.id (metric.distance space query v)
  ]

module _ {F V B I : Type 0} (metric : Metric V) where
  -- the exact path of `filtered_query`
  unfoldable pub candidate_distances :
      Collection F V B I → List V → Distance → Dict String V → List ℕ → Dict String V
  unfolding candidate scan_candidate
  candidate_distances c query space dist [] = dist
  candidate_distances c query space dist (offset ∷ offsets) =
      candidate_distances c query space
        (scan_candidate metric query space dist (candidate c offset)) offsets

module _ {F V B I : Type 0} ⦃bm : Bitmap B⦄ where
  -- the ANN path of `filtered_query`
  unfoldable pub eligible_hits :
      Collection F V B I → B → Dict String V → List (IndexHit V) → Dict String V
  unfolding or_insert
  eligible_hits c candidates dist [] = dist
  eligible_hits c candidates dist (hit ∷ hits) =
      eligible_hits c candidates
        (elim (get c.offsets hit.id) [
          | none ↦ dist
          | some offset ↦
              if bm.contains candidates offset then or_insert dist hit.id hit.distance else dist
        ])
        hits

-- the outcome of a search of the index
abbrev pub searched : {A : Type 0} → Option A → EngineResult A
searched none = err EngineError.index
searched (some a) = ok a

module _ {F V B I : Type 0} ⦃ix : Index I V⦄ (metric : Metric V) where
  -- Collection::hybrid_search
  unfoldable pub hybrid_search :
      Collection F V B I → List V → ℕ → ℕ → Distance → EngineResult (List (ScoredPoint F V))
  unfolding hit_distances buffer_distances build_scored
  hybrid_search c query k ef space = searched (ix.search c.index query k ef) >>= λ hits. ok (
      build_scored c
        (buffer_distances metric (λ r. true) query space (hit_distances [] hits) c.buffer))

-- k.saturating_mul(oversampling.max(1))
abbrev pub fetch : ℕ → ℕ → ℕ
fetch k oversampling = let n = k * max oversampling 1 in if leb u64_mod n then u64_mod - 1 else n

module _ {F V B I : Type 0} ⦃fl : Floats F⦄ ⦃of : OrderedFloats fl⦄ ⦃bm : Bitmap B⦄ ⦃ix : Index I V⦄
    (metric : Metric V) where
  -- Collection::filtered_query
  unfoldable pub filtered_query :
      Collection F V B I
      → List V
      → ℕ
      → ℕ
      → Distance
      → WhereFilter F
      → ℕ
      → EngineResult (List (ScoredPoint F V))
  unfolding buffer_distances candidate_distances eligible_hits build_scored filter_matches_opt
  filtered_query c query k ef space filter oversampling =
      let dist =
        buffer_distances metric (λ (r : Record F V). filter_matches_opt filter r.metadata) query
          space [] c.buffer in
      let candidates = evaluate c.postings filter in
      if leb (length (bm.iter candidates)) c.config.hnsw.max_scan
      then ok (build_scored c (candidate_distances metric c query space dist (bm.iter candidates)))
      else (searched (ix.search c.index query (fetch k oversampling) ef) >>= λ hits.
          ok (build_scored c (eligible_hits c candidates dist hits)))

  -- the match of `query` on the filter
  unfoldable pub find :
      Durable F V B I
      → List V
      → ℕ
      → ℕ
      → Distance
      → Option (WhereFilter F)
      → ℕ
      → EngineResult (List (ScoredPoint F V))
  unfolding brute_force hybrid_search filtered_query
  find s query k ef space none oversampling =
      if leb (ix.len s.coll.index + length s.coll.buffer) s.coll.config.hnsw.max_scan
      then ok (brute_force metric s query space)
      else hybrid_search metric s.coll query k ef space
  find s query k ef space (some filter) oversampling =
      filtered_query s.coll query k ef space filter oversampling

  -- Collection::query
  unfoldable pub query :
      Durable F V B I → List V → ℕ → QueryOptions F → EngineResult (List (ScoredPoint F V))
  unfolding find sort_by
  query s q k options =
      let config = s.coll.config in
      let top = max k 1 in
      let ef = if options.ef == 0 then config.hnsw.ef_search else options.ef in
      if not (config.dimension == 0) && not (length q == config.dimension)
      then err (EngineError.validation query_dimension)
      else (find s q top ef config.space options.where_filter options.oversampling >>= λ out.
          ok (take top (sort_by metric out)))
