-- ===== src/Engine/Query/Filtered.antt =====
-- What a query with a filter answers after a checkpoint: `filtered_query` of
-- crates/rekha-engine/src/collection.rs.
use mathlib.Core.Path.{subst}
use rekha.Prelude.{
  ℕ, zero, suc, ◌≤◌, ◌≡◌, ◌⊎◌, refl, sym, ap, ◌∙◌, inl, inr, String, Bool, true, false, not, ◌&&◌,
  Option, none, some, List, [], ◌∷◌, length, take, leb, ◌==◌, Option-cases, if◌then◌else◌, arith,
}
use rekha.Prelude.Dict.{Dict, string_eqv, nat_eqv, get}
use rekha.Core.Types.{Floats, Distance}
use rekha.Core.Filter.{WhereFilter}
use rekha.Core.Op.{Operation}
use rekha.Wal.{Codec}
use rekha.Engine.Bitmap.{Bitmap}
use rekha.Engine.ValueKey.{OrderedFloats}
use rekha.Engine.Base.{Record, Index, Catalog, ok}
use rekha.Engine.Postings.{evaluate}
use rekha.Engine.Collection.{Collection}
use rekha.Engine.Durable.{Durable, max}
use rekha.Engine.Durable.Checkpoint.{Disk, checkpoint, meta_of}
use rekha.Engine.Durable.Open.{strip}
use rekha.Engine.Durable.Checkpoint.Entries.{vector_of, get-strip}
use rekha.Engine.Durable.Checkpoint.Saved.{checkpoint-value}
use rekha.Engine.Durable.Checkpoint.Vectors.{AllCovered}
use rekha.Engine.Query.{
  Metric, QueryOptions, candidate, scan_candidate, candidate_distances, build_scored,
  buffer_distances, filtered_query, find, sort_by, query,
}
use rekha.Engine.Query.Exact.{Fits}

take-nil {ℓ} : {A : Type ℓ} (n : ℕ) → take {A = A} n [] ≡ []
take-nil zero = refl
take-nil (suc n) = refl

-- No record has its embedding in memory.
abbrev AllStripped : {F V : Type 0} → Dict String (Record F V) → Type 0
AllStripped rs = (id : String) → vector_of (get rs id) ≡ none

module _ {F V B I : Type 0} where
  candidate-stripped :
      (c : Collection F V B I) (offset : ℕ)
      → AllStripped c.records
      → vector_of (candidate c offset) ≡ none
  unfolding candidate
  candidate-stripped c offset bare = elim (Option-cases (get c.id_by_offset offset)) [
    | inl n ↦ rw (n, candidate, vector_of) refl
    | inr (id, e) ↦ rw (e, candidate) (bare id)
  ]

module _ {F V : Type 0} (metric : Metric V) where
  scan_candidate-stripped :
      (q : List V) (space : Distance) (dist : Dict String V) (o : Option (Record F V))
      → vector_of o ≡ none
      → scan_candidate metric q space dist o ≡ dist
  unfolding scan_candidate
  scan_candidate-stripped q space dist none bare = refl
  scan_candidate-stripped q space dist (some r) bare = rw (bare, scan_candidate) refl

module _ {F V B I : Type 0} (metric : Metric V) where
  candidate_distances-stripped :
      (c : Collection F V B I) (q : List V) (space : Distance) (offsets : List ℕ)
      → AllStripped c.records
      → candidate_distances metric c q space [] offsets ≡ []
  unfolding candidate_distances
  candidate_distances-stripped c q space [] bare = refl
  candidate_distances-stripped c q space (offset ∷ offsets) bare =
      ap (λ dist. candidate_distances metric c q space dist offsets)
        (scan_candidate-stripped metric q space [] (candidate c offset)
          (candidate-stripped c offset bare))
      ∙ candidate_distances-stripped c q space offsets bare

module _ {F V B I : Type 0} ⦃fl : Floats F⦄ ⦃of : OrderedFloats fl⦄ ⦃bm : Bitmap B⦄ ⦃ix : Index I V⦄
    (metric : Metric V) where
  filtered_query-stripped :
      (c : Collection F V B I) (q : List V) (k ef : ℕ) (space : Distance) (filter : WhereFilter F)
      (oversampling : ℕ)
      → AllStripped c.records
      → c.buffer ≡ []
      → length (bm.iter (evaluate c.postings filter)) ≤ c.config.hnsw.max_scan
      → filtered_query metric c q k ef space filter oversampling ≡ ok []
  unfolding filtered_query buffer_distances build_scored
  filtered_query-stripped c q k ef space filter oversampling bare flushed few =
      let test : leb (length (bm.iter (evaluate c.postings filter))) c.config.hnsw.max_scan ≡ true =
        ground (arith, few) in
      rw
        (
          flushed,
          test,
          candidate_distances-stripped metric c q space (bm.iter (evaluate c.postings filter)) bare,
        )
        refl

  query-stripped :
      (s : Durable F V B I) (q : List V) (k : ℕ) (options : QueryOptions F) (filter : WhereFilter F)
      → options.where_filter ≡ some filter
      → Fits s q
      → AllStripped s.coll.records
      → s.coll.buffer ≡ []
      → length (bm.iter (evaluate s.coll.postings filter)) ≤ s.coll.config.hnsw.max_scan
      → query metric s q k options ≡ ok []
  unfolding query find sort_by
  query-stripped s q k options filter filtered fits bare flushed few =
      let test : (not (s.coll.config.dimension == 0) && not (length q == s.coll.config.dimension))
          ≡ false =
        ground (arith, fits) in
      rw
        (
          test,
          filtered,
          filtered_query-stripped s.coll q (max k 1)
              (if options.ef == 0 then s.coll.config.hnsw.ef_search else options.ef)
              s.coll.config.space filter options.oversampling bare flushed few,
        )
        (ap ok (take-nil (max k 1)))

module _ {F V B I K : Type 0} ⦃fl : Floats F⦄ ⦃of : OrderedFloats fl⦄ ⦃bm : Bitmap B⦄
    ⦃ix : Index I V⦄ ⦃catalog : Catalog K⦄ (metric : Metric V) (c : Codec (Operation F V)) where
  -- After a checkpoint that covers the seq of every record, with an empty buffer, a query with a
  -- filter that at most max_scan records match finds nothing, whatever the records are: the exact
  -- path reads the embeddings in the records, which the checkpoint took out, and not the segment.
  -- The checkpoint succeeded, its segment could be opened and the stale files removed, there are
  -- records, and the query has the dimension of the collection.
  pub query-checkpoint :
      (disk : Disk I) (fsync : Bool) (s t : Durable F V B I) (k l : K) (q : List V) (n : ℕ)
      (options : QueryOptions F) (filter : WhereFilter F)
      → disk.segment_opened ≡ true
      → disk.cleaned ≡ true
      → (length s.coll.records == 0) ≡ false
      → AllCovered s.coll.flushed_seq s.coll.records
      → s.coll.buffer ≡ []
      → checkpoint c disk fsync s k ≡ ((t, l), ok tt)
      → options.where_filter ≡ some filter
      → Fits s q
      → length (bm.iter (evaluate s.coll.postings filter)) ≤ s.coll.config.hnsw.max_scan
      → query metric t q n options ≡ ok []
  unfolding meta_of
  query-checkpoint disk fsync s t k l q n options filter opened cleaned live all flushed done
        filtered fits few =
      let kept = checkpoint-value c disk fsync s t k l opened cleaned live done in
      let m = s.coll.flushed_seq in
      let coll : t.coll ≡ record s.coll { records = strip m s.coll.records } =
        ap (λ x. x.coll) kept.state in
      let config : t.coll.config ≡ s.coll.config = ap (λ x. x.config) coll in
      let postings : t.coll.postings ≡ s.coll.postings = ap (λ x. x.postings) coll in
      query-stripped metric t q n options filter filtered
        (subst (λ x. (x.dimension ≡ 0) ⊎ (length q ≡ x.dimension)) (sym config) fits)
        (λ id.
          ap (λ x. vector_of (get x.records id)) coll
          ∙ (ap vector_of (get-strip m s.coll.records id) ∙ all id))
        (ap (λ x. x.buffer) coll ∙ flushed)
        (subst (λ x. length (bm.iter (evaluate x.postings filter)) ≤ x.config.hnsw.max_scan)
          (sym coll) few)
