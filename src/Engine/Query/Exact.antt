-- ===== src/Engine/Query/Exact.antt =====
-- What a query of a small collection answers, without a filter: `query` and `brute_force` of
-- crates/rekha-engine/src/collection.rs.
use mathlib.Core.Path.{subst}
use rekha.Prelude.{
  ℕ, ◌+◌, ◌≤◌, ◌≡◌, ◌⊎◌, refl, sym, ap, inl, inr, String, true, false, not, ◌&&◌, Option, none,
  some, List, [], ◌∷◌, ◌++◌, length, take, drop, leb, ◌==◌, Bool-cases, Option-cases, str_eq,
  eq_iff, eq_refl, arith,
}
use rekha.Prelude.Dict.{Dict, string_eqv, get, Unique}
use rekha.Core.Types.{Floats, Distance}
use rekha.Engine.Bitmap.{Bitmap}
use rekha.Engine.ValueKey.{OrderedFloats}
use rekha.Engine.Base.{Record, Index, ok}
use rekha.Engine.Durable.{Durable, max}
use rekha.Engine.Lookup.{load_vector, or_else}
use rekha.Engine.Query.{
  Metric, QueryOptions, ScoredPoint, scan_records, brute_force, sort_by, find, query,
}
use rekha.Engine.Query.Sort.{
  In, take-drop, take-full, IsOrdered, IsAscending, HaveOwnIds, sort_by-IsAscending,
  sort_by-HaveOwnIds, In-sort_by, sort_by-In,
}

module _ {F V B I : Type 0} where
  -- the vector that a live record is searched by
  abbrev pub searched_vector : Durable F V B I → String → Record F V → Option (List V)
  searched_vector s id r = or_else (load_vector s id) r.embedding

  -- the collection takes vectors of the length of the query's
  abbrev pub Fits : Durable F V B I → List V → Type 0
  Fits s q = (s.coll.config.dimension ≡ 0) ⊎ (length q ≡ s.coll.config.dimension)

module _ {F V : Type 0} (metric : Metric V) where
  abbrev pub point : List V → Distance → String → Record F V → List V → ScoredPoint F V
  point q space id r v = record {
    id = id;
    distance = metric.distance space q v;
    metadata = r.metadata;
    document = r.document;
  }

module _ {F V B I : Type 0} (metric : Metric V) where
  -- A point of a live record, at the distance of its vector.
  abbrev pub IsLivePoint :
      Durable F V B I → List V → Distance → Dict String (Record F V) → ScoredPoint F V → Type 0
  IsLivePoint s q space rs p =
      (r : Record F V) × (v : List V) × (get rs p.id ≡ some r)
      × (searched_vector s p.id r ≡ some v)
      × (p ≡ point metric q space p.id r v)

  In-scan_records :
      (s : Durable F V B I) (q : List V) (space : Distance) (rs : Dict String (Record F V))
      (id : String) (r : Record F V) (v : List V)
      → get rs id ≡ some r
      → searched_vector s id r ≡ some v
      → In (point metric q space id r v) (scan_records metric s q space rs)
  unfolding scan_records get
  In-scan_records s q space [] id r v found has = cc
  In-scan_records s q space ((j, w) ∷ rs) id r v found has = elim (Bool-cases (str_eq j id)) [
    | inl t ↦
        let j_id = (eq_iff j id).0 t in
        let w_r : w ≡ r = ground (arith, t, found) in
        let head : searched_vector s j w ≡ some v = rw (j_id, w_r) has in
        let same : point metric q space id r v ≡ point metric q space j w v = rw (j_id, w_r) refl in
        rw (head, scan_records) (inl same)
    | inr f ↦
        let ih = In-scan_records s q space rs id r v (rw f at found) has in
        elim (Option-cases (searched_vector s j w)) [
          | inl n ↦ rw (n, scan_records) ih
          | inr (x, e) ↦ rw (e, scan_records) (inr ih)
        ]
  ]

  -- A point of the other entries is one of all of them.
  IsLivePoint-later :
      (s : Durable F V B I) (q : List V) (space : Distance) (j : String) (w : Record F V)
      (rs : Dict String (Record F V)) (p : ScoredPoint F V)
      → get rs j ≡ none
      → IsLivePoint s q space rs p
      → IsLivePoint s q space ((j, w) ∷ rs) p
  unfolding get
  IsLivePoint-later s q space j w rs p absent (r, v, found, has, e) =
      elim (Bool-cases (str_eq j p.id)) [
        | inl t ↦ let j_id = (eq_iff j p.id).0 t in cc (absent, found, j_id)
        | inr f ↦ (r, v, rw f found, has, e)
      ]

  scan_records-In :
      (s : Durable F V B I) (q : List V) (space : Distance) (rs : Dict String (Record F V))
      (p : ScoredPoint F V)
      → Unique rs
      → In p (scan_records metric s q space rs)
      → IsLivePoint s q space rs p
  unfolding scan_records get
  scan_records-In s q space [] p u h = absurd h
  scan_records-In s q space ((j, w) ∷ rs) p u h = elim (Option-cases (searched_vector s j w)) [
    | inl n ↦
        IsLivePoint-later s q space j w rs p u.0
          (scan_records-In s q space rs p u.1 (rw (n, scan_records) at h))
    | inr (x, e) ↦
        let h' : In p (point metric q space j w x ∷ scan_records metric s q space rs) =
          rw (e, scan_records) at h in
        elim h' [
          | inr later ↦
              IsLivePoint-later s q space j w rs p u.0 (scan_records-In s q space rs p u.1 later)
          | inl here ↦
              subst (λ o. IsLivePoint s q space ((j, w) ∷ rs) o) (sym here)
                (w, x, rw (eq_refl j) refl, e, refl)
        ]
  ]

  scan_records-HaveOwnIds :
      (s : Durable F V B I) (q : List V) (space : Distance) (rs : Dict String (Record F V))
      → Unique rs
      → HaveOwnIds (scan_records metric s q space rs)
  unfolding scan_records
  scan_records-HaveOwnIds s q space [] u = tt
  scan_records-HaveOwnIds s q space ((j, w) ∷ rs) u =
      let rest = scan_records-HaveOwnIds s q space rs u.1 in
      elim (Option-cases (searched_vector s j w)) [
        | inl n ↦ rw (n, scan_records) rest
        | inr (x, e) ↦
            rw (e, scan_records)
              (
                (λ y at same.
                    let (r, v, found, has, p) = scan_records-In s q space rs y u.1 at in
                    ground (arith, u.0, found, ap (get rs) same)),
                rest,
              )
      ]

module _ {F V B I : Type 0} (metric : Metric V) where
  -- `out` has the `top` points of the live records that are nearest to `q`, and `rest` the others.
  pub record IsNearest (s : Durable F V B I) (q : List V) (top : ℕ)
      (out rest : List (ScoredPoint F V)) : Type 0 where
    pub ascending : IsAscending metric (out ++ rest)
    pub own_ids : HaveOwnIds (out ++ rest)
    pub few : length out ≤ top
    pub full : (rest ≡ []) ⊎ (length out ≡ top)
    pub complete :
        (id : String) (r : Record F V) (v : List V)
        → get s.coll.records id ≡ some r
        → searched_vector s id r ≡ some v
        → In (point metric q s.coll.config.space id r v) (out ++ rest)
    pub live :
        (p : ScoredPoint F V)
        → In p (out ++ rest)
        → IsLivePoint metric s q s.coll.config.space s.coll.records p

module _ {F V B I : Type 0} ⦃fl : Floats F⦄ ⦃of : OrderedFloats fl⦄ ⦃bm : Bitmap B⦄ ⦃ix : Index I V⦄
    (metric : Metric V) where
  query-brute_force :
      (s : Durable F V B I) (q : List V) (k : ℕ) (options : QueryOptions F)
      → options.where_filter ≡ none
      → Fits s q
      → ix.len s.coll.index + length s.coll.buffer ≤ s.coll.config.hnsw.max_scan
      → query metric s q k options
        ≡ ok (take (max k 1) (sort_by metric (brute_force metric s q s.coll.config.space)))
  unfolding query find
  query-brute_force s q k options plain fits small =
      let test : (not (s.coll.config.dimension == 0) && not (length q == s.coll.config.dimension))
          ≡ false =
        ground (arith, fits) in
      let scan : leb (ix.len s.coll.index + length s.coll.buffer) s.coll.config.hnsw.max_scan
          ≡ true =
        ground (arith, small) in
      rw (test, plain, scan) refl

  -- A query without a filter on a collection whose index and buffer have at most max_scan records
  -- succeeds. Its points, followed by the points it leaves out, are in ascending order of distance,
  -- none before one that is nearer, and no two have one id; there are at most the greater of k and
  -- 1, and exactly that many if any is left out; together they are the points of the live records
  -- that have a vector, each at the distance of the vector that reading it prefers. The comparison
  -- orders the distances that are numbers, and those of the live records are; no two records have
  -- one id, and the query has the dimension of the collection.
  pub query-IsNearest :
      (IsNumber : V → Type 0) (s : Durable F V B I) (q : List V) (k : ℕ) (options : QueryOptions F)
      → IsOrdered metric IsNumber
      → ((id : String) (r : Record F V) (v : List V)
          → get s.coll.records id ≡ some r
          → searched_vector s id r ≡ some v
          → IsNumber (metric.distance s.coll.config.space q v))
      → Unique s.coll.records
      → options.where_filter ≡ none
      → Fits s q
      → ix.len s.coll.index + length s.coll.buffer ≤ s.coll.config.hnsw.max_scan
      → (out : List (ScoredPoint F V)) × (rest : List (ScoredPoint F V)) × (query metric s q k
            options
          ≡ ok out)
        × IsNearest metric s q (max k 1) out rest
  unfolding brute_force
  query-IsNearest IsNumber s q k options ordered numbers unique plain fits small =
      let space = s.coll.config.space in
      let points = brute_force metric s q space in
      let sorted = sort_by metric points in
      let top = max k 1 in
      let whole = take-drop top sorted in
      let (few, full) = take-full top sorted in
      let live = λ (p : ScoredPoint F V) (h : In p points).
        scan_records-In metric s q space s.coll.records p unique h in
      let at_numbers : (p : ScoredPoint F V) → In p points → IsNumber p.distance = λ p h.
        let (r, v, found, has, e) = live p h in
        subst (λ x. IsNumber x.distance) (sym e) (numbers p.id r v found has) in
      (
        take top sorted,
        drop top sorted,
        query-brute_force s q k options plain fits small,
        record {
          ascending =
              subst (IsAscending metric) (sym whole)
                (sort_by-IsAscending metric IsNumber ordered points at_numbers);
          own_ids = subst HaveOwnIds (sym whole) (
              sort_by-HaveOwnIds metric points
                (scan_records-HaveOwnIds metric s q space s.coll.records unique));
          few = few;
          full = full;
          complete = λ id r v found has. subst (In (point metric q space id r v)) (sym whole) (
              In-sort_by metric (point metric q space id r v) points
                (In-scan_records metric s q space s.coll.records id r v found has));
          live = λ p h. live p (sort_by-In metric p points (subst (In p) whole h));
        },
      )
