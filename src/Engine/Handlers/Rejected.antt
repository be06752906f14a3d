-- ===== src/Engine/Handlers/Rejected.antt =====
-- What a batch that `add` of crates/rekha-engine/src/lib.rs rejects leaves behind.
use rekha.Prelude.{
  ◌≡◌, ◌≢◌, refl, ap, ◌∙◌, String, true, false, Option, none, some, List, [], ◌∷◌, length, ◌==◌,
  if◌then◌else◌, Bool, str_eq, arith,
}
use rekha.Prelude.Dict.{Dict, string_eqv, get, get-insert, get_cong}
use rekha.Core.Types.{Floats, Metadata}
use rekha.Core.Op.{Operation}
use rekha.Wal.{Codec}
use rekha.Engine.Bitmap.{Bitmap}
use rekha.Engine.ValueKey.{OrderedFloats}
use rekha.Engine.Base.{Index, Catalog, EngineError, err, validation, wrong_dimension}
use rekha.Engine.Collection.{Collection}
use rekha.Engine.Durable.{Durable}
use rekha.Engine.Durable.Checkpoint.{Disk}
use rekha.Engine.Validation.{
  validate_add, validate_counts, check_slice_lengths, check_dimensions, check_lengths,
}
use rekha.Engine.Handlers.{
  Engine, Outcome, collection, put, on_collection, infer_dimension, write_validated, add_to, add,
}

module _ {F V B I K : Type 0} where
  pub on_collection-some :
      (e : Engine F V B I K) (id : String) (s : Durable F V B I) (outcome : Outcome F V B I K)
      (handler : Durable F V B I → K → Option (Outcome F V B I K))
      → get e.collections id ≡ some s
      → handler s e.catalog ≡ some outcome
      → on_collection e id handler ≡ some (put e id outcome)
  unfolding on_collection collection
  on_collection-some e id s outcome handler found result =
      rw (found, on_collection, collection, result, on_collection) refl

  -- A collection that was put is found, and the others are as they were.
  pub put-collections :
      (e : Engine F V B I K) (id : String) (outcome : Outcome F V B I K) (j : String)
      → get (put e id outcome).0.collections j
        ≡ (if str_eq id j then some outcome.0.0 else get e.collections j)
  unfolding put
  put-collections e id ((s, k), result) j = get-insert e.collections id j s

module _ {F V B I : Type 0} where
  -- A collection with a dimension is not changed.
  infer_dimension-sized :
      (s : Durable F V B I) (es : List (List V))
      → (s.coll.config.dimension == 0) ≡ false
      → infer_dimension s es ≡ (s, none)
  unfolding infer_dimension
  infer_dimension-sized s [] sized = refl
  infer_dimension-sized s (v ∷ es) sized = rw sized refl

  -- A collection without a dimension gets that of the first vector.
  infer_dimension-unset :
      (s : Durable F V B I) (v : List V) (es : List (List V))
      → s.coll.config.dimension ≡ 0
      → (infer_dimension s (v ∷ es)).0.coll.config.dimension ≡ length v
  unfolding infer_dimension
  infer_dimension-unset s v es unset =
      let test : (s.coll.config.dimension == 0) ≡ true = ground (arith, unset) in rw test refl

  validate_add-dimension :
      (c : Collection F V B I) (ids : List String) (w : List V) (ws : List (List V))
      → c.config.dimension ≢ 0
      → length w ≢ c.config.dimension
      → length ids ≡ length (w ∷ ws)
      → validate_add c ids (w ∷ ws) none none ≡ err (validation wrong_dimension)
  unfolding validate_add validate_counts check_slice_lengths check_dimensions check_lengths
  validate_add-dimension c ids w ws sized other counts = ground (arith, sized, other, counts)

  -- To put back what was there changes no lookup.
  put_back :
      (m : Dict String (Durable F V B I)) (id : String) (s : Durable F V B I) (j : String)
      → get m id ≡ some s
      → (if str_eq id j then some s else get m j) ≡ get m j
  put_back m id s j found = ground (arith, get_cong m id j, found)

module _ {F V B I K : Type 0} ⦃fl : Floats F⦄ ⦃of : OrderedFloats fl⦄ ⦃bm : Bitmap B⦄
    ⦃ix : Index I V⦄ ⦃catalog : Catalog K⦄ (c : Codec (Operation F V)) (disk : Disk I)
    (fsync : Bool) where
  add-err :
      (e : Engine F V B I K) (id : String) (s : Durable F V B I) (ids : List String)
      (es : List (List V)) (ms : Option (List (Option (Metadata F))))
      (ds : Option (List (Option String))) (x : EngineError)
      → get e.collections id ≡ some s
      → validate_add (infer_dimension s es).0.coll ids es ms ds ≡ err x
      → add c disk fsync e id ids es ms ds
        ≡ some (put e id (((infer_dimension s es).0, e.catalog), err x))
  unfolding add add_to
  add-err e id s ids es ms ds x found rejected =
      on_collection-some e id s (((infer_dimension s es).0, e.catalog), err x)
        (add_to c disk fsync id ids es ms ds) found (rw (rejected, write_validated) refl)

  -- If the validation of an add rejects its batch and the collection has a dimension, the add gives
  -- the error, and the catalog and every collection are as they were.
  pub add-rejected :
      (e : Engine F V B I K) (id : String) (s : Durable F V B I) (ids : List String)
      (es : List (List V)) (ms : Option (List (Option (Metadata F))))
      (ds : Option (List (Option String))) (x : EngineError)
      → get e.collections id ≡ some s
      → (s.coll.config.dimension == 0) ≡ false
      → validate_add s.coll ids es ms ds ≡ err x
      → (e' : Engine F V B I K) × (add c disk fsync e id ids es ms ds ≡ some (e', err x))
        × (e'.catalog ≡ e.catalog)
        × ((j : String) → get e'.collections j ≡ get e.collections j)
  unfolding put
  add-rejected e id s ids es ms ds x found sized rejected =
      let same = infer_dimension-sized s es sized in
      let kept = ap (λ i. i.0) same in
      (
        (put e id (((infer_dimension s es).0, e.catalog), err x)).0,
        add-err e id s ids es ms ds x found (rw kept rejected),
        refl,
        λ j.
            put-collections e id (((infer_dimension s es).0, e.catalog), err x) j
            ∙ put_back e.collections id (infer_dimension s es).0 j (rw kept found),
      )

  -- In a collection without a dimension, an add that is rejected leaves the dimension of its first
  -- embedding: an add whose first embedding has another length is then rejected for its dimension.
  -- The first embedding is not empty, and the second batch has an id for each embedding.
  pub add-keeps_dimension :
      (e : Engine F V B I K) (id : String) (s : Durable F V B I) (ids jds : List String)
      (v w : List V) (es ws : List (List V)) (ms : Option (List (Option (Metadata F))))
      (ds : Option (List (Option String))) (x : EngineError)
      → get e.collections id ≡ some s
      → s.coll.config.dimension ≡ 0
      → validate_add (infer_dimension s (v ∷ es)).0.coll ids (v ∷ es) ms ds ≡ err x
      → length v ≢ 0
      → length w ≢ length v
      → length jds ≡ length (w ∷ ws)
      → (e' : Engine F V B I K) × (e'' : Engine F V B I K) × (add c disk fsync e id ids
            (v ∷ es)
            ms
            ds
          ≡ some (e', err x))
        × (add c disk fsync e' id jds (w ∷ ws) none none
            ≡ some (e'', err (validation wrong_dimension)))
  unfolding put
  add-keeps_dimension e id s ids jds v w es ws ms ds x found unset rejected some_length other
        counts =
      let s' = (infer_dimension s (v ∷ es)).0 in
      let outcome : Outcome F V B I K = ((s', e.catalog), err x) in
      let e' = (put e id outcome).0 in
      let found' : get e'.collections id ≡ some s' =
        put-collections e id outcome id
        ∙ ap (λ b. if b then some s' else get e.collections id) (string_eqv.beq_refl id) in
      let size : s'.coll.config.dimension ≡ length v = infer_dimension-unset s v es unset in
      let same : infer_dimension s' (w ∷ ws) ≡ (s', none) =
        infer_dimension-sized s' (w ∷ ws) (ground (arith, size, some_length)) in
      (
        e',
        (put e' id
            (((infer_dimension s' (w ∷ ws)).0, e'.catalog), err (validation wrong_dimension))).0,
        add-err e id s ids (v ∷ es) ms ds x found rejected,
        add-err e' id s' jds (w ∷ ws) none none (validation wrong_dimension) found' (
            rw (ap (λ i. i.0.coll) same) (
              validate_add-dimension s'.coll jds w ws (omega (arith, size, some_length))
                (omega (arith, size, other)) counts)),
      )
