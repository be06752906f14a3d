-- ===== src/Engine/Handlers/Snapshot.antt =====
-- `snapshot` and `restore_snapshot` of crates/rekha-engine/src/lib.rs: the records of every
-- collection, which a node of the cluster hands to another. A lock that is poisoned is left out.
use mathlib.Core.Path.{subst}
use rekha.Core.Config.{CollectionConfig}
use rekha.Prelude.{
  Option-cases, Bool-cases, inl, inr, ℕ, ◌≡◌, refl, sym, ◌∙◌, str_eq, eq_iff, true, false, String,
  Option, none, some, List, [], ◌∷◌, arith,
}
use rekha.Prelude.Dict
use rekha.Prelude.Dict.{Dict, string_eqv, get, get-insert}
use rekha.Engine.Base.{Record, Catalog, EngineError, EngineResult, ok, err}
use rekha.Engine.Durable.{Durable}
use rekha.Engine.Handlers.{Engine}

-- bincode on the records of a snapshot: what is written is read back.
pub record SnapshotCodec (F V : Type 0) : Type 0 where
  pub serialize : Dict String (List (Record F V)) → Option (List ℕ)
  pub deserialize : List ℕ → Option (Dict String (List (Record F V)))
  pub deserialize-serialize :
      (content : Dict String (List (Record F V))) (bytes : List ℕ)
      → serialize content ≡ some bytes
      → deserialize bytes ≡ some content

-- `records.values().cloned().collect()`
unfoldable pub values : {F V : Type 0} → Dict String (Record F V) → List (Record F V)
values [] = []
values ((id, r) ∷ rs) = r ∷ values rs

module _ {F V B I : Type 0} where
  -- the loop of `snapshot`
  unfoldable pub snapshot_data :
      Dict String (Durable F V B I)
      → Dict String (List (Record F V))
      → Dict String (List (Record F V))
  unfolding values
  snapshot_data [] content = content
  snapshot_data ((id, s) ∷ ss) content =
      snapshot_data ss (Dict.insert content id (values s.coll.records))

module _ {F V : Type 0} where
  -- the inner loop of `restore_snapshot`: neither the offsets nor the postings get the records
  unfoldable pub insert_records :
      Dict String (Record F V) → List (Record F V) → Dict String (Record F V)
  insert_records records [] = records
  insert_records records (r ∷ rs) = insert_records (Dict.insert records r.id r) rs

module _ {F V B I K : Type 0} (c : SnapshotCodec F V) where
  -- Engine::snapshot
  unfoldable pub snapshot : Engine F V B I K → EngineResult (List ℕ)
  unfolding snapshot_data
  snapshot e = elim (c.serialize (snapshot_data e.collections [])) [
    | none ↦ err EngineError.serialization
    | some bytes ↦ ok bytes
  ]

module _ {F V B I K : Type 0} where
  -- the collection with the id, if there is one, takes the records
  unfoldable pub take_records : Engine F V B I K → String → List (Record F V) → Engine F V B I K
  unfolding insert_records
  take_records e id records = elim (get e.collections id) [
    | none ↦ e
    | some s ↦
        let filled = record s {
          coll = record s.coll { records = insert_records s.coll.records records };
        } in
        record e { collections = Dict.insert e.collections id filled }
  ]

  -- the body of the loop of `restore_snapshot`, on the answer of the catalog: where the lookup
  -- succeeds and finds nothing, the collection is passed over
  unfoldable pub restore_one :
      Option (Option CollectionConfig)
      → Engine F V B I K
      → String
      → List (Record F V)
      → Engine F V B I K
  unfolding take_records
  restore_one (some none) e id records = e
  restore_one none e id records = take_records e id records
  restore_one (some (some config)) e id records = take_records e id records

module _ {F V B I K : Type 0} where
  -- The bytes of a snapshot are read back as its records.
  pub snapshot-read :
      (c : SnapshotCodec F V) (e : Engine F V B I K) (bytes : List ℕ)
      → snapshot c e ≡ ok bytes
      → c.deserialize bytes ≡ some (snapshot_data e.collections [])
  unfolding snapshot
  snapshot-read c e bytes taken =
      let content = snapshot_data e.collections [] in
      elim (Option-cases (c.serialize content)) [
        | inl n ↦ absurd (ground (arith, rw (n, snapshot) at taken))
        | inr (bytes', h) ↦
            let same : bytes' ≡ bytes = ground (arith, rw (h, snapshot) at taken) in
            rw same at (c.deserialize-serialize content bytes' h)
      ]

module _ {F V B I K : Type 0} ⦃catalog : Catalog K⦄ where
  -- the loop of `restore_snapshot`: the id is looked up as a name in the default database
  unfoldable pub restore_all : Engine F V B I K → Dict String (List (Record F V)) → Engine F V B I K
  unfolding restore_one
  restore_all e [] = e
  restore_all e ((id, records) ∷ content) =
      restore_all
        (restore_one (catalog.get_collection e.catalog "default_tenant" "default_database" id) e id
          records)
        content

  module _ (c : SnapshotCodec F V) where
    -- Engine::restore_snapshot
    unfoldable pub restore_snapshot :
        Engine F V B I K → List ℕ → Engine F V B I K × EngineResult (Unit {0})
    unfolding restore_all
    restore_snapshot e bytes = elim (c.deserialize bytes) [
      | none ↦ (e, err EngineError.serialization)
      | some content ↦ (restore_all e content, ok tt)
    ]

  -- a collection that is not named, or has another id, stays
  take_records-other :
      (e : Engine F V B I K) (j id : String) (records : List (Record F V))
      → str_eq j id ≡ false
      → (get (take_records e j records).collections id ≡ get e.collections id)
        × ((take_records e j records).catalog ≡ e.catalog)
  unfolding take_records
  take_records-other e j id records apart = elim (Option-cases (get e.collections j)) [
    | inl out ↦ rw (out, take_records) (refl, refl)
    | inr (s, at) ↦ rw (at, take_records) (get-insert e.collections j id _ ∙ rw apart refl, refl)
  ]

  restore_one-other :
      (e : Engine F V B I K) (j id : String) (records : List (Record F V))
      (found : Option (Option CollectionConfig))
      → (str_eq j id ≡ true → found ≡ some none)
      → (get (restore_one found e j records).collections id ≡ get e.collections id)
        × ((restore_one found e j records).catalog ≡ e.catalog)
  unfolding restore_one
  restore_one-other e j id records (some none) skipped = (refl, refl)
  restore_one-other e j id records none skipped = elim (Bool-cases (str_eq j id)) [
    | inl t ↦ absurd (ground (arith, skipped t))
    | inr f ↦ take_records-other e j id records f
  ]
  restore_one-other e j id records (some (some config)) skipped = elim (Bool-cases (str_eq j id)) [
    | inl t ↦ absurd (ground (arith, skipped t))
    | inr f ↦ take_records-other e j id records f
  ]

  restore_all-unnamed :
      (e : Engine F V B I K) (content : Dict String (List (Record F V))) (id : String)
      → catalog.get_collection e.catalog "default_tenant" "default_database" id ≡ some none
      → (get (restore_all e content).collections id ≡ get e.collections id)
        × ((restore_all e content).catalog ≡ e.catalog)
  unfolding restore_all
  restore_all-unnamed e [] id unnamed = (refl, refl)
  restore_all-unnamed e ((j, records) ∷ content) id unnamed =
      let found = catalog.get_collection e.catalog "default_tenant" "default_database" j in
      let e1 : Engine F V B I K = restore_one found e j records in
      let (same, catalog_same) = restore_one-other e j id records found (λ t.
        subst
          (λ i. catalog.get_collection e.catalog "default_tenant" "default_database" i ≡ some none)
          (sym ((eq_iff j id).0 t)) unnamed) in
      let (rest, catalog_rest) = restore_all-unnamed e1 content id (
        subst (λ k. catalog.get_collection k "default_tenant" "default_database" id ≡ some none)
          (sym catalog_same) unnamed) in
      (rest ∙ same, catalog_rest ∙ catalog_same)

  -- Restoring the snapshot of any other node succeeds, and leaves each collection as it was whose
  -- id is not the name of a collection in the default database, although the snapshot has the
  -- records of that id: the ids of the snapshot are looked up as names. What is found for the other
  -- ids does not matter, and the catalog stays as it was.
  pub restore_snapshot-unnamed :
      (c : SnapshotCodec F V) (leader follower : Engine F V B I K) (bytes : List ℕ) (id : String)
      → catalog.get_collection follower.catalog "default_tenant" "default_database" id ≡ some none
      → snapshot c leader ≡ ok bytes
      → (e' : Engine F V B I K) × (restore_snapshot c follower bytes ≡ (e', ok tt))
        × (get e'.collections id ≡ get follower.collections id)
        × (e'.catalog ≡ follower.catalog)
  unfolding restore_snapshot
  restore_snapshot-unnamed c leader follower bytes id unnamed taken =
      let content = snapshot_data leader.collections [] in
      (
        restore_all follower content,
        rw (snapshot-read c leader bytes taken, restore_snapshot) refl,
        (restore_all-unnamed follower content id unnamed).0,
        (restore_all-unnamed follower content id unnamed).1,
      )
