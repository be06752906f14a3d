-- ===== src/Engine/Handlers/Restored.antt =====
-- What a node has after it restored the snapshot of another, where the catalog finds the name:
-- `restore_snapshot` of crates/rekha-engine/src/lib.rs.
use rekha.Prelude.{
  ℕ, ◌≡◌, ◌≢◌, refl, sym, ap, ◌∙◌, String, false, Option, none, some, List, [], ◌∷◌, str_eq, eq_iff,
  eq_refl, Bool-cases, Option-cases, inl, inr, arith,
}
use rekha.Prelude.Dict
use rekha.Prelude.Dict.{Dict, string_eqv, get, Unique, get-insert, get_cong, insert-Unique}
use rekha.Core.Config.{CollectionConfig}
use rekha.Engine.Base.{Record, Catalog, ok}
use rekha.Engine.Durable.{Durable}
use rekha.Engine.Handlers.{Engine}
use rekha.Engine.Handlers.Snapshot.{
  SnapshotCodec, values, snapshot_data, insert_records, snapshot, take_records, restore_one,
  restore_all, restore_snapshot, snapshot-read,
}

-- the first, or else the second
abbrev pub over : {A : Type 0} → Option A → Option A → Option A
over none b = b
over (some a) b = some a

-- Each record stands at its id.
abbrev pub AreKeyed : {F V : Type 0} → Dict String (Record F V) → Type 0
AreKeyed [] = Unit
AreKeyed ((id, r) ∷ rs) = (r.id ≡ id) × AreKeyed rs

module _ {F V : Type 0} where
  insert_records-values :
      (rs records : Dict String (Record F V)) (j : String)
      → Unique rs
      → AreKeyed rs
      → get (insert_records records (values rs)) j ≡ over (get rs j) (get records j)
  unfolding insert_records values get
  insert_records-values [] records j unique keyed = refl
  insert_records-values ((id, r) ∷ rs) records j unique keyed =
      let ih = insert_records-values rs (Dict.insert records r.id r) j unique.1 keyed.1 in
      ground (arith, ih, get-insert records r.id j r, get_cong rs id j, unique.0, keyed.0)

module _ {F V B I : Type 0} where
  abbrev values_at : Option (Durable F V B I) → Option (List (Record F V))
  values_at none = none
  values_at (some s) = some (values s.coll.records)

  get-snapshot_data :
      (ss : Dict String (Durable F V B I)) (content : Dict String (List (Record F V))) (id : String)
      → Unique ss
      → get (snapshot_data ss content) id ≡ over (values_at (get ss id)) (get content id)
  unfolding snapshot_data get
  get-snapshot_data [] content id unique = refl
  get-snapshot_data ((j, s) ∷ ss) content id unique =
      let records = values s.coll.records in
      let ih = get-snapshot_data ss (Dict.insert content j records) id unique.1 in
      ground (arith, ih, get-insert content j id records, get_cong ss j id, unique.0)

  snapshot_data-Unique :
      (ss : Dict String (Durable F V B I)) (content : Dict String (List (Record F V)))
      → Unique content
      → Unique (snapshot_data ss content)
  unfolding snapshot_data
  snapshot_data-Unique [] content unique = unique
  snapshot_data-Unique ((j, s) ∷ ss) content unique =
      snapshot_data-Unique ss (Dict.insert content j (values s.coll.records))
        (insert-Unique content j (values s.coll.records) unique)

  -- the collection with the records of a snapshot
  abbrev pub filled : Durable F V B I → List (Record F V) → Durable F V B I
  filled s rs = record s { coll = record s.coll { records = insert_records s.coll.records rs } }

module _ {F V B I K : Type 0} where
  restore_one-catalog :
      (o : Option (Option CollectionConfig)) (e : Engine F V B I K) (id : String)
      (rs : List (Record F V))
      → (restore_one o e id rs).catalog ≡ e.catalog
  unfolding restore_one take_records
  restore_one-catalog o e id rs = ground arith

  take_records-other :
      (e : Engine F V B I K) (id j : String) (rs : List (Record F V))
      → str_eq id j ≡ false
      → get (take_records e id rs).collections j ≡ get e.collections j
  unfolding take_records
  take_records-other e id j rs other = elim (Option-cases (get e.collections id)) [
    | inl n ↦ rw (n, take_records) refl
    | inr (s, h) ↦
        rw (h, take_records) (get-insert e.collections id j (filled s rs) ∙ rw other refl)
  ]

  take_records-found :
      (e : Engine F V B I K) (id : String) (rs : List (Record F V)) (t : Durable F V B I)
      → get e.collections id ≡ some t
      → get (take_records e id rs).collections id ≡ some (filled t rs)
  unfolding take_records
  take_records-found e id rs t found =
      rw (found, take_records) (get-insert e.collections id id (filled t rs) ∙ rw (eq_refl id) refl)

  restore_one-other :
      (o : Option (Option CollectionConfig)) (e : Engine F V B I K) (id j : String)
      (rs : List (Record F V))
      → str_eq id j ≡ false
      → get (restore_one o e id rs).collections j ≡ get e.collections j
  unfolding restore_one
  restore_one-other (some none) e id j rs other = refl
  restore_one-other none e id j rs other = take_records-other e id j rs other
  restore_one-other (some (some config)) e id j rs other = take_records-other e id j rs other

  restore_one-found :
      (o : Option (Option CollectionConfig)) (e : Engine F V B I K) (id : String)
      (rs : List (Record F V)) (t : Durable F V B I)
      → get e.collections id ≡ some t
      → o ≢ some none
      → get (restore_one o e id rs).collections id ≡ some (filled t rs)
  unfolding restore_one
  restore_one-found (some none) e id rs t found named = absurd (named refl)
  restore_one-found none e id rs t found named = take_records-found e id rs t found
  restore_one-found (some (some config)) e id rs t found named = take_records-found e id rs t found

module _ {K : Type 0} ⦃catalog : Catalog K⦄ where
  -- what the catalog answers for the id as a name
  abbrev pub answer : K → String → Option (Option CollectionConfig)
  answer k id = catalog.get_collection k "default_tenant" "default_database" id

module _ {F V B I K : Type 0} ⦃catalog : Catalog K⦄ where
  restore_all-absent :
      (e : Engine F V B I K) (content : Dict String (List (Record F V))) (id : String)
      → get content id ≡ none
      → get (restore_all e content).collections id ≡ get e.collections id
  unfolding restore_all get
  restore_all-absent e [] id absent = refl
  restore_all-absent e ((j, rs) ∷ content) id absent = elim (Bool-cases (str_eq j id)) [
    | inl t ↦ absurd (ground (arith, absent, t))
    | inr f ↦
        restore_all-absent (restore_one (answer e.catalog j) e j rs) content id (rw f at absent)
        ∙ restore_one-other (answer e.catalog j) e j id rs f
  ]

  restore_all-found :
      (e : Engine F V B I K) (content : Dict String (List (Record F V))) (id : String)
      (rs : List (Record F V)) (t : Durable F V B I)
      → Unique content
      → get content id ≡ some rs
      → get e.collections id ≡ some t
      → answer e.catalog id ≢ some none
      → get (restore_all e content).collections id ≡ some (filled t rs)
  unfolding restore_all get
  restore_all-found e [] id rs t unique h found named = ground arith
  restore_all-found e ((j, rs') ∷ content) id rs t unique h found named =
      elim (Bool-cases (str_eq j id)) [
        | inl same ↦
            let j_id : j ≡ id = (eq_iff j id).0 same in
            let rs_rs : rs' ≡ rs = ground (arith, rw same at h) in
            rw (j_id, rs_rs)
              (restore_all-absent (restore_one (answer e.catalog id) e id rs) content id
                  (rw j_id at unique.0)
                ∙ restore_one-found (answer e.catalog id) e id rs t found named)
        | inr other ↦
            restore_all-found (restore_one (answer e.catalog j) e j rs') content id rs t unique.1
              (rw other at h) (restore_one-other (answer e.catalog j) e j id rs' other ∙ found)
              (λ n. named (
                ap (λ k. answer k id) (sym (restore_one-catalog (answer e.catalog j) e j rs')) ∙ n))
      ]

  -- Where the lookup of the id as a name fails or finds something, restoring the snapshot of
  -- another node succeeds, and the collection that both have then reads at each id the record of
  -- the other node, or else its own; but its offsets and its postings are as before, so they do not
  -- have the new records. No two collections of the other node, and no two records of its
  -- collection, have one id, and each record stands at its id.
  pub restore_snapshot-records :
      (c : SnapshotCodec F V) (leader follower : Engine F V B I K) (bytes : List ℕ) (id : String)
      (s t : Durable F V B I)
      → get leader.collections id ≡ some s
      → get follower.collections id ≡ some t
      → answer follower.catalog id ≢ some none
      → Unique leader.collections
      → Unique s.coll.records
      → AreKeyed s.coll.records
      → snapshot c leader ≡ ok bytes
      → (e' : Engine F V B I K) × (t' : Durable F V B I) × (restore_snapshot c follower bytes
          ≡ (e', ok tt))
        × (get e'.collections id ≡ some t')
        × ((j : String)
            → get t'.coll.records j ≡ over (get s.coll.records j) (get t.coll.records j))
        × (t'.coll.offsets ≡ t.coll.offsets)
        × (t'.coll.postings ≡ t.coll.postings)
  unfolding restore_snapshot get
  restore_snapshot-records c leader follower bytes id s t led followed named ids unique keyed
        taken =
      let content = snapshot_data leader.collections [] in
      let there : get content id ≡ some (values s.coll.records) =
        get-snapshot_data leader.collections [] id ids ∙ ap (λ o. over (values_at o) none) led in
      (
        restore_all follower content,
        filled t (values s.coll.records),
        rw (snapshot-read c leader bytes taken, restore_snapshot) refl,
        restore_all-found follower content id (values s.coll.records) t
            (snapshot_data-Unique leader.collections [] tt) there followed named,
        λ j. insert_records-values s.coll.records t.coll.records j unique keyed,
        refl,
        refl,
      )
