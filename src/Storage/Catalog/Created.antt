-- ===== src/Storage/Catalog/Created.antt =====
-- A collection that is created is indexed, and is found by its name.
use rekha.Prelude.{
  ◌≡◌, ◌↔◌, sym, ap, ◌∙◌, String, Option, none, some, inl, inr, Bool-cases, Option-cases, str_eq,
  eq_iff, arith,
}
use rekha.Prelude.Dict
use rekha.Prelude.Dict.{Dict, string_eqv, get, get-insert, get-remove, get_cong}
use mathlib.Core.Path.{subst}
use rekha.Core.Types.{Metadata}
use rekha.Core.Config.{CollectionConfig}
use rekha.Storage.Catalog.Keys.{name_key_eqv, same_name, same_name-eq}
use rekha.Storage.Catalog.Indexed.{IsIndexed}
use rekha.Storage.Catalog.{
  CollectionRecord, RedbCatalog, empty, name_key, create_collection, get_collection,
  get_collection_by_id,
}

module _ {F : Type 0} where
  -- The tables after a collection was created.
  abbrev pub created : RedbCatalog F → CollectionConfig → Option (Metadata F) → RedbCatalog F
  created c config metadata = record c {
    collections =
        Dict.insert c.collections config.id
          (record { config = config; metadata = metadata; max_seq_id = 0; total_elements = 0 });
    collection_by_name = Dict.insert c.collection_by_name (name_key config) config.id;
  }

  created-named :
      (c : RedbCatalog F) (config : CollectionConfig) (metadata : Option (Metadata F)) (j : String)
      (s : CollectionRecord F)
      → get c.collection_by_name (name_key config) ≡ none
      → IsIndexed c
      → get (created c config metadata).collections j ≡ some s
      → (s.config.id ≡ j)
        × (get (created c config metadata).collection_by_name (name_key s.config) ≡ some j)
  created-named c config metadata j s free h at = elim (Bool-cases (str_eq config.id j)) [
    | inl t ↦
        let r : CollectionRecord F = record {
          config = config;
          metadata = metadata;
          max_seq_id = 0;
          total_elements = 0;
        } in
        let same : config.id ≡ j = (eq_iff config.id j).0 t in
        let here : r ≡ s = ground (arith, get-insert c.collections config.id j r) in
        subst
          (λ x.
            (x.config.id ≡ j)
            × (get (created c config metadata).collection_by_name (name_key x.config) ≡ some j))
          here
          (
            same,
            get-insert c.collection_by_name (name_key config) (name_key config) config.id
                ∙ rw (name_key_eqv.beq_refl (name_key config)) (ap some same),
          )
    | inr f ↦
        let r : CollectionRecord F = record {
          config = config;
          metadata = metadata;
          max_seq_id = 0;
          total_elements = 0;
        } in
        let (p, q) = h.named j s (ground (arith, get-insert c.collections config.id j r)) in
        (
          p,
          elim (Bool-cases (same_name (name_key config) (name_key s.config))) [
            | inl t ↦
                let same = same_name-eq (name_key config) (name_key s.config) t in
                let both : get c.collection_by_name (name_key s.config) ≡ none =
                  subst (λ k. get c.collection_by_name k ≡ none) same free in
                absurd (ground (arith, both, q))
            | inr f' ↦
                get-insert c.collection_by_name (name_key config) (name_key s.config) config.id
                ∙ rw f' q
          ],
        )
  ]

  created-found :
      (c : RedbCatalog F) (config : CollectionConfig) (metadata : Option (Metadata F))
      (k : String × (String × String)) (j : String)
      → get c.collections config.id ≡ none
      → IsIndexed c
      → get (created c config metadata).collection_by_name k ≡ some j
      → (s : CollectionRecord F) × (get (created c config metadata).collections j ≡ some s)
        × (name_key s.config ≡ k)
  created-found c config metadata k j fresh h at =
      let r : CollectionRecord F = record {
        config = config;
        metadata = metadata;
        max_seq_id = 0;
        total_elements = 0;
      } in
      let names = get-insert c.collection_by_name (name_key config) k config.id in
      elim (Bool-cases (same_name (name_key config) k)) [
        | inl t ↦
            let there = rw t at names in
            let same : config.id ≡ j = ground (arith, there, at) in
            (
              r,
              ground (arith, get-insert c.collections config.id j r, (eq_iff config.id j).1 same),
              same_name-eq (name_key config) k t,
            )
        | inr f ↦
            let (s, p, q) = h.found k j (sym (rw f at names) ∙ at) in
            (
              s,
              ground (arith, get-insert c.collections config.id j r, eq_iff config.id j, fresh, p),
              q,
            )
      ]

  -- A collection whose id is new can be created; whether it is or not, the tables agree after it.
  pub create_collection-IsIndexed :
      (c : RedbCatalog F) (config : CollectionConfig) (metadata : Option (Metadata F))
      → get c.collections config.id ≡ none
      → IsIndexed c
      → IsIndexed (create_collection c config metadata).0
  unfolding create_collection
  create_collection-IsIndexed c config metadata fresh h =
      elim (Bool-cases (str_eq config.name "")) [
        | inl e ↦ rw e h
        | inr e ↦ elim (Option-cases (get c.collection_by_name (name_key config))) [
          | inl free ↦
              let indexed : IsIndexed (created c config metadata) = record {
                named = λ j s at. created-named c config metadata j s free h at;
                found = λ k j at. created-found c config metadata k j fresh h at;
              } in
              rw (e, free) indexed
          | inr (id, taken) ↦ rw (e, taken) h
        ]
      ]

  pub empty-IsIndexed : IsIndexed (empty F)
  unfolding get
  empty-IsIndexed = record { named = λ id r e. ground arith; found = λ k id e. ground arith }

  -- Where names and collections agree, looking up a tenant, a database and a name gives a record
  -- exactly when it is the record of its id and bears that name.
  pub get_collection_iff :
      (c : RedbCatalog F) (k : String × (String × String)) (r : CollectionRecord F)
      → IsIndexed c
      → (get_collection c k.0 k.1.0 k.1.1 ≡ some r)
        ↔ ((get_collection_by_id c r.config.id ≡ some r) × (name_key r.config ≡ k))
  unfolding get_collection get_collection_by_id
  get_collection_iff c k r h = (
    λ e. elim (Option-cases (get c.collection_by_name k)) [
      | inl none_there ↦ absurd (ground arith)
      | inr (id, there) ↦
          let (s, p, q) = h.found k id there in
          let same : s ≡ r = ground (arith, there, p, e) in
          let (own, _) = h.named id s p in
          subst (λ x. (get c.collections x.config.id ≡ some x) × (name_key x.config ≡ k)) same
            (ap (get c.collections) own ∙ p, q)
    ],
    λ (p, q).
        let (_, by) = h.named r.config.id r p in
        ground (arith, subst (λ x. get c.collection_by_name x ≡ some r.config.id) q by, p),
  )
