-- ===== src/Storage/Catalog/Reach.antt =====
-- The catalogs that a sequence of calls makes of an empty one.
use rekha.Prelude.{
  ℕ, ◌≡◌, refl, String, true, Option, none, some, inl, inr, Option-cases, leb, eq_iff, arith,
}
use rekha.Prelude.Dict.{string_eqv, get, get-insert, get-remove}
use rekha.Core.Types.{Metadata}
use rekha.Core.Config.{CollectionConfig}
use rekha.Storage.Catalog.Keys.{database_key_eqv, name_key_eqv}
use rekha.Storage.Catalog.{
  CollectionRecord, RedbCatalog, empty, create_tenant, create_database, create_collection,
  change_record, update_collection_metadata, advance_log_offset, update_collection_dimension,
  delete_collection, with_metadata, advanced, with_dimension,
}
use rekha.Storage.Catalog.Created.{empty-IsIndexed, create_collection-IsIndexed}
use rekha.Storage.Catalog.Indexed.{IsIndexed, change_record-IsIndexed, delete_collection-IsIndexed}

leb_refl : (n : ℕ) → leb n n ≡ true
leb_refl n = ground arith

module _ {F : Type 0} where
  -- One call of the catalog, which may fail; an id that is created is new.
  pub data Step : RedbCatalog F → RedbCatalog F → Type 0 where
    tenant_made : (c : RedbCatalog F) (name : String) → Step c (create_tenant c name).0
    database_made :
        (c : RedbCatalog F) (tenant name : String) → Step c (create_database c tenant name).0
    collection_made :
        (c : RedbCatalog F) (config : CollectionConfig) (metadata : Option (Metadata F))
        → get c.collections config.id ≡ none
        → Step c (create_collection c config metadata).0
    metadata_set :
        (c : RedbCatalog F) (id : String) (metadata : Metadata F)
        → Step c (update_collection_metadata c id metadata).0
    offset_set :
        (c : RedbCatalog F) (id : String) (seq : ℕ) → Step c (advance_log_offset c id seq).0
    dimension_set :
        (c : RedbCatalog F) (id : String) (dimension : ℕ)
        → Step c (update_collection_dimension c id dimension).0
    collection_dropped : (c : RedbCatalog F) (id : String) → Step c (delete_collection c id).0

  pub data Reach : RedbCatalog F → RedbCatalog F → Type 0 where
    here : (c : RedbCatalog F) → Reach c c
    next : (c d e : RedbCatalog F) → Reach c d → Step d e → Reach c e

  create_tenant-collections :
      (c : RedbCatalog F) (name : String)
      → ((create_tenant c name).0.collections ≡ c.collections)
        × ((create_tenant c name).0.collection_by_name ≡ c.collection_by_name)
  unfolding create_tenant
  create_tenant-collections c name = ground arith

  create_database-collections :
      (c : RedbCatalog F) (tenant name : String)
      → ((create_database c tenant name).0.collections ≡ c.collections)
        × ((create_database c tenant name).0.collection_by_name ≡ c.collection_by_name)
  unfolding create_database
  create_database-collections c tenant name = ground arith

  -- The invariant reads two tables only.
  same-IsIndexed :
      (c d : RedbCatalog F)
      → d.collections ≡ c.collections
      → d.collection_by_name ≡ c.collection_by_name
      → IsIndexed c
      → IsIndexed d
  same-IsIndexed c d p q h = record { named = rw (p, q) h.named; found = rw (p, q) h.found }

  pub Step-IsIndexed : (c d : RedbCatalog F) → Step c d → IsIndexed c → IsIndexed d
  unfolding update_collection_metadata advance_log_offset update_collection_dimension
  Step-IsIndexed _ _ (tenant_made c name) h =
      let (p, q) = create_tenant-collections c name in same-IsIndexed c _ p q h
  Step-IsIndexed _ _ (database_made c t name) h =
      let (p, q) = create_database-collections c t name in same-IsIndexed c _ p q h
  Step-IsIndexed _ _ (collection_made c config m fresh) h =
      create_collection-IsIndexed c config m fresh h
  Step-IsIndexed _ _ (metadata_set c id m) h =
      change_record-IsIndexed c id (with_metadata m) (λ r. (refl, refl)) h
  Step-IsIndexed _ _ (offset_set c id seq) h =
      change_record-IsIndexed c id (advanced seq) (λ r. (refl, refl)) h
  Step-IsIndexed _ _ (dimension_set c id d) h =
      change_record-IsIndexed c id (with_dimension d) (λ r. (refl, refl)) h
  Step-IsIndexed _ _ (collection_dropped c id) h = delete_collection-IsIndexed c id h

  -- In every catalog that calls lead to from an empty one, each collection has its id and is found
  -- by its tenant, database and name, and each such name is that of a collection. A collection that
  -- is created must have a new id.
  pub Reach-IsIndexed : (c : RedbCatalog F) → Reach (empty F) c → IsIndexed c
  Reach-IsIndexed _ (here _) = empty-IsIndexed
  Reach-IsIndexed _ (next _ d e before step) = Step-IsIndexed d e step (Reach-IsIndexed d before)

  change_record-watermark :
      (c : RedbCatalog F) (id j : String) (change : CollectionRecord F → CollectionRecord F)
      (r s : CollectionRecord F)
      → ((x : CollectionRecord F) → leb x.max_seq_id (change x).max_seq_id ≡ true)
      → get c.collections j ≡ some r
      → get (change_record c id change).0.collections j ≡ some s
      → leb r.max_seq_id s.max_seq_id ≡ true
  unfolding change_record
  change_record-watermark c id j change r s grows before after =
      elim (Option-cases (get c.collections id)) [
        | inl e ↦ ground arith
        | inr (x, e) ↦ ground (
          arith,
          grows x,
          grows r,
          e,
          before,
          after,
          get-insert c.collections id j (change x),
          eq_iff id j,
        )
      ]

  advanced-grows :
      (seq : ℕ) (x : CollectionRecord F) → leb x.max_seq_id (advanced seq x).max_seq_id ≡ true
  advanced-grows seq x = ground arith

  -- The watermark of a record never falls, whatever is called.
  pub Step-watermark :
      (c d : RedbCatalog F) (id : String) (r s : CollectionRecord F)
      → Step c d
      → get c.collections id ≡ some r
      → get d.collections id ≡ some s
      → leb r.max_seq_id s.max_seq_id ≡ true
  unfolding create_collection update_collection_metadata advance_log_offset
      update_collection_dimension delete_collection
  Step-watermark _ _ id r s (tenant_made c name) before after =
      ground (arith, create_tenant-collections c name)
  Step-watermark _ _ id r s (database_made c t name) before after =
      ground (arith, create_database-collections c t name)
  Step-watermark _ _ id r s (collection_made c config m fresh) before after =
      let made : CollectionRecord F = record {
        config = config;
        metadata = m;
        max_seq_id = 0;
        total_elements = 0;
      } in
      ground (arith, get-insert c.collections config.id id made, eq_iff config.id id)
  Step-watermark _ _ id r s (metadata_set c j m) before after =
      change_record-watermark c j id (with_metadata m) r s (λ x. leb_refl x.max_seq_id) before after
  Step-watermark _ _ id r s (offset_set c j seq) before after =
      change_record-watermark c j id (advanced seq) r s (advanced-grows seq) before after
  Step-watermark _ _ id r s (dimension_set c j n) before after =
      change_record-watermark c j id (with_dimension n) r s (λ x. leb_refl x.max_seq_id) before
        after
  Step-watermark _ _ id r s (collection_dropped c j) before after =
      ground (arith, get-remove c.collections j id)
