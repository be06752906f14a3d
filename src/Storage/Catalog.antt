-- ===== src/Storage/Catalog.antt =====
-- `RedbCatalog` of crates/rekha-storage/src/redb_catalog.rs, with `CollectionRecord` and
-- `CatalogError` of crates/rekha-storage/src/catalog.rs. A table of the redb database is a map, a
-- value is what its bytes encode, and a transaction that is left without a commit changes nothing.
pub mod Keys
pub mod Indexed
pub mod Created
pub mod Reach
use rekha.Prelude.{
  ℕ, String, Bool, true, false, ◌&&◌, Option, none, some, List, [], ◌∷◌, str_eq, is_some,
  if◌then◌else◌,
}
use rekha.Prelude.Dict
use rekha.Prelude.Dict.{Dict, string_eqv, get}
use rekha.Core.Types.{Metadata}
use rekha.Core.Config.{CollectionConfig}
use rekha.Engine.Durable.{max}
use Keys.{database_key_eqv, name_key_eqv}

-- CollectionRecord, with the metadata of its config
pub record CollectionRecord (F : Type 0) : Type 0 where
  pub config : CollectionConfig
  pub metadata : Option (Metadata F)
  pub max_seq_id : ℕ
  pub total_elements : ℕ

-- CatalogError, less the failures of the store and of the encoding
pub data CatalogError : Type 0 where
  not_found already_exists invalid_argument : CatalogError

pub data CatalogResult {ℓ} (A : Type ℓ) : Type ℓ where
  ok : A → CatalogResult A
  err : CatalogError → CatalogResult A

-- RedbCatalog: its tables
pub record RedbCatalog (F : Type 0) : Type 0 where
  pub tenants : Dict String (Unit {0})
  pub databases : Dict (String × String) (Unit {0})
  pub collections : Dict String (CollectionRecord F)
  pub collection_by_name : Dict (String × (String × String)) String

-- `RedbCatalog::open` of a path that has no database
abbrev pub empty : (F : Type 0) → RedbCatalog F
empty F = record { tenants = []; databases = []; collections = []; collection_by_name = [] }

-- the key of a collection in `collection_by_name`
abbrev pub name_key : CollectionConfig → String × (String × String)
name_key config = (config.tenant, (config.database, config.name))

module _ {F : Type 0} where
  -- RedbCatalog::create_tenant
  unfoldable pub create_tenant : RedbCatalog F → String → RedbCatalog F × CatalogResult (Unit {0})
  create_tenant c name =
      if str_eq name ""
      then (c, err invalid_argument)
      else if is_some (get c.tenants name)
      then (c, err already_exists)
      else (record c { tenants = Dict.insert c.tenants name tt }, ok tt)

  -- RedbCatalog::create_database
  unfoldable pub create_database :
      RedbCatalog F → String → String → RedbCatalog F × CatalogResult (Unit {0})
  create_database c tenant name =
      if str_eq name ""
      then (c, err invalid_argument)
      else if is_some (get c.tenants tenant)
      then if is_some (get c.databases (tenant, name))
        then (c, err already_exists)
        else (record c { databases = Dict.insert c.databases (tenant, name) tt }, ok tt)
      else (c, err not_found)

  -- RedbCatalog::create_collection
  unfoldable pub create_collection :
      RedbCatalog F
      → CollectionConfig
      → Option (Metadata F)
      → RedbCatalog F × CatalogResult (CollectionRecord F)
  create_collection c config metadata =
      let r : CollectionRecord F = record {
        config = config;
        metadata = metadata;
        max_seq_id = 0;
        total_elements = 0;
      } in
      if str_eq config.name ""
      then (c, err invalid_argument)
      else if is_some (get c.collection_by_name (name_key config))
      then (c, err already_exists)
      else (
        record c {
          collections = Dict.insert c.collections config.id r;
          collection_by_name = Dict.insert c.collection_by_name (name_key config) config.id;
        },
        ok r,
      )

  -- RedbCatalog::get_collection_by_id
  unfoldable pub get_collection_by_id : RedbCatalog F → String → Option (CollectionRecord F)
  get_collection_by_id c id = get c.collections id

  -- RedbCatalog::get_collection
  unfoldable pub get_collection :
      RedbCatalog F → String → String → String → Option (CollectionRecord F)
  unfolding get_collection_by_id
  get_collection c tenant database name =
      elim (get c.collection_by_name (tenant, (database, name))) [
        | none ↦ none
        | some id ↦ get_collection_by_id c id
      ]

  -- the values of the table, in its order
  unfoldable pub list_all : Dict String (CollectionRecord F) → List (CollectionRecord F)
  list_all [] = []
  list_all ((id, r) ∷ entries) = r ∷ list_all entries

  unfoldable pub list_in :
      String → String → Dict String (CollectionRecord F) → List (CollectionRecord F)
  list_in tenant database [] = []
  list_in tenant database ((id, r) ∷ entries) =
      let rest = list_in tenant database entries in
      if str_eq r.config.tenant tenant && str_eq r.config.database database then r ∷ rest else rest

  -- RedbCatalog::list_collections
  unfoldable pub list_collections : RedbCatalog F → String → String → List (CollectionRecord F)
  unfolding list_in
  list_collections c tenant database = list_in tenant database c.collections

  -- RedbCatalog::list_collections_all
  unfoldable pub list_collections_all : RedbCatalog F → List (CollectionRecord F)
  unfolding list_all
  list_collections_all c = list_all c.collections

  -- A record is read, changed and written back, in one transaction.
  unfoldable pub change_record :
      RedbCatalog F
      → String
      → (CollectionRecord F → CollectionRecord F)
      → RedbCatalog F × CatalogResult (Unit {0})
  change_record c id change = elim (get c.collections id) [
    | none ↦ (c, err not_found)
    | some r ↦ (record c { collections = Dict.insert c.collections id (change r) }, ok tt)
  ]

  abbrev pub with_metadata : Metadata F → CollectionRecord F → CollectionRecord F
  with_metadata metadata r = record r { metadata = some metadata }

  abbrev pub advanced : ℕ → CollectionRecord F → CollectionRecord F
  advanced seq r = record r { max_seq_id = max r.max_seq_id seq }

  abbrev pub with_dimension : ℕ → CollectionRecord F → CollectionRecord F
  with_dimension dimension r = record r { config = record r.config { dimension = dimension } }

  -- RedbCatalog::update_collection_metadata
  unfoldable pub update_collection_metadata :
      RedbCatalog F → String → Metadata F → RedbCatalog F × CatalogResult (Unit {0})
  unfolding change_record
  update_collection_metadata c id metadata = change_record c id (with_metadata metadata)

  -- RedbCatalog::advance_log_offset
  unfoldable pub advance_log_offset :
      RedbCatalog F → String → ℕ → RedbCatalog F × CatalogResult (Unit {0})
  unfolding change_record
  advance_log_offset c id seq = change_record c id (advanced seq)

  -- RedbCatalog::update_collection_dimension
  unfoldable pub update_collection_dimension :
      RedbCatalog F → String → ℕ → RedbCatalog F × CatalogResult (Unit {0})
  unfolding change_record
  update_collection_dimension c id dimension = change_record c id (with_dimension dimension)

  -- RedbCatalog::delete_collection
  unfoldable pub delete_collection :
      RedbCatalog F → String → RedbCatalog F × CatalogResult (Unit {0})
  delete_collection c id = elim (get c.collections id) [
    | none ↦ (c, err not_found)
    | some r ↦ (
      record c {
        collections = Dict.remove c.collections id;
        collection_by_name = Dict.remove c.collection_by_name (name_key r.config);
      },
      ok tt,
    )
  ]
