-- ===== src/Engine/Lifecycle.antt =====
-- The collections of `Engine` of crates/rekha-engine/src/lib.rs: opening the engine, creating and
-- deleting a collection, and looking one up, over the catalog of crates/rekha-storage.
pub mod Restart
pub mod Synced
pub mod Recreated
use rekha.Prelude.{ℕ, String, Bool, true, false, Option, none, some, List, [], ◌∷◌, if◌then◌else◌}
use rekha.Prelude.Dict
use rekha.Prelude.Dict.{Dict, string_eqv, get}
use rekha.Core.Types.{Floats, Metadata}
use rekha.Core.Op.{Operation}
use rekha.Core.Config.{CollectionConfig}
use rekha.Wal.{Codec, or_else}
use rekha.Wal.Format.{io}
use rekha.Storage.Catalog.{RedbCatalog, CollectionRecord, CatalogResult}
use rekha.Storage.Catalog as Store
use rekha.Engine.Bitmap.{Bitmap}
use rekha.Engine.ValueKey.{OrderedFloats}
use rekha.Engine.Base.{Index, EngineError, EngineResult, ok, err}
use rekha.Engine.Durable.{Durable, CheckpointDir}
use rekha.Engine.Durable.Open.{open_collection}
use rekha.Engine.Handlers.{Engine}

-- The files below `wal_dir` of collections that are not open: those of an open one are part of it.
pub record Files (F V I : Type 0) : Type 0 where
  pub logs : Dict String (List ℕ)
  pub directories : Dict String (CheckpointDir F V I)

-- a directory of a checkpoint that does not exist
abbrev pub no_directory : {F V I : Type 0} → CheckpointDir F V I
no_directory = record {
  meta = none;
  records = none;
  index = none;
  segments = none;
  segment_index = none;
}

-- Which of the two removals of `delete_collection` succeed.
pub record Removal : Type 0 where
  pub log : Bool
  pub directory : Bool

module _ {F V I : Type 0} where
  -- the bytes of the log of a collection that is not open
  unfoldable pub log_of : Files F V I → String → List ℕ
  log_of files id = or_else [] (get files.logs id)

  -- its checkpoint directory
  unfoldable pub directory_of : Files F V I → String → CheckpointDir F V I
  directory_of files id = or_else no_directory (get files.directories id)

  -- the removals of `delete_collection`, a missing file counting as removed
  unfoldable pub remove_files :
      Removal → Files F V I → String → Files F V I × EngineResult (Unit {0})
  remove_files removal files id =
      let logs = Dict.remove files.logs id in
      if removal.log
      then if removal.directory
        then (record { logs = logs; directories = Dict.remove files.directories id }, ok tt)
        else (record files { logs = logs }, err EngineError.io)
      else (files, err (EngineError.wal io))

-- An engine with its catalog, and the files beside it.
abbrev pub Home : Type 0 → Type 0 → Type 0 → Type 0 → Type 0
Home F V B I = Engine F V B I (RedbCatalog F) × Files F V I

module _ {F V B I : Type 0} where
  -- the log and the directory that `Collection::open` finds: those of the collection, if it is open
  unfoldable pub found_log : Home F V B I → String → List ℕ
  unfolding log_of
  found_log (e, files) id = elim (get e.collections id) [
    | none ↦ log_of files id
    | some s ↦ s.wal.file
  ]

  unfoldable pub found_directory : Home F V B I → String → CheckpointDir F V I
  unfolding directory_of
  found_directory (e, files) id = elim (get e.collections id) [
    | none ↦ directory_of files id
    | some s ↦ s.dir
  ]

  -- a collection that is dropped from the map leaves its files
  unfoldable pub leave_files : Home F V B I → String → Files F V I
  leave_files (e, files) id = elim (get e.collections id) [
    | none ↦ files
    | some s ↦ record {
      logs = Dict.insert files.logs id s.wal.file;
      directories = Dict.insert files.directories id s.dir;
    }
  ]

  -- the rest of `delete_collection`, on the answer of the catalog
  unfoldable pub drop_collection :
      Removal
      → Home F V B I
      → String
      → RedbCatalog F × CatalogResult (Unit {0})
      → Home F V B I × EngineResult (Unit {0})
  unfolding remove_files leave_files
  drop_collection removal h id (catalog, Store.err x) = (h, err EngineError.catalog)
  drop_collection removal (e, files) id (catalog, Store.ok u) =
      let (files', result) = remove_files removal (leave_files (e, files) id) id in
      ((record { collections = Dict.remove e.collections id; catalog = catalog }, files'), result)

  -- Engine::delete_collection
  unfoldable pub delete_collection :
      Removal → Home F V B I → String → Home F V B I × EngineResult (Unit {0})
  unfolding drop_collection
  delete_collection removal (e, files) id =
      drop_collection removal (e, files) id (Store.delete_collection e.catalog id)

  -- the rest of `create_collection`, once the catalog has the collection
  unfoldable pub keep_collection :
      Home F V B I
      → String
      → RedbCatalog F
      → CollectionRecord F
      → EngineResult (Durable F V B I)
      → Home F V B I × EngineResult (CollectionRecord F)
  keep_collection (e, files) id catalog r (err x) = ((record e { catalog = catalog }, files), err x)
  keep_collection (e, files) id catalog r (ok s) =
      ((record { collections = Dict.insert e.collections id s; catalog = catalog }, files), ok r)

  -- Engine::get_collection
  unfoldable pub get_collection :
      Engine F V B I (RedbCatalog F) → String → String → String → Option (CollectionRecord F)
  get_collection e tenant database name = Store.get_collection e.catalog tenant database name

  -- Engine::get_collection_by_id
  unfoldable pub get_collection_by_id :
      Engine F V B I (RedbCatalog F) → String → Option (CollectionRecord F)
  get_collection_by_id e id = Store.get_collection_by_id e.catalog id

  -- Engine::list_collections
  unfoldable pub list_collections :
      Engine F V B I (RedbCatalog F) → String → String → List (CollectionRecord F)
  list_collections e tenant database = Store.list_collections e.catalog tenant database

module _ {F V B I : Type 0} ⦃fl : Floats F⦄ ⦃of : OrderedFloats fl⦄ ⦃bm : Bitmap B⦄ ⦃ix : Index I V⦄
    (c : Codec (Operation F V)) (epoch : ℕ) (fsync : Bool) where
  -- the loop of `Engine::open`: the first collection that cannot be opened ends it
  unfoldable pub open_all :
      Files F V I
      → List (CollectionRecord F)
      → Dict String (Durable F V B I)
      → EngineResult (Dict String (Durable F V B I))
  unfolding open_collection
  open_all files [] collections = ok collections
  open_all files (r ∷ rs) collections =
      elim (open_collection c r.config (log_of files r.config.id) epoch fsync
        (directory_of files r.config.id)) [
          | err x ↦ err x
          | ok s ↦ open_all files rs (Dict.insert collections r.config.id s)
        ]

  -- Engine::open
  unfoldable pub open_engine :
      RedbCatalog F → Files F V I → EngineResult (Engine F V B I (RedbCatalog F))
  unfolding open_all
  open_engine catalog files = elim (open_all files (Store.list_collections_all catalog) []) [
    | err x ↦ err x
    | ok collections ↦ ok (record { collections = collections; catalog = catalog })
  ]

  -- the rest of `create_collection`, on the answer of the catalog
  unfoldable pub start_collection :
      Home F V B I
      → CollectionConfig
      → RedbCatalog F × CatalogResult (CollectionRecord F)
      → Home F V B I × EngineResult (CollectionRecord F)
  unfolding keep_collection open_collection found_log found_directory
  start_collection h config (catalog, Store.err x) = (h, err EngineError.catalog)
  start_collection h config (catalog, Store.ok r) =
      keep_collection h config.id catalog r
        (open_collection c config (found_log h config.id) epoch fsync (found_directory h config.id))

  -- Engine::create_collection
  unfoldable pub create_collection :
      Home F V B I
      → CollectionConfig
      → Option (Metadata F)
      → Home F V B I × EngineResult (CollectionRecord F)
  unfolding start_collection
  create_collection (e, files) config metadata =
      start_collection (e, files) config (Store.create_collection e.catalog config metadata)
