-- ===== src/Engine/Lifecycle/Recreated.antt =====
-- A collection that is deleted and created again, and one that cannot be created:
-- `delete_collection` and `create_collection` of crates/rekha-engine/src/lib.rs.
use mathlib.Core.List.{append-nil}
use rekha.Prelude.{
  ℕ, ◌≡◌, ◌<◌, leb, refl, sym, ap, ◌∙◌, String, Bool, Option, none, some, [], inl, inr, Bool-cases,
  if◌then◌else◌, str_eq, eq_refl, arith,
}
use rekha.Prelude.Dict
use rekha.Prelude.Dict.{Dict, string_eqv, get, get-insert, get-remove}
use rekha.Core.Types.{Floats, Metadata}
use rekha.Core.Op.{Operation}
use rekha.Core.Config.{CollectionConfig}
use rekha.Wal.{Codec, WalOptions, wal_options, open_wal, u64_mod}
use rekha.Wal as Log
use rekha.Wal.Log.{encode_all}
use rekha.Wal.Recovery.{opened}
use rekha.Storage.Catalog.{CollectionRecord, RedbCatalog, name_key}
use rekha.Storage.Catalog as Store
use rekha.Storage.Catalog.Keys.{name_key_eqv}
use rekha.Engine.Bitmap.{Bitmap}
use rekha.Engine.ValueKey.{OrderedFloats}
use rekha.Engine.Base.{Index, EngineError, ok, err}
use rekha.Engine.Durable.{
  Durable, make_index, new, new_collection, replay_after, flush_buffer, flush_if_needed,
  flush_records,
}
use rekha.Engine.Durable.Open.{
  load_files, load_checkpoint, flush, flush_replayed, replay_rest, open_on, open_collection,
}
use rekha.Engine.Durable.Recover.{Replayable, new-Replayable}
use rekha.Engine.Durable.Reopen.{open_collection-flushed}
use rekha.Engine.Handlers.{collection}
use rekha.Engine.Durable.Configured.{opened_not}
use rekha.Engine.Lifecycle.{
  Home, Removal, Files, no_directory, remove_files, leave_files, drop_collection, delete_collection,
  start_collection, keep_collection, create_collection, found_log, found_directory, log_of,
  directory_of, get_collection_by_id,
}

module _ {Op : Type 0} (c : Codec Op) where
  -- A log without a file is a new one.
  pub open_wal-nil :
      (epoch : ℕ) (options : WalOptions)
      → open_wal c [] epoch options ≡ Log.ok (opened c epoch [] options)
  unfolding open_wal encode_all
  open_wal-nil epoch options =
      ap (λ f. Log.ok (record (opened c epoch [] options) { file = f }))
        (sym (append-nil (Log.build_header c epoch)))

module _ {F V I : Type 0} where
  removed_files :
      (removal : Removal) (files : Files F V I) (id : String)
      → (remove_files removal files id).1 ≡ ok tt
      → (get (remove_files removal files id).0.logs id ≡ none)
        × (get (remove_files removal files id).0.directories id ≡ none)
  unfolding remove_files
  removed_files removal files id done =
      ground
        (arith, done, get-remove files.logs id id, get-remove files.directories id id, eq_refl id)

module _ {F V B I : Type 0} where
  -- A collection whose deletion succeeds has neither a place in the map nor files.
  dropped :
      (removal : Removal) (h h' : Home F V B I) (id : String)
      (p : RedbCatalog F × Store.CatalogResult (Unit {0}))
      → drop_collection removal h id p ≡ (h', ok tt)
      → (h'.0.collections ≡ Dict.remove h.0.collections id)
        × (get h'.1.logs id ≡ none)
        × (get h'.1.directories id ≡ none)
  unfolding drop_collection
  dropped removal h h' id (k, Store.err x) done = absurd (ground (arith, done))
  dropped removal (e, files) h' id (k, Store.ok u) done =
      let gone = removed_files removal (leave_files (e, files) id) id (ap (λ x. x.1) done) in
      (
        sym (ap (λ x. x.0.0.collections) done),
        ap (λ x. get x.0.1.logs id) (sym done) ∙ gone.0,
        ap (λ x. get x.0.1.directories id) (sym done) ∙ gone.1,
      )

module _ {F V B I : Type 0} where
  -- where there are neither a place in the map nor files, none are found
  found-none :
      (h : Home F V B I) (id : String)
      → get h.0.collections id ≡ none
      → get h.1.logs id ≡ none
      → get h.1.directories id ≡ none
      → (found_log h id ≡ []) × (found_directory h id ≡ no_directory)
  unfolding found_log found_directory log_of directory_of
  found-none (e, files) id out logs directories =
      (rw (out, found_log, logs) refl, rw (out, found_directory, directories) refl)

module _ {F V B I : Type 0} ⦃fl : Floats F⦄ ⦃of : OrderedFloats fl⦄ ⦃bm : Bitmap B⦄ ⦃ix : Index I V⦄
    (c : Codec (Operation F V)) (epoch : ℕ) (fsync : Bool) where
  -- neither the replay nor the flush has something to do
  open_on-nil :
      (config : CollectionConfig) (i : I)
      → open_on {B = B} {I = I} c
          (new config i (opened c epoch [] (wal_options fsync)) no_directory)
          epoch
          fsync
        ≡ (new config i (opened c epoch [] (wal_options fsync)) no_directory, ok tt)
  unfolding open_on replay_rest load_checkpoint load_files replay_after flush_replayed flush
      flush_if_needed flush_buffer flush_records new new_collection wal_options
  open_on-nil config i = elim (Bool-cases (leb config.hnsw.batch_size 0)) [
    | inl full ↦ rw full refl
    | inr room ↦ rw room refl
  ]

  -- Opening without files gives an empty collection.
  open_collection-nil :
      (config : CollectionConfig) (i : I)
      → make_index ix config ≡ some i
      → epoch < u64_mod
      → (s : Durable F V B I) × (open_collection c config [] epoch fsync no_directory ≡ ok s)
        × (s.coll.records ≡ [])
        × Replayable c s
  unfolding new new_collection wal_options
  open_collection-nil config i made small =
      let w = opened c epoch [] (wal_options fsync) in
      let start : Durable F V B I = new config i w no_directory in
      (
        start,
        open_collection-flushed c config [] epoch fsync no_directory w i start
            (open_wal-nil c epoch (wal_options fsync)) made (open_on-nil config i),
        refl,
        new-Replayable c config i epoch (wal_options fsync) no_directory small,
      )

  -- A collection that is deleted, with its files, and then created again under the same id is
  -- empty, and its log is replayable: nothing of the deleted one comes back. Every other collection
  -- is as it was. The epoch must fit 64 bits, the index of the new collection can be made, and the
  -- catalog must take the collection.
  pub create_collection-delete_collection :
      (removal : Removal) (h h1 : Home F V B I) (config : CollectionConfig)
      (metadata : Option (Metadata F)) (k : RedbCatalog F) (r : CollectionRecord F) (i : I)
      → epoch < u64_mod
      → make_index ix config ≡ some i
      → delete_collection removal h config.id ≡ (h1, ok tt)
      → Store.create_collection h1.0.catalog config metadata ≡ (k, Store.ok r)
      → (h2 : Home F V B I) × (s : Durable F V B I) × (create_collection c epoch fsync h1 config
            metadata
          ≡ (h2, ok r))
        × ((j : String)
            → get h2.0.collections j
              ≡ (if str_eq config.id j then some s else get h.0.collections j))
        × (s.coll.records ≡ [])
        × Replayable c s
  unfolding delete_collection create_collection start_collection keep_collection
  create_collection-delete_collection removal h h1 config metadata k r i small made deleted taken =
      let id : String = config.id in
      let (left, logs, directories) =
        dropped removal h h1 id (Store.delete_collection h.0.catalog id) deleted in
      let out : get h1.0.collections id ≡ none =
        rw left (get-remove h.0.collections id id ∙ rw (eq_refl id) refl) in
      let (no_log, no_dir) = found-none h1 id out logs directories in
      let (s, opens, nothing, log) = open_collection-nil config i made small in
      let found : open_collection c config (found_log h1 id) epoch fsync (found_directory h1 id)
          ≡ ok s =
        rw (no_log, no_dir) opens in
      (
        (record { collections = Dict.insert h1.0.collections id s; catalog = k }, h1.1),
        s,
        ap (start_collection c epoch fsync h1 config) taken ∙ ap (keep_collection h1 id k r) found,
        λ j.
            get-insert h1.0.collections id j s
            ∙ ground (arith, left, get-remove h.0.collections id j),
        nothing,
        log,
      )

module _ {F : Type 0} where
  -- A catalog that took a collection finds it, and does not take its name again.
  store-twice :
      (k k' : RedbCatalog F) (config : CollectionConfig) (metadata : Option (Metadata F))
      (r : CollectionRecord F)
      → Store.create_collection k config metadata ≡ (k', Store.ok r)
      → (get k'.collections config.id ≡ some r)
        × (Store.create_collection k' config metadata ≡ (k', Store.err Store.already_exists))
  unfolding Store.create_collection
  store-twice k k' config metadata r done = ground (
    arith,
    done,
    get-insert k.collections config.id config.id r,
    eq_refl config.id,
    get-insert k.collection_by_name (name_key config) (name_key config) config.id,
    name_key_eqv.beq_refl (name_key config),
  )

module _ {F V B I : Type 0} ⦃fl : Floats F⦄ ⦃of : OrderedFloats fl⦄ ⦃bm : Bitmap B⦄ ⦃ix : Index I V⦄
    (c : Codec (Operation F V)) (epoch : ℕ) (fsync : Bool) where
  -- A collection whose id has a log that cannot be opened is not created, but stays in the catalog:
  -- the call gives the error of the log, the catalog then has the collection and the engine does
  -- not, and the same call fails for the catalog. The id is not that of an open collection, and the
  -- catalog takes the collection.
  pub create_collection-stranded :
      (h : Home F V B I) (config : CollectionConfig) (metadata : Option (Metadata F))
      (k : RedbCatalog F) (r : CollectionRecord F) (e : Log.WalError)
      → get h.0.collections config.id ≡ none
      → Store.create_collection h.0.catalog config metadata ≡ (k, Store.ok r)
      → open_wal c (log_of h.1 config.id) epoch (wal_options fsync) ≡ Log.err e
      → (h1 : Home F V B I) × (create_collection c epoch fsync h config metadata
          ≡ (h1, err (EngineError.wal e)))
        × (get_collection_by_id h1.0 config.id ≡ some r)
        × (collection h1.0 config.id ≡ err EngineError.collection_not_found)
        × (create_collection c epoch fsync h1 config metadata ≡ (h1, err EngineError.catalog))
  unfolding create_collection start_collection keep_collection found_log get_collection_by_id
      Store.get_collection_by_id collection
  create_collection-stranded (e, files) config metadata k r x out taken broken =
      let (there, again) = store-twice e.catalog k config metadata r taken in
      let h : Home F V B I = (e, files) in
      let h1 : Home F V B I = (record e { catalog = k }, files) in
      let failed : open_collection {B = B} c config (found_log h config.id) epoch fsync
            (found_directory h config.id)
          ≡ err (EngineError.wal x) =
        rw (out, found_log)
          (opened_not {B = B} c config (log_of files config.id) epoch fsync
            (found_directory h config.id) x broken) in
      (
        h1,
        ap (start_collection c epoch fsync h config) taken
            ∙ ap (keep_collection h config.id k r) failed,
        there,
        rw (out, collection) refl,
        ap (start_collection c epoch fsync h1 config) again,
      )
