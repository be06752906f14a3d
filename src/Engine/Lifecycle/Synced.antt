-- ===== src/Engine/Lifecycle/Synced.antt =====
-- The catalog and the collections of the engine: `create_collection` and `delete_collection` of
-- crates/rekha-engine/src/lib.rs.
use mathlib.Core.Path.{subst}
use rekha.Prelude.{
  ℕ, ◌≡◌, ◌⊎◌, refl, sym, ap, ◌∙◌, String, Bool, false, Option, some, inl, inr, Option-cases,
  Bool-cases, str_eq, arith,
}
use rekha.Prelude.Dict
use rekha.Prelude.Dict.{Dict, string_eqv, get, get-insert, get-remove}
use rekha.Core.Types.{Floats, Metadata}
use rekha.Core.Op.{Operation}
use rekha.Core.Config.{CollectionConfig}
use rekha.Wal.{Codec}
use rekha.Storage.Catalog.{CollectionRecord, RedbCatalog, name_key}
use rekha.Storage.Catalog as Store
use rekha.Storage.Catalog.Keys.{name_key_eqv}
use rekha.Engine.Bitmap.{Bitmap}
use rekha.Engine.ValueKey.{OrderedFloats}
use rekha.Engine.Base.{Index, EngineResult, ok, err}
use rekha.Engine.Durable.{Durable}
use rekha.Engine.Durable.Open.{open_collection}
use rekha.Engine.Durable.Configured.{open_collection-config}
use rekha.Engine.Handlers.{Engine}
use rekha.Engine.Lifecycle.{
  Home, Removal, drop_collection, start_collection, keep_collection, delete_collection,
  create_collection, found_log, found_directory,
}
use rekha.Engine.Lifecycle.Restart.{IsSynced}

module _ {F : Type 0} where
  store-delete :
      (k : RedbCatalog F) (id : String)
      → (Store.delete_collection k id ≡ (k, Store.err Store.not_found))
        ⊎ ((k' : RedbCatalog F) × (Store.delete_collection k id ≡ (k', Store.ok tt))
            × (k'.collections ≡ Dict.remove k.collections id))
  unfolding Store.delete_collection
  store-delete k id = elim (Option-cases (get k.collections id)) [
    | inl e ↦ inl (rw (e, Store.delete_collection) refl)
    | inr (r, e) ↦ inr (
      record k {
        collections = Dict.remove k.collections id;
        collection_by_name = Dict.remove k.collection_by_name (name_key r.config);
      },
      rw (e, Store.delete_collection) refl,
      refl,
    )
  ]

module _ {F V B I : Type 0} where
  removed-IsSynced :
      (e : Engine F V B I (RedbCatalog F)) (k : RedbCatalog F) (id : String)
      → k.collections ≡ Dict.remove e.catalog.collections id
      → IsSynced e
      → IsSynced (record { collections = Dict.remove e.collections id; catalog = k })
  removed-IsSynced e k id gone synced = record {
    opened = λ j r at.
        let apart : str_eq id j ≡ false =
          ground (arith, gone, get-remove e.catalog.collections id j) in
        let there : get e.catalog.collections j ≡ some r =
          ground (arith, gone, get-remove e.catalog.collections id j) in
        let (s, found, same) = synced.opened j r there in
        (s, get-remove e.collections id j ∙ rw apart found, same);
    known = λ j out. elim (Bool-cases (str_eq id j)) [
      | inl t ↦ get-remove e.collections id j ∙ rw t refl
      | inr f ↦
          get-remove e.collections id j
          ∙ rw f (synced.known j (ground (arith, gone, get-remove e.catalog.collections id j)))
    ];
  }

  -- Deleting a collection keeps the catalog and the engine in step, also where its files cannot be
  -- removed.
  pub delete_collection-IsSynced :
      (removal : Removal) (h : Home F V B I) (id : String)
      → IsSynced h.0
      → IsSynced (delete_collection removal h id).0.0
  unfolding delete_collection drop_collection
  delete_collection-IsSynced removal (e, files) id synced = elim (store-delete e.catalog id) [
    | inl missing ↦
        subst (λ x. IsSynced (drop_collection removal (e, files) id x).0.0) (sym missing) synced
    | inr (k, deleted, gone) ↦
        subst (λ x. IsSynced (drop_collection removal (e, files) id x).0.0) (sym deleted)
          (removed-IsSynced e k id gone synced)
  ]

module _ {F : Type 0} where
  -- What a catalog that takes a collection has then.
  store-create :
      (k k' : RedbCatalog F) (config : CollectionConfig) (metadata : Option (Metadata F))
      (r : CollectionRecord F)
      → Store.create_collection k config metadata ≡ (k', Store.ok r)
      → (k'.collections ≡ Dict.insert k.collections config.id r) × (r.config ≡ config)
  unfolding Store.create_collection
  store-create k k' config metadata r done = ground (arith, done)

module _ {F V B I : Type 0} where
  added-IsSynced :
      (e : Engine F V B I (RedbCatalog F)) (k : RedbCatalog F) (id : String)
      (r : CollectionRecord F) (s : Durable F V B I)
      → k.collections ≡ Dict.insert e.catalog.collections id r
      → s.coll.config ≡ r.config
      → IsSynced e
      → IsSynced (record { collections = Dict.insert e.collections id s; catalog = k })
  added-IsSynced e k id r s more same synced = record {
    opened = λ j x at. elim (Bool-cases (str_eq id j)) [
      | inl t ↦
          let here : r ≡ x = ground (arith, at, more, get-insert e.catalog.collections id j r) in
          (s, get-insert e.collections id j s ∙ rw t refl, same ∙ ap (λ y. y.config) here)
      | inr f ↦
          let there : get e.catalog.collections j ≡ some x =
            ground (arith, at, more, get-insert e.catalog.collections id j r) in
          let (y, found, same') = synced.opened j x there in
          (y, get-insert e.collections id j s ∙ rw f found, same')
    ];
    known = λ j out.
        let apart : str_eq id j ≡ false =
          ground (arith, out, more, get-insert e.catalog.collections id j r) in
        get-insert e.collections id j s
        ∙ rw apart
            (synced.known j (ground (arith, out, more, get-insert e.catalog.collections id j r)));
  }

CatalogResult-cases :
    {F : Type 0} (p : RedbCatalog F × Store.CatalogResult (CollectionRecord F))
    → ((k : RedbCatalog F) × (x : Store.CatalogError) × (p ≡ (k, Store.err x)))
      ⊎ ((k : RedbCatalog F) × (r : CollectionRecord F) × (p ≡ (k, Store.ok r)))
CatalogResult-cases (k, Store.err x) = inl (k, x, refl)
CatalogResult-cases (k, Store.ok r) = inr (k, r, refl)

module _ {F V B I : Type 0} where
  kept-IsSynced :
      (h h' : Home F V B I) (k : RedbCatalog F) (id : String) (q r : CollectionRecord F)
      (result : EngineResult (Durable F V B I))
      → k.collections ≡ Dict.insert h.0.catalog.collections id q
      → ((s : Durable F V B I) → result ≡ ok s → s.coll.config ≡ q.config)
      → IsSynced h.0
      → keep_collection h id k q result ≡ (h', ok r)
      → IsSynced h'.0
  unfolding keep_collection
  kept-IsSynced h h' k id q r (err x) more same synced done = absurd (ground (arith, done))
  kept-IsSynced (e, files) h' k id q r (ok s) more same synced done =
      subst (λ (x : Home F V B I × EngineResult (CollectionRecord F)). IsSynced x.0.0) done
        (added-IsSynced e k id q s more (same s refl) synced)

module _ {F V B I : Type 0} ⦃fl : Floats F⦄ ⦃of : OrderedFloats fl⦄ ⦃bm : Bitmap B⦄ ⦃ix : Index I V⦄
    (c : Codec (Operation F V)) (epoch : ℕ) (fsync : Bool) where
  -- Creating a collection that succeeds keeps the catalog and the engine in step, whatever files
  -- its id had.
  pub create_collection-IsSynced :
      (h h' : Home F V B I) (config : CollectionConfig) (metadata : Option (Metadata F))
      (r : CollectionRecord F)
      → IsSynced h.0
      → create_collection c epoch fsync h config metadata ≡ (h', ok r)
      → IsSynced h'.0
  unfolding create_collection start_collection keep_collection
  create_collection-IsSynced h h' config metadata r synced done =
      elim (CatalogResult-cases (Store.create_collection h.0.catalog config metadata)) [
        | inl (k, x, refused) ↦ absurd (ground (arith, rw refused at done))
        | inr (k, q, taken) ↦
            let (more, config') = store-create h.0.catalog k config metadata q taken in
            kept-IsSynced h h' k config.id q r
              (open_collection {B = B} c config (found_log h config.id) epoch fsync
                (found_directory h config.id))
              more
              (λ s opens.
                open_collection-config c config (found_log h config.id) epoch fsync
                  (found_directory h config.id) s opens
                ∙ sym config')
              synced (ap (start_collection c epoch fsync h config) (sym taken) ∙ done)
      ]

module _ {F V B I : Type 0} ⦃fl : Floats F⦄ ⦃of : OrderedFloats fl⦄ ⦃bm : Bitmap B⦄ ⦃ix : Index I V⦄
    (c : Codec (Operation F V)) (epoch : ℕ) (fsync : Bool) where
  -- A collection is created, or one is deleted, with whatever success.
  pub data Step : Home F V B I → Home F V B I → Type 0 where
    created :
        (h h' : Home F V B I) (config : CollectionConfig) (metadata : Option (Metadata F))
        (r : CollectionRecord F)
        → create_collection c epoch fsync h config metadata ≡ (h', ok r)
        → Step h h'
    deleted :
        (removal : Removal) (h : Home F V B I) (id : String)
        → Step h (delete_collection removal h id).0

  pub data Reach : Home F V B I → Home F V B I → Type 0 where
    here : (h : Home F V B I) → Reach h h
    next : (g h h' : Home F V B I) → Reach g h → Step h h' → Reach g h'

  -- Creating and deleting collections keeps the catalog and the engine in step: each collection of
  -- the catalog is open, with the configuration of its record, and no other one is. A creation must
  -- succeed, over whatever files its id has; a deletion need not, and may leave files.
  pub Reach-IsSynced : (g h : Home F V B I) → Reach g h → IsSynced g.0 → IsSynced h.0
  Reach-IsSynced _ _ (here h) synced = synced
  Reach-IsSynced _ _ (next g _ _ before (created h h' config metadata r done)) synced =
      create_collection-IsSynced c epoch fsync h h' config metadata r
        (Reach-IsSynced g h before synced) done
  Reach-IsSynced _ _ (next g _ _ before (deleted removal h id)) synced =
      delete_collection-IsSynced removal h id (Reach-IsSynced g h before synced)
