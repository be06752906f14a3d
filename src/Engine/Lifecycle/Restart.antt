-- ===== src/Engine/Lifecycle/Restart.antt =====
-- Opening the engine after a crash: `Engine::open` of crates/rekha-engine/src/lib.rs.
use mathlib.Core.Path.{subst}
use rekha.Prelude.{
  ℕ, ◌≡◌, refl, sym, ◌∙◌, String, Bool, Option, none, some, List, [], ◌∷◌, ◌++◌, inl, inr,
  Option-cases, Bool-cases, str_eq, eq_iff, eq_refl, arith,
}
use rekha.Prelude.Dict
use rekha.Prelude.Dict.{Dict, Unique, string_eqv, get, get-insert}
use rekha.Core.Types.{Floats}
use rekha.Core.Op.{Operation}
use rekha.Core.Config.{CollectionConfig}
use rekha.Wal.{Codec}
use rekha.Wal.Scan.{Torn}
use rekha.Wal.Batch.{all_records}
use rekha.Storage.Catalog.{CollectionRecord, RedbCatalog, list_all, list_collections_all}
use rekha.Storage.Catalog.Indexed.{IsIndexed}
use rekha.Engine.Bitmap.{Bitmap}
use rekha.Engine.ValueKey.{OrderedFloats}
use rekha.Engine.Base.{Index, ok}
use rekha.Engine.Collection.Core.{SameCore}
use rekha.Engine.Durable.{Durable, CheckpointDir}
use rekha.Engine.Durable.Open.{open_collection}
use rekha.Engine.Durable.Dimension.{OpsFit}
use rekha.Engine.Durable.Recover.{Replayable}
use rekha.Engine.Durable.Lenient.{IsLenient}
use rekha.Engine.Durable.Reopen.{open_collection-Replayable}
use rekha.Engine.Handlers.{Engine}
use rekha.Engine.Lifecycle.{Files, log_of, directory_of, open_all, open_engine}

module _ {F V B I : Type 0} where
  -- the logs that a crash leaves: each may end in a write that was cut short
  unfoldable pub crashed_logs :
      Dict String (Durable F V B I) → (String → List ℕ) → Dict String (List ℕ)
  crashed_logs [] tail = []
  crashed_logs ((id, s) ∷ ss) tail = (id, s.wal.file ++ tail id) ∷ crashed_logs ss tail

  -- the checkpoint directories
  unfoldable pub directories : Dict String (Durable F V B I) → Dict String (CheckpointDir F V I)
  directories [] = []
  directories ((id, s) ∷ ss) = (id, s.dir) ∷ directories ss

  -- The files of an engine that is not running any more.
  abbrev pub crashed : {K : Type 0} → Engine F V B I K → (String → List ℕ) → Files F V I
  crashed e tail = record {
    logs = crashed_logs e.collections tail;
    directories = directories e.collections;
  }

  get-crashed_logs :
      (ss : Dict String (Durable F V B I)) (tail : String → List ℕ) (id : String)
      (s : Durable F V B I)
      → get ss id ≡ some s
      → get (crashed_logs ss tail) id ≡ some (s.wal.file ++ tail id)
  unfolding get crashed_logs
  get-crashed_logs [] tail id s h = cc
  get-crashed_logs ((j, x) ∷ ss) tail id s h = elim (Bool-cases (str_eq j id)) [
    | inl t ↦ let same : x ≡ s = ground arith in rw (t, (eq_iff j id).0 t, same) refl
    | inr f ↦ rw f (get-crashed_logs ss tail id s (ground arith))
  ]

  get-directories :
      (ss : Dict String (Durable F V B I)) (id : String) (s : Durable F V B I)
      → get ss id ≡ some s
      → get (directories ss) id ≡ some s.dir
  unfolding get directories
  get-directories [] id s h = cc
  get-directories ((j, x) ∷ ss) id s h = elim (Bool-cases (str_eq j id)) [
    | inl t ↦ let same : x ≡ s = ground arith in rw (t, same) refl
    | inr f ↦ rw f (get-directories ss id s (ground arith))
  ]

  -- A collection that was opened again has the records, the offsets and the postings that it had,
  -- and one that was not there is not there.
  abbrev pub Alike : Option (Durable F V B I) → Option (Durable F V B I) → Type 0
  Alike none none = Unit {0}
  Alike none (some s) = ⊥
  Alike (some s) none = ⊥
  Alike (some s') (some s) = SameCore s'.coll s.coll

  -- The catalog and the engine have the same collections, with the same configuration.
  pub record IsSynced (e : Engine F V B I (RedbCatalog F)) : Type 0 where
    pub opened :
        (id : String) (r : CollectionRecord F)
        → get e.catalog.collections id ≡ some r
        → (s : Durable F V B I) × (get e.collections id ≡ some s) × (s.coll.config ≡ r.config)
    pub known : (id : String) → get e.catalog.collections id ≡ none → get e.collections id ≡ none

module _ {F V B I : Type 0} ⦃fl : Floats F⦄ ⦃of : OrderedFloats fl⦄ ⦃bm : Bitmap B⦄ ⦃ix : Index I V⦄
    (c : Codec (Operation F V)) where
  -- What opening a collection without a checkpoint relies on.
  pub record Survives (s : Durable F V B I) : Type 0 where
    pub log : Replayable c s
    pub fits : OpsFit s.coll.config.dimension (all_records c s.wal log.entries)
    pub unsaved : s.dir.meta ≡ none

module _ {F V B I : Type 0} ⦃fl : Floats F⦄ ⦃of : OrderedFloats fl⦄ ⦃bm : Bitmap B⦄ ⦃ix : Index I V⦄
    (c : Codec (Operation F V)) (epoch : ℕ) (fsync : Bool) where
  -- a collection that can be opened goes into the map
  pub open_all-ok :
      (files : Files F V I) (r : CollectionRecord F) (rs : List (CollectionRecord F))
      (acc : Dict String (Durable F V B I)) (s : Durable F V B I)
      → open_collection c r.config
          (log_of files r.config.id)
          epoch
          fsync
          (directory_of files r.config.id)
        ≡ ok s
      → open_all c epoch fsync files (r ∷ rs) acc
        ≡ open_all c epoch fsync files rs (Dict.insert acc r.config.id s)
  unfolding open_all
  open_all-ok files r rs acc s opens = rw (opens, open_all) refl

module _ {F V B I : Type 0} ⦃fl : Floats F⦄ ⦃of : OrderedFloats fl⦄ ⦃bm : Bitmap B⦄ ⦃ix : Index I V⦄
    (c : Codec (Operation F V)) (epoch : ℕ) (fsync : Bool) (lenient : IsLenient ix)
    (e : Engine F V B I (RedbCatalog F)) (tail : String → List ℕ)
    (torn : (id : String) → Torn (tail id))
    (survives : (id : String) (s : Durable F V B I)
      → get e.collections id ≡ some s
      → Survives c s) where
  -- The collection of an id, with the configuration that the catalog has.
  reopened :
      (id : String) (config : CollectionConfig) (s : Durable F V B I)
      → get e.collections id ≡ some s
      → s.coll.config ≡ config
      → (s' : Durable F V B I) × (open_collection c config
            (log_of (crashed e tail) id)
            epoch
            fsync
            (directory_of (crashed e tail) id)
          ≡ ok s')
        × SameCore s'.coll s.coll
  unfolding log_of directory_of
  reopened id config s at same =
      let h = survives id s at in
      let (s', opens, alike) =
        open_collection-Replayable c s (tail id) epoch fsync lenient h.log h.fits h.unsaved
          (torn id) in
      (
        s',
        rw (get-crashed_logs e.collections tail id s at, get-directories e.collections id s at)
            (subst (λ k. open_collection c k (s.wal.file ++ tail id) epoch fsync s.dir ≡ ok s') same
              opens),
        alike,
      )

  -- Each entry has a collection with its id and its configuration.
  abbrev AreOpen : Dict String (CollectionRecord F) → Type 0
  AreOpen [] = Unit {0}
  AreOpen ((id, r) ∷ entries) =
      (r.config.id ≡ id)
      × (s : Durable F V B I) × (get e.collections r.config.id ≡ some s)
      × (s.coll.config ≡ r.config)
      × AreOpen entries

  -- The loop opens each of them.
  open_all-Alike :
      (entries : Dict String (CollectionRecord F)) (acc : Dict String (Durable F V B I))
      → Unique entries
      → AreOpen entries
      → (cs : Dict String (Durable F V B I)) × (open_all c epoch fsync
            (crashed e tail)
            (list_all entries)
            acc
          ≡ ok cs)
        × ((id : String) → get entries id ≡ none → get cs id ≡ get acc id)
        × ((id : String) (r : CollectionRecord F)
            → get entries id ≡ some r
            → Alike (get cs id) (get e.collections id))
  unfolding get open_all list_all
  open_all-Alike [] acc unique areopen = (acc, refl, λ id out. refl, λ id r at. absurd (cc))
  open_all-Alike ((id, r) ∷ entries) acc unique (named, s, at, same, others) =
      let key : String = r.config.id in
      let (s', opens, alike) = reopened key r.config s at same in
      let (cs, done, kept, rest) =
        open_all-Alike entries (Dict.insert acc key s') unique.1 others in
      let here : get cs key ≡ some s' =
        kept key (rw named unique.0) ∙ (get-insert acc key key s' ∙ rw (eq_refl key) refl) in
      (
        cs,
        open_all-ok c epoch fsync (crashed e tail) r (list_all entries) acc s' opens ∙ done,
        λ j out. ground (arith, kept j, get-insert acc key j s', eq_iff id j, named),
        λ j x found. elim (Bool-cases (str_eq id j)) [
          | inl t ↦
              subst (λ i. Alike (get cs i) (get e.collections i)) (named ∙ (eq_iff id j).0 t)
                (rw (here, at) alike)
          | inr f ↦ rest j x (ground arith)
        ],
      )

  synced-AreOpen :
      (entries : Dict String (CollectionRecord F))
      → Unique entries
      → ((id : String) (r : CollectionRecord F)
          → get entries id ≡ some r
          → get e.catalog.collections id ≡ some r)
      → IsIndexed e.catalog
      → IsSynced e
      → AreOpen entries
  unfolding get
  synced-AreOpen [] unique all indexed synced = tt
  synced-AreOpen ((id, r) ∷ entries) unique all indexed synced =
      let there : get e.catalog.collections id ≡ some r = all id r (rw (eq_refl id) refl) in
      let named = (indexed.named id r there).0 in
      let (s, at, same) = synced.opened id r there in
      (
        named,
        s,
        subst (λ i. get e.collections i ≡ some s) (sym named) at,
        same,
        synced-AreOpen entries unique.1
            (λ j x found. all j x (ground (arith, unique.0, found, eq_iff id j))) indexed synced,
      )

  -- After a crash in which each log keeps what was written, with a torn tail, opening the engine on
  -- its catalog succeeds: the catalog is as it was, and the collections are the same ones, each
  -- with its records, its offsets and its postings. The catalog is indexed, has no id twice and has
  -- the collections of the engine, with their configurations; each log is replayable and has
  -- vectors of the dimension of its collection, no collection has a checkpoint, and the index keeps
  -- its promises for every dimension and space that it is made for.
  pub open_engine-Alike :
      Unique e.catalog.collections
      → IsIndexed e.catalog
      → IsSynced e
      → (e' : Engine F V B I (RedbCatalog F)) × (open_engine c epoch fsync e.catalog
            (crashed e tail)
          ≡ ok e')
        × (e'.catalog ≡ e.catalog)
        × ((id : String) → Alike (get e'.collections id) (get e.collections id))
  unfolding open_engine list_collections_all get
  open_engine-Alike unique indexed synced =
      let (cs, done, kept, alike) =
        open_all-Alike e.catalog.collections [] unique
          (synced-AreOpen e.catalog.collections unique (λ id r at. at) indexed synced) in
      let e' : Engine F V B I (RedbCatalog F) = record { collections = cs; catalog = e.catalog } in
      (
        e',
        rw (done, open_engine) refl,
        refl,
        λ id. elim (Option-cases (get e.catalog.collections id)) [
          | inl out ↦ rw (kept id out, synced.known id out) tt
          | inr (r, at) ↦ alike id r at
        ],
      )
