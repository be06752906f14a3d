-- ===== src/Examples/Restarts.antt =====
-- Opening an engine of two collections of different dimensions, each with its own index over a graph
-- of its dimension.
use mathlib.Core.Path.{subst}
use rekha.Prelude.{
  ℕ, ◌≡◌, ◌⊎◌, refl, sym, ap, ◌∙◌, String, true, none, some, List, [], ◌∷◌, inl, inr, Bool-cases,
  str_eq, arith,
}
use rekha.Prelude.Dict
use rekha.Prelude.Dict.{Dict, string_eqv, get}
use rekha.Core.Config.{CollectionConfig}
use rekha.Wal.{wal_options}
use rekha.Wal.Recovery.{opened}
use rekha.Wal.Log.{Entry, IsLog}
use rekha.Wal.Append.{opened-Holds}
use rekha.Wal.Batch.{all_records}
use rekha.Storage.Catalog.{CollectionRecord, RedbCatalog}
use rekha.Storage.Catalog as Store
use rekha.Storage.Catalog.Keys.{database_key_eqv, name_key_eqv}
use rekha.Storage.Catalog.Indexed.{IsIndexed}
use rekha.Storage.Catalog.Created.{empty-IsIndexed, create_collection-IsIndexed}
use rekha.Engine.Base.{Index, ok}
use rekha.Engine.Collection.{apply_operation, apply_upsert, offset_for}
use rekha.Engine.Durable.{Durable, CheckpointDir, new_collection}
use rekha.Engine.Durable.Replay.{run, run-SameCore}
use rekha.Engine.Durable.Recover.{new-SameCore, Replayable}
use rekha.Engine.Handlers.{Engine}
use rekha.Engine.Lifecycle.{open_engine}
use rekha.Engine.Lifecycle.Restart.{crashed, Survives, Alike, IsSynced, open_engine-Alike}
use rekha.Index.Usearch.{UsearchIndex, usearch_index}
use rekha.Index.Usearch.Laws.{usearch_index-IsLenient}
use rekha.Examples.Floats.{Float, floats, ordered_floats}
use rekha.Examples.Bitmaps.{list_bitmap}
use rekha.Examples.Indexes.{codec, config}
use rekha.Examples.Logs.{first_entry, first_entry-Fits}
use rekha.Examples.Graphs.{Flat, flat, flat-HasRoom, blank}

instance abbrev flat_index : Index (UsearchIndex Flat) ℕ
flat_index = usearch_index flat

abbrev Disked : Type 0
Disked = Durable Float ℕ (List ℕ) (UsearchIndex Flat)

abbrev no_files : CheckpointDir Float ℕ (UsearchIndex Flat)
no_files = record {
  meta = none;
  records = none;
  index = none;
  segments = none;
  segment_index = none;
}

-- a collection that has written a log, and flushed nothing
abbrev holding : CollectionConfig → List Entry → Disked
holding k es = record {
  coll =
      run (new_collection k (blank k.dimension))
        (all_records codec (opened codec 5 es (wal_options true)) es);
  wal = opened codec 5 es (wal_options true);
  dir = no_files;
  last_checkpoint_seq = 0;
  segments = [];
  segment_index = [];
}

abbrev holding-Replayable :
    (k : CollectionConfig) (es : List Entry)
    → IsLog codec 5 none es
    → Replayable codec (holding k es)
holding-Replayable k es log = record {
  entries = es;
  holds = opened-Holds codec 5 es (wal_options true) (omega arith) log;
  replays = λ config' i.
      run-SameCore (new_collection config' i) (new_collection k (blank k.dimension))
        (all_records codec (opened codec 5 es (wal_options true)) es)
        (new-SameCore config' k i (blank k.dimension));
}

abbrev narrow : CollectionConfig
narrow = record config { id = "c2"; name = "narrow"; dimension = 1 }

-- an upsert of "a" with a vector of one coordinate
abbrev narrow_entry : Entry
narrow_entry = record { seq = 1; epoch = 5; payload = 1 ∷ 9 ∷ [] }

abbrev docs : Disked
docs = holding config (first_entry ∷ [])

abbrev narrow_docs : Disked
narrow_docs = holding narrow (narrow_entry ∷ [])

docs-Survives : Survives codec docs
unfolding apply_operation apply_upsert offset_for get new_collection
docs-Survives = record {
  log = holding-Replayable config (first_entry ∷ []) (first_entry-Fits, omega arith, refl, tt);
  fits = (refl, tt);
  unsaved = refl;
}

narrow_docs-Survives : Survives codec narrow_docs
unfolding apply_operation apply_upsert offset_for get new_collection
narrow_docs-Survives = record {
  log = holding-Replayable narrow (narrow_entry ∷ []) (
    record {
      seq_fits = omega arith;
      epoch_fits = omega arith;
      payload_fits = omega arith;
      decodes = refl;
    },
    omega arith,
    refl,
    tt,
  );
  fits = (refl, tt);
  unsaved = refl;
}

abbrev pair : {A : Type 0} → A → A → Dict String A
pair x y = ("c1", x) ∷ ("c2", y) ∷ []

pair-cases :
    {A B : Type 0} (x y z : A) (u v : B) (id : String)
    → get (pair x y) id ≡ some z
    → ((x ≡ z) × (get (pair u v) id ≡ some u)) ⊎ ((y ≡ z) × (get (pair u v) id ≡ some v))
unfolding get
pair-cases x y z u v id at = elim (Bool-cases (str_eq "c1" id)) [
  | inl t ↦ inl (ground arith, rw t refl)
  | inr f ↦ elim (Bool-cases (str_eq "c2" id)) [
    | inl t ↦ inr (ground arith, rw (f, t) refl)
    | inr g ↦ absurd (ground arith)
  ]
]

pair-outside :
    {A B : Type 0} (x y : A) (u v : B) (id : String)
    → get (pair x y) id ≡ none
    → get (pair u v) id ≡ none
unfolding get
pair-outside x y u v id out = ground (arith, out)

abbrev entry : CollectionConfig → CollectionRecord Float
entry k = record { config = k; metadata = none; max_seq_id = 0; total_elements = 0 }

abbrev first_catalog : RedbCatalog Float
first_catalog = (Store.create_collection (Store.empty Float) config none).0

abbrev catalog : RedbCatalog Float
catalog = (Store.create_collection first_catalog narrow none).0

catalog-IsIndexed : IsIndexed catalog
unfolding get Store.create_collection Dict.insert
catalog-IsIndexed =
    create_collection-IsIndexed first_catalog narrow none refl
      (create_collection-IsIndexed (Store.empty Float) config none refl empty-IsIndexed)

listed : catalog.collections ≡ pair (entry config) (entry narrow)
unfolding get Store.create_collection Dict.insert
listed = refl

abbrev engine : Engine Float ℕ (List ℕ) (UsearchIndex Flat) (RedbCatalog Float)
engine = record { collections = pair docs narrow_docs; catalog = catalog }

docs-config : docs.coll.config ≡ config
unfolding apply_operation apply_upsert offset_for get new_collection
docs-config = refl

narrow_docs-config : narrow_docs.coll.config ≡ narrow
unfolding apply_operation apply_upsert offset_for get new_collection
narrow_docs-config = refl

engine-IsSynced : IsSynced engine
engine-IsSynced = record {
  opened = λ id r at.
      elim (pair-cases (entry config) (entry narrow) r docs narrow_docs id
        (ap (λ rs. get rs id) (sym listed) ∙ at)) [
          | inl (same, there) ↦ (docs, there, docs-config ∙ ap (λ x. x.config) same)
          | inr (same, there) ↦ (narrow_docs, there, narrow_docs-config ∙ ap (λ x. x.config) same)
        ];
  known = λ id out.
      pair-outside (entry config) (entry narrow) docs narrow_docs id
        (ap (λ rs. get rs id) (sym listed) ∙ out);
}

-- each log has lost a write
abbrev torn : String → List ℕ
torn id = 9 ∷ []

survives : (id : String) (s : Disked) → get engine.collections id ≡ some s → Survives codec s
survives id s at = elim (pair-cases docs narrow_docs s tt tt id at) [
  | inl (same, there) ↦ subst (Survives codec) same docs-Survives
  | inr (same, there) ↦ subst (Survives codec) same narrow_docs-Survives
]

open_engine-Alike_example :
    (e' : Engine Float ℕ (List ℕ) (UsearchIndex Flat) (RedbCatalog Float)) × (open_engine codec 6
        true catalog
        (crashed engine torn)
      ≡ ok e')
    × (e'.catalog ≡ catalog)
    × ((id : String) → Alike (get e'.collections id) (get engine.collections id))
unfolding get Store.create_collection Dict.insert
open_engine-Alike_example =
    open_engine-Alike codec 6 true (usearch_index-IsLenient flat flat-HasRoom) engine torn
      (λ id. inl (omega arith)) survives (refl, (refl, tt)) catalog-IsIndexed engine-IsSynced
