-- ===== src/Examples/Engines.antt =====
-- The theorems on the collections of an engine, at an engine of one collection.
use rekha.Prelude.{
  true, false, ℕ, ◌≡◌, refl, ap, String, none, some, List, [], ◌∷◌, str_eq, if◌then◌else◌, arith,
}
use rekha.Prelude.Dict
use rekha.Prelude.Dict.{Dict, string_eqv, get}
use rekha.Core.Config.{CollectionConfig}
use rekha.Wal.Format.{corrupt, truncated_header}
use rekha.Wal.{open_wal, read_and_verify_header}
use rekha.Storage.Catalog.{CollectionRecord, RedbCatalog}
use rekha.Storage.Catalog as Store
use rekha.Storage.Catalog.Keys.{database_key_eqv, name_key_eqv}
use rekha.Storage.Catalog.Indexed.{IsIndexed}
use rekha.Storage.Catalog.Created.{empty-IsIndexed, create_collection-IsIndexed}
use rekha.Engine.Collection.{apply_operation, apply_upsert, offset_for}
use rekha.Engine.Base.{EngineError, ok, err}
use rekha.Engine.Durable.{Durable, new_collection, new, replay_after, flush_if_needed}
use rekha.Engine.Durable.Open.{open_on, load_checkpoint, flush}
use rekha.Engine.Durable.Recover.{Replayable}
use rekha.Engine.Handlers.{collection}
use rekha.Engine.Lifecycle.{
  Home, Removal, delete_collection, create_collection, get_collection_by_id, log_of,
}
use rekha.Engine.Lifecycle.Restart.{IsSynced}
use rekha.Engine.Lifecycle.Synced.{here, next, created as made, deleted, Reach-IsSynced}
use rekha.Engine.Lifecycle.Recreated.{
  create_collection-delete_collection, create_collection-stranded,
}
use rekha.Examples.Floats.{Float, floats, ordered_floats}
use rekha.Examples.Bitmaps.{list_bitmap}
use rekha.Examples.Indexes.{dict_index, codec, config}
use rekha.Examples.Collections.{upserted}

abbrev FloatHome : Type 0
FloatHome = Home Float ℕ (List ℕ) (Dict String (List ℕ))

abbrev kept : CollectionRecord Float
kept = record { config = config; metadata = none; max_seq_id = 0; total_elements = 0 }

abbrev catalog : RedbCatalog Float
catalog = record {
  tenants = [];
  databases = [];
  collections = ("c1", kept) ∷ [];
  collection_by_name = (Store.name_key config, "c1") ∷ [];
}

single : {A : Type 0} (x y : A) (id : String) → get (("c1", x) ∷ []) id ≡ some y → x ≡ y
unfolding get
single x y id at = ground (arith, at)

other :
    {A B : Type 0} (x : A) (y : B) (id : String)
    → get (("c1", x) ∷ []) id ≡ none
    → get (("c1", y) ∷ []) id ≡ none
unfolding get
other x y id out = ground (arith, out)

same :
    {A B : Type 0} (x z : A) (y : B) (id : String)
    → get (("c1", x) ∷ []) id ≡ some z
    → get (("c1", y) ∷ []) id ≡ some y
unfolding get
same x z y id at = ground (arith, at)

abbrev home : FloatHome
home = (
  record { collections = ("c1", upserted) ∷ []; catalog = catalog },
  record { logs = []; directories = [] },
)

home-IsSynced : IsSynced home.0
unfolding new_collection new apply_operation apply_upsert offset_for get
home-IsSynced = record {
  opened =
      λ id r at. (upserted, same kept r upserted id at, ap (λ x. x.config) (single kept r id at));
  known = λ id out. other kept upserted id out;
}

catalog-IsIndexed : IsIndexed catalog
unfolding get Store.create_collection Dict.insert
catalog-IsIndexed = create_collection-IsIndexed (Store.empty Float) config none refl empty-IsIndexed

abbrev more : CollectionConfig
more = record config { id = "c2"; name = "more" }

abbrev grown : FloatHome
grown = (create_collection codec 6 true home more none).0

abbrev fresh : CollectionRecord Float
fresh = record { config = more; metadata = none; max_seq_id = 0; total_elements = 0 }

created : create_collection codec 6 true home more none ≡ (grown, ok fresh)
unfolding create_collection Store.create_collection get open_wal open_on load_checkpoint new
    replay_after flush flush_if_needed new_collection
created = refl

-- one collection is created, and the log of the other cannot be removed
Reach-IsSynced_example :
    IsSynced (delete_collection (record { log = false; directory = true }) grown "c1").0.0
Reach-IsSynced_example =
    Reach-IsSynced codec 6 true home
      (delete_collection (record { log = false; directory = true }) grown "c1").0
      (next home grown _
        (next home home grown (here home) (made home grown more none fresh created))
        (deleted (record { log = false; directory = true }) grown "c1"))
      home-IsSynced

abbrev all_removed : Removal
all_removed = record { log = true; directory = true }

abbrev emptied : FloatHome
emptied = (delete_collection all_removed home "c1").0

abbrev retaken : RedbCatalog Float
retaken = (Store.create_collection emptied.0.catalog config none).0

create_collection-delete_collection_example :
    (h : FloatHome) × (s : Durable Float ℕ (List ℕ) (Dict String (List ℕ))) × (create_collection
        codec 6 true emptied config none
      ≡ (h, ok kept))
    × ((j : String)
        → get h.0.collections j ≡ (if str_eq "c1" j then some s else get home.0.collections j))
    × (s.coll.records ≡ [])
    × Replayable codec s
unfolding get delete_collection Store.create_collection Store.delete_collection Dict.remove
create_collection-delete_collection_example =
    create_collection-delete_collection codec 6 true all_removed home emptied config none retaken
      kept [] (omega arith) refl refl refl

-- a file of one byte stands where the log should be
abbrev spoiled : FloatHome
spoiled = (home.0, record { logs = ("c2", 9 ∷ []) ∷ []; directories = [] })

abbrev listed : RedbCatalog Float
listed = (Store.create_collection catalog more none).0

create_collection-stranded_example :
    (h : FloatHome) × (create_collection codec 6 true spoiled more none
      ≡ (h, err (EngineError.wal (corrupt truncated_header))))
    × (get_collection_by_id h.0 "c2" ≡ some fresh)
    × (collection h.0 "c2" ≡ err EngineError.collection_not_found)
    × (create_collection codec 6 true h more none ≡ (h, err EngineError.catalog))
unfolding get Store.create_collection open_wal log_of read_and_verify_header
create_collection-stranded_example =
    create_collection-stranded codec 6 true spoiled more none listed fresh
      (corrupt truncated_header) refl refl refl
