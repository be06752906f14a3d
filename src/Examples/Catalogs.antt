-- ===== src/Examples/Catalogs.antt =====
-- The theorems on the catalog, at a catalog of one collection.
use rekha.Prelude.{refl, none}
use rekha.Prelude.Dict.{string_eqv, get}
use rekha.Storage.Catalog.Keys.{database_key_eqv, name_key_eqv}
use rekha.Storage.Catalog.{
  CollectionRecord, RedbCatalog, empty, create_tenant, create_collection, advance_log_offset,
}
use rekha.Storage.Catalog.Indexed.{IsIndexed}
use rekha.Storage.Catalog.Reach.{
  Reach, here, next, tenant_made, collection_made, offset_set, Reach-IsIndexed,
}
use rekha.Examples.Floats.{Float}
use rekha.Examples.Indexes.{config}

abbrev one_tenant : RedbCatalog Float
one_tenant = (create_tenant (empty Float) "default_tenant").0

abbrev one_collection : RedbCatalog Float
one_collection = (create_collection one_tenant config none).0

abbrev advanced : RedbCatalog Float
advanced = (advance_log_offset one_collection "c1" 7).0

reached : Reach (empty Float) advanced
unfolding create_tenant get
reached =
    next (empty Float) one_collection advanced
      (next (empty Float) one_tenant one_collection
        (next (empty Float) (empty Float) one_tenant (here (empty Float))
          (tenant_made (empty Float) "default_tenant"))
        (collection_made one_tenant config none refl))
      (offset_set one_collection "c1" 7)

Reach-IsIndexed_example : IsIndexed advanced
Reach-IsIndexed_example = Reach-IsIndexed advanced reached

abbrev docs : CollectionRecord Float
docs = record { config = config; metadata = none; max_seq_id = 7; total_elements = 0 }
