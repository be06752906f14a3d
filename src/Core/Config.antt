-- ===== src/Core/Config.antt =====
-- crates/rekha-core/src/config.rs: the configuration of a collection. Its creation time is left out,
-- and the catalog keeps its metadata beside it. A Uuid is its text.
use rekha.Prelude.{ℕ, String}
use rekha.Core.Types.{Distance}

-- HnswConfig
pub record HnswConfig : Type 0 where
  pub m : ℕ
  pub ef_construction : ℕ
  pub ef_search : ℕ
  pub batch_size : ℕ
  pub sync_threshold : ℕ
  pub max_scan : ℕ

-- HnswConfig::default
abbrev pub default_hnsw : HnswConfig
default_hnsw = record {
  m = 16;
  ef_construction = 200;
  ef_search = 100;
  batch_size = 100;
  sync_threshold = 1000;
  max_scan = 10000;
}

-- CollectionConfig
pub record CollectionConfig : Type 0 where
  pub id : String
  pub tenant : String
  pub database : String
  pub name : String
  pub dimension : ℕ
  pub space : Distance
  pub hnsw : HnswConfig
