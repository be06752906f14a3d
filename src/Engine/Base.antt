-- ===== src/Engine/Base.antt =====
-- The types that the engine is made of: `Record` and `EngineError` of
-- crates/rekha-engine/src/lib.rs, and the trait `Index` of crates/rekha-index/src/lib.rs.
use rekha.Prelude.{ℕ, String, Bool, Option, List}
use rekha.Core.Config.{CollectionConfig, HnswConfig}
use rekha.Core.Types.{Metadata, Distance}
use rekha.Wal.{WalError}

-- Record
pub record Record (F V : Type 0) : Type 0 where
  pub id : String
  pub embedding : Option (List V)
  pub metadata : Option (Metadata F)
  pub document : Option String
  pub seq : ℕ

-- IndexHit; a distance is an `f32`, as a coordinate is.
pub record IndexHit (V : Type 0) : Type 0 where
  pub id : String
  pub distance : V

-- The trait `Index`, with the constructor that the engine calls, which takes the space, the
-- dimension and the tuning of a collection; `none` is an `IndexError`.
pub record Index (I V : Type 0) : Type 0 where
  pub with_hnsw : Distance → ℕ → HnswConfig → Option I
  pub add : I → String → List V → Option I
  pub delete : I → String → Option I
  pub search : I → List V → ℕ → ℕ → Option (List (IndexHit V))
  pub len : I → ℕ
  pub contains : I → String → Bool

-- What the engine calls of the trait `Catalog`; `none` is a `CatalogError`. A collection that is
-- found has its configuration.
pub record Catalog (K : Type 0) : Type 0 where
  pub advance_log_offset : K → String → ℕ → Option K
  pub update_collection_dimension : K → String → ℕ → Option K
  pub get_collection : K → String → String → String → Option (Option CollectionConfig)

-- What `EngineError::Validation` says, without its text.
pub data Invalid : Type 0 where
  embedding_count slice_count wrong_dimension already_exists : Invalid
  duplicate_in_batch not_found query_dimension : Invalid

-- EngineError
pub data EngineError : Type 0 where
  wal : WalError → EngineError
  index io serialization catalog collection_not_found : EngineError
  validation : Invalid → EngineError

pub data EngineResult {ℓ} (A : Type ℓ) : Type ℓ where
  ok : A → EngineResult A
  err : EngineError → EngineResult A

infixl 5 ◌>>=◌ ◌>>◌
abbrev pub ◌>>=◌ {ℓ κ} :
    {A : Type ℓ} {B : Type κ} → EngineResult A → (A → EngineResult B) → EngineResult B
ok a >>= f = f a
err e >>= f = err e

abbrev pub ◌>>◌ {ℓ} : {B : Type ℓ} → EngineResult (Unit {0}) → EngineResult B → EngineResult B
m >> k = m >>= λ _. k
