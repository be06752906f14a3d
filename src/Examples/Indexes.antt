-- ===== src/Examples/Indexes.antt =====
-- An instance of the index, and a codec of the operations on one id.
use rekha.Prelude.{
  ℕ, ◌%◌, ◌^◌, ◌<◌, ◌≡◌, String, Option, none, some, List, [], ◌∷◌, length, str_eq, eq_iff,
  if◌then◌else◌, is_some, arith,
}
use rekha.Prelude.Dict
use rekha.Prelude.Dict.{Dict, string_eqv, get}
use rekha.Core.Op.{Operation, add, update, delete, upsert}
use rekha.Core.Config.{CollectionConfig, default_hnsw}
use rekha.Core.Types.{l2}
use rekha.Wal.{Codec}
use rekha.Engine.Base.{Index}
use rekha.Examples.Floats.{Float, floats}

instance abbrev pub dict_index : Index (Dict String (List ℕ)) ℕ
dict_index = record {
  with_hnsw = λ space dimension hnsw. some [];
  add = λ i id e. some (Dict.insert i id e);
  delete = λ i id. some (Dict.remove i id);
  search = λ i q k ef. some [];
  len = λ i. length i;
  contains = λ i id. is_some (get i id);
}

-- Only an upsert of "a" without metadata, and a delete of "a", have a payload.
abbrev pub encode : Operation Float ℕ → Option (List ℕ)
encode (upsert id e none none) = if str_eq id "a" then some (1 ∷ e) else none
encode (delete id) = if str_eq id "a" then some [] else none
encode _ = none

abbrev pub decode : List ℕ → Option (Operation Float ℕ)
decode [] = some (delete "a")
decode (x ∷ e) = some (upsert "a" e none none)

abbrev pub hash : List ℕ → ℕ
hash bytes = length bytes % 0x1_0000_0000

pub hash-lt : (bytes : List ℕ) → hash bytes < 256 ^ 4
hash-lt bytes = omega arith

pub decode-encode :
    (op : Operation Float ℕ) (bytes : List ℕ) → encode op ≡ some bytes → decode bytes ≡ some op
decode-encode (upsert id e none none) bytes h = ground (arith, eq_iff id "a")
decode-encode (upsert id e none (some x)) bytes h = ground arith
decode-encode (upsert id e (some m) x) bytes h = ground arith
decode-encode (delete id) bytes h = ground (arith, eq_iff id "a")
decode-encode (add id e m t) bytes h = ground arith
decode-encode (update id m t) bytes h = ground arith

abbrev pub codec : Codec (Operation Float ℕ)
codec = record {
  hash = hash;
  serialize = encode;
  deserialize = decode;
  hash-lt = hash-lt;
  deserialize-serialize = decode-encode;
}

abbrev pub config : CollectionConfig
config = record {
  id = "c1";
  tenant = "default_tenant";
  database = "default_database";
  name = "docs";
  dimension = 2;
  space = l2;
  hnsw = default_hnsw;
}
