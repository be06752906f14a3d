-- ===== src/Examples/Lookups.antt =====
-- The theorems on reading, at a record whose vector was checkpointed.
use rekha.Prelude.{true, ℕ, ◌≡◌, refl, String, none, some, List, [], ◌∷◌, str_eq, if◌then◌else◌}
use rekha.Prelude.Dict.{Dict, string_eqv, get}
use rekha.Core.Op.{op_id, update, upsert}
use rekha.Engine.Collection.{Collection, apply_operation}
use rekha.Engine.Durable.{Durable, new_collection}
use rekha.Engine.Lookup.{load_vector, get_record}
use rekha.Engine.Lookup.Written.{written, after, apply_operation-written, get_record-stale}
use rekha.Wal.{wal_options}
use rekha.Wal.Recovery.{opened}
use rekha.Examples.Floats.{Float, floats, ordered_floats}
use rekha.Examples.Bitmaps.{list_bitmap}
use rekha.Examples.Indexes.{dict_index, codec, config}

abbrev fresh : Collection Float ℕ (List ℕ) (Dict String (List ℕ))
fresh = new_collection config []

apply_operation-written_example :
    get (apply_operation fresh (update "a" none (some "text")) 4).0.records "a" ≡ (
      if str_eq (op_id {F = Float} {V = ℕ} (update "a" none (some "text"))) "a"
      then written
          (update "a" none (some "text"))
          4
          (get fresh.records (op_id {F = Float} {V = ℕ} (update "a" none (some "text"))))
      else get fresh.records "a")
apply_operation-written_example =
    apply_operation-written fresh (update "a" none (some "text")) 4 "a"

-- The first vector of the segment is that of "a".
abbrev checkpointed : Durable Float ℕ (List ℕ) (Dict String (List ℕ))
checkpointed = record {
  coll = fresh;
  wal = opened codec 5 [] (wal_options true);
  dir = record { meta = none; records = none; index = none; segments = none; segment_index = none };
  last_checkpoint_seq = 0;
  segments = ((1 ∷ 2 ∷ []) ∷ []) ∷ [];
  segment_index = ("a", 0) ∷ [];
}

get_record-stale_example :
    get_record (after checkpointed (upsert "a" (8 ∷ 9 ∷ []) none none) 5) "a"
    ≡ some (record {
      id = "a";
      embedding = some (1 ∷ 2 ∷ []);
      metadata = none;
      document = none;
      seq = 5;
    })
unfolding load_vector get
get_record-stale_example =
    get_record-stale checkpointed "a" (8 ∷ 9 ∷ []) (1 ∷ 2 ∷ []) none none 5 refl
