-- ===== src/Examples/Snapshots.antt =====
-- The theorems on snapshots, at two engines of one collection.
use rekha.Prelude.{
  ℕ, ◌≡◌, refl, String, Option, none, some, List, [], ◌∷◌, str_eq, eq_iff, if◌then◌else◌, arith,
}
use rekha.Prelude.Dict
use rekha.Prelude.Dict.{Dict, string_eqv, get}
use rekha.Core.Types.{Metadata}
use rekha.Engine.Base.{Record, Catalog, ok}
use rekha.Engine.Durable.{Durable, new_collection}
use rekha.Engine.Handlers.{Engine}
use rekha.Engine.Handlers.Snapshot.{
  SnapshotCodec, values, snapshot, restore_snapshot, restore_snapshot-unnamed,
}
use rekha.Engine.Handlers.Restored.{over, restore_snapshot-records}
use rekha.Examples.Floats.{Float, floats, ordered_floats}
use rekha.Examples.Bitmaps.{list_bitmap}
use rekha.Examples.Indexes.{dict_index}
use rekha.Examples.Indexes.{config}
use rekha.Examples.Checkpoints.{watermark, before}
use rekha.Examples.Collections.{opened_empty}

-- Only a record "a" without metadata, in the collection "c1", has bytes.
abbrev encode :
    String → Option (List ℕ) → Option (Metadata Float) → Option String → ℕ → Option (List ℕ)
encode id (some e) none none seq = if str_eq id "a" then some (seq ∷ e) else none
encode _ _ _ _ _ = none

abbrev serialize : Dict String (List (Record Float ℕ)) → Option (List ℕ)
serialize ((id, r ∷ []) ∷ []) =
    if str_eq id "c1" then encode r.id r.embedding r.metadata r.document r.seq else none
serialize _ = none

abbrev deserialize : List ℕ → Option (Dict String (List (Record Float ℕ)))
deserialize [] = none
deserialize (seq ∷ e) = some (
    (
      "c1",
      record { id = "a"; embedding = some e; metadata = none; document = none; seq = seq } ∷ [],
    )
    ∷ [])

deserialize-encode :
    (id : String) (e : Option (List ℕ)) (m : Option (Metadata Float)) (t : Option String) (seq : ℕ)
    (bytes : List ℕ)
    → encode id e m t seq ≡ some bytes
    → deserialize bytes
      ≡ some (
          ("c1", record { id = id; embedding = e; metadata = m; document = t; seq = seq } ∷ [])
          ∷ [])
deserialize-encode id (some e) none none seq bytes h = ground (arith, eq_iff id "a", h)
deserialize-encode id (some e) none (some t) seq bytes h = ground arith
deserialize-encode id (some e) (some m) t seq bytes h = ground arith
deserialize-encode id none m t seq bytes h = ground arith

deserialize-serialize :
    (content : Dict String (List (Record Float ℕ))) (bytes : List ℕ)
    → serialize content ≡ some bytes
    → deserialize bytes ≡ some content
deserialize-serialize [] bytes h = ground arith
deserialize-serialize ((id, []) ∷ cs) bytes h = ground arith
deserialize-serialize ((id, r ∷ s ∷ rs) ∷ cs) bytes h = ground arith
deserialize-serialize ((id, r ∷ []) ∷ c ∷ cs) bytes h = ground arith
deserialize-serialize ((id, r ∷ []) ∷ []) bytes h = ground (
  arith,
  eq_iff id "c1",
  deserialize-encode r.id r.embedding r.metadata r.document r.seq bytes,
  h,
)

abbrev snapshot_codec : SnapshotCodec Float ℕ
snapshot_codec = record {
  serialize = serialize;
  deserialize = deserialize;
  deserialize-serialize = deserialize-serialize;
}

abbrev leader : Engine Float ℕ (List ℕ) (Dict String (List ℕ)) ℕ
leader = record { collections = ("c1", before) ∷ []; catalog = 0 }

abbrev follower : Engine Float ℕ (List ℕ) (Dict String (List ℕ)) ℕ
follower = record { collections = ("c1", opened_empty) ∷ []; catalog = 0 }

-- the catalog finds the name "docs", and not the id "c1" of that collection
abbrev named : Catalog ℕ
named = record watermark {
  get_collection =
      λ k tenant database name. if str_eq name "docs" then some (some config) else some none;
}

restore_snapshot-unnamed_example :
    (e' : Engine Float ℕ (List ℕ) (Dict String (List ℕ)) ℕ) × (restore_snapshot ⦃catalog = named⦄
        snapshot_codec follower
        (1 ∷ 7 ∷ 8 ∷ [])
      ≡ (e', ok tt))
    × (get e'.collections "c1" ≡ get follower.collections "c1")
    × (e'.catalog ≡ follower.catalog)
unfolding snapshot values new_collection Dict.insert
restore_snapshot-unnamed_example =
    restore_snapshot-unnamed ⦃catalog = named⦄ snapshot_codec leader follower (1 ∷ 7 ∷ 8 ∷ []) "c1"
      refl refl

-- a catalog with a collection of every name, next to the one that has none
abbrev full_catalog : Catalog ℕ
full_catalog = record watermark { get_collection = λ k tenant database name. some (some config) }

restore_snapshot-records_example :
    (e' : Engine Float ℕ (List ℕ) (Dict String (List ℕ)) ℕ) × (t' : Durable Float ℕ
      (List ℕ)
      (Dict String (List ℕ)))
    × (restore_snapshot ⦃catalog = full_catalog⦄ snapshot_codec follower (1 ∷ 7 ∷ 8 ∷ [])
        ≡ (e', ok tt))
    × (get e'.collections "c1" ≡ some t')
    × ((j : String)
        → get t'.coll.records j
          ≡ over (get before.coll.records j) (get opened_empty.coll.records j))
    × (t'.coll.offsets ≡ opened_empty.coll.offsets)
    × (t'.coll.postings ≡ opened_empty.coll.postings)
unfolding snapshot values new_collection Dict.insert get
restore_snapshot-records_example =
    restore_snapshot-records ⦃catalog = full_catalog⦄ snapshot_codec leader follower
      (1 ∷ 7 ∷ 8 ∷ []) "c1" before opened_empty refl refl (λ h. ground arith) (refl, tt) (refl, tt)
      (refl, tt) refl
