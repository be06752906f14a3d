-- ===== src/Examples/Checkpoints.antt =====
-- The theorems on checkpoints, at a collection of one record.
use rekha.Prelude.{true, false, ℕ, ◌≡◌, refl, String, none, some, List, [], ◌∷◌, ◌++◌, inl, arith}
use rekha.Prelude.Dict.{Dict, string_eqv, get}
use rekha.Prelude.Dict
use rekha.Wal.Format.{prefix_at, payload_at}
use rekha.Wal.{
  wal_options, prune, prune_loop, open_wal, recover, scan, scan_loop, build_header,
  read_and_verify_header, frame, is_valid_record,
}
use rekha.Wal.Log.{encode_all}
use rekha.Wal.Recovery.{opened}
use rekha.Engine.Base.{Record, Catalog, ok}
use rekha.Engine.Collection.{Collection, apply_operation, apply_upsert, offset_for}
use rekha.Engine.Durable.{Durable, new_collection, max}
use rekha.Engine.Durable.Checkpoint.{
  Disk, checkpoint, write_records, write_index, write_marker, write_segments, strip_covered,
}
use rekha.Engine.Durable.Checkpoint.Vectors.{AllCovered, checkpoint-loses}
use rekha.Engine.Durable.Checkpoint.Entries.{vector_of}
use rekha.Engine.Lookup.{get_record}
use rekha.Engine.Durable.Open.{open_collection}
use rekha.Engine.Durable.Checkpoint.Reopened.{checkpoint-open_collection}
use rekha.Engine.Durable.Checkpoint.Cut.{LeaveAlone, checkpoint-forgets}
use rekha.Wal.Batch.{all_records}
use rekha.Engine.Base.{EngineError, err}
use rekha.Engine.Durable.{CheckpointMeta}
use rekha.Wal.Log.{Entry}
use rekha.Wal.Append.{Holds, opened-Holds}
use rekha.Examples.Logs.{first_entry}
use rekha.Examples.Collections.{upserted, upserted-Replayable, index-IsLenient}
use rekha.Examples.Floats.{Float, floats, ordered_floats}
use rekha.Examples.Bitmaps.{list_bitmap}
use rekha.Examples.Indexes.{dict_index, codec, config}

-- A catalog that keeps one watermark.
instance abbrev pub watermark : Catalog ℕ
watermark = record {
  advance_log_offset = λ k id seq. some (max k seq);
  update_collection_dimension = λ k id dimension. some k;
  get_collection = λ k tenant database name. some none;
}

abbrev pub disk : Disk (Dict String (List ℕ))
disk = record {
  directory = true;
  records = true;
  index = true;
  index_left = none;
  stale = true;
  marker = true;
  segment_directory = true;
  segment = true;
  segment_index = true;
  segment_opened = true;
  cleaned = true;
}

abbrev pub note : Record Float ℕ
note = record { id = "a"; embedding = some (7 ∷ 8 ∷ []); metadata = none; document = none; seq = 1 }

abbrev flushed : Collection Float ℕ (List ℕ) (Dict String (List ℕ))
flushed = record (new_collection config []) {
  records = ("a", note) ∷ [];
  index = ("a", 7 ∷ 8 ∷ []) ∷ [];
  flushed_seq = 1;
  offsets = ("a", 0) ∷ [];
  id_by_offset = (0, "a") ∷ [];
  next_offset = 1;
  postings = record { eq = []; num = []; all = 0 ∷ [] };
}

abbrev pub before : Durable Float ℕ (List ℕ) (Dict String (List ℕ))
before = record {
  coll = flushed;
  wal = record (opened codec 5 [] (wal_options true)) { last_seq = 1 };
  dir = record { meta = none; records = none; index = none; segments = none; segment_index = none };
  last_checkpoint_seq = 0;
  segments = [];
  segment_index = [];
}

abbrev pub once : Durable Float ℕ (List ℕ) (Dict String (List ℕ))
once = (checkpoint {K = ℕ} codec disk true before 0).0.0

abbrev twice : Durable Float ℕ (List ℕ) (Dict String (List ℕ))
twice = (checkpoint {K = ℕ} codec disk true once 1).0.0

pub checkpointed : checkpoint {K = ℕ} codec disk true before 0 ≡ ((once, 1), ok tt)
unfolding checkpoint write_records write_index write_marker write_segments strip_covered prune
    prune_loop encode_all open_wal recover scan scan_loop build_header read_and_verify_header
checkpointed = refl

checkpointed_again : checkpoint {K = ℕ} codec disk true once 1 ≡ ((twice, 1), ok tt)
unfolding checkpoint write_records write_index write_marker write_segments strip_covered prune
    prune_loop encode_all open_wal recover scan scan_loop build_header read_and_verify_header
checkpointed_again = refl

pub note-AllCovered : AllCovered 1 flushed.records
unfolding get
note-AllCovered id = ground arith

checkpoint-loses_example : vector_of (get_record twice "a") ≡ none
unfolding get new_collection
checkpoint-loses_example =
    checkpoint-loses {K = ℕ} codec disk disk true before once twice 0 1 1 "a" refl refl refl refl
      refl (refl, tt) note-AllCovered checkpointed checkpointed_again

-- a checkpoint of the collection after one upsert, which the index does not have yet
abbrev upserted_once : Durable Float ℕ (List ℕ) (Dict String (List ℕ))
upserted_once = (checkpoint {K = ℕ} codec disk true upserted 0).0.0

upserted_checkpointed : checkpoint {K = ℕ} codec disk true upserted 0 ≡ ((upserted_once, 0), ok tt)
unfolding checkpoint write_records write_index write_marker write_segments strip_covered prune
    prune_loop encode_all open_wal recover scan scan_loop build_header read_and_verify_header
    apply_operation apply_upsert Dict.insert offset_for get new_collection frame prefix_at
    is_valid_record payload_at
upserted_checkpointed = refl

checkpoint-open_collection_example :
    (u : Durable Float ℕ (List ℕ) (Dict String (List ℕ))) × (open_collection codec
        upserted_once.coll.config
        (upserted_once.wal.file ++ 9 ∷ [])
        6
        true
        upserted_once.dir
      ≡ ok u)
    × ((id : String) → get_record u id ≡ get upserted.coll.records id)
unfolding get new_collection apply_operation apply_upsert offset_for Dict.insert
checkpoint-open_collection_example =
    checkpoint-open_collection {K = ℕ} codec disk true upserted upserted_once 0 0
      upserted-Replayable (9 ∷ []) 6 index-IsLenient tt (refl, tt) refl refl refl (refl, tt)
      upserted_checkpointed (inl (omega arith))

-- the log behind a checkpoint: "a" is written at seq 2
abbrev late : List Entry
late = record first_entry { seq = 2 } ∷ []

late-Holds : Holds codec (opened codec 5 late (wal_options true)) late
late-Holds = opened-Holds codec 5 late (wal_options true) (omega arith) (
  record {
    seq_fits = omega arith;
    epoch_fits = omega arith;
    payload_fits = omega arith;
    decodes = refl;
  },
  omega arith,
  refl,
  tt,
)

abbrev only_b : CheckpointMeta
only_b = record { flushed_seq = 1; next_seq = 2; record_count = 1 }

-- a collection with a checkpoint of "b" alone, and "a" written after it
abbrev grown : Durable Float ℕ (List ℕ) (Dict String (List ℕ))
grown = record before {
  coll = record flushed {
    records = ("b", record note { id = "b" }) ∷ ("a", record note { seq = 2 }) ∷ [];
  };
  wal = opened codec 5 late (wal_options true);
  dir = record before.dir {
    meta = some only_b;
    records = some (("b", record note { id = "b" }) ∷ []);
  };
}

abbrev cut_disk : Disk (Dict String (List ℕ))
cut_disk = record disk { marker = false }

checkpoint-forgets_example :
    (t u : Durable Float ℕ (List ℕ) (Dict String (List ℕ))) × (checkpoint {K = ℕ} codec cut_disk
        true grown 0
      ≡ ((t, 0), err EngineError.io))
    × (open_collection codec t.coll.config (t.wal.file ++ 9 ∷ []) 6 true t.dir ≡ ok u)
    × ((id : String)
        → LeaveAlone id (all_records codec grown.wal late)
        → get u.coll.records id ≡ none)
unfolding new_collection
checkpoint-forgets_example =
    checkpoint-forgets {K = ℕ} codec cut_disk true grown 0 late only_b (9 ∷ []) 6 index-IsLenient
      late-Holds (refl, tt) refl refl
      (record { directory = refl; records = refl; index = refl; stale = refl; marker = refl }) refl
      (inl (omega arith))
