-- ===== src/Examples/Collections.antt =====
-- The theorems on collections, at a collection of one record.
use mathlib.Core.Path.{subst}
use rekha.Prelude.{
  ℕ, ◌≡◌, ◌≢◌, refl, String, inl, true, false, Option, none, some, List, [], ◌∷◌, ◌++◌, arith,
  Bool-cases, inr, str_eq, eq_iff,
}
use rekha.Prelude.Int.{pos}
use rekha.Prelude.Dict
use rekha.Prelude.Dict.{Dict, string_eqv, nat_eqv, get, get-remove}
use rekha.Core.Types.{int, Metadata}
use rekha.Core.Op.{Operation, add, delete, upsert}
use rekha.Wal.{Wal, wal_options}
use rekha.Wal.Recovery.{opened}
use rekha.Wal.Batch.{AreWritable, all_records}
use rekha.Wal.Log.{Entry}
use rekha.Wal.Append.{opened-Holds}
use rekha.Engine.Durable.Replay.{run, run-SameCore}
use rekha.Examples.Logs.{first_entry, first_entry-Fits}
use rekha.Engine.Base.{Record, ok}
use rekha.Engine.Postings.Represents.{IsMap}
use rekha.Engine.Collection.{Collection, apply_operation, apply_upsert, offset_for}
use rekha.Engine.Collection.Consistent.{IsConsistent}
use rekha.Engine.Collection.Apply.{apply_operation-IsConsistent}
use rekha.Engine.Collection.Core.{SameCore}
use rekha.Engine.Durable.{Durable, CheckpointDir, new_collection, new, write_ops}
use rekha.Engine.Durable.Open.{open_collection, load_checkpoint}
use rekha.Engine.Durable.Lenient.{IsLenient}
use rekha.Engine.Durable.Reopen.{open_collection-Replayable}
use rekha.Engine.Durable.Restore.{load_checkpoint-IsConsistent}
use rekha.Engine.Durable.Invariant.{new-IsConsistent}
use rekha.Engine.Durable.Recover.{new-SameCore, Replayable, new-Replayable, write_ops-Replayable}
use rekha.Examples.Floats.{Float, floats, ordered_floats}
use rekha.Examples.Bitmaps.{list_bitmap}
use rekha.Examples.Indexes.{dict_index, codec, config}

abbrev pub fresh : Collection Float ℕ (List ℕ) (Dict String (List ℕ))
fresh = new_collection config []

abbrev pub some_metadata : Option (Metadata Float)
some_metadata = some (("score", int (pos 5)) ∷ [])

-- A collection after one add.
abbrev pub added : Collection Float ℕ (List ℕ) (Dict String (List ℕ))
added = (apply_operation fresh (add "a" (1 ∷ 2 ∷ []) some_metadata none) 1).0

pub added-IsConsistent : IsConsistent added
unfolding get new_collection
added-IsConsistent =
    apply_operation-IsConsistent fresh (add "a" (1 ∷ 2 ∷ []) some_metadata none) 1
      (new-IsConsistent config []) (omega arith) (refl, tt)

apply_operation-IsConsistent_example :
    IsConsistent (apply_operation fresh (add "a" (1 ∷ 2 ∷ []) some_metadata none) 1).0
unfolding get new_collection
apply_operation-IsConsistent_example =
    apply_operation-IsConsistent fresh (add "a" (1 ∷ 2 ∷ []) some_metadata none) 1
      (new-IsConsistent config []) (omega arith) (refl, tt)

abbrev pub no_checkpoint : CheckpointDir Float ℕ (Dict String (List ℕ))
no_checkpoint = record {
  meta = none;
  records = none;
  index = none;
  segments = none;
  segment_index = none;
}

abbrev pub opened_empty : Durable Float ℕ (List ℕ) (Dict String (List ℕ))
opened_empty = new config [] (opened codec 5 [] (wal_options true)) no_checkpoint

opened_empty-Replayable : Replayable codec opened_empty
opened_empty-Replayable =
    new-Replayable codec config [] 5 (wal_options true) no_checkpoint (omega arith)

abbrev ops : List (Operation Float ℕ)
ops = upsert "a" (7 ∷ 8 ∷ []) none none ∷ delete "a" ∷ []

ops-AreWritable : AreWritable codec ops
ops-AreWritable = ((1 ∷ 7 ∷ 8 ∷ [], refl, omega arith), (([], refl, omega arith), tt))

pub lenient : (i : Dict String (List ℕ)) (id : String) → dict_index.delete i id ≢ none
lenient i id h = ground arith

write_ops-Replayable_example :
    ((write_ops codec opened_empty ops).1 ≡ ok tt)
    × Replayable codec (write_ops codec opened_empty ops).0
unfolding new wal_options
write_ops-Replayable_example =
    write_ops-Replayable codec lenient opened_empty ops opened_empty-Replayable (omega arith)
      ops-AreWritable

pub removed_out :
    (i j : Dict String (List ℕ)) (id : String)
    → dict_index.delete i id ≡ some j
    → dict_index.contains j id ≡ false
removed_out i j id h = ground (arith, get-remove i id id, h, eq_iff id id)

-- an index that is ready for any number of vectors, of any dimension
abbrev pub index-IsLenient : IsLenient dict_index
index-IsLenient = record {
  Ready = λ d n i. Unit {0};
  makes = λ space d hnsw. ([], refl, λ n few. tt);
  deletes = lenient;
  deleted = λ d n i j id ready h. (removed_out i j id h, tt);
  adds = λ d n i id v ready out fits. (Dict.insert i id v, refl, tt);
  fewer = λ d m n i few ready. tt;
}

abbrev pub one_upsert : List Entry
one_upsert = first_entry ∷ []

abbrev pub one_log : Wal
one_log = opened codec 5 one_upsert (wal_options true)

-- A collection after one upsert.
abbrev pub upserted : Durable Float ℕ (List ℕ) (Dict String (List ℕ))
upserted = record opened_empty {
  wal = one_log;
  coll = run (new_collection config []) (all_records codec one_log one_upsert);
}

abbrev pub upserted-Replayable : Replayable codec upserted
upserted-Replayable = record {
  entries = one_upsert;
  holds =
      opened-Holds codec 5 one_upsert (wal_options true) (omega arith)
        (first_entry-Fits, omega arith, refl, tt);
  replays = λ config' i.
      run-SameCore (new_collection config' i) (new_collection config [])
        (all_records codec one_log one_upsert) (new-SameCore config' config i []);
}

open_collection-Replayable_example :
    (s' : Durable Float ℕ (List ℕ) (Dict String (List ℕ))) × (open_collection codec
        upserted.coll.config
        (upserted.wal.file ++ 9 ∷ [])
        6
        true
        upserted.dir
      ≡ ok s')
    × SameCore s'.coll upserted.coll
unfolding new wal_options apply_operation apply_upsert offset_for get new_collection
open_collection-Replayable_example =
    open_collection-Replayable codec upserted (9 ∷ []) 6 true index-IsLenient upserted-Replayable
      (refl, tt) refl (inl (omega arith))

abbrev saved : Dict String (Record Float ℕ)
saved =
    (
      "a",
      record {
        id = "a";
        embedding = some (1 ∷ 2 ∷ []);
        metadata = some_metadata;
        document = none;
        seq = 3;
      },
    )
    ∷ []

saved-maps : (id : String) (r : Record Float ℕ) → get saved id ≡ some r → IsMap r.metadata
unfolding get
saved-maps id r e = elim (Bool-cases (str_eq "a" id)) [
  | inl same ↦
      let m : some_metadata ≡ r.metadata = ground (arith, e, same) in subst IsMap m (refl, tt)
  | inr other ↦ absurd (ground (arith, e, other))
]

abbrev checkpointed : Durable Float ℕ (List ℕ) (Dict String (List ℕ))
checkpointed = new config [] (opened codec 5 [] (wal_options true)) (record {
  meta = some (record { flushed_seq = 3; next_seq = 4; record_count = 1 });
  records = some saved;
  index = none;
  segments = some (some ((1 ∷ 2 ∷ []) ∷ []) ∷ none ∷ []);
  segment_index = some (("a", 0) ∷ []);
})

load_checkpoint-IsConsistent_example :
    IsConsistent (load_checkpoint codec checkpointed 5 true).0.coll
unfolding new get
load_checkpoint-IsConsistent_example =
    load_checkpoint-IsConsistent codec checkpointed 5 true (new-IsConsistent config []) (refl, tt)
      saved-maps (omega arith)
