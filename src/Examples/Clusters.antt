-- ===== src/Examples/Clusters.antt =====
-- The theorems on the cluster, at small logs and states.
use rekha.Prelude.{
  take, ℕ, ◌≡◌, refl, String, inr, none, some, List, [], ◌∷◌, ◌==◌, if◌then◌else◌, arith,
}
use rekha.Prelude.Dict.{nat_eqv, string_eqv, get}
use rekha.Cluster.LogStore.{
  LogId, Entry, included, excluded, MemoryLogStore, RedbLogStore, redb_read, redb_state,
  memory_read, memory_state,
}
use rekha.Cluster.LogStore.Range.{at}
use rekha.Cluster.LogStore.Refines.{
  Represents, Call, append, truncate, purge, save_vote, redb_run, memory_run, run-answers,
}
use rekha.Cluster.StateMachine.{
  add_node, transfer_leadership, EntryPayload, normal, ClusterState, ClusterStateMachine, apply,
}
use rekha.Cluster.StateMachine.Leader.{OneLeader, apply-OneLeader}
use rekha.Cluster.StateMachine.Snapshot.{
  StateCodec, EngineSnapshotProvider, SnapshotMeta, ok, build_snapshot, install_snapshot, installed,
  engine_data, after_engine, install-build_snapshot, install_snapshot-cut,
}
use rekha.Cluster.Replication.{fetch_delta_with_retry, fetch_delta_with_retry-found}

abbrev id_of : ℕ → LogId
id_of index = record { term = 1; node = 2; index = index }

abbrev entry : ℕ → Entry String
entry index = record { log_id = id_of index; payload = "op" }

abbrev memory : MemoryLogStore String ℕ
memory = record { entries = []; last_purged_log_id = none; committed = none; vote = none }

abbrev redb : RedbLogStore String ℕ
redb = record { log = []; vote = none; state = none; last_purged = none }

redb-Represents : Represents redb memory
unfolding get at
redb-Represents = record {
  ascending = tt;
  unique = tt;
  same = λ i. refl;
  purged = refl;
  votes = refl;
}

abbrev calls : List (Call String ℕ)
calls =
    append (entry 1 ∷ entry 2 ∷ entry 3 ∷ [])
    ∷ save_vote 7
    ∷ purge (id_of 1)
    ∷ truncate (id_of 3)
    ∷ []

run-answers_example :
    (redb_state (redb_run redb calls) ≡ memory_state (memory_run memory calls))
    × (redb_read (redb_run redb calls) (included 1) (excluded 9)
        ≡ memory_read (memory_run memory calls) (included 1) (excluded 9))
    × ((redb_run redb calls).vote ≡ (memory_run memory calls).vote)
run-answers_example =
    run-answers redb memory calls (included 1) (excluded 9) 9
      ((omega arith, (omega arith, (omega arith, tt))), (tt, (tt, (tt, tt)))) redb-Represents
      (inr refl)

abbrev state : ClusterState ℕ
state = record {
  nodes = [];
  collections = [];
  clock_map = [];
  last_applied = none;
  membership = record { log_id = none; membership = 0 };
}

nobody-OneLeader : OneLeader state.nodes
unfolding get
nobody-OneLeader = record {
  keyed = λ k info h. ground arith;
  one = λ j k a b p q la lb. ground arith;
}

abbrev operations : List (Entry (EntryPayload ℕ))
operations =
    record { log_id = id_of 1; payload = normal (add_node 1 "a") }
    ∷ record { log_id = id_of 2; payload = normal (add_node 2 "b") }
    ∷ record { log_id = id_of 3; payload = normal (transfer_leadership 2) }
    ∷ []

apply-OneLeader_example : OneLeader (apply state operations).0.nodes
apply-OneLeader_example = apply-OneLeader state operations nobody-OneLeader

fetch_delta_with_retry-found_example :
    fetch_delta_with_retry {D = String} (λ n. if n == 1 then some "delta" else none) 3
    ≡ (100 ∷ [], some "delta")
fetch_delta_with_retry-found_example =
    fetch_delta_with_retry-found {D = String} (λ n. if n == 1 then some "delta" else none) 3 1
      "delta" (omega arith) (omega arith) (λ j h. ground (arith, h)) refl

-- A codec that knows one state, and an engine that is its bytes.
abbrev codec : StateCodec ℕ
codec = record { serialize = λ s. some (1 ∷ 2 ∷ []); deserialize = λ bytes. some state }

instance abbrev provider : EngineSnapshotProvider (List ℕ)
provider = record { snapshot = λ e. some e; restore_snapshot = λ e bytes. some bytes }

abbrev leader : ClusterStateMachine ℕ (List ℕ)
leader = record { state = state; engine = some (7 ∷ 8 ∷ []) }

abbrev follower : ClusterStateMachine ℕ (List ℕ)
follower = record { state = (apply state operations).0; engine = some [] }

install-build_snapshot_example :
    (meta : SnapshotMeta ℕ) × (snapshot : List ℕ) × (build_snapshot codec leader
      ≡ ok (meta, snapshot))
    × (install_snapshot codec follower meta snapshot
        ≡ (installed codec state (some (7 ∷ 8 ∷ [])), ok tt))
unfolding engine_data after_engine
install-build_snapshot_example =
    install-build_snapshot codec leader follower (1 ∷ 2 ∷ []) (7 ∷ 8 ∷ []) (some (7 ∷ 8 ∷ [])) refl
      refl refl (omega arith) refl

-- one byte of the state is missing
install_snapshot-cut_example :
    (meta : SnapshotMeta ℕ) × (snapshot : List ℕ) × (other : ClusterStateMachine ℕ (List ℕ))
    × (build_snapshot codec leader ≡ ok (meta, snapshot))
    × (install_snapshot codec follower meta (take 5 snapshot) ≡ (other, ok tt))
    × (other.state.last_applied ≡ leader.state.last_applied)
    × (other.state.membership ≡ leader.state.membership)
    × (other.state.nodes ≡ follower.state.nodes)
    × (other.state.collections ≡ follower.state.collections)
    × (other.state.clock_map ≡ follower.state.clock_map)
    × (other.engine ≡ follower.engine)
unfolding engine_data
install_snapshot-cut_example =
    install_snapshot-cut codec leader follower (1 ∷ 2 ∷ []) (7 ∷ 8 ∷ []) 5 refl refl (omega arith)
      (omega arith) (omega arith)
