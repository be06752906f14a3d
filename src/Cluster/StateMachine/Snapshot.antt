-- ===== src/Cluster/StateMachine/Snapshot.antt =====
-- `build_snapshot` and `install_snapshot` of crates/rekha-cluster/src/state_machine.rs.
use rekha.Prelude.{
  ℕ, ◌+◌, ◌^◌, ◌<◌, ◌≤◌, ◌≡◌, refl, ap, ◌∙◌, true, false, Option, none, some, List, [], ◌∷◌, ◌++◌,
  length, take, drop, leb, ltb, if◌then◌else◌, arith, length-append, take-length_append,
  drop-length_append, take-take, length-take, length-drop,
}
use rekha.Wal.Bytes.{to_le_bytes, from_le_bytes, le_u32, length-to_le_bytes, from-to_le_bytes}
use rekha.Cluster.LogStore.{LogId}
use rekha.Cluster.StateMachine.{StoredMembership, ClusterState, ClusterStateMachine}

-- bincode on the state
pub record StateCodec (M : Type 0) : Type 0 where
  pub serialize : ClusterState M → Option (List ℕ)
  pub deserialize : List ℕ → Option (ClusterState M)

-- EngineSnapshotProvider; `none` is its error
pub record EngineSnapshotProvider (E : Type 0) : Type 0 where
  pub snapshot : E → Option (List ℕ)
  pub restore_snapshot : E → List ℕ → Option E

-- openraft's SnapshotMeta, without the id
pub record SnapshotMeta (M : Type 0) : Type 0 where
  pub last_log_id : Option LogId
  pub last_membership : StoredMembership M

pub data SnapshotError : Type 0 where
  serialize_failed deserialize_failed engine_failed : SnapshotError

pub data SnapshotResult {ℓ} (A : Type ℓ) : Type ℓ where
  ok : A → SnapshotResult A
  err : SnapshotError → SnapshotResult A

module _ {E : Type 0} ⦃provider : EngineSnapshotProvider E⦄ where
  -- the bytes of the engine, or none without an engine
  unfoldable pub engine_data : Option E → SnapshotResult (List ℕ)
  engine_data none = ok []
  engine_data (some engine) = elim (provider.snapshot engine) [
    | none ↦ err engine_failed
    | some bytes ↦ ok bytes
  ]

  unfoldable pub restore_engine : Option E → List ℕ → SnapshotResult (Option E)
  restore_engine none bytes = ok none
  restore_engine (some engine) bytes = elim (provider.restore_snapshot engine bytes) [
    | none ↦ err engine_failed
    | some engine' ↦ ok (some engine')
  ]

-- the bytes of a snapshot; the length is an `u32`
unfoldable pub combined : List ℕ → List ℕ → List ℕ
combined cluster_data engine_data =
    to_le_bytes 4 (length cluster_data) ++ (cluster_data ++ engine_data)

pub le_u32-combined : (a bytes : List ℕ) → length a < 256 ^ 4 → le_u32 (combined a bytes) ≡ length a
unfolding le_u32 combined
le_u32-combined a bytes fits =
    let size = length-to_le_bytes 4 (length a) in
    let first = rw size at (take-length_append (to_le_bytes 4 (length a)) (a ++ bytes)) in
    ap from_le_bytes first ∙ from-to_le_bytes 4 (length a) fits

module _ {M E : Type 0} ⦃provider : EngineSnapshotProvider E⦄ (codec : StateCodec M) where
  -- ClusterSnapshotBuilder::build_snapshot, and get_current_snapshot
  unfoldable pub build_snapshot : ClusterStateMachine M E → SnapshotResult (SnapshotMeta M × List ℕ)
  unfolding engine_data combined
  build_snapshot sm = elim (codec.serialize sm.state) [
    | none ↦ err serialize_failed
    | some cluster_data ↦ elim (engine_data sm.engine) [
      | err e ↦ err e
      | ok bytes ↦ ok (
        record { last_log_id = sm.state.last_applied; last_membership = sm.state.membership },
        combined cluster_data bytes,
      )
    ]
  ]

  -- the end of `install_snapshot`
  unfoldable pub finish_install : ClusterStateMachine M E → SnapshotMeta M → ClusterStateMachine M E
  finish_install sm meta = record sm {
    state = record sm.state { last_applied = meta.last_log_id; membership = meta.last_membership };
  }

  -- the second test of `install_snapshot`: whether there are bytes of the engine
  unfoldable pub install_engine :
      ClusterStateMachine M E
      → SnapshotMeta M
      → List ℕ
      → ClusterStateMachine M E × SnapshotResult (Unit {0})
  unfolding restore_engine finish_install
  install_engine sm meta [] = (finish_install sm meta, ok tt)
  install_engine sm meta (b ∷ bytes) = elim (restore_engine sm.engine (b ∷ bytes)) [
    | err e ↦ (sm, err e)
    | ok engine ↦ (finish_install (record sm { engine = engine }) meta, ok tt)
  ]

  -- the first test: whether the bytes of the cluster are all there
  unfoldable pub install_cluster :
      ClusterStateMachine M E
      → SnapshotMeta M
      → ℕ
      → List ℕ
      → ClusterStateMachine M E × SnapshotResult (Unit {0})
  unfolding install_engine
  install_cluster sm meta cluster_len body =
      if leb cluster_len (length body)
      then (elim (codec.deserialize (take cluster_len body)) [
        | none ↦ (sm, err deserialize_failed)
        | some state ↦ install_engine (record sm { state = state }) meta (drop cluster_len body)
      ])
      else install_engine sm meta []

  -- ClusterStateMachine::install_snapshot
  unfoldable pub install_snapshot :
      ClusterStateMachine M E
      → SnapshotMeta M
      → List ℕ
      → ClusterStateMachine M E × SnapshotResult (Unit {0})
  unfolding install_cluster le_u32
  install_snapshot sm meta bytes =
      if ltb (length bytes) 4
      then (sm, ok tt)
      else install_cluster sm meta (le_u32 bytes) (drop 4 bytes)

  -- What installing leaves when the engine took its bytes.
  abbrev pub installed : ClusterState M → Option E → ClusterStateMachine M E
  installed state engine = record { state = state; engine = engine }

  -- the engine after its bytes, if there are any
  unfoldable pub after_engine : Option E → List ℕ → SnapshotResult (Option E)
  unfolding restore_engine
  after_engine engine [] = ok engine
  after_engine engine (b ∷ bytes) = restore_engine engine (b ∷ bytes)

  install_engine-installed :
      (state : ClusterState M) (before after : Option E) (bytes : List ℕ)
      → after_engine before bytes ≡ ok after
      → install_engine
          (installed state before)
          (record { last_log_id = state.last_applied; last_membership = state.membership })
          bytes
        ≡ (installed state after, ok tt)
  unfolding after_engine install_engine finish_install
  install_engine-installed state before after [] h = ground arith
  install_engine-installed state before after (b ∷ bytes) h = rw (h, install_engine) refl

  install_cluster-whole :
      (other : ClusterStateMachine M E) (meta : SnapshotMeta M) (a bytes : List ℕ)
      (state : ClusterState M)
      → codec.deserialize a ≡ some state
      → install_cluster other meta (length a) (a ++ bytes)
        ≡ install_engine (record other { state = state }) meta bytes
  unfolding install_cluster
  install_cluster-whole other meta a bytes state read =
      let whole : leb (length a) (length (a ++ bytes)) ≡ true =
        ground (arith, length-append a bytes) in
      rw (whole, take-length_append a bytes, read, drop-length_append a bytes) refl

  install_snapshot-combined :
      (other : ClusterStateMachine M E) (meta : SnapshotMeta M) (a bytes : List ℕ)
      → length a < 256 ^ 4
      → install_snapshot other meta (combined a bytes)
        ≡ install_cluster other meta (length a) (a ++ bytes)
  unfolding install_snapshot combined
  install_snapshot-combined other meta a bytes fits =
      let size = length-to_le_bytes 4 (length a) in
      let long : ltb (length (combined a bytes)) 4 ≡ false =
        ground (arith, length-append (to_le_bytes 4 (length a)) (a ++ bytes), size) in
      let header : le_u32 (combined a bytes) ≡ length a = le_u32-combined a bytes fits in
      let body : drop 4 (combined a bytes) ≡ a ++ bytes =
        rw size at (drop-length_append (to_le_bytes 4 (length a)) (a ++ bytes)) in
      rw long (
        ap (λ n. install_cluster other meta n (drop 4 (combined a bytes))) header
        ∙ ap (λ body. install_cluster other meta (length a) body) body)

  -- A snapshot that one node builds, installed on any other node, gives it the state, the position
  -- in the log and the membership of the first, and hands the engine its bytes, if the engine makes
  -- and takes them, the state is encoded and read back, and it is shorter than 2^32 bytes.
  pub install-build_snapshot :
      (sm other : ClusterStateMachine M E) (a bytes : List ℕ) (after : Option E)
      → codec.serialize sm.state ≡ some a
      → codec.deserialize a ≡ some sm.state
      → engine_data sm.engine ≡ ok bytes
      → length a < 256 ^ 4
      → after_engine other.engine bytes ≡ ok after
      → (meta : SnapshotMeta M) × (snapshot : List ℕ) × (build_snapshot sm ≡ ok (meta, snapshot))
        × (install_snapshot other meta snapshot ≡ (installed sm.state after, ok tt))
  unfolding build_snapshot
  install-build_snapshot sm other a bytes after written read built fits taken =
      let meta : SnapshotMeta M = record {
        last_log_id = sm.state.last_applied;
        last_membership = sm.state.membership;
      } in
      (
        meta,
        combined a bytes,
        rw (written, build_snapshot, built) refl,
        install_snapshot-combined other meta a bytes fits
            ∙ (install_cluster-whole other meta a bytes sm.state read
                ∙ install_engine-installed sm.state other.engine after bytes taken),
      )

  install_cluster-short :
      (sm : ClusterStateMachine M E) (meta : SnapshotMeta M) (cluster_len : ℕ) (body : List ℕ)
      → length body < cluster_len
      → install_cluster sm meta cluster_len body ≡ (finish_install sm meta, ok tt)
  unfolding install_cluster install_engine
  install_cluster-short sm meta cluster_len body short =
      let test : leb cluster_len (length body) ≡ false = ground (arith, short) in rw test refl

  -- A snapshot that one node builds, and that is cut inside the bytes of the state, is accepted by
  -- any other node: that node then says that it has applied the log as far as the first, with the
  -- membership of the first, but its nodes, its collections, its clocks and its engine are as they
  -- were. The four bytes of the length are there, the engine makes its bytes, and the encoded state
  -- is shorter than 2^32 bytes.
  pub install_snapshot-cut :
      (sm other : ClusterStateMachine M E) (a bytes : List ℕ) (n : ℕ)
      → codec.serialize sm.state ≡ some a
      → engine_data sm.engine ≡ ok bytes
      → length a < 256 ^ 4
      → 4 ≤ n
      → n < 4 + length a
      → (meta : SnapshotMeta M) × (snapshot : List ℕ) × (other' : ClusterStateMachine M E)
        × (build_snapshot sm ≡ ok (meta, snapshot))
        × (install_snapshot other meta (take n snapshot) ≡ (other', ok tt))
        × (other'.state.last_applied ≡ sm.state.last_applied)
        × (other'.state.membership ≡ sm.state.membership)
        × (other'.state.nodes ≡ other.state.nodes)
        × (other'.state.collections ≡ other.state.collections)
        × (other'.state.clock_map ≡ other.state.clock_map)
        × (other'.engine ≡ other.engine)
  unfolding build_snapshot install_snapshot finish_install combined le_u32
  install_snapshot-cut sm other a bytes n written built fits header cut =
      let meta : SnapshotMeta M = record {
        last_log_id = sm.state.last_applied;
        last_membership = sm.state.membership;
      } in
      let whole = combined a bytes in
      let size : length (take n whole) ≡ n = omega (
        arith,
        cut,
        length-take n whole,
        length-append (to_le_bytes 4 (length a)) (a ++ bytes),
        length-append a bytes,
        length-to_le_bytes 4 (length a),
      ) in
      let long : ltb (length (take n whole)) 4 ≡ false = ground (arith, size) in
      let said : le_u32 (take n whole) ≡ length a =
        ap from_le_bytes (take-take 4 n whole header) ∙ le_u32-combined a bytes fits in
      let left : length (drop 4 (take n whole)) < length a =
        omega (arith, length-drop 4 (take n whole), size, cut, header) in
      (
        meta,
        whole,
        finish_install other meta,
        rw (written, build_snapshot, built) refl,
        rw long (
            ap (λ k. install_cluster other meta k (drop 4 (take n whole))) said
            ∙ install_cluster-short other meta (length a) (drop 4 (take n whole)) left),
        refl,
        refl,
        refl,
        refl,
        refl,
        refl,
      )
