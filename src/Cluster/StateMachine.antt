-- ===== src/Cluster/StateMachine.antt =====
-- `ClusterStateMachine` of crates/rekha-cluster/src/state_machine.rs, with the types of
-- crates/rekha-cluster/src/raft_types.rs and `ClockMap` of crates/rekha-cluster/src/cluster.rs.
pub mod Leader
pub mod Snapshot
use rekha.Prelude.{
  ℕ, String, Bool, true, false, Option, none, some, List, [], ◌∷◌, ◌++◌, ltb, ◌==◌, if◌then◌else◌,
}
use rekha.Prelude.Dict
use rekha.Prelude.Dict.{Dict, string_eqv, nat_eqv, get}
use rekha.Cluster.LogStore.{LogId, Entry}

-- NodeInfo
pub record NodeInfo : Type 0 where
  pub node_id : ℕ
  pub addr : String
  pub is_leader : Bool

-- ClusterOperation
pub data ClusterOperation : Type 0 where
  add_node : (node_id : ℕ) (addr : String) → ClusterOperation
  remove_node : (node_id : ℕ) → ClusterOperation
  add_collection :
      (collection_id name : String) (dimension : ℕ) (distance tenant database : String)
      (owner_nodes : List ℕ)
      → ClusterOperation
  remove_collection : (collection_id : String) → ClusterOperation
  transfer_leadership : (new_leader : ℕ) → ClusterOperation

-- openraft's EntryPayload; a membership is an element of `M`
pub data EntryPayload (M : Type 0) : Type 0 where
  blank : EntryPayload M
  normal : ClusterOperation → EntryPayload M
  membership : M → EntryPayload M

-- openraft's StoredMembership
pub record StoredMembership (M : Type 0) : Type 0 where
  pub log_id : Option LogId
  pub membership : M

-- ClockTag
pub record ClockTag : Type 0 where
  pub node : ℕ
  pub seq : ℕ

-- ClockMap
abbrev pub ClockMap : Type 0
ClockMap = Dict ℕ ClockTag

-- ClockMap::advance: the tag is in the map already if its entry was vacant
unfoldable pub advance : ClockMap → ℕ → ClockTag → ClockMap
advance m node tag = elim (get m node) [
  | none ↦ Dict.insert m node tag
  | some entry ↦ if ltb entry.seq tag.seq then Dict.insert m node tag else m
]

-- the fields of ClusterStateMachine that a snapshot has
pub record ClusterState (M : Type 0) : Type 0 where
  pub nodes : Dict ℕ NodeInfo
  pub collections : Dict String (List ℕ)
  pub clock_map : ClockMap
  pub last_applied : Option LogId
  pub membership : StoredMembership M

-- ClusterStateMachine; an engine is an element of `E`
pub record ClusterStateMachine (M E : Type 0) : Type 0 where
  pub state : ClusterState M
  pub engine : Option E

-- the loop on `nodes.values_mut()`
unfoldable pub mark_leader : ℕ → Dict ℕ NodeInfo → Dict ℕ NodeInfo
mark_leader new_leader [] = []
mark_leader new_leader ((k, info) ∷ nodes) =
    (k, record info { is_leader = info.node_id == new_leader }) ∷ mark_leader new_leader nodes

-- what `apply` answers for an entry
pub data Response (M : Type 0) : Type 0 where
  applied : ClusterOperation → Response M
  membership : M → Response M
  blank : Response M

module _ {M : Type 0} where
  -- ClusterStateMachine::apply_operation
  unfoldable pub apply_cluster_operation : ClusterState M → ClusterOperation → ClusterState M
  unfolding mark_leader
  apply_cluster_operation s (add_node node_id addr) = record s {
    nodes =
        Dict.insert s.nodes node_id (record { node_id = node_id; addr = addr; is_leader = false });
  }
  apply_cluster_operation s (remove_node node_id) = record s { nodes = Dict.remove s.nodes node_id }
  apply_cluster_operation s (add_collection id name dimension distance tenant database owners) =
      record s { collections = Dict.insert s.collections id owners }
  apply_cluster_operation s (remove_collection id) = record s {
    collections = Dict.remove s.collections id;
  }
  apply_cluster_operation s (transfer_leadership new_leader) = record s {
    nodes = mark_leader new_leader s.nodes;
  }

  -- the match in the loop of `apply`
  unfoldable pub apply_payload :
      ClusterState M → LogId → EntryPayload M → ClusterState M × Response M
  unfolding apply_cluster_operation
  apply_payload s id blank = (s, Response.blank)
  apply_payload s id (normal op) = (apply_cluster_operation s op, applied op)
  apply_payload s id (membership m) =
      (record s { membership = record { log_id = some id; membership = m } }, Response.membership m)

  -- ClusterStateMachine::apply
  unfoldable pub apply :
      ClusterState M → List (Entry (EntryPayload M)) → ClusterState M × List (Response M)
  unfolding apply_payload
  apply s [] = (s, [])
  apply s (e ∷ es) =
      let (s', response) =
        apply_payload (record s { last_applied = some e.log_id }) e.log_id e.payload in
      let (s'', responses) = apply s' es in (s'', response ∷ responses)
