-- ===== src/Cluster/StateMachine/Leader.antt =====
-- No two nodes of the cluster are its leader.
use rekha.Prelude.{ℕ, ◌≡◌, ◌∙◌, true, false, some, List, [], ◌∷◌, ◌==◌, inl, inr, Bool-cases, arith}
use rekha.Prelude.Dict.{Dict, nat_eqv, get, get-insert, get-remove}
use rekha.Cluster.LogStore.{LogId, Entry}
use rekha.Cluster.StateMachine.{
  NodeInfo, ClusterOperation, add_node, remove_node, add_collection, remove_collection,
  transfer_leadership, EntryPayload, blank, normal, membership, ClusterState, mark_leader,
  apply_cluster_operation, apply_payload, apply,
}

get-mark_leader :
    (l : ℕ) (nodes : Dict ℕ NodeInfo) (k : ℕ) (info : NodeInfo)
    → get (mark_leader l nodes) k ≡ some info
    → (old : NodeInfo) × (get nodes k ≡ some old)
      × (info.node_id ≡ old.node_id)
      × (info.is_leader ≡ (old.node_id == l))
unfolding mark_leader get
get-mark_leader l [] k info h = ground arith
get-mark_leader l ((j, old) ∷ nodes) k info h = elim (Bool-cases (j == k)) [
  | inl t ↦ (old, ground arith, ground arith, ground arith)
  | inr f ↦
      let (x, p, q, r) = get-mark_leader l nodes k info (ground arith) in
      (x, ground (arith, p), q, r)
]

-- Each node stands at its id, and a leader is the only one.
pub record OneLeader (nodes : Dict ℕ NodeInfo) : Type 0 where
  pub keyed : (k : ℕ) (info : NodeInfo) → get nodes k ≡ some info → info.node_id ≡ k
  pub one :
      (j k : ℕ) (a b : NodeInfo)
      → get nodes j ≡ some a
      → get nodes k ≡ some b
      → a.is_leader ≡ true
      → b.is_leader ≡ true
      → j ≡ k

module _ {M : Type 0} where
  apply_cluster_operation-OneLeader :
      (s : ClusterState M) (op : ClusterOperation)
      → OneLeader s.nodes
      → OneLeader (apply_cluster_operation s op).nodes
  unfolding apply_cluster_operation
  apply_cluster_operation-OneLeader s (add_node id addr) h =
      let new : NodeInfo = record { node_id = id; addr = addr; is_leader = false } in
      record {
        keyed = λ k info e. elim (Bool-cases (id == k)) [
          | inl t ↦ ground (arith, get-insert s.nodes id k new)
          | inr f ↦ h.keyed k info (ground (arith, get-insert s.nodes id k new))
        ];
        one = λ j k a b p q la lb.
            h.one j k a b (ground (arith, get-insert s.nodes id j new))
              (ground (arith, get-insert s.nodes id k new)) la lb;
      }
  apply_cluster_operation-OneLeader s (remove_node id) h = record {
    keyed = λ k info e. h.keyed k info (ground (arith, get-remove s.nodes id k));
    one = λ j k a b p q la lb.
        h.one j k a b (ground (arith, get-remove s.nodes id j))
          (ground (arith, get-remove s.nodes id k)) la lb;
  }
  apply_cluster_operation-OneLeader s (add_collection id name d space tenant database owners) h = h
  apply_cluster_operation-OneLeader s (remove_collection id) h = h
  apply_cluster_operation-OneLeader s (transfer_leadership l) h = record {
    keyed =
        λ k info e. let (old, p, q, r) = get-mark_leader l s.nodes k info e in q ∙ h.keyed k old p;
    one = λ j k a b p q la lb.
        let (x, px, qx, rx) = get-mark_leader l s.nodes j a p in
        let (y, py, qy, ry) = get-mark_leader l s.nodes k b q in
        ground (arith, rx, ry, la, lb, h.keyed j x px, h.keyed k y py);
  }

  apply_payload-OneLeader :
      (s : ClusterState M) (id : LogId) (p : EntryPayload M)
      → OneLeader s.nodes
      → OneLeader (apply_payload s id p).0.nodes
  unfolding apply_payload
  apply_payload-OneLeader s id blank h = h
  apply_payload-OneLeader s id (normal op) h = apply_cluster_operation-OneLeader s op h
  apply_payload-OneLeader s id (membership m) h = h

  -- Applying committed entries keeps at most one node marked as the leader, and each node at its
  -- id.
  pub apply-OneLeader :
      (s : ClusterState M) (es : List (Entry (EntryPayload M)))
      → OneLeader s.nodes
      → OneLeader (apply s es).0.nodes
  unfolding apply
  apply-OneLeader s [] h = h
  apply-OneLeader s (e ∷ es) h =
      apply-OneLeader
        (apply_payload (record s { last_applied = some e.log_id }) e.log_id e.payload).0 es
        (apply_payload-OneLeader (record s { last_applied = some e.log_id }) e.log_id e.payload h)
