-- ===== src/Cluster.antt =====
-- crates/rekha-cluster/src: what the nodes of a cluster keep, behind the openraft library.
pub mod LogStore
pub mod Replication
pub mod StateMachine
