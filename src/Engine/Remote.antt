-- ===== src/Engine/Remote.antt =====
-- Shipping the log of a collection to a follower: `wal_delta`, `wal_last_seq` and
-- `apply_remote_ops` of crates/rekha-engine/src/lib.rs on one collection, and the loop of a
-- follower in crates/rekha-cli/src/main.rs on one answer of the leader.
pub mod CatchUp
use rekha.Prelude.{
  ℕ, ◌+◌, String, Bool, true, false, Option, none, some, List, [], ◌∷◌, ltb, if◌then◌else◌,
}
use rekha.Core.Types.{Floats}
use rekha.Core.Op.{Operation}
use rekha.Wal.{Codec, WalRecord, read_range}
use rekha.Wal as Log
use rekha.Cluster.Replication.{WalDelta, WalDeltaRecord, from_wal_records, Positions, mark_applied}
use rekha.Engine.Bitmap.{Bitmap}
use rekha.Engine.ValueKey.{OrderedFloats}
use rekha.Engine.Base.{Index, EngineError, EngineResult, ok, err}
use rekha.Engine.Collection.{Collection, apply_operation}
use rekha.Engine.Durable.{Durable}

module _ {F V B I : Type 0} (c : Codec (Operation F V)) where
  -- Engine::wal_delta; an inner `none` is the panic of `from_wal_records`
  unfoldable pub wal_delta : Durable F V B I → ℕ → EngineResult (Option WalDelta)
  wal_delta s from_seq =
      let last = s.wal.last_seq in
      if ltb last from_seq
      then ok (some (record { leader_node = 0; records = []; target_seq = last }))
      else elim (read_range c s.wal from_seq last) [
        | Log.err e ↦ err (EngineError.wal e)
        | Log.ok records ↦ ok (from_wal_records c 0 records last)
      ]

-- Engine::wal_last_seq
unfoldable pub wal_last_seq : {F V B I : Type 0} → Durable F V B I → ℕ
wal_last_seq s = s.wal.last_seq

module _ {F V B I : Type 0} ⦃fl : Floats F⦄ ⦃of : OrderedFloats fl⦄ ⦃bm : Bitmap B⦄
    ⦃ix : Index I V⦄ where
  -- Engine::apply_remote_ops: the log of the follower does not get the operations
  unfoldable pub apply_remote_ops :
      Collection F V B I → List (ℕ × Operation F V) → Collection F V B I × EngineResult (Unit {0})
  apply_remote_ops c [] = (c, ok tt)
  apply_remote_ops c ((seq, op) ∷ ops) =
      let (c', result) = apply_operation c op seq in
      elim result [ err e ↦ (c', err e) | ok u ↦ apply_remote_ops c' ops ]

  module _ (codec : Codec (Operation F V)) where
    -- the body of the follower's loop: what cannot be read or applied counts as applied
    unfoldable pub follow_entry : Collection F V B I → WalDeltaRecord → Collection F V B I
    unfolding apply_remote_ops
    follow_entry c entry = elim (codec.deserialize entry.payload) [
      | none ↦ c
      | some op ↦ (apply_remote_ops c ((entry.seq, op) ∷ [])).0
    ]

    -- the follower's loop on the records of a delta
    unfoldable pub follow :
        Collection F V B I
        → Positions
        → String
        → List WalDeltaRecord
        → Collection F V B I × Positions
    unfolding follow_entry mark_applied
    follow c positions id [] = (c, positions)
    follow c positions id (entry ∷ entries) =
        follow (follow_entry c entry) (mark_applied positions id entry.seq) id entries
