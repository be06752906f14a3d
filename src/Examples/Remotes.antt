-- ===== src/Examples/Remotes.antt =====
-- The theorems on shipping, at a log of one operation.
use rekha.Prelude.{◌≡◌, refl, some, [], ◌∷◌, arith}
use rekha.Prelude.Dict.{string_eqv}
use rekha.Wal.{read_range, read_loop, frame, prefix_at, build_header, payload_at}
use rekha.Wal.Log.{encode_all}
use rekha.Cluster.Replication.{WalDelta, from_wal_records, delta_records}
use rekha.Engine.Base.{ok}
use rekha.Engine.Collection.Core.{SameCore}
use rekha.Engine.Durable.{new_collection}
use rekha.Engine.Durable.Recover.{new-SameCore}
use rekha.Engine.Remote.{wal_delta, follow}
use rekha.Engine.Remote.CatchUp.{follow-SameCore}
use rekha.Examples.Floats.{floats, ordered_floats}
use rekha.Examples.Bitmaps.{list_bitmap}
use rekha.Examples.Indexes.{dict_index, codec, config}
use rekha.Examples.Collections.{upserted, upserted-Replayable}

abbrev delta : WalDelta
delta = record {
  leader_node = 0;
  records = record { seq = 1; epoch = 5; payload = 1 ∷ 7 ∷ 8 ∷ [] } ∷ [];
  target_seq = 1;
}

sent : wal_delta codec upserted 1 ≡ ok (some delta)
unfolding wal_delta read_range read_loop from_wal_records delta_records encode_all frame prefix_at
    build_header payload_at
sent = refl

follow-SameCore_example :
    SameCore (follow codec (new_collection config []) [] "c1" delta.records).0 upserted.coll
follow-SameCore_example =
    follow-SameCore codec upserted (new_collection config []) [] "c1" 0 delta upserted-Replayable
      (new-SameCore upserted.coll.config config upserted.coll.index []) (omega arith) sent
