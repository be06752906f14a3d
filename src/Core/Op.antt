-- ===== src/Core/Op.antt =====
-- crates/rekha-core/src/op.rs: the operations of the write-ahead log. `V` is the type of the
-- coordinates of an embedding, `f32`.
use rekha.Prelude.{String, Option, List}
use rekha.Core.Types.{Metadata}

-- Operation
pub data Operation (F V : Type 0) : Type 0 where
  add : String → List V → Option (Metadata F) → Option String → Operation F V
  update : String → Option (Metadata F) → Option String → Operation F V
  delete : String → Operation F V
  upsert : String → List V → Option (Metadata F) → Option String → Operation F V

-- Operation::id
unfoldable pub op_id : {F V : Type 0} → Operation F V → String
op_id (add id embedding metadata document) = id
op_id (update id metadata document) = id
op_id (delete id) = id
op_id (upsert id embedding metadata document) = id

-- Operation::kind
unfoldable pub kind : {F V : Type 0} → Operation F V → String
kind (add id embedding metadata document) = "add"
kind (update id metadata document) = "update"
kind (delete id) = "delete"
kind (upsert id embedding metadata document) = "upsert"
