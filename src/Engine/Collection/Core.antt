-- ===== src/Engine/Collection/Core.antt =====
-- The part of a collection that the log alone decides: the records, the offsets and the postings.
-- The buffer and the index also depend on when the buffer was flushed.
use rekha.Prelude.{ℕ, ◌≡◌, sym, ◌∙◌, String, Option, List, arith}
use rekha.Prelude.Dict.{string_eqv, nat_eqv}
use rekha.Core.Types.{Floats, Metadata}
use rekha.Core.Op.{Operation, add, update, delete, upsert}
use rekha.Engine.Bitmap.{Bitmap}
use rekha.Engine.ValueKey.{OrderedFloats}
use rekha.Engine.Base.{Index}
use rekha.Engine.Collection.{
  Collection, offset_for, apply_upsert, apply_update, release_offset, apply_delete, apply_operation,
}

pub record SameCore {F V B I : Type 0} (c d : Collection F V B I) : Type 0 where
  pub records : c.records ≡ d.records
  pub offsets : c.offsets ≡ d.offsets
  pub id_by_offset : c.id_by_offset ≡ d.id_by_offset
  pub next_offset : c.next_offset ≡ d.next_offset
  pub postings : c.postings ≡ d.postings

module _ {F V B I : Type 0} where
  pub SameCore-sym : {a b : Collection F V B I} → SameCore a b → SameCore b a
  SameCore-sym s = record {
    records = sym s.records;
    offsets = sym s.offsets;
    id_by_offset = sym s.id_by_offset;
    next_offset = sym s.next_offset;
    postings = sym s.postings;
  }

  pub SameCore-trans : {a b c : Collection F V B I} → SameCore a b → SameCore b c → SameCore a c
  SameCore-trans s t = record {
    records = s.records ∙ t.records;
    offsets = s.offsets ∙ t.offsets;
    id_by_offset = s.id_by_offset ∙ t.id_by_offset;
    next_offset = s.next_offset ∙ t.next_offset;
    postings = s.postings ∙ t.postings;
  }

module _ {F V B I : Type 0} ⦃fl : Floats F⦄ ⦃of : OrderedFloats fl⦄ ⦃bm : Bitmap B⦄ where
  upsert-SameCore :
      (c d : Collection F V B I) (id : String) (e : List V) (m : Option (Metadata F))
      (t : Option String) (seq : ℕ)
      → SameCore c d
      → SameCore (apply_upsert c id e m t seq) (apply_upsert d id e m t seq)
  unfolding apply_upsert offset_for
  upsert-SameCore c d id e m t seq s = ground arith

  update-SameCore :
      (c d : Collection F V B I) (id : String) (m : Option (Metadata F)) (t : Option String)
      (seq : ℕ)
      → SameCore c d
      → SameCore (apply_update c id m t seq) (apply_update d id m t seq)
  unfolding apply_update offset_for
  update-SameCore c d id m t seq s = ground arith

  module _ ⦃ix : Index I V⦄ where
    delete-SameCore :
        (c d : Collection F V B I) (id : String)
        → SameCore c d
        → SameCore (apply_delete c id).0 (apply_delete d id).0
    unfolding apply_delete release_offset
    delete-SameCore c d id s = ground arith

    -- Two collections with the same records, offsets and postings still have the same after one
    -- operation: what an operation does to them depends on neither the buffer nor the index.
    pub apply_operation-SameCore :
        (c d : Collection F V B I) (op : Operation F V) (seq : ℕ)
        → SameCore c d
        → SameCore (apply_operation c op seq).0 (apply_operation d op seq).0
    unfolding apply_operation
    apply_operation-SameCore c d (add id e m t) seq s = upsert-SameCore c d id e m t seq s
    apply_operation-SameCore c d (upsert id e m t) seq s = upsert-SameCore c d id e m t seq s
    apply_operation-SameCore c d (update id m t) seq s = update-SameCore c d id m t seq s
    apply_operation-SameCore c d (delete id) seq s = delete-SameCore c d id s
