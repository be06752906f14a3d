-- ===== src/Engine/Durable/Invariant.antt =====
-- The invariant of the collection, where a collection is made and where a batch is applied.
use rekha.Prelude.{refl, arith}
use rekha.Prelude.Dict.{string_eqv, nat_eqv, get}
use rekha.Core.Types.{Floats}
use rekha.Core.Config.{CollectionConfig}
use rekha.Engine.Bitmap.{Bitmap}
use rekha.Engine.ValueKey.{OrderedFloats}
use rekha.Engine.Base.{Index}
use rekha.Engine.Postings.Removal.{new-Represents}
use rekha.Engine.Collection.Consistent.{IsConsistent}
use rekha.Engine.Durable.{new_collection}
use rekha.Prelude.{
  ℕ, String, Option, ◌≡◌, ◌+◌, ◌<◌, ◌≤◌, ◌⊎◌, inl, inr, List, [], ◌∷◌, length, Option-cases,
}
use rekha.Core.Op.{Operation, add, update, delete, upsert}
use rekha.Core.Types.{Metadata}
use rekha.Wal.{WalRecord}
use rekha.Engine.Base.{EngineError, EngineResult, ok, err}
use rekha.Engine.Collection.{
  Collection, u32_mod, offset_for, apply_upsert, apply_update, apply_delete, release_offset,
  apply_operation,
}
use rekha.Engine.Collection.Apply.{IsApplicable, apply_operation-IsConsistent}
use rekha.Engine.Durable.{apply_all}

pub result-cases : (r : EngineResult (Unit {0})) → ((e : EngineError) × (r ≡ err e)) ⊎ (r ≡ ok tt)
result-cases (ok u) = inr refl
result-cases (err e) = inl (e, refl)

module _ {F V B I : Type 0} ⦃fl : Floats F⦄ ⦃of : OrderedFloats fl⦄ ⦃bm : Bitmap B⦄
    ⦃ix : Index I V⦄ where
  pub new-IsConsistent :
      (config : CollectionConfig) (i : I)
      → IsConsistent {F = F} {V = V} {B = B} {I = I} (new_collection config i)
  unfolding new_collection get
  new-IsConsistent config i = record {
    forward = λ id o e. ground arith;
    backward = λ id o e. ground arith;
    below = λ id o e. ground arith;
    live = λ id. refl;
    maps = λ id r e. absurd (ground arith);
    indexed = new-Represents;
  }

module _ {F V B I : Type 0} ⦃fl : Floats F⦄ ⦃of : OrderedFloats fl⦄ ⦃bm : Bitmap B⦄ where
  offset_for-bound :
      (c : Collection F V B I) (id : String) → (offset_for c id).1.next_offset ≤ c.next_offset + 1
  unfolding offset_for
  offset_for-bound c id = elim (Option-cases (get c.offsets id)) [
    | inl e ↦ rw (e, offset_for) (omega arith)
    | inr (o, e) ↦ rw (e, offset_for) (omega arith)
  ]

  upsert-bound :
      (c : Collection F V B I) (id : String) (e : List V) (m : Option (Metadata F))
      (t : Option String) (seq : ℕ)
      → (apply_upsert c id e m t seq).next_offset ≤ c.next_offset + 1
  unfolding apply_upsert
  upsert-bound c id e m t seq = offset_for-bound c id

  update-bound :
      (c : Collection F V B I) (id : String) (m : Option (Metadata F)) (t : Option String) (seq : ℕ)
      → (apply_update c id m t seq).next_offset ≤ c.next_offset + 1
  unfolding apply_update offset_for
  update-bound c id m t seq = ground arith

  module _ ⦃ix : Index I V⦄ where
    delete-bound :
        (c : Collection F V B I) (id : String)
        → (apply_delete c id).0.next_offset ≤ c.next_offset + 1
    unfolding apply_delete release_offset
    delete-bound c id = ground arith

    apply_operation-bound :
        (c : Collection F V B I) (op : Operation F V) (seq : ℕ)
        → (apply_operation c op seq).0.next_offset ≤ c.next_offset + 1
    unfolding apply_operation
    apply_operation-bound c (add id e m t) seq = upsert-bound c id e m t seq
    apply_operation-bound c (upsert id e m t) seq = upsert-bound c id e m t seq
    apply_operation-bound c (update id m t) seq = update-bound c id m t seq
    apply_operation-bound c (delete id) seq = delete-bound c id

    -- Each operation is applicable where the ones before it lead.
    abbrev pub AreApplicable : Collection F V B I → List (WalRecord (Operation F V)) → Type 0
    AreApplicable c [] = Unit
    AreApplicable c (r ∷ rs) =
        IsApplicable c r.op × AreApplicable (apply_operation c r.op r.seq).0 rs

    -- Applying the records of a batch or of a replay keeps the invariant of the collection, also
    -- where it stops at the first error. The offsets must not be used up, and each operation must
    -- be applicable where the ones before it lead: an update has a record to change, and metadata
    -- has no key twice.
    pub apply_all-IsConsistent :
        (c : Collection F V B I) (recs : List (WalRecord (Operation F V)))
        → IsConsistent c
        → c.next_offset + length recs < u32_mod
        → AreApplicable c recs
        → IsConsistent (apply_all c recs).0
    unfolding apply_all
    apply_all-IsConsistent c [] k room h = k
    apply_all-IsConsistent c (r ∷ rs) k room h =
        let c' = (apply_operation c r.op r.seq).0 in
        let k' = apply_operation-IsConsistent c r.op r.seq k (omega (arith, room)) h.0 in
        let rest =
          apply_all-IsConsistent c' rs k' (omega (arith, room, apply_operation-bound c r.op r.seq))
            h.1 in
        elim (result-cases (apply_operation c r.op r.seq).1) [
          | inl (e, failed) ↦ rw (failed, apply_all) k'
          | inr done ↦ rw (done, apply_all) rest
        ]
