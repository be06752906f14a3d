-- ===== src/Engine/Lookup/Written.antt =====
-- What an operation writes, and what is read of it afterwards.
use rekha.Prelude.{
  ℕ, ◌≡◌, refl, ap, ◌∙◌, String, Option, none, some, List, str_eq, if◌then◌else◌, arith,
}
use rekha.Prelude.Dict
use rekha.Prelude.Dict.{string_eqv, nat_eqv, get, get-insert, get-remove}
use rekha.Core.Types.{Floats, Metadata}
use rekha.Core.Op.{Operation, op_id, add, update, delete, upsert}
use rekha.Engine.Bitmap.{Bitmap}
use rekha.Engine.ValueKey.{OrderedFloats}
use rekha.Engine.Base.{Record, Index}
use rekha.Engine.Collection.{
  Collection, offset_for, entry_for, apply_upsert, apply_update, release_offset, apply_delete,
  apply_operation,
}
use rekha.Engine.Durable.{Durable}
use rekha.Engine.Lookup.{load_vector, or_else, get_record}

-- The record that an operation leaves at its id, where `old` was.
abbrev pub written : {F V : Type 0} → Operation F V → ℕ → Option (Record F V) → Option (Record F V)
written (add id e m t) seq old =
    some (record { id = id; embedding = some e; metadata = m; document = t; seq = seq })
written (upsert id e m t) seq old =
    some (record { id = id; embedding = some e; metadata = m; document = t; seq = seq })
written (update id m t) seq none =
    some (record { id = id; embedding = none; metadata = m; document = t; seq = seq })
written (update id m t) seq (some r) = some (record r { metadata = m; document = t; seq = seq })
written (delete id) seq old = none

module _ {F V B I : Type 0} ⦃fl : Floats F⦄ ⦃of : OrderedFloats fl⦄ ⦃bm : Bitmap B⦄ where
  upsert-records :
      (c : Collection F V B I) (id : String) (e : List V) (m : Option (Metadata F))
      (t : Option String) (seq : ℕ)
      → (apply_upsert c id e m t seq).records
        ≡ Dict.insert c.records id
            (record { id = id; embedding = some e; metadata = m; document = t; seq = seq })
  unfolding apply_upsert offset_for
  upsert-records c id e m t seq = ground arith

  update-records :
      (c : Collection F V B I) (id : String) (m : Option (Metadata F)) (t : Option String) (seq : ℕ)
      → (apply_update c id m t seq).records
        ≡ Dict.insert c.records id
            (record (entry_for c id seq) { metadata = m; document = t; seq = seq })
  unfolding apply_update offset_for
  update-records c id m t seq = ground arith

  module _ ⦃ix : Index I V⦄ where
    delete-records :
        (c : Collection F V B I) (id : String)
        → (apply_delete c id).0.records ≡ Dict.remove c.records id
    unfolding apply_delete release_offset
    delete-records c id = ground arith

    update-written :
        (c : Collection F V B I) (id : String) (m : Option (Metadata F)) (t : Option String)
        (seq : ℕ)
        → some (record (entry_for c id seq) { metadata = m; document = t; seq = seq })
          ≡ written {V = V} (update id m t) seq (get c.records id)
    unfolding entry_for
    update-written c id m t seq = ground arith

    -- After an operation, the record at its id is the one that the operation writes: the new one
    -- for an add or an upsert, the old one with new metadata, document and seq for an update, with
    -- no vector if there was none, and no record for a delete; every other id has the record that
    -- it had.
    pub apply_operation-written :
        (c : Collection F V B I) (op : Operation F V) (seq : ℕ) (j : String)
        → get (apply_operation c op seq).0.records j ≡ (
            if str_eq (op_id op) j
            then written op seq (get c.records (op_id op))
            else get c.records j)
    unfolding apply_operation op_id
    apply_operation-written c (add id e m t) seq j =
        ap (λ d. get d j) (upsert-records c id e m t seq) ∙ get-insert c.records id j _
    apply_operation-written c (upsert id e m t) seq j =
        ap (λ d. get d j) (upsert-records c id e m t seq) ∙ get-insert c.records id j _
    apply_operation-written c (update id m t) seq j =
        ap (λ d. get d j) (update-records c id m t seq)
        ∙ get-insert c.records id j _
        ∙ ap (λ r. if str_eq id j then r else get c.records j) (update-written c id m t seq)
    apply_operation-written c (delete id) seq j =
        ap (λ d. get d j) (delete-records c id) ∙ get-remove c.records id j

    -- the state after an operation
    abbrev pub after : Durable F V B I → Operation F V → ℕ → Durable F V B I
    after s op seq = record s { coll = (apply_operation s.coll op seq).0 }

    get_record-known :
        (s : Durable F V B I) (id : String) (r : Record F V)
        → get s.coll.records id ≡ some r
        → get_record s id ≡ some (record r { embedding = or_else (load_vector s id) r.embedding })
    unfolding get_record
    get_record-known s id r e = rw (e, get_record) refl

    load_vector-after :
        (s : Durable F V B I) (op : Operation F V) (seq : ℕ) (id : String)
        → load_vector (after s op seq) id ≡ load_vector s id
    unfolding load_vector
    load_vector-after s op seq id = refl

    pub get_record-upsert :
        (s : Durable F V B I) (id : String) (e : List V) (m : Option (Metadata F))
        (t : Option String) (seq : ℕ)
        → get_record (after s (upsert id e m t) seq) id
          ≡ some (record {
            id = id;
            embedding = or_else (load_vector s id) (some e);
            metadata = m;
            document = t;
            seq = seq;
          })
    unfolding op_id
    get_record-upsert s id e m t seq =
        let op = upsert id e m t in
        let there =
          apply_operation-written s.coll op seq id
          ∙ ap (λ b. if b then written op seq (get s.coll.records id) else get s.coll.records id)
              (string_eqv.beq_refl id) in
        get_record-known (after s op seq) id _ there
        ∙ ap
            (λ v. some (record {
              id = id;
              embedding = or_else v (some e);
              metadata = m;
              document = t;
              seq = seq;
            }))
            (load_vector-after s op seq id)

    -- If the segment has a vector for an id, then reading the id after an upsert gives the vector
    -- of the segment, whatever vector the upsert wrote.
    pub get_record-stale :
        (s : Durable F V B I) (id : String) (e v : List V) (m : Option (Metadata F))
        (t : Option String) (seq : ℕ)
        → load_vector s id ≡ some v
        → get_record (after s (upsert id e m t) seq) id
          ≡ some (record { id = id; embedding = some v; metadata = m; document = t; seq = seq })
    get_record-stale s id e v m t seq found =
        get_record-upsert s id e m t seq
        ∙ ap
            (λ w. some (record {
              id = id;
              embedding = or_else w (some e);
              metadata = m;
              document = t;
              seq = seq;
            }))
            found
