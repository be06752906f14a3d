-- ===== src/Engine/Collection/Apply.antt =====
-- `apply_operation` keeps the invariant of the collection.
use mathlib.Core.Path.{subst}
use rekha.Prelude.{
  ℕ, ◌+◌, ◌%◌, ◌<◌, ◌≡◌, refl, sym, String, true, Option, none, some, List, is_some, Bool-cases,
  Option-cases, inl, inr, arith,
}
use rekha.Prelude.Dict
use rekha.Prelude.Dict.{Eqv, Dict, string_eqv, nat_eqv, get, get-insert, get-remove}
use rekha.Core.Types.{Floats, Metadata}
use rekha.Engine.Bitmap.{Bitmap}
use rekha.Engine.ValueKey.{OrderedFloats}
use rekha.Engine.Base.{Record, Index}
use rekha.Engine.Postings
use rekha.Engine.Postings.{Postings}
use rekha.Engine.Postings.Represents.{put, IsMap, Represents, insert-Represents}
use rekha.Engine.Postings.Removal.{remove-Represents}
use rekha.Engine.Collection.{
  Collection, u32_mod, offset_for, unindex_old, upsert_at, apply_upsert, reindex_at, entry_for,
  write_update, apply_update, metadata_eq, apply_delete, apply_operation,
}
use rekha.Engine.Collection.Consistent.{
  docs_of, IsConsistent, Represents-cong, next-unused, replace-IsConsistent, extend-IsConsistent,
}
use rekha.Engine.Collection.MetadataEq.{unchanged-Represents}
use rekha.Core.Op.{Operation, add, update, delete, upsert}
use rekha.Engine.Collection.Unindex.{docs_of-live, unindexed, no_record}
use rekha.Engine.Collection.Release.{released, index_result-IsConsistent}

module _ {F V B I : Type 0} where
  offset_for-old :
      (c : Collection F V B I) (id : String) (o : ℕ)
      → get c.offsets id ≡ some o
      → offset_for c id ≡ (o, c)
  unfolding offset_for
  offset_for-old c id o e = rw (e, offset_for) refl

  entry_for-old :
      (c : Collection F V B I) (id : String) (r : Record F V) (seq : ℕ)
      → get c.records id ≡ some r
      → entry_for c id seq ≡ r
  unfolding entry_for
  entry_for-old c id r seq e = rw (e, entry_for) refl

  offset_for-new :
      (c : Collection F V B I) (id : String)
      → get c.offsets id ≡ none
      → offset_for c id ≡ (
        c.next_offset,
        record c {
          next_offset = (c.next_offset + 1) % u32_mod;
          offsets = Dict.insert c.offsets id c.next_offset;
          id_by_offset = Dict.insert c.id_by_offset c.next_offset id;
        },
      )
  unfolding offset_for
  offset_for-new c id e = rw (e, offset_for) refl

module _ {F V B I : Type 0} ⦃fl : Floats F⦄ ⦃of : OrderedFloats fl⦄ ⦃bm : Bitmap B⦄ where
  upsert-IsConsistent :
      (c : Collection F V B I) (id : String) (e : List V) (m : Option (Metadata F))
      (d : Option String) (seq : ℕ)
      → IsConsistent c
      → c.next_offset + 1 < u32_mod
      → IsMap m
      → IsConsistent (apply_upsert c id e m d seq)
  unfolding apply_upsert upsert_at unindex_old
  upsert-IsConsistent c id e m d seq k room u =
      let new : Record F V = record {
        id = id;
        embedding = some e;
        metadata = m;
        document = d;
        seq = seq;
      } in
      let goal = λ (x : ℕ × Collection F V B I). IsConsistent (upsert_at x.1 x.0 id e m d seq) in
      elim (Option-cases (get c.offsets id)) [
        | inr (o, at) ↦ subst goal (sym (offset_for-old c id o at)) (
            replace-IsConsistent c id o new _ _ k at u (
              Represents-cong (put (put (docs_of c) o none) o (some m)) _
                (insert-Represents o m (unindexed c id o k at) (ground arith) u)
                (λ o'. ground arith)))
        | inl none_yet ↦ subst goal (sym (offset_for-new c id none_yet)) (
            extend-IsConsistent c id new _ _ k none_yet room u (
              subst
                (λ r.
                  Represents
                    (Postings.insert (unindex_old c.postings c.next_offset r) c.next_offset m)
                    (put (docs_of c) c.next_offset (some m)))
                (sym (no_record c id k none_yet))
                (insert-Represents c.next_offset m k.indexed (ground (arith, next-unused c k)) u)))
      ]

  -- The written record of an update, at its offset.
  updated :
      (c : Collection F V B I) (id : String) (old : Record F V) (m : Option (Metadata F))
      (d : Option String) (seq o : ℕ)
      → IsConsistent c
      → get c.records id ≡ some old
      → get c.offsets id ≡ some o
      → IsMap m
      → IsConsistent (write_update c id old m d seq)
  unfolding write_update reindex_at
  updated c id old m d seq o k e at u =
      let new = record old { metadata = m; document = d; seq = seq } in
      let written = record c { records = Dict.insert c.records id new } in
      let live = docs_of-live c id o old k at e in
      let known = k.maps id old e in
      elim (Bool-cases (metadata_eq old.metadata m)) [
        | inl same ↦ rw same (
            replace-IsConsistent c id o new c.postings c.buffer k at u
              (unchanged-Represents (docs_of c) o old.metadata m k.indexed live known u same))
        | inr changed ↦
            rw (changed, offset_for-old written id o at)
              (replace-IsConsistent c id o new _ c.buffer k at u (
                Represents-cong (put (put (docs_of c) o none) o (some m)) _
                  (insert-Represents o m (remove-Represents o old.metadata k.indexed live known)
                    (ground arith) u)
                  (λ o'. ground arith)))
      ]

  update-IsConsistent :
      (c : Collection F V B I) (id : String) (m : Option (Metadata F)) (d : Option String) (seq : ℕ)
      → IsConsistent c
      → is_some (get c.records id) ≡ true
      → IsMap m
      → IsConsistent (apply_update c id m d seq)
  unfolding apply_update
  update-IsConsistent c id m d seq k there u = elim (Option-cases (get c.records id)) [
    | inl gone ↦ absurd (ground (arith, there, gone))
    | inr (old, e) ↦ elim (Option-cases (get c.offsets id)) [
      | inl none_yet ↦ absurd (ground (arith, k.live id, e, none_yet))
      | inr (o, at) ↦
          subst (λ r. IsConsistent (write_update c id r m d seq))
            (sym (entry_for-old c id old seq e)) (updated c id old m d seq o k e at u)
    ]
  ]

-- The metadata of an operation is a map, and an update has a record to change.
abbrev pub IsApplicable : {F V B I : Type 0} → Collection F V B I → Operation F V → Type 0
IsApplicable c (add id e m d) = IsMap m
IsApplicable c (upsert id e m d) = IsMap m
IsApplicable c (update id m d) = (is_some (get c.records id) ≡ true) × IsMap m
IsApplicable c (delete id) = Unit

module _ {F V B I : Type 0} ⦃fl : Floats F⦄ ⦃of : OrderedFloats fl⦄ ⦃bm : Bitmap B⦄
    ⦃ix : Index I V⦄ where
  -- An operation of the log keeps the invariant that the two offset maps are inverse, that the live
  -- records are those with an offset, and that the postings index exactly their metadata; also a
  -- delete at which the index fails. The offsets must not be used up, an update must have a record
  -- to change, and metadata must have no key twice.
  pub apply_operation-IsConsistent :
      (c : Collection F V B I) (op : Operation F V) (seq : ℕ)
      → IsConsistent c
      → c.next_offset + 1 < u32_mod
      → IsApplicable c op
      → IsConsistent (apply_operation c op seq).0
  unfolding apply_operation apply_delete
  apply_operation-IsConsistent c (add id e m d) seq k room u =
      upsert-IsConsistent c id e m d seq k room u
  apply_operation-IsConsistent c (upsert id e m d) seq k room u =
      upsert-IsConsistent c id e m d seq k room u
  apply_operation-IsConsistent c (update id m d) seq k room u =
      update-IsConsistent c id m d seq k u.0 u.1
  apply_operation-IsConsistent c (delete id) seq k room u =
      index_result-IsConsistent _ _ (λ i. released c id i k)
