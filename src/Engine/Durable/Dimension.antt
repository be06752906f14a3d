-- ===== src/Engine/Durable/Dimension.antt =====
-- The vectors in the buffer have the dimension that the operations of the log have.
use mathlib.Core.Path.{subst}
use rekha.Prelude.{
  ℕ, ◌≡◌, sym, String, Option, none, some, List, [], ◌∷◌, ◌++◌, length, str_eq, arith, Bool-cases,
  inl, inr,
}
use rekha.Prelude.Dict.{string_eqv}
use rekha.Core.Types.{Floats, Metadata}
use rekha.Core.Op.{Operation, add, update, delete, upsert}
use rekha.Wal.{WalRecord}
use rekha.Engine.Bitmap.{Bitmap}
use rekha.Engine.ValueKey.{OrderedFloats}
use rekha.Engine.Base.{Record, Index}
use rekha.Engine.Collection.{
  Collection, retain_others, offset_for, apply_upsert, apply_update, release_offset, apply_delete,
  apply_operation,
}
use rekha.Engine.Durable.Replay.{run}

abbrev pub VectorFits : {V : Type 0} → ℕ → Option (List V) → Type 0
VectorFits d none = Unit
VectorFits d (some v) = length v ≡ d

abbrev pub HasDimension : {F V : Type 0} → ℕ → List (Record F V) → Type 0
HasDimension d [] = Unit
HasDimension d (r ∷ rs) = VectorFits d r.embedding × HasDimension d rs

abbrev pub OpFits : {F V : Type 0} → ℕ → Operation F V → Type 0
OpFits d (add id e m t) = length e ≡ d
OpFits d (upsert id e m t) = length e ≡ d
OpFits d (update id m t) = Unit
OpFits d (delete id) = Unit

abbrev pub OpsFit : {F V : Type 0} → ℕ → List (WalRecord (Operation F V)) → Type 0
OpsFit d [] = Unit
OpsFit d (r ∷ rs) = OpFits d r.op × OpsFit d rs

module _ {F V : Type 0} where
  retain_others-HasDimension :
      (d : ℕ) (id : String) (rs : List (Record F V))
      → HasDimension d rs
      → HasDimension d (retain_others id rs)
  unfolding retain_others
  retain_others-HasDimension d id [] h = tt
  retain_others-HasDimension d id (r ∷ rs) h = elim (Bool-cases (str_eq r.id id)) [
    | inl same ↦ rw same (retain_others-HasDimension d id rs h.1)
    | inr other ↦ rw other (h.0, retain_others-HasDimension d id rs h.1)
  ]

  HasDimension-append :
      (d : ℕ) (rs : List (Record F V)) (r : Record F V)
      → HasDimension d rs
      → VectorFits d r.embedding
      → HasDimension d (rs ++ r ∷ [])
  HasDimension-append d [] r h k = (k, tt)
  HasDimension-append d (s ∷ rs) r h k = (h.0, HasDimension-append d rs r h.1 k)

module _ {F V B I : Type 0} ⦃fl : Floats F⦄ ⦃of : OrderedFloats fl⦄ ⦃bm : Bitmap B⦄ where
  pub upsert-buffer :
      (c : Collection F V B I) (id : String) (e : List V) (m : Option (Metadata F))
      (t : Option String) (seq : ℕ)
      → (apply_upsert c id e m t seq).buffer
        ≡ retain_others id c.buffer
          ++ record { id = id; embedding = some e; metadata = m; document = t; seq = seq } ∷ []
  unfolding apply_upsert offset_for
  upsert-buffer c id e m t seq = ground arith

  pub update-buffer :
      (c : Collection F V B I) (id : String) (m : Option (Metadata F)) (t : Option String) (seq : ℕ)
      → (apply_update c id m t seq).buffer ≡ c.buffer
  unfolding apply_update offset_for
  update-buffer c id m t seq = ground arith

  module _ ⦃ix : Index I V⦄ where
    pub delete-buffer :
        (c : Collection F V B I) (id : String)
        → (apply_delete c id).0.buffer ≡ retain_others id c.buffer
    unfolding apply_delete release_offset
    delete-buffer c id = ground arith

    apply_operation-HasDimension :
        (d : ℕ) (c : Collection F V B I) (op : Operation F V) (seq : ℕ)
        → HasDimension d c.buffer
        → OpFits d op
        → HasDimension d (apply_operation c op seq).0.buffer
    unfolding apply_operation
    apply_operation-HasDimension d c (add id e m t) seq h fits =
        subst (HasDimension d) (sym (upsert-buffer c id e m t seq)) (
          HasDimension-append d (retain_others id c.buffer) _
            (retain_others-HasDimension d id c.buffer h) fits)
    apply_operation-HasDimension d c (upsert id e m t) seq h fits =
        subst (HasDimension d) (sym (upsert-buffer c id e m t seq)) (
          HasDimension-append d (retain_others id c.buffer) _
            (retain_others-HasDimension d id c.buffer h) fits)
    apply_operation-HasDimension d c (update id m t) seq h fits =
        subst (HasDimension d) (sym (update-buffer c id m t seq)) h
    apply_operation-HasDimension d c (delete id) seq h fits =
        subst (HasDimension d) (sym (delete-buffer c id))
          (retain_others-HasDimension d id c.buffer h)

    pub run-HasDimension :
        (d : ℕ) (c : Collection F V B I) (recs : List (WalRecord (Operation F V)))
        → HasDimension d c.buffer
        → OpsFit d recs
        → HasDimension d (run c recs).buffer
    run-HasDimension d c [] h fits = h
    run-HasDimension d c (r ∷ recs) h fits =
        run-HasDimension d (apply_operation c r.op r.seq).0 recs
          (apply_operation-HasDimension d c r.op r.seq h fits.0) fits.1
