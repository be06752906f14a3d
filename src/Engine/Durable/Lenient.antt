-- ===== src/Engine/Durable/Lenient.antt =====
-- What opening a collection relies on of its index, and how many adds it makes: `flush_buffer` and
-- `replay_after` of crates/rekha-engine/src/collection.rs.
use rekha.Prelude.{
  ℕ, suc, ◌+◌, ◌≡◌, ◌≢◌, ◌<◌, ◌≤◌, refl, String, false, none, some, Option, List, [], ◌∷◌, ◌++◌,
  length, inl, inr, Bool-cases, Option-cases, if◌then◌else◌, ltb→lt, length-append, arith,
}
use mathlib.Core.Path.{subst}
use rekha.Prelude.Dict.{string_eqv}
use rekha.Core.Types.{Floats, Distance, Metadata}
use rekha.Core.Op.{Operation, add, update, delete, upsert}
use rekha.Core.Config.{HnswConfig}
use rekha.Wal.{Codec, WalRecord, u64_mod}
use rekha.Wal.Log.{Entry, IsLog}
use rekha.Wal.ReadRange.{records_between}
use rekha.Engine.Bitmap.{Bitmap}
use rekha.Engine.ValueKey.{OrderedFloats}
use rekha.Engine.Base.{Record, Index}
use rekha.Engine.Collection.{
  Collection, retain_others, offset_for, apply_upsert, apply_update, release_offset, apply_delete,
  apply_operation, index_result,
}
use rekha.Engine.Durable.{flush_records, max}
use rekha.Engine.Durable.Replay.{run}
use rekha.Engine.Durable.Dimension.{
  VectorFits, HasDimension, upsert-buffer, update-buffer, delete-buffer,
}

-- What an index promises. It is made for a dimension, and is ready for as many adds as there are
-- labels of 64 bits. A delete succeeds, and leaves the id out. While the index is ready for an add,
-- one of a vector of the dimension, at an id that is not there, succeeds.
pub record IsLenient {I V : Type 0} (ix : Index I V) : Type 1 where
  pub Ready : ℕ → ℕ → I → Type 0
  pub makes :
      (space : Distance) (d : ℕ) (hnsw : HnswConfig)
      → (i : I) × (ix.with_hnsw space d hnsw ≡ some i) × ((n : ℕ) → n ≤ u64_mod → Ready d n i)
  pub deletes : (i : I) (id : String) → ix.delete i id ≢ none
  pub deleted :
      (d n : ℕ) (i j : I) (id : String)
      → Ready d n i
      → ix.delete i id ≡ some j
      → (ix.contains j id ≡ false) × Ready d n j
  pub adds :
      (d n : ℕ) (i : I) (id : String) (v : List V)
      → Ready d (suc n) i
      → ix.contains i id ≡ false
      → length v ≡ d
      → (j : I) × (ix.add i id v ≡ some j) × Ready d n j
  pub fewer : (d m n : ℕ) (i : I) → m ≤ n → Ready d n i → Ready d m i

module _ {V I : Type 0} ⦃ix : Index I V⦄ (lenient : IsLenient ix) (d n : ℕ) where
  -- Making room for an id, and adding it.
  replaced :
      (i : I) (id : String) (v : List V)
      → lenient.Ready d (suc n) i
      → length v ≡ d
      → (i' j : I) × ((if ix.contains i id then ix.delete i id else some i) ≡ some i')
        × (ix.add i' id v ≡ some j)
        × lenient.Ready d n j
  replaced i id v ready fits = elim (Bool-cases (ix.contains i id)) [
    | inl inside ↦ elim (Option-cases (ix.delete i id)) [
      | inl e ↦ absurd (lenient.deletes i id e)
      | inr (i', e) ↦
          let (out, still) = lenient.deleted d (suc n) i i' id ready e in
          let (j, e', left) = lenient.adds d n i' id v still out fits in
          (i', j, rw inside e, e', left)
    ]
    | inr outside ↦
        let (j, e', left) = lenient.adds d n i id v ready outside fits in
        (i, j, rw outside refl, e', left)
  ]

module _ {F V I : Type 0} ⦃ix : Index I V⦄ (lenient : IsLenient ix) (d : ℕ) where
  -- Flushing as many records as the index is ready for succeeds.
  pub flush_records_total :
      (i : I) (rs : List (Record F V)) (seq : ℕ)
      → lenient.Ready d (length rs) i
      → HasDimension d rs
      → (j : I) × (k : ℕ) × (flush_records i rs seq ≡ (j, some k))
  unfolding flush_records
  flush_records_total i [] seq ready h = (i, seq, refl)
  flush_records_total i (r ∷ rs) seq ready h = elim (Option-cases r.embedding) [
    | inl e ↦
        let still = lenient.fewer d (length rs) (suc (length rs)) i (omega arith) ready in
        let (j, k, p) = flush_records_total i rs seq still h.1 in (j, k, rw (e, flush_records) p)
    | inr (v, e) ↦
        let (i', j', p, q, left) =
          replaced lenient d (length rs) i r.id v ready (subst (VectorFits d) e h.0) in
        let (j, k, rest) = flush_records_total j' rs (max seq r.seq) left h.1 in
        (j, k, rw (e, flush_records, p, flush_records, q, flush_records) rest)
  ]

module _ {F V : Type 0} where
  length-retain_others :
      (id : String) (rs : List (Record F V)) → length (retain_others id rs) ≤ length rs
  unfolding retain_others
  length-retain_others id [] = omega arith
  length-retain_others id (r ∷ rs) = ground (arith, length-retain_others id rs)

  length-retained :
      (id : String) (rs : List (Record F V)) (r : Record F V)
      → length (retain_others id rs ++ r ∷ []) ≤ length rs + 1
  length-retained id rs r =
      omega (arith, length-retain_others id rs, length-append (retain_others id rs) (r ∷ []))

module _ {F V B I : Type 0} ⦃fl : Floats F⦄ ⦃of : OrderedFloats fl⦄ ⦃bm : Bitmap B⦄
    ⦃ix : Index I V⦄ where
  apply_operation-buffer :
      (c : Collection F V B I) (op : Operation F V) (seq : ℕ)
      → length (apply_operation c op seq).0.buffer ≤ length c.buffer + 1
  unfolding apply_operation
  apply_operation-buffer c (add id e m t) seq = rw upsert-buffer (length-retained id c.buffer _)
  apply_operation-buffer c (upsert id e m t) seq = rw upsert-buffer (length-retained id c.buffer _)
  apply_operation-buffer c (update id m t) seq = rw update-buffer (omega arith)
  apply_operation-buffer c (delete id) seq =
      rw delete-buffer (omega (arith, length-retain_others id c.buffer))

  upsert-index :
      (c : Collection F V B I) (id : String) (e : List V) (m : Option (Metadata F))
      (t : Option String) (seq : ℕ)
      → (apply_upsert c id e m t seq).index ≡ c.index
  unfolding apply_upsert offset_for
  upsert-index c id e m t seq = ground arith

  update-index :
      (c : Collection F V B I) (id : String) (m : Option (Metadata F)) (t : Option String) (seq : ℕ)
      → (apply_update c id m t seq).index ≡ c.index
  unfolding apply_update offset_for
  update-index c id m t seq = ground arith

  release_offset-index :
      (c : Collection F V B I) (id : String) → (release_offset c id).index ≡ c.index
  unfolding release_offset
  release_offset-index c id = ground arith

  -- An operation puts at most one record in the buffer.
  pub length-run_buffer :
      (c : Collection F V B I) (recs : List (WalRecord (Operation F V)))
      → length (run c recs).buffer ≤ length c.buffer + length recs
  length-run_buffer c [] = omega arith
  length-run_buffer c (r ∷ recs) = omega (
    arith,
    length-run_buffer (apply_operation c r.op r.seq).0 recs,
    apply_operation-buffer c r.op r.seq,
  )

  module _ (lenient : IsLenient ix) (d n : ℕ) where
    index_result-Ready :
        (c : Collection F V B I) (id : String)
        → lenient.Ready d n c.index
        → lenient.Ready d n (index_result c (ix.delete c.index id)).0.index
    unfolding index_result
    index_result-Ready c id ready = elim (Option-cases (ix.delete c.index id)) [
      | inl e ↦ rw e ready
      | inr (j, e) ↦ rw e (lenient.deleted d n c.index j id ready e).1
    ]

    apply_operation-Ready :
        (c : Collection F V B I) (op : Operation F V) (seq : ℕ)
        → lenient.Ready d n c.index
        → lenient.Ready d n (apply_operation c op seq).0.index
    unfolding apply_operation apply_delete
    apply_operation-Ready c (add id e m t) seq ready = rw upsert-index ready
    apply_operation-Ready c (upsert id e m t) seq ready = rw upsert-index ready
    apply_operation-Ready c (update id m t) seq ready = rw update-index ready
    apply_operation-Ready c (delete id) seq ready =
        index_result-Ready _ id (rw release_offset-index ready)

    -- Replaying leaves the index as ready as it was.
    pub run-Ready :
        (c : Collection F V B I) (recs : List (WalRecord (Operation F V)))
        → lenient.Ready d n c.index
        → lenient.Ready d n (run c recs).index
    run-Ready c [] ready = ready
    run-Ready c (r ∷ recs) ready =
        run-Ready (apply_operation c r.op r.seq).0 recs (apply_operation-Ready c r.op r.seq ready)

module _ {Op : Type 0} (c : Codec Op) where
  IsLog-room :
      (epoch p : ℕ) (es : List Entry)
      → p < u64_mod
      → IsLog c epoch (some p) es
      → p + length es < u64_mod
  IsLog-room epoch p [] small log = omega (arith, small)
  IsLog-room epoch p (e ∷ es) small log =
      omega (arith, IsLog-room epoch e.seq es log.0.seq_fits log.3, ltb→lt p e.seq log.2)

  length-records_between :
      (from to : ℕ) (es : List Entry) → length (records_between c from to es) ≤ length es
  length-records_between from to [] = omega arith
  length-records_between from to (e ∷ es) = ground (arith, length-records_between from to es)

  -- A log has no more records than there are seqs of 64 bits.
  pub few-records_between :
      (epoch from to : ℕ) (es : List Entry)
      → IsLog c epoch none es
      → length (records_between c from to es) ≤ u64_mod
  few-records_between epoch from to [] log = omega arith
  few-records_between epoch from to (e ∷ es) log = omega (
    arith,
    length-records_between from to (e ∷ es),
    IsLog-room epoch e.seq es log.0.seq_fits log.3,
  )
