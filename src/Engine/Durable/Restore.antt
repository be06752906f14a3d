-- ===== src/Engine/Durable/Restore.antt =====
-- Loading a checkpoint: the offsets and the postings that it rebuilds fit its records.
use mathlib.Core.Path.{subst}
use rekha.Prelude.{
  ℕ, ◌+◌, ◌<◌, ◌≡◌, refl, sym, ap, ◌∙◌, String, Bool, true, Option, none, some, List, [], ◌∷◌,
  length, is_some, eq_iff, arith, Bool-cases, Option-cases, inl, inr, ◌==◌,
}
use rekha.Prelude.Dict
use rekha.Prelude.Dict.{Dict, string_eqv, nat_eqv, get, get-insert, Unique, get_cong}
use rekha.Core.Types.{Floats}
use rekha.Core.Op.{Operation}
use rekha.Wal.{Codec, Wal, WalResult, ok, err, or_else}
use rekha.Engine.Bitmap.{Bitmap}
use rekha.Engine.ValueKey.{OrderedFloats}
use rekha.Engine.Base.{Record, Index}
use rekha.Engine.Postings
use rekha.Engine.Postings.Represents.{IsMap, insert-Represents}
use rekha.Engine.Postings.Removal.{new-Represents}
use rekha.Engine.Collection.{Collection, u32_mod}
use rekha.Engine.Collection.Consistent.{
  metadata_of_record, docs_of, IsConsistent, Represents-cong, next-unused, extend-IsConsistent,
}
use rekha.Engine.Durable.{CheckpointMeta, Durable}
use rekha.Engine.Durable.Open.{
  load_segments, restore_entry, restore_entries, restore_records, strip, strip_embeddings,
  resume_log, load_files, load_checkpoint, restore_checkpoint,
}

-- The records that come from inserting the entries one by one.
unfoldable inserted :
    {F V : Type 0} → Dict String (Record F V) → Dict String (Record F V) → Dict String (Record F V)
inserted before [] = before
inserted before ((id, r) ∷ entries) = inserted (Dict.insert before id r) entries

abbrev first {ℓ} : {A : Type ℓ} → Option A → Option A → Option A
first none b = b
first (some a) b = some a

get-inserted :
    {F V : Type 0} (before entries : Dict String (Record F V)) (j : String)
    → Unique entries
    → get (inserted before entries) j ≡ first (get entries j) (get before j)
unfolding inserted get
get-inserted before [] j u = refl
get-inserted before ((id, r) ∷ entries) j u =
    get-inserted (Dict.insert before id r) entries j u.1
    ∙ ground (arith, get-insert before id j r, eq_iff id j, u.0)

strip_embeddings-metadata :
    {F V : Type 0} (segments : List (List (List V))) (n : ℕ) (rs : Dict String (Record F V))
    (id : String)
    → metadata_of_record (get (strip_embeddings segments n rs) id) ≡ metadata_of_record (get rs id)
unfolding strip_embeddings strip get
strip_embeddings-metadata [] n rs id = refl
strip_embeddings-metadata (s ∷ segments) n [] id = refl
strip_embeddings-metadata (s ∷ segments) n ((j, r) ∷ rs) id =
    ground (arith, strip_embeddings-metadata (s ∷ segments) n rs id)

get-first :
    {F V : Type 0} (entries : Dict String (Record F V)) (j : String)
    → get entries j ≡ first (get entries j) (get [] j)
unfolding get
get-first entries j = ground arith

module _ {F V B I : Type 0} ⦃fl : Floats F⦄ ⦃of : OrderedFloats fl⦄ ⦃bm : Bitmap B⦄ where
  -- Only the metadata of the records matters.
  records-IsConsistent :
      (c : Collection F V B I) (rs : Dict String (Record F V)) (i : I) (n : ℕ)
      → IsConsistent c
      → ((id : String) → metadata_of_record (get rs id) ≡ metadata_of_record (get c.records id))
      → IsConsistent (record c { records = rs; index = i; flushed_seq = n })
  records-IsConsistent c rs i n k same = record {
    forward = k.forward;
    backward = k.backward;
    below = k.below;
    live = λ id. ground (arith, k.live id, same id);
    maps = λ id r e. elim (Option-cases (get c.records id)) [
      | inl gone ↦ absurd (ground (arith, same id, e, gone))
      | inr (s, e') ↦
          let m : r.metadata ≡ s.metadata = ground (arith, same id, e, e') in rw m (k.maps id s e')
    ];
    indexed = Represents-cong (docs_of c) _ k.indexed (λ o.
        elim (Option-cases (get c.id_by_offset o)) [
          | inl e ↦ ground (arith, e)
          | inr (id, e) ↦ ground (arith, e, same id)
        ]);
  }

  restore_entries-IsConsistent :
      (c : Collection F V B I) (before entries : Dict String (Record F V))
      → IsConsistent (record c { records = before })
      → Unique entries
      → ((id : String) → is_some (get entries id) ≡ true → get before id ≡ none)
      → ((id : String) (r : Record F V) → get entries id ≡ some r → IsMap r.metadata)
      → c.next_offset + length entries < u32_mod
      → IsConsistent (record (restore_entries c entries) { records = inserted before entries })
  unfolding restore_entries restore_entry inserted get
  restore_entries-IsConsistent c before [] k u disjoint maps room = k
  restore_entries-IsConsistent c before ((id, r) ∷ entries) k u disjoint maps room =
      let here : get ((id, r) ∷ entries) id ≡ some r = ground (arith, eq_iff id id) in
      let absent = disjoint id (ap is_some here) in
      let known = maps id r here in
      let n = c.next_offset in
      let start = record c { records = before } in
      let none_yet : get c.offsets id ≡ none = ground (arith, k.live id, absent) in
      let small : n + 1 < u32_mod = omega (arith, room) in
      let step =
        extend-IsConsistent start id r (Postings.insert c.postings n r.metadata) c.buffer k none_yet
          small known
          (insert-Represents n r.metadata k.indexed (ground (arith, next-unused start k)) known) in
      restore_entries-IsConsistent (restore_entry c id r) (Dict.insert before id r) entries step u.1
        (λ j h. ground (arith, disjoint j, get-insert before id j r, eq_iff id j, u.0, h))
        (λ j s e. ground (arith, maps j s, eq_iff id j, u.0, e)) (omega (arith, room))

  restore_records-IsConsistent :
      (c : Collection F V B I) (rs entries : Dict String (Record F V)) (i : I) (n : ℕ)
      → Unique entries
      → ((id : String) (r : Record F V) → get entries id ≡ some r → IsMap r.metadata)
      → length entries < u32_mod
      → ((id : String) → metadata_of_record (get rs id) ≡ metadata_of_record (get entries id))
      → IsConsistent
          (record (restore_records c entries) { records = rs; index = i; flushed_seq = n })
  unfolding restore_records get
  restore_records-IsConsistent c rs entries i n u maps room same =
      let blank : Collection F V B I = record c {
        records = entries;
        offsets = [];
        id_by_offset = [];
        postings = Postings.new;
        next_offset = 0;
      } in
      let none_yet : IsConsistent (record blank { records = [] }) = record {
        forward = λ id o e. absurd (ground arith);
        backward = λ id o e. absurd (ground arith);
        below = λ id o e. absurd (ground arith);
        live = λ id. refl;
        maps = λ id r e. absurd (ground arith);
        indexed = new-Represents;
      } in
      let all =
        restore_entries-IsConsistent blank [] entries none_yet u (λ id h. refl) maps
          (omega (arith, room)) in
      records-IsConsistent _ rs i n all (λ id.
        same id ∙ ap metadata_of_record (get-first entries id ∙ sym (get-inserted [] entries id u)))

resume_log-coll :
    {F V B I : Type 0} (s : Durable F V B I) (r : WalResult Wal) → (resume_log s r).0.coll ≡ s.coll
unfolding resume_log
resume_log-coll s (err e) = refl
resume_log-coll s (ok w) = refl

module _ {F V B I : Type 0} ⦃fl : Floats F⦄ ⦃of : OrderedFloats fl⦄ ⦃bm : Bitmap B⦄ ⦃ix : Index I V⦄
    (c : Codec (Operation F V)) where
  restore_checkpoint-IsConsistent :
      (s : Durable F V B I) (meta : CheckpointMeta) (entries : Dict String (Record F V)) (epoch : ℕ)
      (fsync : Bool)
      → Unique entries
      → ((id : String) (r : Record F V) → get entries id ≡ some r → IsMap r.metadata)
      → length entries < u32_mod
      → IsConsistent (restore_checkpoint c s meta entries epoch fsync).0.coll
  unfolding restore_checkpoint
  restore_checkpoint-IsConsistent s meta entries epoch fsync u maps room =
      let segments = load_segments s.segments s.dir.segments in
      let restored =
        restore_records-IsConsistent s.coll (strip_embeddings segments meta.flushed_seq entries)
          entries (or_else s.coll.index s.dir.index) meta.flushed_seq u maps room
          (strip_embeddings-metadata segments meta.flushed_seq entries) in
      subst IsConsistent (sym (resume_log-coll _ _)) restored

  load_files-IsConsistent :
      (s : Durable F V B I) (meta : Option CheckpointMeta)
      (entries : Option (Dict String (Record F V))) (epoch : ℕ) (fsync : Bool)
      → IsConsistent s.coll
      → Unique (or_else [] entries)
      → ((id : String) (r : Record F V) → get (or_else [] entries) id ≡ some r → IsMap r.metadata)
      → length (or_else [] entries) < u32_mod
      → IsConsistent (load_files c s meta entries epoch fsync).0.coll
  unfolding load_files
  load_files-IsConsistent s none entries epoch fsync k u maps room = k
  load_files-IsConsistent s (some meta) none epoch fsync k u maps room = k
  load_files-IsConsistent s (some meta) (some entries) epoch fsync k u maps room =
      elim (Bool-cases (length entries == meta.record_count)) [
        | inl same ↦
            rw same (restore_checkpoint-IsConsistent s meta entries epoch fsync u maps room)
        | inr differ ↦ rw differ k
      ]

  -- Loading a checkpoint keeps the invariant of the collection, whether the checkpoint is restored,
  -- refused, or left half restored by a log that does not open, if records.bin holds a map of fewer
  -- than 2^32 records, whose metadata have no key twice.
  pub load_checkpoint-IsConsistent :
      (s : Durable F V B I) (epoch : ℕ) (fsync : Bool)
      → IsConsistent s.coll
      → Unique (or_else [] s.dir.records)
      → ((id : String) (r : Record F V)
          → get (or_else [] s.dir.records) id ≡ some r
          → IsMap r.metadata)
      → length (or_else [] s.dir.records) < u32_mod
      → IsConsistent (load_checkpoint c s epoch fsync).0.coll
  unfolding load_checkpoint
  load_checkpoint-IsConsistent s epoch fsync k u maps room =
      load_files-IsConsistent s s.dir.meta s.dir.records epoch fsync k u maps room
