-- ===== src/Engine/Durable/Checkpoint/Vectors.antt =====
-- What a checkpoint does to the vectors of the collection.
use rekha.Prelude.{
  ℕ, suc, ◌≡◌, refl, sym, ap, ◌∙◌, String, Bool, true, false, Option, none, some, List, [], ◌∷◌,
  length, get_elem?, leb, ◌==◌, if◌then◌else◌, arith,
}
use rekha.Prelude.Dict.{Dict, string_eqv, get, Unique}
use rekha.Core.Op.{Operation}
use rekha.Wal.{Codec}
use rekha.Engine.Base.{Record, Index, Catalog, ok}
use rekha.Engine.Durable.{CheckpointMeta, Durable}
use rekha.Engine.Durable.Open.{strip}
use rekha.Engine.Durable.Checkpoint.Saved.{saved, LogKept, checkpoint-value, segments_for}
use rekha.Engine.Durable.Checkpoint.{
  Disk, checkpoint, meta_of, entries_of, sort_by_key, vectors_of, positions_from,
}
use rekha.Engine.Durable.Checkpoint.Entries.{
  vector_of, covered, get-strip, strip-Unique, get-entries_of, entries_of-Unique, get-sort_by_key,
  located, or_located, located-positions_from,
}
use rekha.Engine.Lookup.{load_vector, get_record, or_else}
use mathlib.Core.Path.{subst}

module _ {V : Type 0} where
  -- what `load_vector` makes of the position and the segments
  abbrev pub in_first : Option ℕ → List (List (List V)) → Option (List V)
  in_first none segments = none
  in_first (some i) [] = none
  in_first (some i) (segment ∷ segments) = get_elem? segment i

  pub or_located-none : (o : Option (List V)) → or_located o none ≡ o
  or_located-none none = refl
  or_located-none (some v) = refl

  in_first-located :
      (o : Option ℕ) (e : String × List V) (es : Dict String (List V))
      → in_first o (segments_for (e ∷ es)) ≡ located o (vectors_of (e ∷ es))
  in_first-located none e es = refl
  in_first-located (some i) e es = refl

  pub in_first-segments_for :
      (es : Dict String (List V)) (id : String)
      → Unique es
      → in_first (get (positions_from 0 [] es) id) (segments_for es) ≡ get es id
  unfolding get positions_from
  in_first-segments_for [] id u = refl
  in_first-segments_for (e ∷ es) id u =
      in_first-located (get (positions_from 0 [] (e ∷ es)) id) e es
      ∙ (located-positions_from [] [] (e ∷ es) id u ∙ or_located-none (get (e ∷ es) id))

module _ {F V : Type 0} where
  -- Reading takes the record and the vector.
  abbrev pub read_as : Option (Record F V) → Option (List V) → Option (Record F V)
  read_as none v = none
  read_as (some r) v = some (record r { embedding = or_else v r.embedding })

  read_as-kept :
      (r : Record F V) (v : Option (List V))
      → r.embedding ≡ v
      → record r { embedding = or_else v v } ≡ r
  read_as-kept r none e = ap (λ x. record r { embedding = x }) (sym e)
  read_as-kept r (some v) e = ap (λ x. record r { embedding = x }) (sym e)

  read_as-dropped :
      (r : Record F V) (v : Option (List V))
      → r.embedding ≡ v
      → record r { embedding = or_else v none } ≡ r
  read_as-dropped r none e = ap (λ x. record r { embedding = x }) (sym e)
  read_as-dropped r (some v) e = ap (λ x. record r { embedding = x }) (sym e)

  pub read_as-stripped :
      (b : Bool) (r : Record F V)
      → read_as (some (if b then record r { embedding = none } else r)) r.embedding ≡ some r
  read_as-stripped true r = ap some (read_as-dropped r r.embedding refl)
  read_as-stripped false r = ap some (read_as-kept r r.embedding refl)

  read_as-covered : (n : ℕ) (r : Option (Record F V)) → read_as (covered n r) (vector_of r) ≡ r
  read_as-covered n none = refl
  read_as-covered n (some r) = read_as-stripped (leb r.seq n) r

module _ {F V B I : Type 0} where
  pub load_vector-in_first :
      (s : Durable F V B I) (id : String)
      → load_vector s id ≡ in_first (get s.segment_index id) s.segments
  unfolding load_vector
  load_vector-in_first s id = ground arith

  pub get_record-read_as :
      (s : Durable F V B I) (id : String)
      → get_record s id ≡ read_as (get s.coll.records id) (load_vector s id)
  unfolding get_record
  get_record-read_as s id = ground arith

module _ {F V B I : Type 0} ⦃ix : Index I V⦄ where
  load_vector-saved :
      (meta : CheckpointMeta) (s : Durable F V B I) (id : String)
      → Unique s.coll.records
      → load_vector (saved meta s) id ≡ vector_of (get s.coll.records id)
  load_vector-saved meta s id u =
      let es = entries_of s.coll.records in
      let (unique, same) = get-sort_by_key es (entries_of-Unique s.coll.records u) in
      load_vector-in_first (saved meta s) id
      ∙ (in_first-segments_for (sort_by_key es) id unique
          ∙ (same id ∙ get-entries_of s.coll.records id u))

  get_record-saved :
      (meta : CheckpointMeta) (s : Durable F V B I) (id : String)
      → Unique s.coll.records
      → get_record (saved meta s) id ≡ get s.coll.records id
  get_record-saved meta s id u =
      get_record-read_as (saved meta s) id
      ∙ (ap (λ v. read_as (get (strip meta.flushed_seq s.coll.records) id) v)
            (load_vector-saved meta s id u)
          ∙ (ap (λ r. read_as r (vector_of (get s.coll.records id)))
                (get-strip meta.flushed_seq s.coll.records id)
              ∙ read_as-covered meta.flushed_seq (get s.coll.records id)))

  -- A state that differs in its log only reads as another.
  get_record-LogKept :
      (c : Codec (Operation F V)) (fsync : Bool) (meta : CheckpointMeta) (s t : Durable F V B I)
      (id : String)
      → LogKept c fsync meta s t
      → get_record t id ≡ get_record s id
  unfolding get_record load_vector
  get_record-LogKept c fsync meta s t id kept =
      subst (λ x. get_record x id ≡ get_record s id) (sym kept.state) refl

-- The seq of each record is at most `n`.
abbrev pub AllCovered : {F V : Type 0} → ℕ → Dict String (Record F V) → Type 0
AllCovered n rs = (id : String) → vector_of (covered n (get rs id)) ≡ none

module _ {F V : Type 0} where
  length-strip : (n : ℕ) (rs : Dict String (Record F V)) → length (strip n rs) ≡ length rs
  unfolding strip
  length-strip n [] = refl
  length-strip n ((j, r) ∷ rs) = ap suc (length-strip n rs)

module _ {F V B I K : Type 0} ⦃ix : Index I V⦄ ⦃catalog : Catalog K⦄
    (c : Codec (Operation F V)) where
  -- After a checkpoint of a collection with records that succeeds, whose segment could be opened
  -- and whose stale files could be removed, reading an id gives the record that stood in memory
  -- before, with its vector, also where the checkpoint took the vector out of the record. No two
  -- records have one id.
  pub checkpoint-get_record :
      (disk : Disk I) (fsync : Bool) (s t : Durable F V B I) (k l : K) (id : String)
      → disk.segment_opened ≡ true
      → disk.cleaned ≡ true
      → (length s.coll.records == 0) ≡ false
      → Unique s.coll.records
      → checkpoint c disk fsync s k ≡ ((t, l), ok tt)
      → get_record t id ≡ get s.coll.records id
  checkpoint-get_record disk fsync s t k l id opened cleaned live u done =
      get_record-LogKept c fsync (meta_of s) (saved (meta_of s) s) t id
        (checkpoint-value c disk fsync s t k l opened cleaned live done)
      ∙ get_record-saved (meta_of s) s id u

  -- If a checkpoint covers the seq of every record, then after that checkpoint and a second one,
  -- both successful, reading any id gives no vector: the second one writes no segment, since the
  -- first took the vectors out of the records. The segments could be opened and the stale files
  -- removed, there are records, and no two have one id.
  pub checkpoint-loses :
      (disk disk' : Disk I) (fsync : Bool) (s t u : Durable F V B I) (k l m : K) (id : String)
      → disk.segment_opened ≡ true
      → disk.cleaned ≡ true
      → disk'.segment_opened ≡ true
      → disk'.cleaned ≡ true
      → (length s.coll.records == 0) ≡ false
      → Unique s.coll.records
      → AllCovered s.coll.flushed_seq s.coll.records
      → checkpoint c disk fsync s k ≡ ((t, l), ok tt)
      → checkpoint c disk' fsync t l ≡ ((u, m), ok tt)
      → vector_of (get_record u id) ≡ none
  unfolding meta_of
  checkpoint-loses disk disk' fsync s t u k l m id opened cleaned opened' cleaned' live unique all d
        d' =
      let kept = checkpoint-value c disk fsync s t k l opened cleaned live d in
      let n = s.coll.flushed_seq in
      let records : t.coll.records ≡ strip n s.coll.records = ap (λ x. x.coll.records) kept.state in
      let live' : (length t.coll.records == 0) ≡ false =
        rw (records, length-strip n s.coll.records) live in
      let unique' = subst Unique (sym records) (strip-Unique n s.coll.records unique) in
      ap vector_of (
        checkpoint-get_record disk' fsync t u l m id opened' cleaned' live' unique' d'
        ∙ (ap (λ rs. get rs id) records ∙ get-strip n s.coll.records id))
      ∙ all id
