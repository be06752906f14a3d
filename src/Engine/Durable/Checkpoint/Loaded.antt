-- ===== src/Engine/Durable/Checkpoint/Loaded.antt =====
-- What opening a collection makes of a checkpoint that was saved: `load_checkpoint` of
-- crates/rekha-engine/src/collection.rs.
use rekha.Prelude.{
  ℕ, ◌≡◌, refl, sym, ap, ◌∙◌, String, Bool, true, false, Option, none, some, List, [], ◌∷◌, length,
  leb, ◌==◌,
}
use rekha.Prelude.Dict.{Dict, string_eqv, get, Unique}
use rekha.Core.Types.{Floats}
use rekha.Core.Op.{Operation}
use rekha.Wal.{Codec, Wal, WalOptions, or_else, open_wal}
use rekha.Wal as Log
use rekha.Engine.Bitmap.{Bitmap}
use rekha.Engine.ValueKey.{OrderedFloats}
use rekha.Engine.Base.{Record, Index, ok}
use rekha.Engine.Collection.{Collection}
use rekha.Engine.Durable.{CheckpointMeta, Durable, replay_after}
use rekha.Engine.Durable.Open.{
  opened_segments, load_segments, strip_embeddings, resume_log, restore_entry, restore_entries,
  restore_records, restore_checkpoint, load_files, load_checkpoint, flush, flush_replayed,
  replay_rest, open_on,
}
use rekha.Engine.Durable.Checkpoint.{vectors_of, positions_from, put_segment}
use rekha.Engine.Durable.Checkpoint.Entries.{covered, get-strip, located, located-positions_from}
use rekha.Engine.Durable.Checkpoint.Saved.{segment_files_for, index_file_for}
use rekha.Engine.Durable.Checkpoint.Vectors.{in_first, or_located-none}
use rekha.Engine.Lookup.Folded.{lessened, lessened-false}

module _ {V : Type 0} where
  in_first-first :
      (o : Option ℕ) (segment : List (List V)) (segments : List (List (List V)))
      → in_first o (segment ∷ segments) ≡ located o segment
  in_first-first none segment segments = refl
  in_first-first (some i) segment segments = refl

  first_of_files :
      (e : String × List V) (es : Dict String (List V))
      (files : Option (List (Option (List (List V)))))
      → (rest : List (List (List V))) × (load_segments [] (segment_files_for (e ∷ es) files)
          ≡ vectors_of (e ∷ es) ∷ rest)
  unfolding load_segments opened_segments put_segment
  first_of_files e es none = ([], refl)
  first_of_files e es (some []) = ([], refl)
  first_of_files e es (some (f ∷ fs)) = (opened_segments fs, refl)

  -- The vector that is found by the files of the segments and of their index.
  pub loaded-vector :
      (es : Dict String (List V)) (files : Option (List (Option (List (List V))))) (id : String)
      → Unique es
      → in_first
          (get (or_else [] (index_file_for es)) id)
          (load_segments [] (segment_files_for es files))
        ≡ get es id
  unfolding get load_segments
  loaded-vector [] files id u = refl
  loaded-vector (e ∷ es) files id u =
      let (rest, first) = first_of_files e es files in
      ap (in_first (get (positions_from 0 [] (e ∷ es)) id)) first
      ∙ (in_first-first (get (positions_from 0 [] (e ∷ es)) id) (vectors_of (e ∷ es)) rest
          ∙ (located-positions_from [] [] (e ∷ es) id u ∙ or_located-none (get (e ∷ es) id)))

module _ {F V : Type 0} where
  covered-lessened : (m : ℕ) (r : Option (Record F V)) → (b : Bool) × (covered m r ≡ lessened b r)
  covered-lessened m none = (false, refl)
  covered-lessened m (some r) = (leb r.seq m, refl)

  -- A record that is loaded may have lost its vector, and nothing else.
  pub get-strip_embeddings :
      (segments : List (List (List V))) (m : ℕ) (rs : Dict String (Record F V)) (id : String)
      → (b : Bool) × (get (strip_embeddings segments m rs) id ≡ lessened b (get rs id))
  unfolding strip_embeddings
  get-strip_embeddings [] m rs id = (false, sym (lessened-false (get rs id)))
  get-strip_embeddings (segment ∷ segments) m rs id =
      let (b, same) = covered-lessened m (get rs id) in (b, get-strip m rs id ∙ same)

module _ {F V B I : Type 0} ⦃fl : Floats F⦄ ⦃of : OrderedFloats fl⦄ ⦃bm : Bitmap B⦄ where
  restore_entries-buffer :
      (c : Collection F V B I) (rs : Dict String (Record F V))
      → (restore_entries c rs).buffer ≡ c.buffer
  unfolding restore_entries restore_entry
  restore_entries-buffer c [] = refl
  restore_entries-buffer c ((id, r) ∷ rs) = restore_entries-buffer (restore_entry c id r) rs

  pub restore_records-buffer :
      (c : Collection F V B I) (rs : Dict String (Record F V))
      → (restore_records c rs).buffer ≡ c.buffer
  unfolding restore_records
  restore_records-buffer c rs = restore_entries-buffer _ rs

module _ {F V B I : Type 0} ⦃fl : Floats F⦄ ⦃of : OrderedFloats fl⦄ ⦃bm : Bitmap B⦄ ⦃ix : Index I V⦄
    (c : Codec (Operation F V)) where
  -- the state that a checkpoint is loaded into, with the log `w`
  abbrev pub loaded :
      Durable F V B I → CheckpointMeta → Dict String (Record F V) → Wal → Durable F V B I
  loaded s meta records w =
      let segments = load_segments s.segments s.dir.segments in
      record s {
        wal = w;
        coll = record (restore_records s.coll records) {
          records = strip_embeddings segments meta.flushed_seq records;
          flushed_seq = meta.flushed_seq;
          index = or_else s.coll.index s.dir.index;
        };
        last_checkpoint_seq = meta.flushed_seq;
        segments = segments;
        segment_index = or_else s.segment_index s.dir.segment_index;
      }

  load_checkpoint-loaded :
      (s : Durable F V B I) (meta : CheckpointMeta) (records : Dict String (Record F V)) (w : Wal)
      (epoch : ℕ) (fsync : Bool)
      → s.dir.meta ≡ some meta
      → s.dir.records ≡ some records
      → (length records == meta.record_count) ≡ true
      → open_wal c s.wal.file epoch (record { fsync = fsync; start_seq = some meta.next_seq })
        ≡ Log.ok w
      → load_checkpoint c s epoch fsync ≡ (loaded s meta records w, true)
  unfolding load_checkpoint load_files restore_checkpoint resume_log
  load_checkpoint-loaded s meta records w epoch fsync marker rs whole opening =
      ap (λ o. load_files c s o s.dir.records epoch fsync) marker
      ∙ (ap (λ o. load_files c s (some meta) o epoch fsync) rs ∙ rw (whole, opening) refl)

  -- Opening loads the checkpoint, and replays what the log has behind it.
  pub open_on-loaded :
      (s : Durable F V B I) (meta : CheckpointMeta) (records : Dict String (Record F V)) (w : Wal)
      (epoch : ℕ) (fsync : Bool) (t : Durable F V B I)
      → s.dir.meta ≡ some meta
      → s.dir.records ≡ some records
      → (length records == meta.record_count) ≡ true
      → open_wal c s.wal.file epoch (record { fsync = fsync; start_seq = some meta.next_seq })
        ≡ Log.ok w
      → replay_after c (loaded s meta records w) meta.flushed_seq ≡ (t, ok tt)
      → open_on c s epoch fsync ≡ flush t
  unfolding open_on replay_rest flush_replayed
  open_on-loaded s meta records w epoch fsync t marker rs whole opening replayed =
      ap (replay_rest c)
        (load_checkpoint-loaded s meta records w epoch fsync marker rs whole opening)
      ∙ ap (flush_replayed c) replayed
