-- ===== src/Wal/Append.antt =====
-- The state of an open log against the entries that its file holds, and `append` on it.
use rekha.Prelude.{
  ℕ, ◌+◌, ◌%◌, ◌<◌, ◌≤◌, ◌≡◌, refl, sym, ap, ◌∙◌, true, false, none, some, List, [], ◌∷◌, ◌++◌,
  length, ltb, is_some, length-append, take-length, drop-beyond, arith,
}
use mathlib.Core.List.{append_assoc, append-nil}
use rekha.Wal.{
  Codec, header_len, record_header_len, u32_max, u64_mod, WalOptions, Wal, ok, write_at,
  append_payload, append, build_header,
}
use rekha.Wal.Log.{Entry, encode_entry, encode_all, Fits, IsLog}
use rekha.Wal.Scan.{last_of}
use rekha.Wal.Recovery.{image, length-image, opened}

pub last_of-last_of : (d : ℕ) (es : List Entry) → last_of (last_of d es) es ≡ last_of d es
last_of-last_of d [] = refl
last_of-last_of d (e ∷ es) = refl

module _ {Op : Type 0} (c : Codec Op) where
  -- The file of `w` holds exactly the entries `es`, and the fields of `w` say so.
  pub record Holds (w : Wal) (es : List Entry) : Type 0 where
    pub file : w.file ≡ image c w.header_epoch es
    pub file_len : w.file_len ≡ header_len + length (encode_all c es)
    pub len : w.len ≡ length es
    pub last : last_of w.last_seq es ≡ w.last_seq
    pub log : IsLog c w.header_epoch none es
    pub epoch_fits : w.header_epoch < u64_mod

  -- A log that was just opened holds what its file held.
  pub opened-Holds :
      (epoch : ℕ) (es : List Entry) (options : WalOptions)
      → epoch < u64_mod
      → IsLog c epoch none es
      → Holds (opened c epoch es options) es
  opened-Holds epoch [] options small log = record {
    file = refl;
    file_len = refl;
    len = refl;
    last = refl;
    log = log;
    epoch_fits = small;
  }
  opened-Holds epoch (e ∷ es) options small log = record {
    file = refl;
    file_len = refl;
    len = refl;
    last = ground arith;
    log = log;
    epoch_fits = small;
  }

  encode_all-append :
      (es : List Entry) (e : Entry)
      → encode_all c (es ++ e ∷ []) ≡ encode_all c es ++ encode_entry c e
  unfolding encode_all
  encode_all-append [] e = append-nil (encode_entry c e)
  encode_all-append (d ∷ es) e =
      ap (λ l. encode_entry c d ++ l) (encode_all-append es e)
      ∙ sym (append_assoc (encode_entry c d) (encode_all c es) (encode_entry c e))

  last_of-append : (d : ℕ) (es : List Entry) (e : Entry) → last_of d (es ++ e ∷ []) ≡ e.seq
  last_of-append d [] e = refl
  last_of-append d (f ∷ es) e = last_of-append f.seq es e

  IsLog-append_some :
      (epoch prev : ℕ) (es : List Entry) (e : Entry)
      → IsLog c epoch (some prev) es
      → Fits c e
      → epoch ≤ e.epoch
      → last_of prev es < e.seq
      → IsLog c epoch (some prev) (es ++ e ∷ [])
  IsLog-append_some epoch prev [] e log f fresh next = (f, fresh, ground arith, tt)
  IsLog-append_some epoch prev (d ∷ es) e log f fresh next =
      (log.0, log.1, log.2, IsLog-append_some epoch d.seq es e log.3 f fresh next)

  IsLog-append :
      (epoch last : ℕ) (es : List Entry) (e : Entry)
      → IsLog c epoch none es
      → Fits c e
      → epoch ≤ e.epoch
      → last_of last es < e.seq
      → IsLog c epoch none (es ++ e ∷ [])
  IsLog-append epoch last [] e log f fresh next = (f, fresh, refl, tt)
  IsLog-append epoch last (d ∷ es) e log f fresh next =
      (log.0, log.1, log.2, IsLog-append_some epoch d.seq es e log.3 f fresh next)

  write_at-end :
      (file bytes : List ℕ) (n : ℕ) → n ≡ length file → write_at file n bytes ≡ file ++ bytes
  unfolding write_at
  write_at-end file bytes n e =
      rw (
        e,
        take-length file,
        drop-beyond (length file + length bytes) file (omega arith),
        append-nil,
      )

  -- The entry that `append` writes for a payload.
  abbrev pub next_entry : Wal → List ℕ → Entry
  next_entry w payload = record { seq = w.last_seq + 1; epoch = w.header_epoch; payload = payload }

  -- The log after the entry was written.
  abbrev pub appended : Wal → List ℕ → Wal
  appended w payload = record w {
    file = w.file ++ encode_entry c (next_entry w payload);
    last_seq = w.last_seq + 1;
    len = w.len + 1;
    file_len = w.file_len + length (encode_entry c (next_entry w payload));
  }

  append_payload-appended :
      (w : Wal) (es : List Entry) (op : Op) (payload : List ℕ)
      → Holds w es
      → w.last_seq + 1 < u64_mod
      → record_header_len + length payload ≤ u32_max
      → append_payload c w op payload
        ≡ ok (appended w payload, record { seq = w.last_seq + 1; epoch = w.header_epoch; op = op })
  unfolding append_payload
  append_payload-appended w es op payload h room fits =
      let test : ltb u32_max (record_header_len + length payload) ≡ false = ground (arith, fits) in
      let seq : (w.last_seq + 1) % u64_mod ≡ w.last_seq + 1 = omega (arith, room) in
      let size : w.file_len ≡ length w.file =
        h.file_len ∙ sym (ap length h.file ∙ length-image c w.header_epoch es) in
      rw (test, seq, write_at-end w.file (encode_entry c (next_entry w payload)) w.file_len size)
        refl

  appended-Holds :
      (w : Wal) (es : List Entry) (payload : List ℕ)
      → Holds w es
      → w.last_seq + 1 < u64_mod
      → record_header_len + length payload ≤ u32_max
      → is_some (c.deserialize payload) ≡ true
      → Holds (appended w payload) (es ++ next_entry w payload ∷ [])
  appended-Holds w es payload h room fits decodes =
      let e = next_entry w payload in
      let whole = encode_all-append es e in
      record {
        file =
            ap (λ f. f ++ encode_entry c e) h.file
            ∙ append_assoc (build_header c w.header_epoch) (encode_all c es) (encode_entry c e)
            ∙ ap (λ l. build_header c w.header_epoch ++ l) (sym whole);
        file_len = omega (
          arith,
          h.file_len,
          ap length whole,
          length-append (encode_all c es) (encode_entry c e),
        );
        len = omega (arith, h.len, length-append es (e ∷ []));
        last = last_of-append (w.last_seq + 1) es e;
        log =
            IsLog-append w.header_epoch w.last_seq es e h.log
              (record {
                seq_fits = room;
                epoch_fits = h.epoch_fits;
                payload_fits = fits;
                decodes = decodes;
              })
              (omega arith) (omega (arith, h.last));
        epoch_fits = h.epoch_fits;
      }

  -- An append to a log that holds some entries gives the next seq to the operation and stamps it
  -- with the epoch of the file, and the log then holds the new entry behind the others. The next
  -- seq must fit 64 bits, the operation must have a payload, and the frame must fit 32 bits of
  -- length.
  pub append-Holds :
      (w : Wal) (es : List Entry) (op : Op) (payload : List ℕ)
      → Holds w es
      → w.last_seq + 1 < u64_mod
      → c.serialize op ≡ some payload
      → record_header_len + length payload ≤ u32_max
      → (append c w op
          ≡ ok (
            appended w payload,
            record { seq = w.last_seq + 1; epoch = w.header_epoch; op = op },
          ))
        × Holds (appended w payload) (es ++ next_entry w payload ∷ [])
  unfolding append
  append-Holds w es op payload h room bytes fits =
      let decodes = ap is_some (c.deserialize-serialize op payload bytes) in
      let open_epoch : ltb w.header_epoch w.header_epoch ≡ false = ground arith in
      (
        rw (open_epoch, bytes) (append_payload-appended w es op payload h room fits),
        appended-Holds w es payload h room fits decodes,
      )
