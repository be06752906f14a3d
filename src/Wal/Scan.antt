-- ===== src/Wal/Scan.antt =====
-- `scan` on a file that holds a log and then a torn tail.
use rekha.Prelude.{
  ℕ, zero, suc, ◌+◌, ◌-◌, ◌<◌, ◌≤◌, ◌≡◌, refl, sym, ap, ◌∙◌, ◌⊎◌, inl, inr, true, false, ◌&&◌,
  Option, some, List, [], ◌∷◌, ◌++◌, length, take, drop, leb, length-append, drop-length_append,
  drop-drop, arith, Bool-cases,
}
use mathlib.Core.List.{append_assoc}
use rekha.Wal.{
  Codec, record_header_len, read_prefix, prefix_at, payload_at, after, is_valid_record, scan_loop,
}
use rekha.Wal.Log.{
  Entry, encode_entry, encode_all, Fits, IsLog, length-frame, prefix-frame, payload-frame,
}

-- No complete record: less than a prefix, or less than the prefix says.
abbrev pub Torn : List ℕ → Type 0
Torn tail =
    (length tail < record_header_len)
    ⊎ (length tail < (read_prefix (take record_header_len tail)).record_len)

abbrev pub last_of : ℕ → List Entry → ℕ
last_of last [] = last
last_of last (e ∷ es) = last_of e.seq es

module _ {Op : Type 0} (c : Codec Op) where
  pub prefix_at-frame :
      (file : List ℕ) (offset : ℕ) (e : Entry) (rest : List ℕ)
      → drop offset file ≡ encode_entry c e ++ rest
      → Fits c e
      → prefix_at file offset ≡ record {
        record_len = record_header_len + length e.payload;
        stored_crc = c.hash e.payload;
        seq = e.seq;
        epoch = e.epoch;
      }
  unfolding prefix_at
  prefix_at-frame file offset e rest at f = rw at (prefix-frame c e rest f)

  pub payload_at-frame :
      (file : List ℕ) (offset : ℕ) (e : Entry) (rest : List ℕ)
      → drop offset file ≡ encode_entry c e ++ rest
      → payload_at file offset (record_header_len + length e.payload) ≡ e.payload
  unfolding payload_at
  payload_at-frame file offset e rest at =
      let n : record_header_len + length e.payload - record_header_len ≡ length e.payload =
        omega arith in
      rw (at, n) (payload-frame c e rest)

  pub drop-frame :
      (file : List ℕ) (offset : ℕ) (e : Entry) (rest : List ℕ)
      → drop offset file ≡ encode_entry c e ++ rest
      → drop (offset + (record_header_len + length e.payload)) file ≡ rest
  drop-frame file offset e rest at = rw (← length-frame c e.seq e.epoch e.payload) (
      drop-drop offset (length (encode_entry c e)) file
      ∙ ap (drop (length (encode_entry c e))) at
      ∙ drop-length_append (encode_entry c e) rest)

  is_valid_record-frame :
      (file : List ℕ) (header_epoch offset : ℕ) (prev : Option ℕ) (e : Entry) (rest : List ℕ)
      → drop offset file ≡ encode_entry c e ++ rest
      → length file ≡ offset + length (encode_entry c e ++ rest)
      → Fits c e
      → header_epoch ≤ e.epoch
      → after prev e.seq ≡ true
      → is_valid_record c file header_epoch (length file) offset prev ≡ true
  unfolding is_valid_record
  is_valid_record-frame file header_epoch offset prev e rest at size f fresh next =
      let p = prefix_at-frame file offset e rest at f in
      let q = payload_at-frame file offset e rest at in
      rw (p, q)
        (ground (
          arith,
          size,
          f.decodes,
          length-append (encode_entry c e) rest,
          length-frame c e.seq e.epoch e.payload,
        ))

  Torn-stops :
      (file : List ℕ) (header_epoch offset : ℕ) (prev : Option ℕ) (tail : List ℕ)
      → drop offset file ≡ tail
      → length file ≡ offset + length tail
      → Torn tail
      → (leb (offset + record_header_len) (length file)
          && is_valid_record c file header_epoch (length file) offset prev)
        ≡ false
  unfolding is_valid_record prefix_at
  Torn-stops file header_epoch offset prev tail at size (inl short) = ground arith
  Torn-stops file header_epoch offset prev tail at size (inr cut) =
      let cut' = rw (← at) at cut in ground (arith, cut', size)

  scan_step :
      (fuel : ℕ) (file : List ℕ) (header_epoch offset count last : ℕ) (prev : Option ℕ) (e : Entry)
      (rest : List ℕ)
      → drop offset file ≡ encode_entry c e ++ rest
      → length file ≡ offset + length (encode_entry c e ++ rest)
      → Fits c e
      → header_epoch ≤ e.epoch
      → after prev e.seq ≡ true
      → scan_loop c (suc fuel) file header_epoch (length file) offset count last prev
        ≡ scan_loop c fuel file header_epoch
            (length file)
            (offset + (record_header_len + length e.payload))
            (count + 1)
            e.seq
            (some e.seq)
  unfolding scan_loop
  scan_step fuel file header_epoch offset count last prev e rest at size f fresh next =
      let valid = is_valid_record-frame file header_epoch offset prev e rest at size f fresh next in
      let fits : leb (offset + record_header_len) (length file) ≡ true = ground (
        arith,
        size,
        length-append (encode_entry c e) rest,
        length-frame c e.seq e.epoch e.payload,
      ) in
      rw (fits, valid, prefix_at-frame file offset e rest at f) refl

  -- The scan reads the whole log, whatever torn tail follows it.
  pub scan_loop-log :
      (es : List Entry) (fuel : ℕ) (file : List ℕ) (header_epoch offset count last : ℕ)
      (prev : Option ℕ) (tail : List ℕ)
      → length es < fuel
      → drop offset file ≡ encode_all c es ++ tail
      → length file ≡ offset + length (encode_all c es ++ tail)
      → IsLog c header_epoch prev es
      → Torn tail
      → scan_loop c fuel file header_epoch (length file) offset count last prev
        ≡ some (offset + length (encode_all c es), count + length es, last_of last es)
  unfolding scan_loop encode_all
  scan_loop-log [] zero file header_epoch offset count last prev tail enough at size log torn =
      absurd (omega arith)
  scan_loop-log [] (suc fuel) file header_epoch offset count last prev tail enough at size log
        torn =
      rw (Torn-stops file header_epoch offset prev tail at size torn) (ground arith)
  scan_loop-log (e ∷ es) zero file header_epoch offset count last prev tail enough at size log
        torn =
      absurd (omega arith)
  scan_loop-log (e ∷ es) (suc fuel) file header_epoch offset count last prev tail enough at size log
        torn =
      let rest = encode_all c es ++ tail in
      let split : encode_entry c e ++ rest ≡ encode_all c (e ∷ es) ++ tail =
        sym (append_assoc (encode_entry c e) (encode_all c es) tail) in
      let at' = rw (← split) at at in
      let size' = rw (← split) at size in
      let n = offset + (record_header_len + length e.payload) in
      let frame_size = length-frame c e.seq e.epoch e.payload in
      let whole = length-append (encode_entry c e) rest in
      let ih =
        scan_loop-log es fuel file header_epoch n (count + 1) e.seq (some e.seq) tail (omega arith)
          (drop-frame file offset e rest at') (omega (arith, size', whole, frame_size)) log.3
          torn in
      scan_step fuel file header_epoch offset count last prev e rest at' size' log.0 log.1 log.2
      ∙ ih
      ∙ ground (arith, length-append (encode_entry c e) (encode_all c es), frame_size)

  is_valid_record-inside :
      (file : List ℕ) (header_epoch file_len offset : ℕ) (prev : Option ℕ)
      → is_valid_record c file header_epoch file_len offset prev ≡ true
      → offset + (prefix_at file offset).record_len ≤ file_len
  unfolding is_valid_record
  is_valid_record-inside file header_epoch file_len offset prev h = ground arith

  valid_length :
      (file : List ℕ) (header_epoch file_len offset : ℕ) (prev : Option ℕ)
      → is_valid_record c file header_epoch file_len offset prev ≡ true
      → record_header_len ≤ (prefix_at file offset).record_len
  unfolding is_valid_record
  valid_length file header_epoch file_len offset prev h = ground arith

  -- On any bytes, the scan of a file ends by one of its tests before its fuel runs out, if the fuel
  -- exceeds the bytes that are left; the end that it finds lies between its start and the end of
  -- the file.
  pub scan_loop_total :
      (fuel : ℕ) (file : List ℕ) (header_epoch file_len offset count last : ℕ) (prev : Option ℕ)
      → file_len < fuel + offset
      → offset ≤ file_len
      → (r : ℕ × ℕ × ℕ) × (scan_loop c fuel file header_epoch file_len offset count last prev
          ≡ some r)
        × (offset ≤ r.0)
        × (r.0 ≤ file_len)
  unfolding scan_loop
  scan_loop_total zero file header_epoch file_len offset count last prev h inside =
      absurd (omega arith)
  scan_loop_total (suc fuel) file header_epoch file_len offset count last prev h inside =
      let p = prefix_at file offset in
      elim (Bool-cases (
        leb (offset + record_header_len) file_len
        && is_valid_record c file header_epoch file_len offset prev)) [
          | inl go ↦
              let valid : is_valid_record c file header_epoch file_len offset prev ≡ true =
                ground (arith, go) in
              let long = valid_length file header_epoch file_len offset prev valid in
              let next = is_valid_record-inside file header_epoch file_len offset prev valid in
              let (r, e, low, high) =
                scan_loop_total fuel file header_epoch file_len (offset + p.record_len) (count + 1)
                  p.seq (some p.seq) (omega arith) next in
              (r, rw go e, omega arith, high)
          | inr stop ↦ ((offset, count, last), rw stop refl, omega arith, inside)
        ]
