-- ===== src/Wal/Recovery.antt =====
-- Opening a log file: the header, the records, and the torn tail of a crash.
use rekha.Prelude.{
  ℕ, suc, ◌+◌, ◌<◌, ◌≤◌, ◌≡◌, refl, sym, ap, ◌∙◌, inl, inr, false, none, List, [], ◌∷◌, ◌++◌,
  length, take, drop, ltb, ◌==◌, if◌then◌else◌, length-append, take-length_append,
  drop-length_append, length-take, take-take, arith, Bool-cases,
}
use mathlib.Core.List.{append_assoc, append-nil}
use rekha.Wal.Bytes.{to_le_bytes, from-to_le_bytes}
use rekha.Wal.{
  Codec, header_len, record_header_len, u64_mod, WalOptions, Wal, ok, magic, version, build_header,
  read_and_verify_header, scan, recover, open_wal, resume_seq, or_else, Prefix, read_prefix,
}
use rekha.Wal.Log.{Entry, encode_entry, encode_all, Fits, IsLog, length-frame, prefix-frame}
use rekha.Wal.Scan.{Torn, last_of, scan_loop-log}

module _ {Op : Type 0} (c : Codec Op) where
  pub length-build_header : (epoch : ℕ) → length (build_header c epoch) ≡ header_len
  unfolding build_header
  length-build_header epoch = refl

  -- The header that a new file is stamped with is accepted, whatever follows it, and gives back the
  -- epoch, which must fit 64 bits.
  pub read-build_header :
      (epoch : ℕ) (rest : List ℕ)
      → epoch < u64_mod
      → read_and_verify_header c (build_header c epoch ++ rest) ≡ ok epoch
  unfolding read_and_verify_header build_header
  read-build_header epoch rest h =
      let fields = magic ++ to_le_bytes 2 version ++ to_le_bytes 8 epoch in
      let crc = from-to_le_bytes 4 (c.hash fields) (c.hash-lt fields) in
      let long : ltb (length (build_header c epoch ++ rest)) header_len ≡ false = ground arith in
      rw (long, crc, from-to_le_bytes 8 epoch h) (ground arith)

  -- the bytes of a log file
  abbrev pub image : ℕ → List Entry → List ℕ
  image epoch es = build_header c epoch ++ encode_all c es

  pub length-image :
      (epoch : ℕ) (es : List Entry)
      → length (image epoch es) ≡ header_len + length (encode_all c es)
  length-image epoch es =
      omega
        (arith, length-append (build_header c epoch) (encode_all c es), length-build_header epoch)

  pub length-le-encode_all : (es : List Entry) → length es ≤ length (encode_all c es)
  unfolding encode_all
  length-le-encode_all [] = omega arith
  length-le-encode_all (e ∷ es) = omega (
    arith,
    length-le-encode_all es,
    length-append (encode_entry c e) (encode_all c es),
    length-frame c e.seq e.epoch e.payload,
  )

  scan-image :
      (epoch : ℕ) (es : List Entry) (tail : List ℕ)
      → IsLog c epoch none es
      → Torn tail
      → scan c (image epoch es ++ tail) epoch (length (image epoch es ++ tail))
        ≡ (header_len + length (encode_all c es), length es, last_of 0 es)
  unfolding scan
  scan-image epoch es tail log torn =
      let file = image epoch es ++ tail in
      let split : file ≡ build_header c epoch ++ (encode_all c es ++ tail) =
        append_assoc (build_header c epoch) (encode_all c es) tail in
      let header = length-build_header epoch in
      let size = length-append (image epoch es) tail in
      let start : drop header_len file ≡ encode_all c es ++ tail =
        ap (drop header_len) split
        ∙ rw (← header) (drop-length_append (build_header c epoch) (encode_all c es ++ tail)) in
      ap (or_else (header_len, 0, 0)) (
        scan_loop-log c es (suc (length file)) file epoch header_len 0 0 none tail
          (omega (arith, size, length-image epoch es, length-le-encode_all es)) start
          (omega (arith, size, length-image epoch es, length-append (encode_all c es) tail)) log
          torn)
      ∙ ground arith

  pub recover-image :
      (epoch : ℕ) (es : List Entry) (tail : List ℕ)
      → IsLog c epoch none es
      → Torn tail
      → recover c (image epoch es ++ tail) epoch
        ≡ (image epoch es, header_len + length (encode_all c es), length es, last_of 0 es)
  unfolding recover
  recover-image epoch es tail log torn = rw (scan-image epoch es tail log torn) (
      ap (λ (f : List ℕ). (f, header_len + length (encode_all c es), length es, last_of 0 es))
        (rw (← length-image epoch es) (take-length_append (image epoch es) tail)))

  -- The state of a log that was opened on `es`.
  abbrev pub opened : ℕ → List Entry → WalOptions → Wal
  opened epoch es options = record {
    file = image epoch es;
    header_epoch = epoch;
    last_seq = if length es == 0 then resume_seq options.start_seq (last_of 0 es) else last_of 0 es;
    len = length es;
    file_len = header_len + length (encode_all c es);
    options = options;
  }

  -- Opening a file that holds the header, the frames of a log and a torn tail succeeds, recovers
  -- the whole log and truncates the tail. The epoch must fit 64 bits.
  pub open_wal-image :
      (epoch epoch' : ℕ) (es : List Entry) (tail : List ℕ) (options : WalOptions)
      → epoch < u64_mod
      → IsLog c epoch none es
      → Torn tail
      → open_wal c (image epoch es ++ tail) epoch' options ≡ ok (opened epoch es options)
  unfolding open_wal
  open_wal-image epoch epoch' es tail options small log torn =
      let size = length-append (image epoch es) tail in
      let nonempty : length (image epoch es ++ tail) == 0 ≡ false =
        ground (arith, size, length-image epoch es) in
      let header : read_and_verify_header c (image epoch es ++ tail) ≡ ok epoch =
        rw (append_assoc (build_header c epoch) (encode_all c es) tail)
          (read-build_header epoch (encode_all c es ++ tail) small) in
      rw (nonempty, header, recover-image epoch es tail log torn) refl

  -- The prefix of a frame is read from any 24 bytes or more of it.
  prefix_take :
      (e : Entry) (n : ℕ)
      → Fits c e
      → record_header_len ≤ n
      → (read_prefix (take record_header_len (take n (encode_entry c e)))).record_len
        ≡ record_header_len + length e.payload
  prefix_take e n f h =
      ap (λ (p : Prefix). p.record_len)
        (ap read_prefix (
            take-take record_header_len n (encode_entry c e) h
            ∙ ap (take record_header_len) (sym (append-nil (encode_entry c e))))
          ∙ prefix-frame c e [] f)

  take-Torn :
      (e : Entry) (n : ℕ)
      → Fits c e
      → n < length (encode_entry c e)
      → Torn (take n (encode_entry c e))
  take-Torn e n f h = elim (Bool-cases (ltb n record_header_len)) [
    | inl short ↦ inl (ground (arith, length-take n (encode_entry c e)))
    | inr long ↦
        let p = prefix_take e n f (ground (arith, long)) in
        inr (
          rw p (
            omega
              (arith, length-take n (encode_entry c e), length-frame c e.seq e.epoch e.payload, h)))
  ]

  -- A crash in the middle of an append: of the frame of a next entry that fits, only the first n
  -- bytes were written, fewer than all. Opening the file recovers the log as it was before the
  -- append.
  pub open_wal-crash :
      (epoch epoch' : ℕ) (es : List Entry) (e : Entry) (n : ℕ) (options : WalOptions)
      → epoch < u64_mod
      → IsLog c epoch none es
      → Fits c e
      → n < length (encode_entry c e)
      → open_wal c (image epoch es ++ take n (encode_entry c e)) epoch' options
        ≡ ok (opened epoch es options)
  open_wal-crash epoch epoch' es e n options small log f h =
      open_wal-image epoch epoch' es (take n (encode_entry c e)) options small log
        (take-Torn e n f h)
