-- ===== src/Wal.antt =====
-- crates/rekha-wal/src/lib.rs: the write-ahead log of one collection, on the bytes of its file.
pub mod Bytes
pub mod Format
pub mod Log
pub mod Scan
pub mod Recovery
pub mod Append
pub mod ReadRange
pub mod Tail
pub mod Prune
pub mod Batch
use Bytes.{to_le_bytes, le_u16, le_u32, le_u64}
use rekha.Prelude.{
  ℕ, zero, suc, ◌+◌, ◌-◌, ◌%◌, ◌^◌, ◌<◌, ◌≡◌, Bool, true, false, not, ◌&&◌, ◌||◌, Option, none,
  some, List, [], ◌∷◌, ◌++◌, length, take, drop, leb, ltb, ◌==◌, if◌then◌else◌, is_some,
}
unfoldable pub use Format.{wal_options, read_prefix, prefix_at, payload_at, write_at}
pub use Format.{
  Codec, magic, version, header_len, record_header_len, u32_max, u64_mod, WalOptions, WalRecord,
  Reason, WalError, WalResult, ◌>>=◌, Wal, Prefix, after, or_else, resume_seq, bytes_eq,
  truncated_header, bad_magic, unsupported_version, header_crc, record_too_large, out_of_bounds,
  fenced_record, non_monotonic, record_crc, corrupt, encode, fenced, ok, err,
}

module _ {Op : Type 0} (c : Codec Op) where
  unfoldable pub build_header : ℕ → List ℕ
  unfolding to_le_bytes
  build_header epoch =
      let fields = magic ++ to_le_bytes 2 version ++ to_le_bytes 8 epoch in
      fields ++ to_le_bytes 4 (c.hash fields)

  -- `read_and_verify_header`: the epoch of the file
  unfoldable pub read_and_verify_header : List ℕ → WalResult ℕ
  unfolding le_u16 le_u32 le_u64
  read_and_verify_header file =
      let hdr = take header_len file in
      if ltb (length file) header_len
      then err (corrupt truncated_header)
      else if not (bytes_eq (take 4 hdr) magic)
      then err (corrupt bad_magic)
      else if not (le_u16 (drop 4 hdr) == version)
      then err (corrupt unsupported_version)
      else if not (le_u32 (drop 14 hdr) == c.hash (take 14 hdr))
      then err (corrupt header_crc)
      else ok (le_u64 (drop 6 hdr))

  -- None of the tests of `scan` at which its loop breaks.
  unfoldable pub is_valid_record : List ℕ → ℕ → ℕ → ℕ → Option ℕ → Bool
  is_valid_record file header_epoch file_len offset prev =
      let p = prefix_at file offset in
      let payload = payload_at file offset p.record_len in
      leb record_header_len p.record_len
      && leb (offset + p.record_len) file_len
      && leb header_epoch p.epoch
      && after prev p.seq
      && c.hash payload == p.stored_crc
      && is_some (c.deserialize payload)

  -- the loop of `scan` with fuel; `none` means that the fuel ran out
  unfoldable pub scan_loop : ℕ → List ℕ → ℕ → ℕ → ℕ → ℕ → ℕ → Option ℕ → Option (ℕ × ℕ × ℕ)
  scan_loop zero file header_epoch file_len offset count last_seq prev = none
  scan_loop (suc fuel) file header_epoch file_len offset count last_seq prev =
      let p = prefix_at file offset in
      let rest =
        scan_loop fuel file header_epoch file_len (offset + p.record_len) (count + 1) p.seq
          (some p.seq) in
      if leb (offset + record_header_len) file_len
        && is_valid_record file header_epoch file_len offset prev
      then rest
      else some (offset, count, last_seq)

  -- `scan`: where the valid records end, their number, and the last seq. The fuel is enough, since
  -- a valid record takes 24 bytes (`Wal.Scan.scan_loop_total`).
  unfoldable pub scan : List ℕ → ℕ → ℕ → ℕ × ℕ × ℕ
  scan file header_epoch file_len =
      or_else (header_len, 0, 0)
        (scan_loop (suc file_len) file header_epoch file_len header_len 0 0 none)

  -- `recover`: the file without its torn tail, and the result of the scan
  unfoldable pub recover : List ℕ → ℕ → List ℕ × ℕ × ℕ × ℕ
  recover file header_epoch =
      let (valid_end, count, last_seq) = scan file header_epoch (length file) in
      (take valid_end file, valid_end, count, last_seq)

  -- Wal::open on the bytes that the file has; a file that does not exist has none.
  unfoldable pub open_wal : List ℕ → ℕ → WalOptions → WalResult Wal
  open_wal file epoch options =
      let resume = λ (last_seq : ℕ). resume_seq options.start_seq last_seq in
      if length file == 0
      then ok (record {
        file = build_header epoch;
        header_epoch = epoch;
        last_seq = resume 0;
        len = 0;
        file_len = header_len;
        options = options;
      })
      else read_and_verify_header file >>= λ header_epoch.
          let (kept, valid_len, len, last_seq) = recover file header_epoch in
          ok (record {
            file = kept;
            header_epoch = header_epoch;
            last_seq = if len == 0 then resume last_seq else last_seq;
            len = len;
            file_len = valid_len;
            options = options;
          })

  -- the bytes of a record
  unfoldable pub frame : ℕ → ℕ → List ℕ → List ℕ
  unfolding to_le_bytes
  frame seq epoch payload =
      to_le_bytes 4 (record_header_len + length payload)
      ++ to_le_bytes 4 (c.hash payload)
      ++ to_le_bytes 8 seq
      ++ to_le_bytes 8 epoch
      ++ payload

  -- Wal::append, with the payload that `bincode` made. `u64` addition wraps in a release build.
  unfoldable pub append_payload : Wal → Op → List ℕ → WalResult (Wal × WalRecord Op)
  append_payload w op payload =
      let seq = (w.last_seq + 1) % u64_mod in
      let buf = frame seq w.header_epoch payload in
      if ltb u32_max (record_header_len + length payload)
      then err (corrupt record_too_large)
      else ok (
        record w {
          file = write_at w.file w.file_len buf;
          file_len = w.file_len + length buf;
          last_seq = seq;
          len = w.len + 1;
        },
        record { seq = seq; epoch = w.header_epoch; op = op },
      )

  -- Wal::append. The fencing test compares the epoch of the file with itself.
  unfoldable pub append : Wal → Op → WalResult (Wal × WalRecord Op)
  append w op =
      if ltb w.header_epoch w.header_epoch
      then err (fenced w.header_epoch w.header_epoch)
      else elim (c.serialize op) [ none ↦ err encode | some payload ↦ append_payload w op payload ]

  -- the loop of `read_range` with fuel; `none` means that the fuel ran out
  unfoldable pub read_loop :
      ℕ
      → Wal
      → ℕ
      → ℕ
      → ℕ
      → Option ℕ
      → List (WalRecord Op)
      → Option (WalResult (List (WalRecord Op)))
  read_loop zero w from to offset prev out = none
  read_loop (suc fuel) w from to offset prev out =
      let p = prefix_at w.file offset in
      let payload = payload_at w.file offset p.record_len in
      let next = offset + p.record_len in
      let skip = read_loop fuel w from to next (some p.seq) out in
      if not (leb (offset + record_header_len) w.file_len)
      then some (ok out)
      else if not (leb record_header_len p.record_len && leb next w.file_len)
      then some (err (corrupt out_of_bounds))
      else if ltb p.epoch w.header_epoch
      then some (err (corrupt fenced_record))
      else if not (after prev p.seq)
      then some (err (corrupt non_monotonic))
      else if not (c.hash payload == p.stored_crc)
      then some (err (corrupt record_crc))
      else if not (leb from p.seq)
      then skip
      else if ltb to p.seq
      then some (ok out)
      else elim (c.deserialize payload) [
        | none ↦ some (err encode)
        | some op ↦
            read_loop fuel w from to next (some p.seq)
              (out ++ record { seq = p.seq; epoch = p.epoch; op = op } ∷ [])
      ]

  -- Wal::read_range
  unfoldable pub read_range : Wal → ℕ → ℕ → WalResult (List (WalRecord Op))
  read_range w from to =
      if ltb to from
      then ok []
      else or_else (ok []) (read_loop (suc w.file_len) w from to header_len none [])

-- the copying loop of `prune` with fuel: the bytes that it writes behind the header
unfoldable pub prune_loop : ℕ → Wal → ℕ → ℕ → List ℕ → Option (WalResult (List ℕ))
prune_loop zero w keep_from offset out = none
prune_loop (suc fuel) w keep_from offset out =
    let p = prefix_at w.file offset in
    let next = offset + p.record_len in
    let rest =
      prune_loop fuel w keep_from next
        (if ltb keep_from p.seq then out ++ take p.record_len (drop offset w.file) else out) in
    if not (leb (offset + record_header_len) w.file_len)
    then some (ok out)
    else if not (leb record_header_len p.record_len && leb next w.file_len)
    then some (err (corrupt out_of_bounds))
    else rest

module _ {Op : Type 0} (c : Codec Op) where
  -- Wal::prune: the new file takes the place of the old one only if the loop succeeds.
  unfoldable pub prune : Wal → ℕ → WalResult Wal
  prune w keep_from =
      or_else (ok []) (prune_loop (suc w.file_len) w keep_from header_len []) >>= λ kept.
      let (file, valid_len, len, last_seq) =
        recover c (build_header c w.header_epoch ++ kept) w.header_epoch in
      ok (record w { file = file; file_len = valid_len; len = len; last_seq = last_seq })
