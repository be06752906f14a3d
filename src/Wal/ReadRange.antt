-- ===== src/Wal/ReadRange.antt =====
-- `read_range` on a log that holds some entries: exactly the records of the range, in order.
use rekha.Prelude.{
  ℕ, zero, suc, ◌+◌, ◌<◌, ◌≡◌, refl, sym, ap, ◌∙◌, inl, inr, true, false, ◌&&◌, Option, none, some,
  List, [], ◌∷◌, ◌++◌, length, drop, leb, ltb, ◌==◌, if◌then◌else◌, length-append,
  drop-length_append, arith, Bool-cases, Option-cases, ltb→lt,
}
use mathlib.Core.List.{append_assoc, append-nil}
use rekha.Wal.{
  Codec, header_len, record_header_len, Wal, WalRecord, ok, read_loop, read_range, build_header,
}
use rekha.Wal.Log.{Entry, encode_entry, encode_all, IsLog, length-frame}
use rekha.Wal.Scan.{prefix_at-frame, payload_at-frame, drop-frame}
use rekha.Wal.Recovery.{length-build_header, length-le-encode_all}
use rekha.Wal.Append.{Holds}

module _ {Op : Type 0} (c : Codec Op) where
  -- The records of the entries with a seq in `[from, to]`.
  abbrev pub records_between : ℕ → ℕ → List Entry → List (WalRecord Op)
  records_between from to [] = []
  records_between from to (e ∷ es) =
      let rest = records_between from to es in
      if leb from e.seq && leb e.seq to
      then elim (c.deserialize e.payload) [
        | none ↦ rest
        | some op ↦ record { seq = e.seq; epoch = e.epoch; op = op } ∷ rest
      ]
      else rest

  pub records_between-beyond :
      (epoch prev from to : ℕ) (es : List Entry)
      → IsLog c epoch (some prev) es
      → to < prev
      → records_between from to es ≡ []
  records_between-beyond epoch prev from to [] log h = refl
  records_between-beyond epoch prev from to (e ∷ es) log h =
      ground (arith, records_between-beyond epoch e.seq from to es log.3, log.2)

  pub records_between-empty :
      (from to : ℕ) (es : List Entry) → ltb to from ≡ true → records_between from to es ≡ []
  records_between-empty from to [] h = refl
  records_between-empty from to (e ∷ es) h = ground (arith, records_between-empty from to es h)

  read_loop-log :
      (es : List Entry) (fuel : ℕ) (w : Wal) (from to offset : ℕ) (prev : Option ℕ)
      (out : List (WalRecord Op))
      → length es < fuel
      → drop offset w.file ≡ encode_all c es
      → w.file_len ≡ offset + length (encode_all c es)
      → IsLog c w.header_epoch prev es
      → read_loop c fuel w from to offset prev out ≡ some (ok (out ++ records_between from to es))
  unfolding read_loop encode_all
  read_loop-log [] zero w from to offset prev out enough at size log = absurd (omega arith)
  read_loop-log (e ∷ es) zero w from to offset prev out enough at size log = absurd (omega arith)
  read_loop-log [] (suc fuel) w from to offset prev out enough at size log =
      rw append-nil (ground arith)
  read_loop-log (e ∷ es) (suc fuel) w from to offset prev out enough at size log =
      let n = record_header_len + length e.payload in
      let f = log.0 in
      let frame_size = length-frame c e.seq e.epoch e.payload in
      let whole = length-append (encode_entry c e) (encode_all c es) in
      let p = prefix_at-frame c w.file offset e (encode_all c es) at f in
      let q = payload_at-frame c w.file offset e (encode_all c es) at in
      let fits : leb (offset + record_header_len) w.file_len ≡ true =
        ground (arith, size, whole, frame_size) in
      let inside : leb (offset + n) w.file_len ≡ true = ground (arith, size, whole, frame_size) in
      let ih = λ (out' : List (WalRecord Op)).
        read_loop-log es fuel w from to (offset + n) (some e.seq) out' (omega arith)
          (drop-frame c w.file offset e (encode_all c es) at)
          (omega (arith, size, whole, frame_size)) log.3 in
      elim (Option-cases (c.deserialize e.payload)) [
        | inl bad ↦ absurd (ground (arith, f.decodes, bad))
        | inr (op, good) ↦
            let r : WalRecord Op = record { seq = e.seq; epoch = e.epoch; op = op } in
            let rest = records_between from to es in
            let long : leb record_header_len n ≡ true = ground arith in
            let fresh : ltb e.epoch w.header_epoch ≡ false = ground (arith, log.1) in
            let crc : (c.hash e.payload == c.hash e.payload) ≡ true = ground arith in
            let grow = append_assoc out (r ∷ []) rest in
            rw (fits, p, q, inside, long, fresh, log.2, crc, good)
              (elim (Bool-cases (leb from e.seq)) [
                | inl ge ↦ elim (Bool-cases (ltb to e.seq)) [
                  | inl past ↦
                      let none_left : rest ≡ [] =
                        records_between-beyond w.header_epoch e.seq from to es log.3
                          (ltb→lt to e.seq past) in
                      let over : leb e.seq to ≡ false = ground (arith, past) in
                      rw (ge, past, over, none_left) (ap (λ l. some (ok l)) (sym (append-nil out)))
                  | inr le ↦
                      let within : leb e.seq to ≡ true = ground (arith, le) in
                      rw (ge, le, within, p) (ih (out ++ r ∷ []) ∙ ap (λ l. some (ok l)) grow)
                ]
                | inr early ↦ rw early (ih out)
              ])
      ]

  -- Reading a range of a log that holds some entries gives exactly the records whose seq lies in
  -- the range, in the order of the log.
  pub read_range-Holds :
      (w : Wal) (es : List Entry) (from to : ℕ)
      → Holds c w es
      → read_range c w from to ≡ ok (records_between from to es)
  unfolding read_range
  read_range-Holds w es from to h =
      let start : drop header_len w.file ≡ encode_all c es =
        ap (drop header_len) h.file
        ∙ rw (← length-build_header c w.header_epoch)
            (drop-length_append (build_header c w.header_epoch) (encode_all c es)) in
      let enough : length es < suc w.file_len =
        omega (arith, h.file_len, length-le-encode_all c es) in
      elim (Bool-cases (ltb to from)) [
        | inl none_left ↦ rw none_left (ap ok (sym (records_between-empty from to es none_left)))
        | inr range ↦
            rw
              (
                range,
                read_loop-log es (suc w.file_len) w from to header_len none [] enough start
                    h.file_len h.log,
              )
              refl
      ]
