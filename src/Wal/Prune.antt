-- ===== src/Wal/Prune.antt =====
-- `prune` on a log that holds some entries: it keeps exactly those above the watermark.
use rekha.Prelude.{
  ℕ, zero, suc, ◌+◌, ◌<◌, ◌≡◌, refl, ap, ◌∙◌, inl, inr, true, Option, none, some, List, [], ◌∷◌,
  ◌++◌, length, take, drop, leb, ltb, if◌then◌else◌, length-append, take-length_append,
  drop-length_append, arith, Bool-cases, ltb→lt,
}
use mathlib.Core.List.{append_assoc, append-nil}
use rekha.Wal.{Codec, header_len, record_header_len, Wal, ok, prune_loop, prune, build_header}
use rekha.Wal.Log.{Entry, encode_entry, encode_all, IsLog, length-frame}
use rekha.Wal.Scan.{last_of, prefix_at-frame, drop-frame}
use rekha.Wal.Recovery.{image, length-build_header, length-le-encode_all, recover-image}
use rekha.Wal.Append.{Holds, last_of-last_of}

-- The entries above a watermark.
abbrev pub above : ℕ → List Entry → List Entry
above keep_from [] = []
above keep_from (e ∷ es) =
    let rest = above keep_from es in if ltb keep_from e.seq then e ∷ rest else rest

module _ {Op : Type 0} (c : Codec Op) where
  IsLog-earlier :
      (epoch p q : ℕ) (es : List Entry)
      → p < q
      → IsLog c epoch (some q) es
      → IsLog c epoch (some p) es
  IsLog-earlier epoch p q [] h log = tt
  IsLog-earlier epoch p q (e ∷ es) h log = (log.0, log.1, ground (arith, log.2), log.3)

  IsLog-above_some :
      (epoch prev keep_from : ℕ) (es : List Entry)
      → IsLog c epoch (some prev) es
      → IsLog c epoch (some prev) (above keep_from es)
  IsLog-above_some epoch prev keep_from [] log = tt
  IsLog-above_some epoch prev keep_from (e ∷ es) log =
      let rest = IsLog-above_some epoch e.seq keep_from es log.3 in
      elim (Bool-cases (ltb keep_from e.seq)) [
        | inl keep ↦ rw keep (log.0, log.1, log.2, rest)
        | inr drop ↦
            rw drop
              (IsLog-earlier epoch prev e.seq (above keep_from es) (ltb→lt prev e.seq log.2) rest)
      ]

  IsLog-none : (epoch p : ℕ) (es : List Entry) → IsLog c epoch (some p) es → IsLog c epoch none es
  IsLog-none epoch p [] log = tt
  IsLog-none epoch p (e ∷ es) log = (log.0, log.1, refl, log.3)

  IsLog-above :
      (epoch keep_from : ℕ) (es : List Entry)
      → IsLog c epoch none es
      → IsLog c epoch none (above keep_from es)
  IsLog-above epoch keep_from [] log = tt
  IsLog-above epoch keep_from (e ∷ es) log =
      let rest = IsLog-above_some epoch e.seq keep_from es log.3 in
      elim (Bool-cases (ltb keep_from e.seq)) [
        | inl keep ↦ rw keep (log.0, log.1, refl, rest)
        | inr drop ↦ rw drop (IsLog-none epoch e.seq (above keep_from es) rest)
      ]

  prune_loop-log :
      (es : List Entry) (fuel : ℕ) (w : Wal) (keep_from offset : ℕ) (prev : Option ℕ) (out : List ℕ)
      → length es < fuel
      → drop offset w.file ≡ encode_all c es
      → w.file_len ≡ offset + length (encode_all c es)
      → IsLog c w.header_epoch prev es
      → prune_loop fuel w keep_from offset out
        ≡ some (ok (out ++ encode_all c (above keep_from es)))
  unfolding prune_loop encode_all
  prune_loop-log [] zero w keep_from offset prev out enough at size log = absurd (omega arith)
  prune_loop-log (e ∷ es) zero w keep_from offset prev out enough at size log = absurd (omega arith)
  prune_loop-log [] (suc fuel) w keep_from offset prev out enough at size log =
      rw append-nil (ground arith)
  prune_loop-log (e ∷ es) (suc fuel) w keep_from offset prev out enough at size log =
      let n = record_header_len + length e.payload in
      let f = log.0 in
      let frame_size = length-frame c e.seq e.epoch e.payload in
      let whole = length-append (encode_entry c e) (encode_all c es) in
      let p = prefix_at-frame c w.file offset e (encode_all c es) at f in
      let fits : leb (offset + record_header_len) w.file_len ≡ true =
        ground (arith, size, whole, frame_size) in
      let inside : leb (offset + n) w.file_len ≡ true = ground (arith, size, whole, frame_size) in
      let long : leb record_header_len n ≡ true = ground arith in
      let copied : take n (drop offset w.file) ≡ encode_entry c e =
        rw (at, ← frame_size) (take-length_append (encode_entry c e) (encode_all c es)) in
      let ih = λ (out' : List ℕ).
        prune_loop-log es fuel w keep_from (offset + n) (some e.seq) out' (omega arith)
          (drop-frame c w.file offset e (encode_all c es) at)
          (omega (arith, size, whole, frame_size)) log.3 in
      elim (Bool-cases (ltb keep_from e.seq)) [
        | inl keep ↦
            rw (fits, p, inside, long, keep, copied)
              (ih (out ++ encode_entry c e)
                ∙ ap (λ l. some (ok l))
                    (append_assoc out (encode_entry c e) (encode_all c (above keep_from es))))
        | inr drop ↦ rw (fits, p, inside, long, drop) (ih out)
      ]

  -- The log after a prune: with no entry left, `last_seq` is 0.
  abbrev pub pruned : Wal → ℕ → List Entry → Wal
  pruned w keep_from es = record w {
    file = image c w.header_epoch (above keep_from es);
    last_seq = last_of 0 (above keep_from es);
    len = length (above keep_from es);
    file_len = header_len + length (encode_all c (above keep_from es));
  }

  -- Pruning a log that holds some entries rewrites its file to exactly those above the watermark,
  -- in their order, and the state of the log agrees with the new file.
  pub prune-Holds :
      (w : Wal) (es : List Entry) (keep_from : ℕ)
      → Holds c w es
      → (prune c w keep_from ≡ ok (pruned w keep_from es))
        × Holds c (pruned w keep_from es) (above keep_from es)
  unfolding prune
  prune-Holds w es keep_from h =
      let kept = above keep_from es in
      let start : drop header_len w.file ≡ encode_all c es =
        ap (drop header_len) h.file
        ∙ rw (← length-build_header c w.header_epoch)
            (drop-length_append (build_header c w.header_epoch) (encode_all c es)) in
      let enough : length es < suc w.file_len =
        omega (arith, h.file_len, length-le-encode_all c es) in
      let loop =
        prune_loop-log es (suc w.file_len) w keep_from header_len none [] enough start h.file_len
          h.log in
      let log = IsLog-above w.header_epoch keep_from es h.log in
      let recovered = recover-image c w.header_epoch kept [] log (inl (omega arith)) in
      (
        rw (loop, rw append-nil at recovered) refl,
        record {
          file = refl;
          file_len = refl;
          len = refl;
          last = last_of-last_of 0 kept;
          log = log;
          epoch_fits = h.epoch_fits;
        },
      )
