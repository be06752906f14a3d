-- ===== src/Wal/Tail.antt =====
-- The records of a log behind a watermark: those that a prune keeps, and a replay reads.
use rekha.Prelude.{
  ℕ, ◌+◌, ◌≡◌, refl, ap, true, false, Option, some, List, [], ◌∷◌, ◌++◌, leb, ltb, Bool-cases,
  Option-cases, inl, inr, arith,
}
use rekha.Wal.{Codec, Wal, WalRecord}
use rekha.Wal.Log.{Entry, IsLog}
use rekha.Wal.Prune.{above}
use rekha.Wal.ReadRange.{records_between, records_between-beyond}
use rekha.Wal.Batch.{AllWithin}

module _ {Op : Type 0} (c : Codec Op) where
  -- the records of a log behind a watermark
  abbrev pub tail_records : ℕ → Wal → List Entry → List (WalRecord Op)
  tail_records m w es = records_between c (m + 1) w.last_seq es

  -- A log is its records up to a watermark, and then those behind it.
  pub records_between-split :
      (epoch m last : ℕ) (prev : Option ℕ) (es : List Entry)
      → IsLog c epoch prev es
      → AllWithin last es
      → records_between c 1 last es ≡ records_between c 1 m es ++ records_between c (m + 1) last es
  records_between-split epoch m last prev [] log within = refl
  records_between-split epoch m last prev (e ∷ es) log within =
      let ih = records_between-split epoch m last (some e.seq) es log.3 within.1 in
      let beyond = records_between-beyond c epoch e.seq 1 m es log.3 in
      let inside : leb e.seq last ≡ true = ground (arith, within.0) in
      elim (Bool-cases (leb e.seq m)) [
        | inl early ↦
            let out : leb (m + 1) e.seq ≡ false = ground (arith, early) in
            elim (Option-cases (c.deserialize e.payload)) [
              | inl bad ↦ rw (inside, early, out, bad) (ground (arith, ih))
              | inr (op, good) ↦ rw (inside, early, out, good) (ground (arith, ih))
            ]
        | inr late ↦
            let in_tail : leb (m + 1) e.seq ≡ true = ground (arith, late) in
            let positive : leb 1 e.seq ≡ true = ground (arith, late) in
            let none_before : records_between c 1 m es ≡ [] = beyond (ground (arith, late)) in
            let ih' : records_between c 1 last es ≡ records_between c (m + 1) last es =
              rw none_before at ih in
            elim (Option-cases (c.deserialize e.payload)) [
              | inl bad ↦ rw (inside, late, in_tail, positive, none_before, bad) ih'
              | inr (op, good) ↦
                  rw (inside, late, in_tail, positive, none_before, good)
                    (ap (λ l. record { seq = e.seq; epoch = e.epoch; op = op } ∷ l) ih')
            ]
      ]

  -- A prune keeps the records behind its watermark.
  pub records_between-above :
      (m last last' : ℕ) (es : List Entry)
      → AllWithin last es
      → AllWithin last' (above m es)
      → records_between c (m + 1) last es ≡ records_between c (m + 1) last' (above m es)
  records_between-above m last last' [] within within' = refl
  records_between-above m last last' (e ∷ es) within within' = elim (Bool-cases (ltb m e.seq)) [
    | inl kept ↦
        let w' : AllWithin last' (e ∷ above m es) = rw kept at within' in
        let ih = records_between-above m last last' es within.1 w'.1 in
        let below : leb e.seq last ≡ true = ground (arith, within.0) in
        let below' : leb e.seq last' ≡ true = ground (arith, w'.0) in
        let in_tail : leb (m + 1) e.seq ≡ true = ground (arith, kept) in
        elim (Option-cases (c.deserialize e.payload)) [
          | inl bad ↦ rw (kept, in_tail, below, below', bad) ih
          | inr (op, good) ↦
              rw (kept, in_tail, below, below', good)
                (ap (λ l. record { seq = e.seq; epoch = e.epoch; op = op } ∷ l) ih)
        ]
    | inr dropped ↦
        let ih = records_between-above m last last' es within.1 (rw dropped at within') in
        let out : leb (m + 1) e.seq ≡ false = ground (arith, dropped) in rw (dropped, out) ih
  ]
