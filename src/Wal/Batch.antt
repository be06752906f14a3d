-- ===== src/Wal/Batch.antt =====
-- Appending a batch of operations, as `write_ops` of crates/rekha-engine/src/collection.rs does, and
-- reading the whole log afterwards.
use rekha.Prelude.{
  ℕ, ◌+◌, ◌≤◌, ◌≡◌, refl, true, Option, none, some, List, [], ◌∷◌, ◌++◌, length, leb, arith, ltb→lt,
}
use rekha.Wal.{Codec, record_header_len, u32_max, Wal, WalRecord}
use rekha.Wal.Log.{Entry, IsLog}
use rekha.Wal.Scan.{last_of}
use rekha.Wal.Append.{Holds, next_entry, appended}
use rekha.Wal.ReadRange.{records_between}

-- No seq is above the bound.
abbrev pub AllWithin : ℕ → List Entry → Type 0
AllWithin last [] = Unit
AllWithin last (e ∷ es) = (e.seq ≤ last) × AllWithin last es

module _ {Op : Type 0} (c : Codec Op) where
  first-le : (epoch p : ℕ) (es : List Entry) → IsLog c epoch (some p) es → p ≤ last_of p es
  first-le epoch p [] log = omega arith
  first-le epoch p (e ∷ es) log = omega (arith, ltb→lt p e.seq log.2, first-le epoch e.seq es log.3)

  pub IsLog-AllWithin :
      (epoch last : ℕ) (prev : Option ℕ) (es : List Entry)
      → IsLog c epoch prev es
      → last_of last es ≤ last
      → AllWithin last es
  IsLog-AllWithin epoch last prev [] log h = tt
  IsLog-AllWithin epoch last prev (e ∷ []) log h = (h, tt)
  IsLog-AllWithin epoch last prev (e ∷ f ∷ es) log h = (
    omega (arith, first-le epoch e.seq (f ∷ es) log.3, h),
    IsLog-AllWithin epoch last (some e.seq) (f ∷ es) log.3 h,
  )

  records_between-append :
      (last : ℕ) (es : List Entry) (e : Entry) (op : Op)
      → AllWithin last es
      → e.seq ≡ last + 1
      → c.deserialize e.payload ≡ some op
      → records_between c 1 (last + 1) (es ++ e ∷ [])
        ≡ records_between c 1 last es ++ record { seq = e.seq; epoch = e.epoch; op = op } ∷ []
  records_between-append last [] e op within at decoded =
      let ge : leb 1 e.seq ≡ true = ground arith in
      let le : leb e.seq (last + 1) ≡ true = ground arith in rw (ge, le, decoded) refl
  records_between-append last (d ∷ es) e op within at decoded =
      let ih = records_between-append last es e op within.1 at decoded in
      let wide : leb d.seq (last + 1) ≡ true = ground (arith, within.0) in
      let narrow : leb d.seq last ≡ true = ground (arith, within.0) in
      rw (wide, narrow, ih) (ground arith)

  -- The operation has a payload, and it is short enough for a frame.
  abbrev pub IsWritable : Op → Type 0
  IsWritable op =
      (payload : List ℕ) × (c.serialize op ≡ some payload)
      × (record_header_len + length payload ≤ u32_max)

  abbrev pub AreWritable : List Op → Type 0
  AreWritable [] = Unit
  AreWritable (op ∷ ops) = IsWritable op × AreWritable ops

  -- Every record that the log holds.
  abbrev pub all_records : Wal → List Entry → List (WalRecord Op)
  all_records w es = records_between c 1 w.last_seq es

  pub all_records-append :
      (w : Wal) (es : List Entry) (op : Op) (payload : List ℕ)
      → Holds c w es
      → c.serialize op ≡ some payload
      → all_records (appended c w payload) (es ++ next_entry c w payload ∷ [])
        ≡ all_records w es ++ record { seq = w.last_seq + 1; epoch = w.header_epoch; op = op } ∷ []
  all_records-append w es op payload h bytes =
      records_between-append w.last_seq es (next_entry c w payload) op
        (IsLog-AllWithin w.header_epoch w.last_seq none es h.log (omega (arith, h.last))) refl
        (c.deserialize-serialize op payload bytes)
