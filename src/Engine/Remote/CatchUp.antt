-- ===== src/Engine/Remote/CatchUp.antt =====
-- A follower that applies what the leader ships has the collection of the leader.
use rekha.Prelude.{
  ℕ, ◌+◌, ◌≤◌, ◌≡◌, refl, sym, ap, ◌∙◌, String, Bool, true, false, ◌&&◌, Option, none, some, List,
  [], ◌∷◌, ◌++◌, leb, ltb, inl, inr, Bool-cases, Option-cases, if◌then◌else◌, eq_refl, arith,
}
use rekha.Prelude.Dict.{string_eqv, get, get-insert}
use rekha.Core.Types.{Floats}
use rekha.Core.Op.{Operation}
use rekha.Wal.{Codec, WalRecord}
use rekha.Wal.Log.{Entry, IsLog}
use rekha.Wal.Append.{Holds}
use rekha.Wal.ReadRange.{
  records_between, records_between-beyond, records_between-empty, read_range-Holds,
}
use rekha.Cluster.Replication.{
  WalDelta, WalDeltaRecord, delta_records, delta_records-cons, from_wal_records,
  from_wal_records-records, Positions, mark_applied,
}
use rekha.Engine.Bitmap.{Bitmap}
use rekha.Engine.ValueKey.{OrderedFloats}
use rekha.Engine.Base.{Index, EngineResult, ok, err}
use rekha.Engine.Collection.{Collection, apply_operation}
use rekha.Engine.Collection.Core.{SameCore, SameCore-trans, SameCore-sym}
use rekha.Engine.Durable.{Durable, new_collection}
use rekha.Engine.Durable.Replay.{run, run-append, run-SameCore}
use rekha.Engine.Durable.Recover.{Replayable}
use rekha.Engine.Remote.{wal_delta, apply_remote_ops, follow_entry, follow}

module _ {Op : Type 0} (c : Codec Op) where
  -- An entry in front of records, if it is in the range and can be read.
  kept : Bool → Entry → List (WalRecord Op) → List (WalRecord Op)
  kept inside e rest =
      if inside
      then elim (c.deserialize e.payload) [
        | none ↦ rest
        | some op ↦ record { seq = e.seq; epoch = e.epoch; op = op } ∷ rest
      ]
      else rest

  records_between-kept :
      (from to : ℕ) (e : Entry) (es : List Entry)
      → records_between c from to (e ∷ es)
        ≡ kept (leb from e.seq && leb e.seq to) e (records_between c from to es)
  unfolding kept
  records_between-kept from to e es = refl

  kept-append :
      (inside : Bool) (e : Entry) (xs ys : List (WalRecord Op))
      → kept inside e (xs ++ ys) ≡ kept inside e xs ++ ys
  unfolding kept
  kept-append false e xs ys = refl
  kept-append true e xs ys = elim (Option-cases (c.deserialize e.payload)) [
    | inl none_read ↦ rw none_read refl
    | inr (op, read) ↦ rw read refl
  ]

  kept-false : (e : Entry) (xs : List (WalRecord Op)) → kept false e xs ≡ xs
  unfolding kept
  kept-false e xs = refl

  -- A range of a log falls into the part up to a seq and the part after it.
  records_between-split :
      (epoch : ℕ) (prev : Option ℕ) (from mid to : ℕ) (es : List Entry)
      → mid ≤ to
      → from ≤ mid + 1
      → IsLog c epoch prev es
      → records_between c from to es
        ≡ records_between c from mid es ++ records_between c (mid + 1) to es
  records_between-split epoch prev from mid to [] h k log = refl
  records_between-split epoch prev from mid to (e ∷ es) h k log =
      let ih = records_between-split epoch (some e.seq) from mid to es h k log.3 in
      let whole = records_between-kept from to e es in
      let first = records_between-kept from mid e es in
      let second = records_between-kept (mid + 1) to e es in
      let front = records_between c from mid es in
      let back = records_between c (mid + 1) to es in
      elim (Bool-cases (leb e.seq mid)) [
        | inl t ↦
            let in_first : (leb from e.seq && leb e.seq to) ≡ (leb from e.seq && leb e.seq mid) =
              ground arith in
            let not_second : (leb (mid + 1) e.seq && leb e.seq to) ≡ false = ground arith in
            let second' = second ∙ (ap (λ b. kept b e back) not_second ∙ kept-false e back) in
            whole
            ∙ (ap (λ b. kept b e (records_between c from to es)) in_first
                ∙ (ap (kept (leb from e.seq && leb e.seq mid) e) ih
                    ∙ (kept-append (leb from e.seq && leb e.seq mid) e front back
                        ∙ sym (
                            ap (λ l. l ++ records_between c (mid + 1) to (e ∷ es)) first
                            ∙ ap (λ l. kept (leb from e.seq && leb e.seq mid) e front ++ l)
                                second'))))
        | inr f ↦
            let gone = records_between-beyond c epoch e.seq from mid es log.3 (ground arith) in
            let not_first : (leb from e.seq && leb e.seq mid) ≡ false = ground arith in
            let in_second : (leb from e.seq && leb e.seq to)
                ≡ (leb (mid + 1) e.seq && leb e.seq to) =
              ground arith in
            let first' =
              first ∙ (ap (λ b. kept b e front) not_first ∙ (kept-false e front ∙ gone)) in
            let rest : records_between c from to es ≡ back = ih ∙ ap (λ l. l ++ back) gone in
            whole
            ∙ (ap (λ b. kept b e (records_between c from to es)) in_second
                ∙ (ap (kept (leb (mid + 1) e.seq && leb e.seq to) e) rest
                    ∙ (sym second
                        ∙ sym (ap (λ l. l ++ records_between c (mid + 1) to (e ∷ es)) first'))))
      ]

-- The seq of the last record, or the given one.
abbrev pub last_seq_of : {Op : Type 0} → Option ℕ → List (WalRecord Op) → Option ℕ
last_seq_of p [] = p
last_seq_of p (r ∷ rs) = last_seq_of (some r.seq) rs

module _ {F V B I : Type 0} ⦃fl : Floats F⦄ ⦃of : OrderedFloats fl⦄ ⦃bm : Bitmap B⦄
    ⦃ix : Index I V⦄ where
  -- The state after one operation does not depend on whether it failed.
  remote_one :
      (f : Collection F V B I) (op : Operation F V) (seq : ℕ) (result : EngineResult (Unit {0}))
      → (apply_operation f op seq).1 ≡ result
      → (apply_remote_ops f ((seq, op) ∷ [])).0 ≡ (apply_operation f op seq).0
  unfolding apply_remote_ops
  remote_one f op seq (err e) h = rw (h, apply_remote_ops) refl
  remote_one f op seq (ok u) h = rw (h, apply_remote_ops) refl

  module _ (c : Codec (Operation F V)) where
    follow_entry-applied :
        (f : Collection F V B I) (r : WalRecord (Operation F V)) (payload : List ℕ)
        → c.deserialize payload ≡ some r.op
        → follow_entry c f (record { seq = r.seq; epoch = r.epoch; payload = payload })
          ≡ (apply_operation f r.op r.seq).0
    unfolding follow_entry
    follow_entry-applied f r payload read =
        rw (read, follow_entry) (remote_one f r.op r.seq (apply_operation f r.op r.seq).1 refl)

    -- The follower runs through the records that were sent, and its position is the last of them.
    follow-run :
        (f : Collection F V B I) (positions : Positions) (id : String)
        (recs : List (WalRecord (Operation F V))) (deltas : List WalDeltaRecord)
        → delta_records c recs ≡ some deltas
        → ((follow c f positions id deltas).0 ≡ run f recs)
          × (get (follow c f positions id deltas).1 id ≡ last_seq_of (get positions id) recs)
    unfolding follow delta_records mark_applied
    follow-run f positions id [] deltas h =
        let empty : deltas ≡ [] = ground arith in rw empty (refl, refl)
    follow-run f positions id (r ∷ rs) deltas h =
        let (payload, rest, read, more, split) = delta_records-cons c r rs deltas h in
        let entry : WalDeltaRecord = record { seq = r.seq; epoch = r.epoch; payload = payload } in
        let (same, position) =
          follow-run (follow_entry c f entry) (mark_applied positions id r.seq) id rs rest more in
        rw split (
          same ∙ ap (λ g. run g rs) (follow_entry-applied f r payload read),
          position
              ∙ ap (λ p. last_seq_of p rs)
                  (get-insert positions id id r.seq ∙ rw (eq_refl id) refl),
        )

    -- What the leader sends of a log that holds entries, if nothing panics.
    wal_delta-records :
        (s : Durable F V B I) (es : List Entry) (from : ℕ) (delta : WalDelta)
        → Holds c s.wal es
        → wal_delta c s from ≡ ok (some delta)
        → delta_records c (records_between c from s.wal.last_seq es) ≡ some delta.records
    unfolding wal_delta from_wal_records delta_records
    wal_delta-records s es from delta h sent = elim (Bool-cases (ltb s.wal.last_seq from)) [
      | inl beyond ↦
          rw (records_between-empty c from s.wal.last_seq es beyond)
            (ground (arith, rw beyond at sent))
      | inr within ↦
          let read = read_range-Holds c s.wal es from s.wal.last_seq h in
          let records = records_between c from s.wal.last_seq es in
          from_wal_records-records c 0 s.wal.last_seq records delta
            (ground (arith, rw (within, read, wal_delta) at sent))
    ]

    -- A follower that has applied the leader's log up to some seq, and applies what the leader
    -- sends from the next seq on, has the records, the offsets and the postings of the leader, if
    -- the leader's log, replayed from the start, gives its own.
    pub follow-SameCore :
        (s : Durable F V B I) (f : Collection F V B I) (positions : Positions) (id : String)
        (pos : ℕ) (delta : WalDelta)
        → (r : Replayable c s)
        → SameCore
            (run (new_collection s.coll.config s.coll.index) (records_between c 1 pos r.entries))
            f
        → pos ≤ s.wal.last_seq
        → wal_delta c s (pos + 1) ≡ ok (some delta)
        → SameCore (follow c f positions id delta.records).0 s.coll
    follow-SameCore s f positions id pos delta r so_far behind sent =
        let es = r.entries in
        let tail = records_between c (pos + 1) s.wal.last_seq es in
        let start : Collection F V B I = new_collection s.coll.config s.coll.index in
        let whole =
          records_between-split c s.wal.header_epoch none 1 pos s.wal.last_seq es behind
            (omega arith) r.holds.log in
        let (applied, _) =
          follow-run f positions id tail delta.records
            (wal_delta-records s es (pos + 1) delta r.holds sent) in
        let same =
          run-SameCore f (run start (records_between c 1 pos es)) tail (SameCore-sym so_far) in
        rw applied (
          SameCore-trans same (
            rw (sym (run-append start (records_between c 1 pos es) tail), sym whole)
              (r.replays s.coll.config s.coll.index)))
