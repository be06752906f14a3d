-- ===== src/Cluster/Replication.antt =====
-- Shipping of the log: `WalDelta` of crates/rekha-cluster/src/cluster.rs and `WalReplication` of
-- crates/rekha-cluster/src/replication.rs. A request to the leader is a function of the attempt.
use rekha.Prelude.{
  ℕ, zero, suc, ◌+◌, ◌-◌, ◌*◌, ◌%◌, ◌^◌, ◌<◌, ◌≤◌, ◌≡◌, refl, ap, ◌∙◌, String, true, Option, none,
  some, List, [], ◌∷◌, map, ltb, if◌then◌else◌, inl, inr, Option-cases, arith,
}
use rekha.Prelude.Dict
use rekha.Prelude.Dict.{Dict, string_eqv, get, get-insert}
use rekha.Wal.{Codec, WalRecord}

-- WalDeltaRecord
pub record WalDeltaRecord : Type 0 where
  pub seq : ℕ
  pub epoch : ℕ
  pub payload : List ℕ

-- WalDelta
pub record WalDelta : Type 0 where
  pub leader_node : ℕ
  pub records : List WalDeltaRecord
  pub target_seq : ℕ

module _ {Op : Type 0} (c : Codec Op) where
  -- the map of `from_wal_records`; `none` where its `expect` panics
  unfoldable pub delta_records : List (WalRecord Op) → Option (List WalDeltaRecord)
  delta_records [] = some []
  delta_records (r ∷ rs) = elim (c.serialize r.op) [
    | none ↦ none
    | some payload ↦ elim (delta_records rs) [
      | none ↦ none
      | some rest ↦ some (record { seq = r.seq; epoch = r.epoch; payload = payload } ∷ rest)
    ]
  ]

  -- WalDelta::from_wal_records
  unfoldable pub from_wal_records : ℕ → List (WalRecord Op) → ℕ → Option WalDelta
  unfolding delta_records
  from_wal_records leader_node records target_seq = elim (delta_records records) [
    | none ↦ none
    | some deltas ↦
        some (record { leader_node = leader_node; records = deltas; target_seq = target_seq })
  ]

  -- the filter of `decode_ops`: a payload that cannot be read is left out
  unfoldable pub decoded : List WalDeltaRecord → List (ℕ × Op)
  decoded [] = []
  decoded (r ∷ rs) =
      let rest = decoded rs in
      elim (c.deserialize r.payload) [ none ↦ rest | some op ↦ (r.seq, op) ∷ rest ]

  -- WalDelta::decode_ops
  unfoldable pub decode_ops : WalDelta → List (ℕ × Op)
  unfolding decoded
  decode_ops delta = decoded delta.records

  abbrev pub seq_and_op : WalRecord Op → ℕ × Op
  seq_and_op r = (r.seq, r.op)

  -- The records that are sent, one by one.
  pub delta_records-cons :
      (r : WalRecord Op) (rs : List (WalRecord Op)) (deltas : List WalDeltaRecord)
      → delta_records (r ∷ rs) ≡ some deltas
      → (payload : List ℕ) × (rest : List WalDeltaRecord) × (c.deserialize payload ≡ some r.op)
        × (delta_records rs ≡ some rest)
        × (deltas ≡ record { seq = r.seq; epoch = r.epoch; payload = payload } ∷ rest)
  unfolding delta_records
  delta_records-cons r rs deltas h = elim (Option-cases (c.serialize r.op)) [
    | inl e ↦ absurd (ground arith)
    | inr (payload, e) ↦ elim (Option-cases (delta_records rs)) [
      | inl e' ↦ absurd (ground arith)
      | inr (rest, e') ↦ (payload, rest, c.deserialize-serialize r.op payload e, e', ground arith)
    ]
  ]

  decoded-delta_records :
      (records : List (WalRecord Op)) (deltas : List WalDeltaRecord)
      → delta_records records ≡ some deltas
      → decoded deltas ≡ map seq_and_op records
  unfolding decoded delta_records
  decoded-delta_records [] deltas h = let empty : deltas ≡ [] = ground arith in rw empty refl
  decoded-delta_records (r ∷ rs) deltas h =
      let (payload, rest, read, more, split) = delta_records-cons r rs deltas h in
      rw (split, decoded, read) (ap (λ l. (r.seq, r.op) ∷ l) (decoded-delta_records rs rest more))

  pub from_wal_records-records :
      (leader_node target_seq : ℕ) (records : List (WalRecord Op)) (delta : WalDelta)
      → from_wal_records leader_node records target_seq ≡ some delta
      → delta_records records ≡ some delta.records
  unfolding from_wal_records
  from_wal_records-records leader_node target_seq records delta h =
      elim (Option-cases (delta_records records)) [
        | inl e ↦ absurd (ground arith)
        | inr (deltas, e) ↦ e ∙ ground arith
      ]

  -- A follower reads the operations that the leader sent, in their order and with their seqs.
  pub decode_ops-from_wal_records :
      (leader_node target_seq : ℕ) (records : List (WalRecord Op)) (delta : WalDelta)
      → from_wal_records leader_node records target_seq ≡ some delta
      → decode_ops delta ≡ map seq_and_op records
  unfolding decode_ops
  decode_ops-from_wal_records leader_node target_seq records delta h =
      decoded-delta_records records delta.records
        (from_wal_records-records leader_node target_seq records delta h)

-- WalReplication: the positions, by collection
abbrev pub Positions : Type 0
Positions = Dict String ℕ

-- WalReplication::next_seq
unfoldable pub next_seq : Positions → String → ℕ
next_seq p id = elim (get p id) [ none ↦ 1 | some seq ↦ (seq + 1) % 2 ^ 64 ]

-- WalReplication::mark_applied
unfoldable pub mark_applied : Positions → String → ℕ → Positions
mark_applied p id seq = Dict.insert p id seq

-- the delay after an attempt, in 64 bits; the power and the product may wrap
unfoldable pub delay : ℕ → ℕ
delay attempt = 100 * (2 ^ attempt % 2 ^ 64) % 2 ^ 64

-- the loop of `fetch_delta_with_retry`: the delays in milliseconds, and the delta if there is one
unfoldable pub retry_loop : {D : Type 0} → (ℕ → Option D) → ℕ → ℕ → ℕ → List ℕ × Option D
retry_loop fetch max_retries attempt zero = ([], none)
retry_loop fetch max_retries attempt (suc left) =
    let (delays, found) = retry_loop fetch max_retries (attempt + 1) left in
    elim (fetch attempt) [
      | some delta ↦ ([], some delta)
      | none ↦ (if ltb attempt (max_retries - 1) then delay attempt ∷ delays else delays, found)
    ]

-- WalReplication::fetch_delta_with_retry
unfoldable pub fetch_delta_with_retry : {D : Type 0} → (ℕ → Option D) → ℕ → List ℕ × Option D
unfolding retry_loop
fetch_delta_with_retry fetch max_retries = retry_loop fetch max_retries 0 max_retries

add_suc : (a j : ℕ) → a + 1 + j ≡ a + suc j
add_suc a j = omega arith

zero_add : (j : ℕ) → 0 + j ≡ j
zero_add j = omega arith

-- The delays of so many attempts in a row, each twice the last.
abbrev pub backoff : ℕ → ℕ → List ℕ
backoff attempt zero = []
backoff attempt (suc n) = 100 * 2 ^ attempt ∷ backoff (attempt + 1) n

pow-le : (a b j : ℕ) → a + j ≡ b → 2 ^ a ≤ 2 ^ b
pow-le a b zero e = let same : a ≡ b = omega arith in rw same (omega arith)
pow-le a zero (suc j) e = absurd (omega (arith, e))
pow-le a (suc b) (suc j) e =
    let below : 2 ^ a ≤ 2 ^ b = pow-le a b j (omega (arith, e)) in omega (arith, below)

-- Up to attempt 57 neither the power nor the product wraps.
delay-small : (attempt : ℕ) → attempt < 58 → delay attempt ≡ 100 * 2 ^ attempt
unfolding delay
delay-small attempt small =
    let bound : 2 ^ attempt ≤ 2 ^ 57 = pow-le attempt 57 (57 - attempt) (omega (arith, small)) in
    omega (arith, bound)

module _ {D : Type 0} where
  -- an attempt that fails, with attempts left after it
  retry_loop-none :
      (fetch : ℕ → Option D) (max_retries attempt left : ℕ)
      → fetch attempt ≡ none
      → ltb attempt (max_retries - 1) ≡ true
      → retry_loop fetch max_retries attempt (suc left) ≡ (
        delay attempt ∷ (retry_loop fetch max_retries (attempt + 1) left).0,
        (retry_loop fetch max_retries (attempt + 1) left).1,
      )
  unfolding retry_loop
  retry_loop-none fetch max_retries attempt left e more = rw (e, retry_loop, more) refl

  retry_loop-found :
      (fetch : ℕ → Option D) (max_retries attempt left n : ℕ) (delta : D)
      → n < left
      → attempt + n ≤ 58
      → attempt + left ≡ max_retries
      → ((j : ℕ) → j < n → fetch (attempt + j) ≡ none)
      → fetch (attempt + n) ≡ some delta
      → retry_loop fetch max_retries attempt left ≡ (backoff attempt n, some delta)
  unfolding retry_loop
  retry_loop-found fetch max_retries attempt zero n delta h few t fails found =
      absurd (omega (arith, h))
  retry_loop-found fetch max_retries attempt (suc left) zero delta h few t fails found =
      let same : attempt + 0 ≡ attempt = omega arith in rw (rw same at found, retry_loop) refl
  retry_loop-found fetch max_retries attempt (suc left) (suc n) delta h few t fails found =
      let same : attempt + 0 ≡ attempt = omega arith in
      let shift = λ (j : ℕ). add_suc attempt j in
      let more : ltb attempt (max_retries - 1) ≡ true = ground (arith, h, t) in
      let rest =
        retry_loop-found fetch max_retries (attempt + 1) left n delta (omega (arith, h))
          (omega (arith, few)) (omega (arith, t))
          (λ j lt. rw (shift j) (fails (suc j) (omega (arith, lt)))) (rw (shift n) found) in
      retry_loop-none fetch max_retries attempt left (rw same at (fails 0 (omega arith))) more
      ∙ rw (rest, delay-small attempt (omega (arith, few))) refl

  -- If the first attempt to fetch a delta that succeeds is within the retries, and at most 58
  -- attempts fail before it, then its delta is returned, after one delay for each of those, each
  -- twice the last.
  pub fetch_delta_with_retry-found :
      (fetch : ℕ → Option D) (max_retries n : ℕ) (delta : D)
      → n < max_retries
      → n ≤ 58
      → ((j : ℕ) → j < n → fetch j ≡ none)
      → fetch n ≡ some delta
      → fetch_delta_with_retry fetch max_retries ≡ (backoff 0 n, some delta)
  unfolding fetch_delta_with_retry
  fetch_delta_with_retry-found fetch max_retries n delta h few fails found =
      let zero_first = λ (j : ℕ). zero_add j in
      retry_loop-found fetch max_retries 0 max_retries n delta h (omega (arith, few)) (omega arith)
        (λ j lt. rw (zero_first j) (fails j lt)) (rw (zero_first n) found)
