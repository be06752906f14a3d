-- ===== src/Examples/Logs.antt =====
-- The theorems on the log, at a log of two operations.
use rekha.Prelude.{ℕ, ◌≤◌, ◌≡◌, refl, ◌++◌, true, none, some, List, [], ◌∷◌, take, arith}
use rekha.Core.Op.{delete}
use rekha.Wal.{Wal, ok, wal_options, header_len, scan_loop, open_wal, read_range, prune, frame}
use rekha.Wal.Log.{Entry, encode_entry, Fits, IsLog}
use rekha.Wal.Scan.{scan_loop_total}
use rekha.Wal.Recovery.{image, opened, open_wal-crash}
use rekha.Wal.Append.{Holds, opened-Holds}
use rekha.Wal.ReadRange.{read_range-Holds}
use rekha.Wal.Prune.{pruned, prune-Holds}
use rekha.Examples.Indexes.{codec}

abbrev pub first_entry : Entry
first_entry = record { seq = 1; epoch = 5; payload = 1 ∷ 7 ∷ 8 ∷ [] }

abbrev second_entry : Entry
second_entry = record { seq = 2; epoch = 5; payload = [] }

abbrev entries : List Entry
entries = first_entry ∷ second_entry ∷ []

pub first_entry-Fits : Fits codec first_entry
first_entry-Fits = record {
  seq_fits = omega arith;
  epoch_fits = omega arith;
  payload_fits = omega arith;
  decodes = refl;
}

second_entry-Fits : Fits codec second_entry
second_entry-Fits = record {
  seq_fits = omega arith;
  epoch_fits = omega arith;
  payload_fits = omega arith;
  decodes = refl;
}

entries-IsLog : IsLog codec 5 none entries
entries-IsLog = (first_entry-Fits, omega arith, refl, (second_entry-Fits, omega arith, refl, tt))

scan_loop_total_example :
    (r : ℕ × ℕ × ℕ) × (scan_loop codec 60 (image codec 5 entries) 5 50 header_len 0 0 none ≡ some r)
    × (header_len ≤ r.0)
    × (r.0 ≤ 50)
scan_loop_total_example =
    scan_loop_total codec 60 (image codec 5 entries) 5 50 header_len 0 0 none (omega arith)
      (omega arith)

open_wal-crash_example :
    open_wal codec
      (image codec 5 (first_entry ∷ []) ++ take 20 (encode_entry codec second_entry))
      6
      (wal_options true)
    ≡ ok (opened codec 5 (first_entry ∷ []) (wal_options true))
unfolding frame
open_wal-crash_example =
    open_wal-crash codec 5 6 (first_entry ∷ []) second_entry 20 (wal_options true) (omega arith)
      (first_entry-Fits, omega arith, refl, tt) second_entry-Fits (omega arith)

abbrev log : Wal
log = opened codec 5 entries (wal_options true)

log-Holds : Holds codec log entries
log-Holds = opened-Holds codec 5 entries (wal_options true) (omega arith) entries-IsLog

read_range-Holds_example :
    read_range codec log 2 9 ≡ ok (record { seq = 2; epoch = 5; op = delete "a" } ∷ [])
read_range-Holds_example = read_range-Holds codec log entries 2 9 log-Holds

prune-Holds_example :
    (prune codec log 1 ≡ ok (pruned codec log 1 entries))
    × Holds codec (pruned codec log 1 entries) (second_entry ∷ [])
prune-Holds_example = prune-Holds codec log entries 1 log-Holds
