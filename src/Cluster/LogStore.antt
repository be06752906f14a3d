-- ===== src/Cluster/LogStore.antt =====
-- The two stores of the Raft log: `MemoryLogStore` of crates/rekha-cluster/src/log_store.rs and
-- `RedbLogStore` of crates/rekha-cluster/src/redb_log_store.rs. A payload and a vote are those of
-- openraft. A transaction of redb is taken to commit, and a value is what its bytes encode.
pub mod Range
pub mod Table
pub mod Last
pub mod Refines
use rekha.Prelude.{
  ℕ, zero, suc, ◌+◌, ◌-◌, ◌%◌, ◌≡◌, Bool, true, false, not, ◌&&◌, Option, none, some, List, [], ◌∷◌,
  ◌++◌, leb, ltb, ◌==◌, if◌then◌else◌,
}
use rekha.Prelude.Dict
use rekha.Prelude.Dict.{Dict, nat_eqv, get}
use rekha.Wal.{u64_mod}

-- openraft's LogId
pub record LogId : Type 0 where
  pub term : ℕ
  pub node : ℕ
  pub index : ℕ

-- openraft's Entry
pub record Entry (P : Type 0) : Type 0 where
  pub log_id : LogId
  pub payload : P

-- openraft's LogState
pub record LogState : Type 0 where
  pub last_purged_log_id : Option LogId
  pub last_log_id : Option LogId

-- std::ops::Bound
pub data Bound : Type 0 where
  included excluded : ℕ → Bound
  unbounded : Bound

-- `or` of two options
abbrev pub or : {A : Type 0} → Option A → Option A → Option A
or none b = b
or (some a) b = some a

-- the two matches of `try_get_log_entries`; `u64` addition wraps in a release build
unfoldable pub start_of : Bound → ℕ
start_of (included n) = n
start_of (excluded n) = (n + 1) % u64_mod
start_of unbounded = 0

unfoldable pub end_of : ℕ → Bound → ℕ
end_of limit (included n) = (n + 1) % u64_mod
end_of limit (excluded n) = n
end_of limit unbounded = limit

-- MemoryLogStoreInner
pub record MemoryLogStore (P W : Type 0) : Type 0 where
  pub entries : List (Entry P)
  pub last_purged_log_id : Option LogId
  pub committed : Option LogId
  pub vote : Option W

module _ {P : Type 0} where
  -- the filter of `try_get_log_entries`
  unfoldable pub entries_in : ℕ → ℕ → List (Entry P) → List (Entry P)
  entries_in start end [] = []
  entries_in start end (e ∷ es) =
      let rest = entries_in start end es in
      if leb start e.log_id.index && ltb e.log_id.index end then e ∷ rest else rest

  -- `entries.last()`
  unfoldable pub last_of : List (Entry P) → Option LogId
  last_of [] = none
  last_of (e ∷ es) = or (last_of es) (some e.log_id)

  -- `entries.retain`
  unfoldable pub retain : (ℕ → Bool) → List (Entry P) → List (Entry P)
  retain keep [] = []
  retain keep (e ∷ es) = let rest = retain keep es in if keep e.log_id.index then e ∷ rest else rest

module _ {P W : Type 0} where
  -- MemoryLogStore::try_get_log_entries
  unfoldable pub memory_read : MemoryLogStore P W → Bound → Bound → List (Entry P)
  unfolding start_of end_of entries_in
  memory_read s from to = entries_in (start_of from) (end_of (u64_mod - 1) to) s.entries

  -- MemoryLogStoreInner::log_state
  unfoldable pub memory_state : MemoryLogStore P W → LogState
  unfolding last_of
  memory_state s = record {
    last_purged_log_id = s.last_purged_log_id;
    last_log_id = or (last_of s.entries) s.last_purged_log_id;
  }

  -- MemoryLogStore::append
  unfoldable pub memory_append : MemoryLogStore P W → List (Entry P) → MemoryLogStore P W
  memory_append s es = record s { entries = s.entries ++ es }

  -- MemoryLogStore::truncate
  unfoldable pub memory_truncate : MemoryLogStore P W → LogId → MemoryLogStore P W
  unfolding retain
  memory_truncate s id = record s { entries = retain (λ i. ltb i id.index) s.entries }

  -- MemoryLogStore::purge
  unfoldable pub memory_purge : MemoryLogStore P W → LogId → MemoryLogStore P W
  unfolding retain
  memory_purge s id = record s {
    last_purged_log_id = some id;
    entries = retain (λ i. ltb id.index i) s.entries;
  }

  -- MemoryLogStore::save_vote and read_vote, save_committed and read_committed
  unfoldable pub memory_save_vote : MemoryLogStore P W → W → MemoryLogStore P W
  memory_save_vote s vote = record s { vote = some vote }

  unfoldable pub memory_save_committed : MemoryLogStore P W → Option LogId → MemoryLogStore P W
  memory_save_committed s committed = record s { committed = committed }

-- SerializedState, in the table of the state
pub record SerializedState : Type 0 where
  pub last_purged_index : Option ℕ
  pub last_purged_term : Option ℕ

-- SerializedState::last_purged_log_id
unfoldable pub purged_log_id : SerializedState → Option LogId
purged_log_id s = elim s.last_purged_index [
  | none ↦ none
  | some index ↦ elim s.last_purged_term [
    | none ↦ none
    | some term ↦ some (record { term = term; node = 0; index = index })
  ]
]

-- RedbLogStore: its tables, and the field of RedbLogStoreInner
pub record RedbLogStore (P W : Type 0) : Type 0 where
  pub log : Dict ℕ (Entry P)
  pub vote : Option W
  pub state : Option SerializedState
  pub last_purged : Option LogId

module _ {P : Type 0} where
  -- the loop of `read_log_entries` over the next `count` indexes
  unfoldable pub read_from : Dict ℕ (Entry P) → ℕ → ℕ → List (Entry P)
  read_from log idx zero = []
  read_from log idx (suc count) =
      let rest = read_from log (idx + 1) count in
      elim (get log idx) [ none ↦ rest | some e ↦ e ∷ rest ]

  -- read_log_entries
  unfoldable pub read_log_entries : Dict ℕ (Entry P) → ℕ → ℕ → List (Entry P)
  unfolding read_from
  read_log_entries log start end = read_from log start (end - start)

  -- the loop of `find_last_log_id`
  unfoldable pub greatest : Option LogId → Dict ℕ (Entry P) → Option LogId
  greatest best [] = best
  greatest none ((k, e) ∷ log) = greatest (some e.log_id) log
  greatest (some m) ((k, e) ∷ log) =
      greatest (some (if ltb m.index e.log_id.index then e.log_id else m)) log

  -- find_last_log_id
  unfoldable pub find_last_log_id : Dict ℕ (Entry P) → Option LogId
  unfolding greatest
  find_last_log_id log = greatest none log

  -- the loop of `append`
  unfoldable pub insert_all : Dict ℕ (Entry P) → List (Entry P) → Dict ℕ (Entry P)
  insert_all log [] = log
  insert_all log (e ∷ es) = insert_all (Dict.insert log e.log_id.index e) es

  -- `keys_to_remove`, and its removal
  unfoldable pub keys_where : (ℕ → Bool) → Dict ℕ (Entry P) → List ℕ
  keys_where remove [] = []
  keys_where remove ((k, e) ∷ log) =
      let rest = keys_where remove log in if remove k then k ∷ rest else rest

  unfoldable pub remove_keys : Dict ℕ (Entry P) → List ℕ → Dict ℕ (Entry P)
  remove_keys log [] = log
  remove_keys log (k ∷ ks) = remove_keys (Dict.remove log k) ks

-- the end of a read without a bound
unfoldable pub read_limit : ℕ
read_limit = 1000000

module _ {P W : Type 0} where
  -- RedbLogStore::open of the tables that a store left
  unfoldable pub redb_open : RedbLogStore P W → RedbLogStore P W
  unfolding purged_log_id
  redb_open s = record s {
    last_purged = elim s.state [ none ↦ none | some state ↦ purged_log_id state ];
  }

  -- RedbLogStore::try_get_log_entries
  unfoldable pub redb_read : RedbLogStore P W → Bound → Bound → List (Entry P)
  unfolding start_of end_of read_log_entries
  redb_read s from to = read_log_entries s.log (start_of from) (end_of read_limit to)

  -- RedbLogStore::get_log_state
  unfoldable pub redb_state : RedbLogStore P W → LogState
  unfolding find_last_log_id
  redb_state s = record {
    last_purged_log_id = s.last_purged;
    last_log_id = or (find_last_log_id s.log) s.last_purged;
  }

  -- RedbLogStore::append
  unfoldable pub redb_append : RedbLogStore P W → List (Entry P) → RedbLogStore P W
  unfolding insert_all
  redb_append s es = record s { log = insert_all s.log es }

  -- RedbLogStore::truncate
  unfoldable pub redb_truncate : RedbLogStore P W → LogId → RedbLogStore P W
  unfolding keys_where remove_keys
  redb_truncate s id = record s { log = remove_keys s.log (keys_where (λ i. leb id.index i) s.log) }

  -- RedbLogStore::save_state
  unfoldable pub save_state : RedbLogStore P W → RedbLogStore P W
  save_state s = record s {
    state = some (elim s.last_purged [
      | none ↦ record { last_purged_index = none; last_purged_term = none }
      | some id ↦ record { last_purged_index = some id.index; last_purged_term = some id.term }
    ]);
  }

  -- RedbLogStore::purge
  unfoldable pub redb_purge : RedbLogStore P W → LogId → RedbLogStore P W
  unfolding keys_where remove_keys save_state
  redb_purge s id = save_state (record s {
    log = remove_keys s.log (keys_where (λ i. leb i id.index) s.log);
    last_purged = some id;
  })

  -- RedbLogStore::save_vote; the table is read back as it is
  unfoldable pub redb_save_vote : RedbLogStore P W → W → RedbLogStore P W
  redb_save_vote s vote = record s { vote = some vote }
