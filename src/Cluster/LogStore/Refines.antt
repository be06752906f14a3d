-- ===== src/Cluster/LogStore/Refines.antt =====
-- The redb store does what the memory store does, where openraft keeps the contract of the log:
-- the indexes rise, and an append goes behind the last entry.
use rekha.Prelude.{
  ℕ, ◌≡◌, ◌⊎◌, refl, sym, ap, ◌∙◌, some, List, [], ◌∷◌, ◌++◌, leb, ltb, inl, inr, arith,
}
use rekha.Prelude.Dict.{nat_eqv, get, Unique}
use rekha.Cluster.LogStore.{
  LogId, Entry, Bound, included, excluded, or, MemoryLogStore, RedbLogStore, start_of, end_of,
  memory_read, memory_state, memory_append, memory_truncate, memory_purge, memory_save_vote,
  redb_read, redb_state, redb_append, redb_truncate, redb_purge, redb_save_vote, save_state,
  redb_open, keys_where, purged_log_id,
}
use rekha.Cluster.LogStore.Range.{at, Ascending, read_log_entries-entries_in}
use rekha.Cluster.LogStore.Table.{
  at-append, or-at, Ascending-right, get-insert_all, insert_all-Unique, remove_keys-Unique,
  get-removed, at-retain, retain-Ascending,
}
use rekha.Cluster.LogStore.Last.{find_last_log_id-last_of}

module _ {P W : Type 0} where
  -- The table of the redb store holds the entries of the memory store, whose indexes rise.
  pub record Represents (r : RedbLogStore P W) (m : MemoryLogStore P W) : Type 0 where
    pub ascending : Ascending 0 m.entries
    pub unique : Unique r.log
    pub same : (i : ℕ) → get r.log i ≡ at m.entries i
    pub purged : r.last_purged ≡ m.last_purged_log_id
    pub votes : r.vote ≡ m.vote

  -- A range with an end, below the greatest `u64`, is read alike.
  pub read-Represents :
      (r : RedbLogStore P W) (m : MemoryLogStore P W) (from to : Bound) (n : ℕ)
      → Represents r m
      → (to ≡ included n) ⊎ (to ≡ excluded n)
      → redb_read r from to ≡ memory_read m from to
  unfolding redb_read memory_read end_of
  read-Represents r m from to n h bounded = elim bounded [
    | inl e ↦
        rw e (read_log_entries-entries_in r.log m.entries 0 (start_of from) _ h.ascending h.same)
    | inr e ↦
        rw e (read_log_entries-entries_in r.log m.entries 0 (start_of from) n h.ascending h.same)
  ]

  pub state-Represents :
      (r : RedbLogStore P W) (m : MemoryLogStore P W)
      → Represents r m
      → redb_state r ≡ memory_state m
  unfolding redb_state memory_state
  state-Represents r m h =
      rw (h.purged, find_last_log_id-last_of r.log m.entries 0 h.unique h.ascending h.same) refl

  pub append-Represents :
      (r : RedbLogStore P W) (m : MemoryLogStore P W) (es : List (Entry P))
      → Ascending 0 (m.entries ++ es)
      → Represents r m
      → Represents (redb_append r es) (memory_append m es)
  unfolding redb_append memory_append
  append-Represents r m es rises h = record {
    ascending = rises;
    unique = insert_all-Unique r.log es h.unique;
    same = λ i.
        get-insert_all r.log 0 es i (Ascending-right 0 m.entries es rises)
        ∙ (ap (or (at es i)) (h.same i)
            ∙ (or-at 0 m.entries es i rises ∙ sym (at-append m.entries es i)));
    purged = h.purged;
    votes = h.votes;
  }

  pub truncate-Represents :
      (r : RedbLogStore P W) (m : MemoryLogStore P W) (id : LogId)
      → Represents r m
      → Represents (redb_truncate r id) (memory_truncate m id)
  unfolding redb_truncate memory_truncate
  truncate-Represents r m id h = record {
    ascending = retain-Ascending (λ i. ltb i id.index) 0 m.entries h.ascending;
    unique = remove_keys-Unique r.log (keys_where (λ i. leb id.index i) r.log) h.unique;
    same = λ i. ground (
      arith,
      get-removed (λ j. leb id.index j) r.log i,
      at-retain (λ j. ltb j id.index) m.entries i,
      h.same i,
    );
    purged = h.purged;
    votes = h.votes;
  }

  pub purge-Represents :
      (r : RedbLogStore P W) (m : MemoryLogStore P W) (id : LogId)
      → Represents r m
      → Represents (redb_purge r id) (memory_purge m id)
  unfolding redb_purge memory_purge save_state
  purge-Represents r m id h = record {
    ascending = retain-Ascending (λ i. ltb id.index i) 0 m.entries h.ascending;
    unique = remove_keys-Unique r.log (keys_where (λ i. leb i id.index) r.log) h.unique;
    same = λ i. ground (
      arith,
      get-removed (λ j. leb j id.index) r.log i,
      at-retain (λ j. ltb id.index j) m.entries i,
      h.same i,
    );
    purged = refl;
    votes = h.votes;
  }

-- A call of openraft that writes.
pub data Call (P W : Type 0) : Type 0 where
  append : List (Entry P) → Call P W
  truncate purge : LogId → Call P W
  save_vote : W → Call P W

module _ {P W : Type 0} where
  unfoldable pub memory_call : MemoryLogStore P W → Call P W → MemoryLogStore P W
  unfolding memory_append memory_truncate memory_purge memory_save_vote
  memory_call m (append es) = memory_append m es
  memory_call m (truncate id) = memory_truncate m id
  memory_call m (purge id) = memory_purge m id
  memory_call m (save_vote vote) = memory_save_vote m vote

  unfoldable pub redb_call : RedbLogStore P W → Call P W → RedbLogStore P W
  unfolding redb_append redb_truncate redb_purge redb_save_vote
  redb_call r (append es) = redb_append r es
  redb_call r (truncate id) = redb_truncate r id
  redb_call r (purge id) = redb_purge r id
  redb_call r (save_vote vote) = redb_save_vote r vote

  unfoldable pub memory_run : MemoryLogStore P W → List (Call P W) → MemoryLogStore P W
  unfolding memory_call
  memory_run m [] = m
  memory_run m (c ∷ cs) = memory_run (memory_call m c) cs

  unfoldable pub redb_run : RedbLogStore P W → List (Call P W) → RedbLogStore P W
  unfolding redb_call
  redb_run r [] = r
  redb_run r (c ∷ cs) = redb_run (redb_call r c) cs

  -- An append goes behind the last entry.
  abbrev pub Rises : MemoryLogStore P W → Call P W → Type 0
  Rises m (append es) = Ascending 0 (m.entries ++ es)
  Rises m (truncate id) = Unit
  Rises m (purge id) = Unit
  Rises m (save_vote vote) = Unit

  abbrev pub AllRise : MemoryLogStore P W → List (Call P W) → Type 0
  AllRise m [] = Unit
  AllRise m (c ∷ cs) = Rises m c × AllRise (memory_call m c) cs

  pub call-Represents :
      (r : RedbLogStore P W) (m : MemoryLogStore P W) (c : Call P W)
      → Rises m c
      → Represents r m
      → Represents (redb_call r c) (memory_call m c)
  unfolding redb_call memory_call redb_save_vote memory_save_vote
  call-Represents r m (append es) rises h = append-Represents r m es rises h
  call-Represents r m (truncate id) rises h = truncate-Represents r m id h
  call-Represents r m (purge id) rises h = purge-Represents r m id h
  call-Represents r m (save_vote vote) rises h = record {
    ascending = h.ascending;
    unique = h.unique;
    same = h.same;
    purged = h.purged;
    votes = refl;
  }

  pub run-Represents :
      (r : RedbLogStore P W) (m : MemoryLogStore P W) (cs : List (Call P W))
      → AllRise m cs
      → Represents r m
      → Represents (redb_run r cs) (memory_run m cs)
  unfolding redb_run memory_run
  run-Represents r m [] rise h = h
  run-Represents r m (c ∷ cs) rise h =
      run-Represents (redb_call r c) (memory_call m c) cs rise.1 (call-Represents r m c rise.0 h)

  -- After the same calls, the redb log store and the memory log store report the same last and
  -- purged log ids, the same entries of every range with an end, and the same vote, if both start
  -- alike and each append goes behind the last entry.
  pub run-answers :
      (r : RedbLogStore P W) (m : MemoryLogStore P W) (cs : List (Call P W)) (from to : Bound)
      (n : ℕ)
      → AllRise m cs
      → Represents r m
      → (to ≡ included n) ⊎ (to ≡ excluded n)
      → (redb_state (redb_run r cs) ≡ memory_state (memory_run m cs))
        × (redb_read (redb_run r cs) from to ≡ memory_read (memory_run m cs) from to)
        × ((redb_run r cs).vote ≡ (memory_run m cs).vote)
  run-answers r m cs from to n rise h bounded =
      let after = run-Represents r m cs rise h in
      (
        state-Represents (redb_run r cs) (memory_run m cs) after,
        read-Represents (redb_run r cs) (memory_run m cs) from to n after bounded,
        after.votes,
      )

  -- A store that is opened after a purge has forgotten the node of the purged entry.
  pub open-purge :
      (r : RedbLogStore P W) (id : LogId)
      → (redb_open (redb_purge r id)).last_purged ≡ some (record id { node = 0 })
  unfolding redb_open redb_purge save_state purged_log_id
  open-purge r id = refl
