-- ===== src/Cluster/LogStore/Range.antt =====
-- Reading a range index by index, and by a filter of a list.
use rekha.Prelude.{
  ℕ, zero, suc, ◌+◌, ◌-◌, ◌≤◌, ◌<◌, ◌≡◌, refl, sym, Option, none, some, List, [], ◌∷◌, leb, ltb,
  ◌==◌, inl, inr, Bool-cases, if◌then◌else◌, arith,
}
use rekha.Prelude.Dict.{Dict, nat_eqv, get}
use rekha.Cluster.LogStore.{Entry, entries_in, read_from, read_log_entries}

module _ {P : Type 0} where
  -- The entry of an index.
  unfoldable pub at : List (Entry P) → ℕ → Option (Entry P)
  at [] i = none
  at (e ∷ es) i = if e.log_id.index == i then some e else at es i

  -- The indexes rise, from one that is at least `n`.
  abbrev pub Ascending : ℕ → List (Entry P) → Type 0
  Ascending n [] = Unit
  Ascending n (e ∷ es) = (n ≤ e.log_id.index) × Ascending (e.log_id.index + 1) es

  pub Ascending-le : (m n : ℕ) (es : List (Entry P)) → m ≤ n → Ascending n es → Ascending m es
  Ascending-le m n [] h a = tt
  Ascending-le m n (e ∷ es) h a = (omega (arith, h, a.0), a.1)

  pub at-below : (n i : ℕ) (es : List (Entry P)) → Ascending n es → i < n → at es i ≡ none
  unfolding at
  at-below n i [] a h = refl
  at-below n i (e ∷ es) a h =
      ground (arith, a.0, at-below (e.log_id.index + 1) i es a.1 (omega (arith, h, a.0)))

  abbrev cons_found : Option (Entry P) → List (Entry P) → List (Entry P)
  cons_found none es = es
  cons_found (some e) es = e ∷ es

  entries_in-empty : (s end : ℕ) (es : List (Entry P)) → end ≤ s → entries_in s end es ≡ []
  unfolding entries_in
  entries_in-empty s end [] h = refl
  entries_in-empty s end (e ∷ es) h = ground (arith, entries_in-empty s end es h)

  -- Below the first index, a range may start where it likes.
  entries_in-start :
      (n s end : ℕ) (es : List (Entry P))
      → Ascending n es
      → s < n
      → entries_in s end es ≡ entries_in (s + 1) end es
  unfolding entries_in
  entries_in-start n s end [] a h = refl
  entries_in-start n s end (e ∷ es) a h =
      ground
        (arith, a.0, entries_in-start (e.log_id.index + 1) s end es a.1 (omega (arith, h, a.0)))

  entries_in-suc :
      (n s end : ℕ) (es : List (Entry P))
      → Ascending n es
      → s < end
      → entries_in s end es ≡ cons_found (at es s) (entries_in (s + 1) end es)
  unfolding entries_in at
  entries_in-suc n s end [] a h = refl
  entries_in-suc n s end (e ∷ es) a h = elim (Bool-cases (e.log_id.index == s)) [
    | inl t ↦ ground (arith, entries_in-start (e.log_id.index + 1) s end es a.1 (ground arith))
    | inr f ↦ elim (Bool-cases (ltb e.log_id.index s)) [
      | inl below ↦ ground (arith, entries_in-suc (e.log_id.index + 1) s end es a.1 h)
      | inr above ↦ ground (
        arith,
        at-below (e.log_id.index + 1) s es a.1 (ground arith),
        entries_in-start (e.log_id.index + 1) s end es a.1 (ground arith),
      )
    ]
  ]

  read_from-entries_in :
      (log : Dict ℕ (Entry P)) (es : List (Entry P)) (n s count : ℕ)
      → Ascending n es
      → ((i : ℕ) → get log i ≡ at es i)
      → read_from log s count ≡ entries_in s (s + count) es
  unfolding read_from
  read_from-entries_in log es n s zero a same = sym (entries_in-empty s (s + 0) es (omega arith))
  read_from-entries_in log es n s (suc count) a same =
      let shift : s + 1 + count ≡ s + suc count = omega arith in
      let ih = rw shift at (read_from-entries_in log es n (s + 1) count a same) in
      ground (arith, ih, same s, entries_in-suc n s (s + suc count) es a (omega arith))

  -- Both ways of reading a range give the same entries.
  pub read_log_entries-entries_in :
      (log : Dict ℕ (Entry P)) (es : List (Entry P)) (n s end : ℕ)
      → Ascending n es
      → ((i : ℕ) → get log i ≡ at es i)
      → read_log_entries log s end ≡ entries_in s end es
  unfolding read_log_entries read_from
  read_log_entries-entries_in log es n s end a same = elim (Bool-cases (leb s end)) [
    | inl t ↦
        let whole : s + (end - s) ≡ end = ground arith in
        rw whole at (read_from-entries_in log es n s (end - s) a same)
    | inr f ↦
        let whole : end - s ≡ 0 = ground arith in
        rw whole (sym (entries_in-empty s end es (ground arith)))
  ]
