-- ===== src/Cluster/LogStore/Last.antt =====
-- The last entry of rising ones is the greatest of the table.
use rekha.Prelude.{
  ℕ, ◌+◌, ◌≤◌, ◌≡◌, ◌⊎◌, refl, sym, ap, ◌∙◌, none, some, List, [], ◌∷◌, ltb, ◌==◌, inl, inr,
  Bool-cases, arith,
}
use mathlib.Core.Path.{subst}
use rekha.Prelude.Dict.{Dict, nat_eqv, get, Unique}
use rekha.Cluster.LogStore.{LogId, Entry, last_of, greatest, find_last_log_id}
use rekha.Cluster.LogStore.Range.{at, Ascending}

module _ {P : Type 0} where
  -- The last entry is in the list, and none has a greater index.
  last_of-greatest :
      (n : ℕ) (e : Entry P) (es : List (Entry P))
      → Ascending n (e ∷ es)
      → (m : Entry P) × (last_of (e ∷ es) ≡ some m.log_id)
        × (at (e ∷ es) m.log_id.index ≡ some m)
        × (e.log_id.index ≤ m.log_id.index)
        × ((i : ℕ) (x : Entry P) → at (e ∷ es) i ≡ some x → i ≤ m.log_id.index)
  unfolding last_of at
  last_of-greatest n e [] a = (e, refl, ground arith, omega arith, λ i x h. ground arith)
  last_of-greatest n e (f ∷ es) a =
      let (m, last, there, above, bound) = last_of-greatest (e.log_id.index + 1) f es a.1 in
      (
        m,
        ground (arith, last),
        ground (arith, there, above, a.1.0),
        omega (arith, above, a.1.0),
        λ i x h. elim (Bool-cases (e.log_id.index == i)) [
          | inl t ↦ ground (arith, above, a.1.0)
          | inr s ↦ bound i x (ground arith)
        ],
      )

  at-index : (es : List (Entry P)) (i : ℕ) (x : Entry P) → at es i ≡ some x → x.log_id.index ≡ i
  unfolding at
  at-index [] i x h = ground arith
  at-index (e ∷ es) i x h = elim (Bool-cases (e.log_id.index == i)) [
    | inl t ↦ ground arith
    | inr f ↦ at-index es i x (ground arith)
  ]

  -- What the loop finds is the best so far or an entry of the table, and none is greater.
  greatest-lem :
      (b : LogId) (log : Dict ℕ (Entry P))
      → Unique log
      → (m : LogId) × (greatest (some b) log ≡ some m)
        × ((b ≡ m) ⊎ ((k : ℕ) × (e : Entry P) × (get log k ≡ some e) × (e.log_id ≡ m)))
        × (b.index ≤ m.index)
        × ((k : ℕ) (e : Entry P) → get log k ≡ some e → e.log_id.index ≤ m.index)
  unfolding greatest get
  greatest-lem b [] u = (b, refl, inl refl, omega arith, λ k e h. ground arith)
  greatest-lem b ((j, f) ∷ log) u = elim (Bool-cases (ltb b.index f.log_id.index)) [
    | inl t ↦
        let (m, found, from, above, bound) = greatest-lem f.log_id log u.1 in
        (
          m,
          rw t found,
          elim from [
            | inl e ↦ inr (j, f, ground arith, e)
            | inr (k, e, p, q) ↦ inr (k, e, ground (arith, u.0), q)
          ],
          ground arith,
          λ k e h. elim (Bool-cases (j == k)) [
            | inl s ↦ ground arith
            | inr s ↦ bound k e (ground arith)
          ],
        )
    | inr t ↦
        let (m, found, from, above, bound) = greatest-lem b log u.1 in
        (
          m,
          rw t found,
          elim from [ inl e ↦ inl e | inr (k, e, p, q) ↦ inr (k, e, ground (arith, u.0), q) ],
          above,
          λ k e h. elim (Bool-cases (j == k)) [
            | inl s ↦ ground arith
            | inr s ↦ bound k e (ground arith)
          ],
        )
  ]

  at-none : (es : List (Entry P)) → ((i : ℕ) → at es i ≡ none) → es ≡ []
  unfolding at
  at-none [] h = refl
  at-none (e ∷ es) h = absurd (ground (arith, h e.log_id.index))

  at-own :
      (es : List (Entry P)) (i : ℕ) (x : Entry P) → at es i ≡ some x → at es x.log_id.index ≡ some x
  at-own es i x h = subst (λ j. at es j ≡ some x) (sym (at-index es i x h)) h

  -- An entry at the index of another, in one list, is that entry.
  one_entry :
      (es : List (Entry P)) (m x : Entry P)
      → at es m.log_id.index ≡ some m
      → at es x.log_id.index ≡ some x
      → x.log_id.index ≤ m.log_id.index
      → m.log_id.index ≤ x.log_id.index
      → x.log_id ≡ m.log_id
  one_entry es m x p q h k =
      let same : x.log_id.index ≡ m.log_id.index = omega (arith, h, k) in
      ground (arith, rw same at q, p)

  first_found :
      (j : ℕ) (f : Entry P) (log : Dict ℕ (Entry P)) (es : List (Entry P)) (n : ℕ)
      → Unique ((j, f) ∷ log)
      → Ascending n es
      → ((i : ℕ) → get ((j, f) ∷ log) i ≡ at es i)
      → find_last_log_id ((j, f) ∷ log) ≡ last_of es
  unfolding find_last_log_id greatest get at
  first_found j f log [] n u a same = absurd (ground (arith, same j))
  first_found j f log (e ∷ es) n u a same =
      let (m, last, there, above, bound) = last_of-greatest n e es a in
      let (best, found, from, over, most) = greatest-lem f.log_id log u.1 in
      let (x, is_best, at_x) : (x : Entry P) × (x.log_id ≡ best)
          × (at (e ∷ es) x.log_id.index ≡ some x) =
        elim from [
          | inl b ↦ let here = sym (same j) ∙ ground arith in (f, b, at-own (e ∷ es) j f here)
          | inr (k, y, p, q) ↦
              let here : at (e ∷ es) k ≡ some y = sym (same k) ∙ ground (arith, u.0) in
              (y, q, at-own (e ∷ es) k y here)
        ] in
      let reaches : m.log_id.index ≤ best.index = elim (Bool-cases (j == m.log_id.index)) [
        | inl t ↦ ground (arith, same m.log_id.index, there, over)
        | inr t ↦ most m.log_id.index m (ground (arith, same m.log_id.index, there))
      ] in
      let equal =
        one_entry (e ∷ es) m x there at_x (bound x.log_id.index x at_x)
          (ground (arith, reaches, is_best)) in
      found ∙ (ap some (sym is_best ∙ equal) ∙ sym last)

  -- The two stores report the same last entry.
  pub find_last_log_id-last_of :
      (log : Dict ℕ (Entry P)) (es : List (Entry P)) (n : ℕ)
      → Unique log
      → Ascending n es
      → ((i : ℕ) → get log i ≡ at es i)
      → find_last_log_id log ≡ last_of es
  unfolding find_last_log_id greatest get last_of
  find_last_log_id-last_of [] es n u a same = rw (at-none es (λ i. sym (same i))) refl
  find_last_log_id-last_of ((j, f) ∷ log) es n u a same = first_found j f log es n u a same
