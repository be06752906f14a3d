-- ===== src/Cluster/LogStore/Table.antt =====
-- The table of the redb store, as a function of the index.
use rekha.Prelude.{
  ℕ, ◌+◌, ◌≡◌, refl, sym, ap, ◌∙◌, Bool, ◌&&◌, none, List, [], ◌∷◌, ◌++◌, ◌==◌, inl, inr,
  Bool-cases, if◌then◌else◌, any, is_some, arith,
}
use rekha.Prelude.Dict.{
  Dict, nat_eqv, get, insert, remove, Unique, get-insert, get-remove, insert-Unique, remove-Unique,
}
use rekha.Cluster.LogStore.{Entry, or, retain, insert_all, keys_where, remove_keys}
use rekha.Cluster.LogStore.Range.{at, Ascending, Ascending-le, at-below}

module _ {P : Type 0} where
  -- Where two lists are joined, the first is asked first.
  pub at-append : (es fs : List (Entry P)) (i : ℕ) → at (es ++ fs) i ≡ or (at es i) (at fs i)
  unfolding at
  at-append [] fs i = refl
  at-append (e ∷ es) fs i = ground (arith, at-append es fs i)

  pub Ascending-right : (n : ℕ) (es fs : List (Entry P)) → Ascending n (es ++ fs) → Ascending n fs
  Ascending-right n [] fs a = a
  Ascending-right n (e ∷ es) fs a =
      Ascending-le n (e.log_id.index + 1) fs (omega (arith, a.0))
        (Ascending-right (e.log_id.index + 1) es fs a.1)

  -- No index is in both parts of a list whose indexes rise.
  pub or-at :
      (n : ℕ) (es fs : List (Entry P)) (i : ℕ)
      → Ascending n (es ++ fs)
      → or (at fs i) (at es i) ≡ or (at es i) (at fs i)
  unfolding at
  or-at n [] fs i a = ground arith
  or-at n (e ∷ es) fs i a = elim (Bool-cases (e.log_id.index == i)) [
    | inl t ↦
        let apart =
          at-below (e.log_id.index + 1) i fs (Ascending-right (e.log_id.index + 1) es fs a.1)
            (ground arith) in
        ground (arith, apart)
    | inr f ↦ ground (arith, or-at (e.log_id.index + 1) es fs i a.1)
  ]

  -- Inserting entries behind those of a table.
  pub get-insert_all :
      (log : Dict ℕ (Entry P)) (n : ℕ) (fs : List (Entry P)) (i : ℕ)
      → Ascending n fs
      → get (insert_all log fs) i ≡ or (at fs i) (get log i)
  unfolding insert_all at
  get-insert_all log n [] i a = refl
  get-insert_all log n (f ∷ fs) i a =
      let ih = get-insert_all (insert log f.log_id.index f) (f.log_id.index + 1) fs i a.1 in
      let this = get-insert log f.log_id.index i f in
      elim (Bool-cases (f.log_id.index == i)) [
        | inl t ↦ ground (arith, ih, this, at-below (f.log_id.index + 1) i fs a.1 (ground arith))
        | inr e ↦ ground (arith, ih, this)
      ]

  pub insert_all-Unique :
      (log : Dict ℕ (Entry P)) (fs : List (Entry P)) → Unique log → Unique (insert_all log fs)
  unfolding insert_all
  insert_all-Unique log [] u = u
  insert_all-Unique log (f ∷ fs) u =
      insert_all-Unique (insert log f.log_id.index f) fs (insert-Unique log f.log_id.index f u)

  pub remove_keys-Unique :
      (log : Dict ℕ (Entry P)) (ks : List ℕ) → Unique log → Unique (remove_keys log ks)
  unfolding remove_keys
  remove_keys-Unique log [] u = u
  remove_keys-Unique log (k ∷ ks) u = remove_keys-Unique (remove log k) ks (remove-Unique log k u)

  -- What is left when keys are removed.
  get-remove_keys :
      (log : Dict ℕ (Entry P)) (ks : List ℕ) (i : ℕ)
      → get (remove_keys log ks) i ≡ (if any (λ k. k == i) ks then none else get log i)
  unfolding remove_keys
  get-remove_keys log [] i = refl
  get-remove_keys log (k ∷ ks) i =
      ground (arith, get-remove_keys (remove log k) ks i, get-remove log k i)

  -- The keys that are removed are those of the table that pass the test.
  any-keys_where :
      (test : ℕ → Bool) (log : Dict ℕ (Entry P)) (i : ℕ)
      → any (λ k. k == i) (keys_where test log) ≡ test i && is_some (get log i)
  unfolding keys_where get
  any-keys_where test [] i = ground arith
  any-keys_where test ((k, e) ∷ log) i = elim (Bool-cases (k == i)) [
    | inl t ↦
        let same : k ≡ i = ground arith in
        elim (Bool-cases (test k)) [
          | inl p ↦ rw (p, t, sym (ap test same) ∙ p) refl
          | inr p ↦ rw (p, t) (any-keys_where test log i ∙ rw (sym (ap test same) ∙ p) refl)
        ]
    | inr f ↦ elim (Bool-cases (test k)) [
      | inl p ↦ rw (p, f) (any-keys_where test log i)
      | inr p ↦ rw (p, f) (any-keys_where test log i)
    ]
  ]

  pub get-removed :
      (test : ℕ → Bool) (log : Dict ℕ (Entry P)) (i : ℕ)
      → get (remove_keys log (keys_where test log)) i ≡ (if test i then none else get log i)
  get-removed test log i =
      ground (arith, get-remove_keys log (keys_where test log) i, any-keys_where test log i)

  pub at-retain :
      (keep : ℕ → Bool) (es : List (Entry P)) (i : ℕ)
      → at (retain keep es) i ≡ (if keep i then at es i else none)
  unfolding at retain
  at-retain keep [] i = ground arith
  at-retain keep (e ∷ es) i = ground (arith, at-retain keep es i)

  pub retain-Ascending :
      (keep : ℕ → Bool) (n : ℕ) (es : List (Entry P))
      → Ascending n es
      → Ascending n (retain keep es)
  unfolding retain
  retain-Ascending keep n [] a = tt
  retain-Ascending keep n (e ∷ es) a =
      let rest = retain-Ascending keep (e.log_id.index + 1) es a.1 in
      let lower = Ascending-le n (e.log_id.index + 1) (retain keep es) (omega (arith, a.0)) rest in
      ground (arith, rest, lower, a.0)
