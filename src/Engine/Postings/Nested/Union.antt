-- ===== src/Engine/Postings/Nested/Union.antt =====
-- The union of the bitmaps of an inner map whose keys pass a test.
use rekha.Prelude.{
  ℕ, ◌≡◌, refl, String, Bool, true, ◌&&◌, ◌||◌, Option, none, some, [], ◌∷◌, arith, if◌then◌else◌,
  Bool-cases, Option-cases, inl, inr, is_some_and,
}
use rekha.Prelude.Dict.{
  Eqv, Dict, string_eqv, get, get-nil, Unique, any_entry, any_entry-get, get-any_entry,
}
use rekha.Engine.Bitmap.{Bitmap}
use rekha.Engine.Postings.Nested.{NestedMap, or_default, bitmap_in, union_where}
use rekha.Engine.Postings.Nested.Cells.{slot, cell}
use rekha.Engine.Postings.Nested.Unique.{IsWell, AllUnique-get}

module _ {K B : Type 0} ⦃e : Eqv K⦄ ⦃bm : Bitmap B⦄ where
  union_where-any_entry :
      (test : K → Bool) (m : Dict K B) (acc : B) (o : ℕ)
      → bm.contains (union_where test m acc) o
        ≡ (bm.contains acc o || any_entry (λ k b. test k && bm.contains b o) m)
  unfolding union_where
  union_where-any_entry test [] acc o = ground arith
  union_where-any_entry test ((k, b) ∷ m) acc o = ground (
    arith,
    union_where-any_entry test m (if test k then bm.union acc b else acc) o,
    bm.contains-union acc b o,
  )

  slot-get :
      (m : Dict K B) (k : K) (o : ℕ)
      → slot m k o ≡ true
      → (b : B) × (get m k ≡ some b) × (bm.contains b o ≡ true)
  slot-get m k o h = elim (Option-cases (get m k)) [
    | inl g ↦ absurd (ground (arith, g, bm.contains-empty o))
    | inr (b, g) ↦ (b, g, ground (arith, g))
  ]

  -- Where the offset stands at the one key `target`, the union of the entries that pass a test
  -- has it exactly when that key passes.
  pub contains-union_where :
      (test : K → Bool) (m : Dict K B) (o : ℕ) (target : Option K)
      → Unique m
      → ((k : K) → slot m k o ≡ is_some_and target (λ t. e.beq t k))
      → ((j k : K) → e.beq j k ≡ true → test j ≡ test k)
      → bm.contains (union_where test m bm.empty) o ≡ is_some_and target test
  contains-union_where test m o none u at respects = elim (Bool-cases found) [
    | inl t ↦ let (k, b, g, h) = any_entry-get passes m u t in absurd (ground (arith, at k, g, h))
    | inr f ↦ ground (arith, union_where-any_entry test m bm.empty o, bm.contains-empty o, f)
  ]
    where
      passes : K → B → Bool
      passes k b = test k && bm.contains b o

      found : Bool
      found = any_entry passes m
  contains-union_where test m o (some t) u at respects = elim (Bool-cases (test t)) [
    | inl pass ↦
        let (b, g, h) = slot-get m t o (ground (arith, at t, e.beq_refl t)) in
        ground (
          arith,
          union_where-any_entry test m bm.empty o,
          bm.contains-empty o,
          get-any_entry (λ k c. test k && bm.contains c o) m t b g
              (λ j q. ground (arith, respects j t q, h, pass)),
          pass,
        )
    | inr fail ↦ elim (Bool-cases (any_entry (λ k c. test k && bm.contains c o) m)) [
      | inl found ↦
          let (k, b, g, h) = any_entry-get (λ k c. test k && bm.contains c o) m u found in
          absurd (ground (arith, at k, g, h, respects t k, e.beq_sym k t, fail))
      | inr f ↦
          ground (arith, union_where-any_entry test m bm.empty o, bm.contains-empty o, f, fail)
    ]
  ]

  -- The same for the inner map at a key of the nested map.
  pub contains-union_at :
      (test : K → Bool) (m : NestedMap K B) (key : String) (o : ℕ) (target : Option K)
      → IsWell m
      → ((k : K) → cell m key k o ≡ is_some_and target (λ t. e.beq t k))
      → ((j k : K) → e.beq j k ≡ true → test j ≡ test k)
      → bm.contains (union_where test (or_default [] (get m key)) bm.empty) o
        ≡ is_some_and target test
  unfolding bitmap_in
  contains-union_at test m key o target w at respects =
      contains-union_where test (or_default [] (get m key)) o target (AllUnique-get m key w.inner)
        (λ k. ground (arith, at k, get-nil {K = K} {V = B} k)) respects

  pub union_where-nil : (test : K → Bool) (acc : B) → union_where test [] acc ≡ acc
  unfolding union_where
  union_where-nil test acc = refl
