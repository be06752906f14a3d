-- ===== src/Engine/Query/Sort.antt =====
-- The sort of a query: the points it was given, in ascending order of their distances.
use rekha.Prelude.{
  ℕ, zero, suc, ◌≤◌, ◌≡◌, ◌≢◌, ◌⊎◌, refl, sym, ap, ◌∙◌, inl, inr, true, false, List, [], ◌∷◌, ◌++◌,
  length, take, drop, Bool-cases, arith,
}
use rekha.Engine.Query.{Metric, ScoredPoint, insert_point, sort_by}

abbrev pub In : {A : Type 0} → A → List A → Type 0
In x [] = ⊥
In x (y ∷ ys) = (x ≡ y) ⊎ In x ys

pub take-drop {ℓ} : {A : Type ℓ} (n : ℕ) (xs : List A) → take n xs ++ drop n xs ≡ xs
take-drop zero xs = refl
take-drop (suc n) [] = refl
take-drop (suc n) (x ∷ xs) = ap (λ l. x ∷ l) (take-drop n xs)

-- Comparing two distances: at most one is greater, and among those that are numbers, which a NaN is
-- not, "not greater" is transitive.
pub record IsOrdered {V : Type 0} (metric : Metric V) (IsNumber : V → Type 0) : Type 0 where
  pub asymmetric : (a b : V) → metric.gt a b ≡ true → metric.gt b a ≡ false
  pub transitive :
      (a b c : V)
      → IsNumber a
      → IsNumber b
      → IsNumber c
      → metric.gt a b ≡ false
      → metric.gt b c ≡ false
      → metric.gt a c ≡ false

module _ {F V : Type 0} where
  -- No two points have one id.
  abbrev pub HaveOwnIds : List (ScoredPoint F V) → Type 0
  HaveOwnIds [] = Unit
  HaveOwnIds (p ∷ ps) = ((x : ScoredPoint F V) → In x ps → p.id ≢ x.id) × HaveOwnIds ps

module _ {F V : Type 0} (metric : Metric V) where
  -- No point is farther than any later one.
  abbrev pub IsAscending : List (ScoredPoint F V) → Type 0
  IsAscending [] = Unit
  IsAscending (p ∷ ps) =
      ((x : ScoredPoint F V) → In x ps → metric.gt p.distance x.distance ≡ false) × IsAscending ps

  In-insert_point :
      (x p : ScoredPoint F V) (qs : List (ScoredPoint F V))
      → In x (p ∷ qs)
      → In x (insert_point metric p qs)
  unfolding insert_point
  In-insert_point x p [] h = h
  In-insert_point x p (q ∷ qs) h = elim (Bool-cases (metric.gt p.distance q.distance)) [
    | inr f ↦ rw f h
    | inl t ↦ rw t (elim h [
      | inl here ↦ inr (In-insert_point x p qs (inl here))
      | inr (inl next) ↦ inl next
      | inr (inr there) ↦ inr (In-insert_point x p qs (inr there))
    ])
  ]

  insert_point-In :
      (x p : ScoredPoint F V) (qs : List (ScoredPoint F V))
      → In x (insert_point metric p qs)
      → In x (p ∷ qs)
  unfolding insert_point
  insert_point-In x p [] h = h
  insert_point-In x p (q ∷ qs) h = elim (Bool-cases (metric.gt p.distance q.distance)) [
    | inr f ↦ rw f at h
    | inl t ↦
        let h' : In x (q ∷ insert_point metric p qs) = rw t at h in
        elim h' [
          | inl next ↦ inr (inl next)
          | inr later ↦ elim (insert_point-In x p qs later) [
            | inl here ↦ inl here
            | inr there ↦ inr (inr there)
          ]
        ]
  ]

  -- The sort has the points that it was given, and no others.
  pub In-sort_by :
      (x : ScoredPoint F V) (ps : List (ScoredPoint F V)) → In x ps → In x (sort_by metric ps)
  unfolding sort_by
  In-sort_by x [] h = h
  In-sort_by x (p ∷ ps) h =
      In-insert_point x p (sort_by metric ps)
        (elim h [ inl here ↦ inl here | inr there ↦ inr (In-sort_by x ps there) ])

  pub sort_by-In :
      (x : ScoredPoint F V) (ps : List (ScoredPoint F V)) → In x (sort_by metric ps) → In x ps
  unfolding sort_by
  sort_by-In x [] h = h
  sort_by-In x (p ∷ ps) h = elim (insert_point-In x p (sort_by metric ps) h) [
    | inl here ↦ inl here
    | inr there ↦ inr (sort_by-In x ps there)
  ]

-- A list that is cut is whole, or has the length at which it is cut.
pub take-full {ℓ} :
    {A : Type ℓ} (n : ℕ) (xs : List A)
    → (length (take n xs) ≤ n) × ((drop n xs ≡ []) ⊎ (length (take n xs) ≡ n))
take-full zero xs = (omega arith, inr refl)
take-full (suc n) [] = (omega arith, inl refl)
take-full (suc n) (x ∷ xs) =
    let (few, full) = take-full n xs in
    (omega (arith, few), elim full [ inl whole ↦ inl whole | inr all ↦ inr (ap suc all) ])

module _ {F V : Type 0} (metric : Metric V) (IsNumber : V → Type 0)
    (ordered : IsOrdered metric IsNumber) where
  insert_point-IsAscending :
      (p : ScoredPoint F V) (qs : List (ScoredPoint F V))
      → ((x : ScoredPoint F V) → In x (p ∷ qs) → IsNumber x.distance)
      → IsAscending metric qs
      → IsAscending metric (insert_point metric p qs)
  unfolding insert_point
  insert_point-IsAscending p [] numbers h = ((λ x there. absurd there), tt)
  insert_point-IsAscending p (q ∷ qs) numbers h =
      elim (Bool-cases (metric.gt p.distance q.distance)) [
        | inr f ↦ rw f (
          (λ x at. elim at [
            | inl here ↦ rw here f
            | inr later ↦
                ordered.transitive p.distance q.distance x.distance (numbers p (inl refl))
                  (numbers q (inr (inl refl))) (numbers x (inr (inr later))) f (h.0 x later)
          ]),
          h,
        )
        | inl t ↦ rw t (
          (λ x at. elim (insert_point-In metric x p qs at) [
            | inl here ↦ rw here (ordered.asymmetric p.distance q.distance t)
            | inr later ↦ h.0 x later
          ]),
          insert_point-IsAscending p qs
              (λ x at. numbers x (elim at [ inl here ↦ inl here | inr later ↦ inr (inr later) ]))
              h.1,
        )
      ]

  pub sort_by-IsAscending :
      (ps : List (ScoredPoint F V))
      → ((x : ScoredPoint F V) → In x ps → IsNumber x.distance)
      → IsAscending metric (sort_by metric ps)
  unfolding sort_by
  sort_by-IsAscending [] numbers = tt
  sort_by-IsAscending (p ∷ ps) numbers =
      insert_point-IsAscending p (sort_by metric ps)
        (λ x at.
          numbers x
            (elim at [ inl here ↦ inl here | inr later ↦ inr (sort_by-In metric x ps later) ]))
        (sort_by-IsAscending ps (λ x at. numbers x (inr at)))

module _ {F V : Type 0} (metric : Metric V) where
  insert_point-HaveOwnIds :
      (p : ScoredPoint F V) (qs : List (ScoredPoint F V))
      → ((x : ScoredPoint F V) → In x qs → p.id ≢ x.id)
      → HaveOwnIds qs
      → HaveOwnIds (insert_point metric p qs)
  unfolding insert_point
  insert_point-HaveOwnIds p [] apart h = (apart, h)
  insert_point-HaveOwnIds p (q ∷ qs) apart h = elim (Bool-cases (metric.gt p.distance q.distance)) [
    | inr f ↦ rw f (apart, h)
    | inl t ↦ rw t (
      (λ x at same. elim (insert_point-In metric x p qs at) [
        | inl here ↦ apart q (inl refl) (ap (λ y. y.id) (sym here) ∙ sym same)
        | inr later ↦ h.0 x later same
      ]),
      insert_point-HaveOwnIds p qs (λ x at. apart x (inr at)) h.1,
    )
  ]

  pub sort_by-HaveOwnIds :
      (ps : List (ScoredPoint F V)) → HaveOwnIds ps → HaveOwnIds (sort_by metric ps)
  unfolding sort_by
  sort_by-HaveOwnIds [] h = tt
  sort_by-HaveOwnIds (p ∷ ps) h =
      insert_point-HaveOwnIds p (sort_by metric ps) (λ x at. h.0 x (sort_by-In metric x ps at))
        (sort_by-HaveOwnIds ps h.1)
