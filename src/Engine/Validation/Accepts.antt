-- ===== src/Engine/Validation/Accepts.antt =====
-- Which batches the validation accepts, and that making their operations does not panic.
use rekha.Prelude.{
  ℕ, ◌≡◌, refl, String, Bool, true, false, not, ◌&&◌, ◌||◌, Option, none, some, List, [], ◌∷◌,
  length, str_eq, ◌==◌, is_some, any, all, arith,
}
use rekha.Prelude.Dict.{string_eqv, get}
use rekha.Core.Types.{Metadata}
use rekha.Engine.Base.{EngineResult, ok, err, ◌>>◌}
use rekha.Engine.Collection.{Collection}
use rekha.Engine.Validation.{
  check_slice_lengths, check_lengths, check_dimensions, check_fresh, validate_counts, validate_add,
  check_known, validate_update,
}

abbrev pub accepted : {A : Type 0} → EngineResult A → Bool
accepted (ok a) = true
accepted (err e) = false

-- No id stands twice.
abbrev pub distinct : List String → Bool
distinct [] = true
distinct (id ∷ ids) = not (any (λ j. str_eq id j) ids) && distinct ids

-- A slice is left out, or has an entry for each id.
abbrev pub fits : {T : Type 0} → List String → Option (List T) → Bool
fits ids none = true
fits ids (some slice) = length slice == length ids

accepted-then :
    (r : EngineResult (Unit {0})) (s : EngineResult (Unit {0}))
    → accepted (r >> s) ≡ accepted r && accepted s
accepted-then (ok u) s = refl
accepted-then (err e) s = refl

slices-fits :
    {T : Type 0} (ids : List String) (slice : Option (List (Option T)))
    → accepted (check_slice_lengths ids slice) ≡ fits ids slice
unfolding check_slice_lengths
slices-fits ids none = refl
slices-fits ids (some slice) = ground arith

lengths-all :
    {V : Type 0} (es : List (List V)) (n : ℕ)
    → accepted (check_lengths es n) ≡ all (λ e. length e == n) es
unfolding check_lengths
lengths-all [] n = refl
lengths-all (e ∷ es) n = ground (arith, lengths-all es n)

dimensions-all :
    {V : Type 0} (es : List (List V)) (n : ℕ)
    → accepted (check_dimensions es n) ≡ n == 0 || all (λ e. length e == n) es
unfolding check_dimensions
dimensions-all es n = ground (arith, lengths-all es n)

-- the ids that were not seen
abbrev unseen : List String → List String → Bool
unseen seen ids = all (λ j. not (any (λ s. str_eq s j) seen)) ids

unseen-cons :
    (id : String) (seen ids : List String)
    → unseen (id ∷ seen) ids ≡ not (any (λ j. str_eq id j) ids) && unseen seen ids
unseen-cons id seen [] = refl
unseen-cons id seen (j ∷ ids) = ground (arith, unseen-cons id seen ids)

unseen-nil : (ids : List String) → unseen [] ids ≡ true
unseen-nil [] = refl
unseen-nil (id ∷ ids) = unseen-nil ids

module _ {F V B I : Type 0} where
  abbrev pub is_known : Collection F V B I → String → Bool
  is_known c id = is_some (get c.records id)

  fresh-distinct :
      (c : Collection F V B I) (seen ids : List String)
      → accepted (check_fresh c seen ids)
        ≡ all (λ id. not (is_known c id)) ids && (distinct ids && unseen seen ids)
  unfolding check_fresh
  fresh-distinct c seen [] = refl
  fresh-distinct c seen (id ∷ ids) =
      ground (arith, fresh-distinct c (id ∷ seen) ids, unseen-cons id seen ids)

  known-all :
      (c : Collection F V B I) (ids : List String)
      → accepted (check_known c ids) ≡ all (λ id. is_known c id) ids
  unfolding check_known
  known-all c [] = refl
  known-all c (id ∷ ids) = ground (arith, known-all c ids)

  counts-fit :
      (c : Collection F V B I) (ids : List String) (es : List (List V))
      (ms : Option (List (Option (Metadata F)))) (ds : Option (List (Option String)))
      → accepted (validate_counts c ids es ms ds)
        ≡ length ids == length es
          && (fits ids ms
              && (fits ids ds
                  && (c.config.dimension == 0 || all (λ e. length e == c.config.dimension) es)))
  unfolding validate_counts
  counts-fit c ids es ms ds = ground (
    arith,
    slices-fits ids ms,
    slices-fits ids ds,
    dimensions-all es c.config.dimension,
    accepted-then (check_slice_lengths ids ms >> check_slice_lengths ids ds)
        (check_dimensions es c.config.dimension),
    accepted-then (check_slice_lengths ids ms) (check_slice_lengths ids ds),
  )

  -- An add is accepted exactly when there is an embedding for each id, and metadata and a document
  -- for each if they are given, each embedding has the dimension of the collection if that is set,
  -- no id is known, and no id stands twice.
  pub validate_add-accepts :
      (c : Collection F V B I) (ids : List String) (es : List (List V))
      (ms : Option (List (Option (Metadata F)))) (ds : Option (List (Option String)))
      → accepted (validate_add c ids es ms ds)
        ≡ (length ids == length es
            && (fits ids ms
                && (fits ids ds
                    && (c.config.dimension == 0 || all (λ e. length e == c.config.dimension) es))))
          && (all (λ id. not (is_known c id)) ids && distinct ids)
  unfolding validate_add
  validate_add-accepts c ids es ms ds = ground (
    arith,
    accepted-then (validate_counts c ids es ms ds) (check_fresh c [] ids),
    counts-fit c ids es ms ds,
    fresh-distinct c [] ids,
    unseen-nil ids,
  )

  -- An update is accepted exactly when there are metadata and a document for each id, if they are
  -- given, and each id is known.
  pub validate_update-accepts :
      (c : Collection F V B I) (ids : List String) (ms : Option (List (Option (Metadata F))))
      (ds : Option (List (Option String)))
      → accepted (validate_update c ids ms ds)
        ≡ fits ids ms && (fits ids ds && all (λ id. is_known c id) ids)
  unfolding validate_update
  validate_update-accepts c ids ms ds = ground (
    arith,
    accepted-then (check_slice_lengths ids ms >> check_slice_lengths ids ds) (check_known c ids),
    accepted-then (check_slice_lengths ids ms) (check_slice_lengths ids ds),
    slices-fits ids ms,
    slices-fits ids ds,
    known-all c ids,
  )
