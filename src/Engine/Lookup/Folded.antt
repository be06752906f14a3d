-- ===== src/Engine/Lookup/Folded.antt =====
-- The record at one id after a list of operations of crates/rekha-core/src/op.rs.
use rekha.Prelude.{
  ℕ, ◌≡◌, ◌⊎◌, refl, sym, ap, ◌∙◌, String, Bool, true, false, Option, none, some, List, [], ◌∷◌,
  str_eq, eq_iff, Bool-cases, inl, inr, if◌then◌else◌,
}
use rekha.Prelude.Dict.{string_eqv, get}
use rekha.Core.Types.{Floats, Metadata}
use rekha.Core.Op.{Operation, op_id, add, update, delete, upsert}
use rekha.Wal.{WalRecord}
use rekha.Engine.Bitmap.{Bitmap}
use rekha.Engine.ValueKey.{OrderedFloats}
use rekha.Engine.Base.{Record, Index}
use rekha.Engine.Collection.{Collection, apply_operation}
use rekha.Engine.Durable.Replay.{run}
use rekha.Engine.Lookup.Written.{written, apply_operation-written}

module _ {F V : Type 0} where
  -- the record at an id after a list of operations
  abbrev pub folded :
      List (WalRecord (Operation F V)) → String → Option (Record F V) → Option (Record F V)
  folded [] id r = r
  folded (x ∷ xs) id r = folded xs id (if str_eq (op_id x.op) id then written x.op x.seq r else r)

  -- A list of operations keeps the record, makes it the same whatever it was, or changes what is
  -- not its vector.
  abbrev Effect : (Option (Record F V) → Option (Record F V)) → Type 0
  Effect f =
      ((r : Option (Record F V)) → f r ≡ r)
      ⊎ ((k : Option (Record F V)) × ((r : Option (Record F V)) → f r ≡ k))
      ⊎ ((id : String) × (m : Option (Metadata F)) × (t : Option String) × (seq : ℕ) × ((r : Option
              (Record F V))
            → f r ≡ written (update id m t) seq r))

  written-Effect : (op : Operation F V) (seq : ℕ) → Effect (written op seq)
  written-Effect (add id e m t) seq = inr (inl (_, λ r. refl))
  written-Effect (upsert id e m t) seq = inr (inl (_, λ r. refl))
  written-Effect (update id m t) seq = inr (inr (id, m, t, seq, λ r. refl))
  written-Effect (delete id) seq = inr (inl (_, λ r. refl))

  step-Effect :
      (x : WalRecord (Operation F V)) (id : String)
      → Effect (λ r. if str_eq (op_id x.op) id then written x.op x.seq r else r)
  step-Effect x id = elim (Bool-cases (str_eq (op_id x.op) id)) [
    | inl t ↦ rw t (written-Effect x.op x.seq)
    | inr f ↦ rw f (inl (λ r. refl))
  ]

  -- An update after an update leaves what the later one writes.
  update-update :
      (i j : String) (m m' : Option (Metadata F)) (t t' : Option String) (q q' : ℕ)
      (r : Option (Record F V))
      → written (update i m t) q (written (update j m' t') q' r) ≡ written (update j m t) q r
  update-update i j m m' t t' q q' none = refl
  update-update i j m m' t t' q q' (some r) = refl

  after-Effect :
      (f g : Option (Record F V) → Option (Record F V))
      → Effect f
      → Effect g
      → Effect (λ r. g (f r))
  after-Effect f g (inl same) (inl same') = inl (λ r. same' (f r) ∙ same r)
  after-Effect f g (inl same) (inr (inl (k, e))) = inr (inl (k, λ r. e (f r)))
  after-Effect f g (inl same) (inr (inr (id, m, t, q, e))) =
      inr (inr (id, m, t, q, λ r. e (f r) ∙ ap (written (update id m t) q) (same r)))
  after-Effect f g (inr (inl (k, e))) (inl same) = inr (inl (k, λ r. same (f r) ∙ e r))
  after-Effect f g (inr (inl (k, e))) (inr (inl (k', e'))) = inr (inl (k', λ r. e' (f r)))
  after-Effect f g (inr (inl (k, e))) (inr (inr (id, m, t, q, e'))) =
      inr (inl (written (update id m t) q k, λ r. e' (f r) ∙ ap (written (update id m t) q) (e r)))
  after-Effect f g (inr (inr (id, m, t, q, e))) (inl same) =
      inr (inr (id, m, t, q, λ r. same (f r) ∙ e r))
  after-Effect f g (inr (inr (id, m, t, q, e))) (inr (inl (k, e'))) = inr (inl (k, λ r. e' (f r)))
  after-Effect f g (inr (inr (id, m, t, q, e))) (inr (inr (id', m', t', q', e'))) = inr (
      inr (
        id,
        m',
        t',
        q',
        λ r.
            e' (f r)
            ∙ (ap (written (update id' m' t') q') (e r) ∙ update-update id' id m' m t' t q' q r),
      ))

  folded-Effect : (recs : List (WalRecord (Operation F V))) (id : String) → Effect (folded recs id)
  folded-Effect [] id = inl (λ r. refl)
  folded-Effect (x ∷ xs) id = after-Effect _ _ (step-Effect x id) (folded-Effect xs id)

  -- the record without its vector, if the test says so
  abbrev pub lessened : Bool → Option (Record F V) → Option (Record F V)
  lessened b none = none
  lessened b (some r) = some (if b then record r { embedding = none } else r)

  pub lessened-false : (r : Option (Record F V)) → lessened false r ≡ r
  lessened-false none = refl
  lessened-false (some r) = refl

  update-lessened :
      (id : String) (m : Option (Metadata F)) (t : Option String) (q : ℕ) (b : Bool)
      (r : Option (Record F V))
      → written (update id m t) q (lessened b (written (update id m t) q r))
        ≡ lessened b (written (update id m t) q r)
  update-lessened id m t q false none = refl
  update-lessened id m t q true none = refl
  update-lessened id m t q false (some r) = refl
  update-lessened id m t q true (some r) = refl

  again :
      (f : Option (Record F V) → Option (Record F V)) (r : Option (Record F V)) (b : Bool)
      → Effect f
      → (b' : Bool) × (f (lessened b (f r)) ≡ lessened b' (f r))
  again f r b (inl same) = (b, same (lessened b (f r)))
  again f r b (inr (inl (k, e))) =
      (false, e (lessened b (f r)) ∙ (sym (e r) ∙ sym (lessened-false (f r))))
  again f r b (inr (inr (id, m, t, q, e))) = (
    b,
    e (lessened b (f r))
        ∙ (ap (λ y. written (update id m t) q (lessened b y)) (e r)
            ∙ (update-lessened id m t q b r ∙ sym (ap (lessened b) (e r)))),
  )

  -- A list of operations on a record that it had left, whose vector may have been taken, leaves that
  -- record again, whose vector may have been taken.
  pub folded-folded :
      (recs : List (WalRecord (Operation F V))) (id : String) (r : Option (Record F V)) (b : Bool)
      → (b' : Bool) × (folded recs id (lessened b (folded recs id r))
          ≡ lessened b' (folded recs id r))
  folded-folded recs id r b = again (folded recs id) r b (folded-Effect recs id)

module _ {F V B I : Type 0} ⦃fl : Floats F⦄ ⦃of : OrderedFloats fl⦄ ⦃bm : Bitmap B⦄
    ⦃ix : Index I V⦄ where
  at_id :
      (c : Collection F V B I) (x : WalRecord (Operation F V)) (id : String)
      → (if str_eq (op_id x.op) id
          then written x.op x.seq (get c.records (op_id x.op))
          else get c.records id)
        ≡ (if str_eq (op_id x.op) id
            then written x.op x.seq (get c.records id)
            else get c.records id)
  at_id c x id = elim (Bool-cases (str_eq (op_id x.op) id)) [
    | inl t ↦ rw t (ap (λ i. written x.op x.seq (get c.records i)) ((eq_iff (op_id x.op) id).0 t))
    | inr f ↦ rw f refl
  ]

  -- Applying operations folds them at each id.
  pub run-folded :
      (c : Collection F V B I) (recs : List (WalRecord (Operation F V))) (id : String)
      → get (run c recs).records id ≡ folded recs id (get c.records id)
  run-folded c [] id = refl
  run-folded c (x ∷ xs) id =
      run-folded (apply_operation c x.op x.seq).0 xs id
      ∙ ap (folded xs id) (apply_operation-written c x.op x.seq id ∙ at_id c x id)
