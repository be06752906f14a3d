-- ===== src/Engine/Validation/Ops.antt =====
-- The operations of a batch that was accepted: one for each id, in order, and no index is out of
-- bounds.
use rekha.Prelude.{
  ℕ, ◌+◌, ◌<◌, ◌≡◌, refl, String, true, Option, none, some, List, [], ◌∷◌, length, ==_iff,
  get_elem?-lt, map, arith,
}
use rekha.Core.Types.{Metadata}
use rekha.Core.Op.{Operation, op_id, add, update}
use rekha.Engine.Collection.{Collection}
use rekha.Engine.Validation.{
  validate_add, validate_update, entry_at, with_entries, ops_from, add_ops, update_ops,
}
use rekha.Engine.Validation.Accepts.{accepted, fits, validate_add-accepts, validate_update-accepts}

entry_at-fits :
    {T : Type 0} (ids : List String) (slice : Option (List (Option T))) (i : ℕ)
    → fits ids slice ≡ true
    → i < length ids
    → (x : Option T) × (entry_at slice i ≡ some x)
unfolding entry_at
entry_at-fits ids none i h small = (none, refl)
entry_at-fits ids (some slice) i h small = get_elem?-lt slice i (ground (arith, h, small))

module _ {F V : Type 0} where
  -- The operation is there, and is on the id.
  abbrev Makes : Option (Operation F V) → String → Type 0
  Makes r id = (op : Operation F V) × (r ≡ some op) × (op_id op ≡ id)

  with_entries-Makes :
      (ids : List String) (ms : Option (List (Option (Metadata F))))
      (ds : Option (List (Option String))) (i : ℕ) (id : String)
      (make : Option (Metadata F) → Option String → Operation F V)
      → fits ids ms ≡ true
      → fits ids ds ≡ true
      → i < length ids
      → ((m : Option (Metadata F)) (d : Option String) → op_id (make m d) ≡ id)
      → Makes (with_entries ms ds i make) id
  with_entries-Makes ids ms ds i id make fm fd small h =
      let (m, e) = entry_at-fits ids ms i fm small in
      let (d, e') = entry_at-fits ids ds i fd small in
      (make m d, rw (e, with_entries, e', with_entries) refl, h m d)

  ops_from-map :
      (make : ℕ → String → Option (Operation F V)) (i : ℕ) (ids : List String)
      → ((j : ℕ) (id : String) → j < i + length ids → Makes (make j id) id)
      → (ops : List (Operation F V)) × (ops_from make i ids ≡ some ops) × (map op_id ops ≡ ids)
  ops_from-map make i [] h = ([], refl, refl)
  ops_from-map make i (id ∷ ids) h =
      let (op, e, same) = h i id (omega arith) in
      let (ops, rest, all_same) =
        ops_from-map make (i + 1) ids (λ j id' small. h j id' (omega (arith, small))) in
      (op ∷ ops, rw (e, ops_from, rest, ops_from) refl, ground (arith, same, all_same))

module _ {F V B I : Type 0} where
  -- An add that was accepted makes one operation for each id, in their order, and does not panic at
  -- an index.
  pub add_ops-accepted :
      (c : Collection F V B I) (ids : List String) (es : List (List V))
      (ms : Option (List (Option (Metadata F)))) (ds : Option (List (Option String)))
      → accepted (validate_add c ids es ms ds) ≡ true
      → (ops : List (Operation F V)) × (add_ops ids es ms ds ≡ some ops) × (map op_id ops ≡ ids)
  unfolding add_ops op_id
  add_ops-accepted c ids es ms ds h =
      let spec = validate_add-accepts c ids es ms ds in
      let counts : length ids ≡ length es =
        ground (arith, spec, h, ==_iff (length ids) (length es)) in
      let fm : fits ids ms ≡ true = ground (arith, spec, h) in
      let fd : fits ids ds ≡ true = ground (arith, spec, h) in
      ops_from-map _ 0 ids (λ j id small.
        let (e, found) = get_elem?-lt es j (omega (arith, small, counts)) in
        rw found (
          with_entries-Makes ids ms ds j id (λ m d. add id e m d) fm fd (omega (arith, small))
            (λ m d. refl)))

  -- An update that was accepted makes one operation for each id, in their order, and does not panic.
  pub update_ops-accepted :
      (c : Collection F V B I) (ids : List String) (ms : Option (List (Option (Metadata F))))
      (ds : Option (List (Option String)))
      → accepted (validate_update c ids ms ds) ≡ true
      → (ops : List (Operation F V)) × (update_ops ids ms ds ≡ some ops) × (map op_id ops ≡ ids)
  unfolding update_ops op_id
  update_ops-accepted c ids ms ds h =
      let spec = validate_update-accepts c ids ms ds in
      let fm : fits ids ms ≡ true = ground (arith, spec, h) in
      let fd : fits ids ds ≡ true = ground (arith, spec, h) in
      ops_from-map _ 0 ids (λ j id small.
        with_entries-Makes ids ms ds j id (λ m d. update id m d) fm fd (omega (arith, small))
          (λ m d. refl))
