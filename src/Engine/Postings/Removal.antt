-- ===== src/Engine/Postings/Removal.antt =====
-- Taking records out of the postings.
use rekha.Prelude.{
  ℕ, ◌≡◌, refl, String, not, ◌&&◌, Option, none, some, [], ◌∷◌, arith, ◌==◌, str_eq, Option-cases,
  inl, inr,
}
use rekha.Prelude.Dict.{string_eqv, get, any_entry}
use rekha.Core.Types.{Floats, as_f64, Metadata}
use rekha.Engine.Bitmap.{Bitmap}
use rekha.Engine.ValueKey.{OrderedFloats, ValueKey, from_value, value_key_eqv}
use rekha.Engine.Postings.{Postings, new, remove_entry, remove_entries, remove, remove_all}
use rekha.Engine.Postings.Nested.{unindex_in, bitmap_in}
use rekha.Engine.Postings.Nested.Cells.{cell, cell-unindex_in}
use rekha.Engine.Postings.Nested.Unique.{IsWell, unindex_in-IsWell, drop_in-IsWell}
use rekha.Engine.Postings.Nested.Drop.{cell-drop_in}
use rekha.Engine.Postings.Represents.{
  Docs, put, IsMap, any_entry-get_key, has_key, has_num, Represents,
}

module _ {F B : Type 0} ⦃fl : Floats F⦄ ⦃of : OrderedFloats fl⦄ ⦃bm : Bitmap B⦄ where
  all-remove_entries :
      (i : ℕ) (m : Metadata F) (p : Postings F B) → (remove_entries i m p).all ≡ p.all
  unfolding remove_entries
  all-remove_entries i [] p = refl
  all-remove_entries i ((k, v) ∷ m) p = all-remove_entries i m (remove_entry i p k v)

  eq-remove_entries :
      (i : ℕ) (m : Metadata F) (p : Postings F B) (key : String) (vk : ValueKey F) (o : ℕ)
      → cell (remove_entries i m p).eq key vk o
        ≡ (not (i == o && any_entry (λ k v. str_eq k key && has_key vk v) m) && cell p.eq key vk o)
  unfolding remove_entries
  eq-remove_entries i [] p key vk o = ground arith
  eq-remove_entries i ((k, v) ∷ m) p key vk o = ground (
    arith,
    eq-remove_entries i m (remove_entry i p k v) key vk o,
    cell-unindex_in p.eq k key (from_value v) vk i o,
  )

  num-remove_entries :
      (i : ℕ) (m : Metadata F) (p : Postings F B) (key : String) (f : F) (o : ℕ)
      → cell ⦃e = of.key⦄ (remove_entries i m p).num key f o ≡ (
          not (i == o && any_entry (λ k v. str_eq k key && has_num f v) m)
          && cell ⦃e = of.key⦄ p.num key f o)
  unfolding remove_entries
  num-remove_entries i [] p key f o = ground arith
  num-remove_entries i ((k, v) ∷ m) p key f o = elim (Option-cases (as_f64 v)) [
    | inl e ↦ ground (arith, num-remove_entries i m (remove_entry i p k v) key f o, e)
    | inr (n, e) ↦ ground (
      arith,
      num-remove_entries i m (remove_entry i p k v) key f o,
      cell-unindex_in ⦃e = of.key⦄ p.num k key n f i o,
      e,
    )
  ]

  IsWell-remove_entries :
      (i : ℕ) (m : Metadata F) (p : Postings F B)
      → IsWell p.eq × IsWell ⦃e = of.key⦄ p.num
      → IsWell (remove_entries i m p).eq × IsWell ⦃e = of.key⦄ (remove_entries i m p).num
  unfolding remove_entries
  IsWell-remove_entries i [] p w = w
  IsWell-remove_entries i ((k, v) ∷ m) p w =
      IsWell-remove_entries i m (remove_entry i p k v)
        (unindex_in-IsWell p.eq k (from_value v) i w.0, num_well (as_f64 v))
    where
      num_well :
          (n : Option F)
          → IsWell ⦃e = of.key⦄
              (elim n [ none ↦ p.num | some n ↦ unindex_in ⦃e = of.key⦄ p.num k n i ])
      num_well none = w.1
      num_well (some n) = unindex_in-IsWell ⦃e = of.key⦄ p.num k n i w.1

  -- Un-indexing a live offset with the metadata under which it is indexed takes its record out of
  -- what the postings represent, and changes nothing else.
  pub remove-Represents :
      {p : Postings F B} {docs : Docs F} (i : ℕ) (m : Option (Metadata F))
      → Represents p docs
      → docs i ≡ some m
      → IsMap m
      → Represents (remove p i m) (put docs i none)
  unfolding remove
  remove-Represents {p} {docs} i none r live u = record {
    all = λ o. ground (arith, r.all o, bm.contains-remove p.all i o);
    eqs = λ key vk o. ground (arith, r.eqs key vk o, live);
    nums = λ key f o. ground (arith, r.nums key f o, live);
    eq_well = r.eq_well;
    num_well = r.num_well;
  }
  remove-Represents {p} {docs} i (some m) r live u =
      let q = record p { all = bm.remove p.all i } in
      let w = IsWell-remove_entries i m q (r.eq_well, r.num_well) in
      record {
        all = λ o. rw all-remove_entries (ground (arith, r.all o, bm.contains-remove p.all i o));
        eqs = λ key vk o. ground (
          arith,
          eq-remove_entries i m q key vk o,
          any_entry-get_key m key (has_key vk) u,
          r.eqs key vk o,
          live,
        );
        nums = λ key f o. ground (
          arith,
          num-remove_entries i m q key f o,
          any_entry-get_key m key (has_num f) u,
          r.nums key f o,
          live,
        );
        eq_well = w.0;
        num_well = w.1;
      }

  -- Dropping an offset from every bitmap takes its record, if it has one, out of what the postings
  -- represent, and changes nothing else.
  pub remove_all-Represents :
      {p : Postings F B} {docs : Docs F} (i : ℕ)
      → Represents p docs
      → Represents (remove_all p i) (put docs i none)
  unfolding remove_all
  remove_all-Represents {p} {docs} i r = record {
    all = λ o. ground (arith, r.all o, bm.contains-remove p.all i o);
    eqs = λ key vk o.
        ground
          (arith, cell-drop_in p.eq key vk i o r.eq_well.unique r.eq_well.inner, r.eqs key vk o);
    nums = λ key f o. ground (
      arith,
      cell-drop_in ⦃e = of.key⦄ p.num key f i o r.num_well.unique r.num_well.inner,
      r.nums key f o,
    );
    eq_well = drop_in-IsWell p.eq i r.eq_well;
    num_well = drop_in-IsWell ⦃e = of.key⦄ p.num i r.num_well;
  }

  pub new-Represents : Represents {F = F} (new {B = B}) (λ _. none)
  unfolding new get bitmap_in
  new-Represents = record {
    all = λ o. bm.contains-empty o;
    eqs = λ key vk o. bm.contains-empty o;
    nums = λ key f o. bm.contains-empty o;
    eq_well = record { unique = tt; inner = tt };
    num_well = record { unique = tt; inner = tt };
  }
