-- ===== src/Engine/Postings/Represents.antt =====
-- The postings as a function of the indexed records: what `insert`, `remove` and `remove_all`
-- mean.
use rekha.Prelude.{
  ℕ, ◌≡◌, refl, String, Bool, ◌&&◌, ◌||◌, Option, none, some, [], ◌∷◌, arith, ◌==◌, str_eq,
  if◌then◌else◌, Bool-cases, Option-cases, inl, inr, is_some_and, is_some,
}
use rekha.Prelude.Dict.{string_eqv, get, Unique, any_entry, get_cong}
use rekha.Core.Types.{Floats, MetadataValue, as_f64, Metadata}
use rekha.Engine.Bitmap.{Bitmap}
use rekha.Engine.ValueKey.{OrderedFloats, ValueKey, from_value, value_key_eqv, value_key_eq}
use rekha.Engine.Postings.{Postings, insert_entry, insert_entries, insert}
use rekha.Engine.Postings.Nested.{index_in}
use rekha.Engine.Postings.Nested.Cells.{cell, cell-index_in}
use rekha.Engine.Postings.Nested.Unique.{IsWell, index_in-IsWell}

-- The indexed records: each live offset with its metadata.
abbrev pub Docs : Type 0 → Type 0
Docs F = ℕ → Option (Option (Metadata F))

abbrev pub put : {F : Type 0} → Docs F → ℕ → Option (Option (Metadata F)) → Docs F
put docs i d o = if i == o then d else docs o

-- The value of an indexed record at a key.
abbrev pub value_at :
    {F : Type 0} → Option (Option (Metadata F)) → String → Option (MetadataValue F)
value_at none key = none
value_at (some none) key = none
value_at (some (some m)) key = get m key

-- The record has a value at `key`, and it passes the test.
abbrev pub carries :
    {F : Type 0} → Option (Option (Metadata F)) → String → (MetadataValue F → Bool) → Bool
carries d key q = is_some_and (value_at d key) q

-- Metadata is a map: each key stands once in it.
abbrev pub IsMap : {F : Type 0} → Option (Metadata F) → Type 0
IsMap none = Unit
IsMap (some m) = Unique m

pub any_entry-get_key :
    {F : Type 0} (m : Metadata F) (key : String) (q : MetadataValue F → Bool)
    → Unique m
    → any_entry (λ k v. str_eq k key && q v) m ≡ is_some_and (get m key) q
unfolding get
any_entry-get_key [] key q u = refl
any_entry-get_key ((k, v) ∷ m) key q u =
    ground (arith, any_entry-get_key m key q u.1, get_cong m k key, u.0)

module _ {F : Type 0} ⦃fl : Floats F⦄ ⦃of : OrderedFloats fl⦄ where
  abbrev pub has_key : ValueKey F → MetadataValue F → Bool
  has_key vk v = value_key_eq (from_value v) vk

  abbrev pub has_num : F → MetadataValue F → Bool
  has_num f v = is_some_and (as_f64 v) (λ n. of.key.beq n f)

module _ {F B : Type 0} ⦃fl : Floats F⦄ ⦃of : OrderedFloats fl⦄ ⦃bm : Bitmap B⦄ where
  -- Each offset is in exactly the bitmaps that its record's metadata asks for.
  pub record Represents (p : Postings F B) (docs : Docs F) : Type 0 where
    pub all : (o : ℕ) → bm.contains p.all o ≡ is_some (docs o)
    pub eqs :
        (key : String) (vk : ValueKey F) (o : ℕ)
        → cell p.eq key vk o ≡ carries (docs o) key (has_key vk)
    pub nums :
        (key : String) (f : F) (o : ℕ)
        → cell ⦃e = of.key⦄ p.num key f o ≡ carries (docs o) key (has_num f)
    pub eq_well : IsWell p.eq
    pub num_well : IsWell ⦃e = of.key⦄ p.num

  all-insert_entries :
      (i : ℕ) (m : Metadata F) (p : Postings F B) → (insert_entries i m p).all ≡ p.all
  unfolding insert_entries
  all-insert_entries i [] p = refl
  all-insert_entries i ((k, v) ∷ m) p = all-insert_entries i m (insert_entry i p k v)

  eq-insert_entries :
      (i : ℕ) (m : Metadata F) (p : Postings F B) (key : String) (vk : ValueKey F) (o : ℕ)
      → cell (insert_entries i m p).eq key vk o
        ≡ (i == o && any_entry (λ k v. str_eq k key && has_key vk v) m || cell p.eq key vk o)
  unfolding insert_entries
  eq-insert_entries i [] p key vk o = ground arith
  eq-insert_entries i ((k, v) ∷ m) p key vk o = ground (
    arith,
    eq-insert_entries i m (insert_entry i p k v) key vk o,
    cell-index_in p.eq k key (from_value v) vk i o,
  )

  num-insert_entries :
      (i : ℕ) (m : Metadata F) (p : Postings F B) (key : String) (f : F) (o : ℕ)
      → cell ⦃e = of.key⦄ (insert_entries i m p).num key f o ≡ (
          i == o && any_entry (λ k v. str_eq k key && has_num f v) m
          || cell ⦃e = of.key⦄ p.num key f o)
  unfolding insert_entries
  num-insert_entries i [] p key f o = ground arith
  num-insert_entries i ((k, v) ∷ m) p key f o = elim (Option-cases (as_f64 v)) [
    | inl e ↦ ground (arith, num-insert_entries i m (insert_entry i p k v) key f o, e)
    | inr (n, e) ↦ ground (
      arith,
      num-insert_entries i m (insert_entry i p k v) key f o,
      cell-index_in ⦃e = of.key⦄ p.num k key n f i o,
      e,
    )
  ]

  IsWell-insert_entries :
      (i : ℕ) (m : Metadata F) (p : Postings F B)
      → IsWell p.eq × IsWell ⦃e = of.key⦄ p.num
      → IsWell (insert_entries i m p).eq × IsWell ⦃e = of.key⦄ (insert_entries i m p).num
  unfolding insert_entries
  IsWell-insert_entries i [] p w = w
  IsWell-insert_entries i ((k, v) ∷ m) p w =
      IsWell-insert_entries i m (insert_entry i p k v)
        (index_in-IsWell p.eq k (from_value v) i w.0, num_well (as_f64 v))
    where
      num_well :
          (n : Option F)
          → IsWell ⦃e = of.key⦄
              (elim n [ none ↦ p.num | some n ↦ index_in ⦃e = of.key⦄ p.num k n i ])
      num_well none = w.1
      num_well (some n) = index_in-IsWell ⦃e = of.key⦄ p.num k n i w.1

  -- Indexing an offset that is not live, with metadata that has no key twice, adds its record to
  -- what the postings represent, and changes nothing else.
  pub insert-Represents :
      {p : Postings F B} {docs : Docs F} (i : ℕ) (m : Option (Metadata F))
      → Represents p docs
      → docs i ≡ none
      → IsMap m
      → Represents (insert p i m) (put docs i (some m))
  unfolding insert
  insert-Represents {p} {docs} i none r fresh u = record {
    all = λ o. ground (arith, r.all o, bm.contains-insert p.all i o);
    eqs = λ key vk o. elim (Bool-cases (i == o)) [
      | inl t ↦ ground (arith, r.eqs key vk i, fresh, t)
      | inr f ↦ rw f (r.eqs key vk o)
    ];
    nums = λ key f o. ground (arith, r.nums key f o, r.nums key f i, fresh);
    eq_well = r.eq_well;
    num_well = r.num_well;
  }
  insert-Represents {p} {docs} i (some m) r fresh u =
      let q = record p { all = bm.insert p.all i } in
      let w = IsWell-insert_entries i m q (r.eq_well, r.num_well) in
      record {
        all = λ o. rw all-insert_entries (ground (arith, r.all o, bm.contains-insert p.all i o));
        eqs = λ key vk o. ground (
          arith,
          eq-insert_entries i m q key vk o,
          any_entry-get_key m key (has_key vk) u,
          r.eqs key vk o,
          fresh,
        );
        nums = λ key f o. ground (
          arith,
          num-insert_entries i m q key f o,
          any_entry-get_key m key (has_num f) u,
          r.nums key f o,
          fresh,
        );
        eq_well = w.0;
        num_well = w.1;
      }
