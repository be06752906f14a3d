-- ===== src/Engine/Collection/MetadataEq.antt =====
-- What it means that `Update` finds the metadata of a record unchanged: the postings need no
-- change.
use rekha.Prelude.{
  ℕ, suc, ◌≤◌, ◌≡◌, refl, String, Bool, true, Option, none, some, [], ◌∷◌, eq_iff, length,
  is_some_and, Option-cases, inl, inr, arith,
}
use rekha.Prelude.Int.{eq_ℤ_iff}
use rekha.Prelude.Dict
use rekha.Prelude.Dict.{Eqv, Dict, string_eqv, get, get-remove, Unique, remove-Unique}
use rekha.Core.Types.{Floats, MetadataValue, str, bool, int, float, Metadata, as_f64}
use rekha.Engine.Bitmap.{Bitmap}
use rekha.Engine.ValueKey.{
  OrderedFloats, ValueKey, from_value, value_key_eqv, value_key_eq, value_key_eq_trans,
  value_key_eq_sym,
}
use rekha.Engine.Postings.{Postings}
use rekha.Engine.Postings.Represents.{Docs, put, carries, has_key, has_num, IsMap, Represents}
use rekha.Engine.Collection.{metadata_eq, entries_eq, value_eq}

length-remove :
    {V : Type 0} (m : Dict String V) (k : String)
    → get m k ≡ none
    → length (Dict.remove m k) ≡ length m
unfolding get Dict.remove
length-remove [] k h = refl
length-remove ((j, v) ∷ m) k h = ground (arith, length-remove m k)

length-remove_found :
    {V : Type 0} (m : Dict String V) (k : String) (v : V)
    → Unique m
    → get m k ≡ some v
    → suc (length (Dict.remove m k)) ≡ length m
unfolding get Dict.remove
length-remove_found [] k v u h = cc
length-remove_found ((j, w) ∷ m) k v u h =
    ground (arith, length-remove_found m k v u.1, length-remove m k, eq_iff j k, u.0)

module _ {F : Type 0} ⦃fl : Floats F⦄ where
  entries_eq-remove :
      (l m : Metadata F) (k : String)
      → get l k ≡ none
      → entries_eq l m ≡ true
      → entries_eq l (Dict.remove m k) ≡ true
  unfolding entries_eq get
  entries_eq-remove [] m k h e = refl
  entries_eq-remove ((j, v) ∷ l) m k h e =
      ground (arith, entries_eq-remove l m k, get-remove m k j, eq_iff k j, eq_iff j k)

  -- A map that holds all entries of another one of at least its size has no other keys.
  entries_eq-none :
      (l m : Metadata F) (k : String)
      → Unique l
      → Unique m
      → length m ≤ length l
      → entries_eq l m ≡ true
      → get l k ≡ none
      → get m k ≡ none
  unfolding entries_eq get
  entries_eq-none [] [] k u w size e h = refl
  entries_eq-none [] (x ∷ m) k u w size e h = absurd (omega arith)
  entries_eq-none ((j, v) ∷ l) m k u w size e h = elim (Option-cases (get m j)) [
    | inl gone ↦ absurd (ground (arith, e, gone))
    | inr (v', there) ↦
        let ih =
          entries_eq-none l (Dict.remove m j) k u.1 (remove-Unique m j w)
            (omega (arith, length-remove_found m j v' w there))
            (entries_eq-remove l m j u.0 (ground (arith, e))) (ground (arith, h)) in
        ground (arith, ih, get-remove m j k, h)
  ]

  entries_eq-some :
      (l m : Metadata F) (k : String) (v : MetadataValue F)
      → entries_eq l m ≡ true
      → get l k ≡ some v
      → is_some_and (get m k) (λ w. value_eq v w) ≡ true
  unfolding entries_eq get
  entries_eq-some [] m k v e h = cc
  entries_eq-some ((j, w) ∷ l) m k v e h = ground (arith, entries_eq-some l m k v, eq_iff j k)

module _ {F : Type 0} ⦃fl : Floats F⦄ ⦃of : OrderedFloats fl⦄ where
  value_eq-key :
      (v w : MetadataValue F)
      → value_eq v w ≡ true
      → value_key_eq (from_value v) (from_value w) ≡ true
  unfolding value_eq from_value
  value_eq-key (str x) (str y) h = h
  value_eq-key (bool x) (bool y) h = h
  value_eq-key (int x) (int y) h = rw ((eq_ℤ_iff x y).0 h) (of.key.beq_refl (fl.of_int y))
  value_eq-key (float x) (float y) h = of.key-of_feq x y h
  value_eq-key _ _ h = cc

  value_eq-has_key :
      (vk : ValueKey F) (v w : MetadataValue F) → value_eq v w ≡ true → has_key vk v ≡ has_key vk w
  value_eq-has_key vk v w h =
      let a = from_value v in
      let b = from_value w in
      let same = value_eq-key v w h in
      ground (
        arith,
        value_key_eq_trans b a vk (value_key_eq_sym a b same),
        value_key_eq_trans a b vk same,
      )

  value_eq-has_num :
      (f : F) (v w : MetadataValue F) → value_eq v w ≡ true → has_num f v ≡ has_num f w
  unfolding value_eq as_f64
  value_eq-has_num f (str x) (str y) h = refl
  value_eq-has_num f (bool x) (bool y) h = refl
  value_eq-has_num f (int x) (int y) h = rw ((eq_ℤ_iff x y).0 h)
  value_eq-has_num f (float x) (float y) h =
      let same = of.key-of_feq x y h in
      ground (arith, of.key.beq_trans x y f same, of.key.beq_trans y x f (of.key.beq_sym x y same))
  value_eq-has_num f _ _ h = cc

  metadata_eq-carries :
      (a b : Option (Metadata F)) (key : String) (q : MetadataValue F → Bool)
      → IsMap a
      → IsMap b
      → metadata_eq a b ≡ true
      → ((v w : MetadataValue F) → value_eq v w ≡ true → q v ≡ q w)
      → carries (some a) key q ≡ carries (some b) key q
  unfolding metadata_eq
  metadata_eq-carries none none key q u w e r = refl
  metadata_eq-carries (some l) (some m) key q u w e r = elim (Option-cases (get l key)) [
    | inl gone ↦
        rw (gone, entries_eq-none l m key u w (ground (arith, e)) (ground (arith, e)) gone) refl
    | inr (v, there) ↦ elim (Option-cases (get m key)) [
      | inl gone ↦
          absurd (ground (arith, entries_eq-some l m key v (ground (arith, e)) there, gone))
      | inr (v', there') ↦
          rw (there, there')
            (r v v' (ground (arith, entries_eq-some l m key v (ground (arith, e)) there, there')))
    ]
  ]
  metadata_eq-carries none (some m) key q u w e r = cc
  metadata_eq-carries (some l) none key q u w e r = cc

module _ {F B : Type 0} ⦃fl : Floats F⦄ ⦃of : OrderedFloats fl⦄ ⦃bm : Bitmap B⦄ where
  -- Postings of a record also are postings of the record with equal metadata.
  pub unchanged-Represents :
      {p : Postings F B} (docs : Docs F) (o : ℕ) (a b : Option (Metadata F))
      → Represents p docs
      → docs o ≡ some a
      → IsMap a
      → IsMap b
      → metadata_eq a b ≡ true
      → Represents p (put docs o (some b))
  unchanged-Represents docs o a b r at u w e = record {
    all = λ i. ground (arith, r.all i, at);
    eqs = λ key vk i. ground (
      arith,
      r.eqs key vk i,
      at,
      metadata_eq-carries a b key (has_key vk) u w e (value_eq-has_key vk),
    );
    nums = λ key f i. ground (
      arith,
      r.nums key f i,
      at,
      metadata_eq-carries a b key (has_num f) u w e (value_eq-has_num f),
    );
    eq_well = r.eq_well;
    num_well = r.num_well;
  }
