-- ===== src/Engine/Postings/Nested/Unique.antt =====
-- The changes of the nested maps of `Postings` keep their keys unique.
use rekha.Prelude.{ℕ, ◌≡◌, refl, String, none, [], ◌∷◌, arith, str_eq, Bool-cases, inl, inr}
use rekha.Prelude.Dict.{
  Eqv, Dict, string_eqv, get, insert, remove, Unique, insert-Unique, remove-Unique,
}
use rekha.Engine.Bitmap.{Bitmap}
use rekha.Engine.Postings.Nested.{
  NestedMap, or_default, index_in, clear_in, unindex_in, drop_values, drop_in,
}

module _ {K B : Type 0} ⦃e : Eqv K⦄ ⦃bm : Bitmap B⦄ where
  -- every inner map has unique keys
  abbrev pub AllUnique : NestedMap K B → Type 0
  AllUnique [] = Unit
  AllUnique ((key, km) ∷ m) = Unique km × AllUnique m

  AllUnique-insert :
      (m : NestedMap K B) (key : String) (km : Dict K B)
      → AllUnique m
      → Unique km
      → AllUnique (insert m key km)
  unfolding insert
  AllUnique-insert [] key km a u = (u, tt)
  AllUnique-insert ((j, kn) ∷ m) key km a u = ground (arith, AllUnique-insert m key km a.1 u)

  AllUnique-remove : (m : NestedMap K B) (key : String) → AllUnique m → AllUnique (remove m key)
  unfolding remove
  AllUnique-remove [] key a = tt
  AllUnique-remove ((j, kn) ∷ m) key a = ground (arith, AllUnique-remove m key a.1)

  pub AllUnique-get :
      (m : NestedMap K B) (key : String) → AllUnique m → Unique (or_default [] (get m key))
  unfolding get
  AllUnique-get [] key a = tt
  AllUnique-get ((j, kn) ∷ m) key a = elim (Bool-cases (str_eq j key)) [
    | inl t ↦ rw t a.0
    | inr f ↦ rw f (AllUnique-get m key a.1)
  ]

  -- Keys are unique, in the outer map and in each inner map.
  pub record IsWell (m : NestedMap K B) : Type 0 where
    pub unique : Unique m
    pub inner : AllUnique m

  pub index_in-IsWell :
      (m : NestedMap K B) (key : String) (k : K) (i : ℕ) → IsWell m → IsWell (index_in m key k i)
  unfolding index_in
  index_in-IsWell m key k i w =
      let km = or_default [] (get m key) in
      let b = bm.insert (or_default bm.empty (get km k)) i in
      record {
        unique = insert-Unique m key (insert km k b) w.unique;
        inner =
            AllUnique-insert m key (insert km k b) w.inner
              (insert-Unique km k b (AllUnique-get m key w.inner));
      }

  clear_in-Unique : (m : Dict K B) (k : K) (i : ℕ) → Unique m → Unique (clear_in m k i)
  unfolding clear_in
  clear_in-Unique m k i u =
      let b = or_default bm.empty (get m k) in
      ground (arith, remove-Unique m k u, insert-Unique m k (bm.remove b i) u)

  pub unindex_in-IsWell :
      (m : NestedMap K B) (key : String) (k : K) (i : ℕ) → IsWell m → IsWell (unindex_in m key k i)
  unfolding unindex_in
  unindex_in-IsWell m key k i w =
      let km = or_default [] (get m key) in
      let u = clear_in-Unique km k i (AllUnique-get m key w.inner) in
      ground (
        arith,
        u,
        remove-Unique m key w.unique,
        insert-Unique m key (clear_in km k i) w.unique,
        AllUnique-remove m key w.inner,
        AllUnique-insert m key (clear_in km k i) w.inner u,
      )

  get-drop_values : (m : Dict K B) (k : K) (i : ℕ) → get m k ≡ none → get (drop_values m i) k ≡ none
  unfolding drop_values get
  get-drop_values [] k i h = refl
  get-drop_values ((j, b) ∷ m) k i h = ground (arith, get-drop_values m k i)

  drop_values-Unique : (m : Dict K B) (i : ℕ) → Unique m → Unique (drop_values m i)
  unfolding drop_values
  drop_values-Unique [] i u = tt
  drop_values-Unique ((j, b) ∷ m) i u =
      ground (arith, drop_values-Unique m i u.1, get-drop_values m j i u.0)

  get-drop_in :
      (m : NestedMap K B) (key : String) (i : ℕ) → get m key ≡ none → get (drop_in m i) key ≡ none
  unfolding drop_in get
  get-drop_in [] key i h = refl
  get-drop_in ((j, km) ∷ m) key i h = ground (arith, get-drop_in m key i)

  drop_in-Unique : (m : NestedMap K B) (i : ℕ) → Unique m → Unique (drop_in m i)
  unfolding drop_in
  drop_in-Unique [] i u = tt
  drop_in-Unique ((j, km) ∷ m) i u = ground (arith, drop_in-Unique m i u.1, get-drop_in m j i u.0)

  drop_in-AllUnique : (m : NestedMap K B) (i : ℕ) → AllUnique m → AllUnique (drop_in m i)
  unfolding drop_in
  drop_in-AllUnique [] i a = tt
  drop_in-AllUnique ((j, km) ∷ m) i a =
      ground (arith, drop_in-AllUnique m i a.1, drop_values-Unique km i a.0)

  pub drop_in-IsWell : (m : NestedMap K B) (i : ℕ) → IsWell m → IsWell (drop_in m i)
  drop_in-IsWell m i w = record {
    unique = drop_in-Unique m i w.unique;
    inner = drop_in-AllUnique m i w.inner;
  }
