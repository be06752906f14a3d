-- ===== src/Engine/Postings/Nested.antt =====
-- The nested maps of `Postings`, key → value → offsets, and the three ways in which
-- crates/rekha-engine/src/postings.rs changes them.
pub mod Cells
pub mod Unique
pub mod Drop
pub mod Union
use rekha.Prelude.{ℕ, String, Bool, true, false, Option, none, some, List, [], ◌∷◌, if◌then◌else◌}
use rekha.Prelude.Dict.{Eqv, Dict, string_eqv, get, insert, remove}
use rekha.Engine.Bitmap.{Bitmap}

abbrev pub NestedMap : Type 0 → Type 0 → Type 0
NestedMap K B = Dict String (Dict K B)

abbrev pub or_default {ℓ} : {A : Type ℓ} → A → Option A → A
or_default d none = d
or_default d (some a) = a

-- An empty map is not kept.
abbrev pub is_nil {ℓ} : {A : Type ℓ} → List A → Bool
is_nil [] = true
is_nil (x ∷ xs) = false

module _ {K B : Type 0} ⦃e : Eqv K⦄ ⦃bm : Bitmap B⦄ where
  -- `m.entry(key).or_default().entry(k).or_default().insert(offset)`
  unfoldable pub index_in : NestedMap K B → String → K → ℕ → NestedMap K B
  index_in m key k offset =
      let key_map = or_default [] (get m key) in
      insert m key (insert key_map k (bm.insert (or_default bm.empty (get key_map k)) offset))

  -- Take `offset` out of the bitmap at `k`, and drop the bitmap if nothing is left.
  unfoldable pub clear_in : Dict K B → K → ℕ → Dict K B
  clear_in key_map k offset = elim (get key_map k) [
    | none ↦ key_map
    | some b ↦
        if bm.is_empty (bm.remove b offset)
        then remove key_map k
        else insert key_map k (bm.remove b offset)
  ]

  unfoldable pub unindex_in : NestedMap K B → String → K → ℕ → NestedMap K B
  unfolding clear_in
  unindex_in m key k offset = elim (get m key) [
    | none ↦ m
    | some key_map ↦
        if is_nil (clear_in key_map k offset)
        then remove m key
        else insert m key (clear_in key_map k offset)
  ]

  -- `m.get(key).and_then(|key_map| key_map.get(k)).cloned().unwrap_or_default()`
  unfoldable pub bitmap_in : NestedMap K B → String → K → B
  bitmap_in m key k = elim (get m key) [
    | none ↦ bm.empty
    | some key_map ↦ or_default bm.empty (get key_map k)
  ]

module _ {K B : Type 0} ⦃bm : Bitmap B⦄ where
  -- `values_mut` with `remove`, then `retain` of what is not empty
  unfoldable pub drop_values : Dict K B → ℕ → Dict K B
  drop_values [] offset = []
  drop_values ((k, b) ∷ m) offset =
      let rest = drop_values m offset in
      if bm.is_empty (bm.remove b offset) then rest else (k, bm.remove b offset) ∷ rest

  unfoldable pub drop_in : NestedMap K B → ℕ → NestedMap K B
  unfolding drop_values
  drop_in [] offset = []
  drop_in ((key, key_map) ∷ m) offset =
      let rest = drop_in m offset in
      if is_nil (drop_values key_map offset) then rest else (key, drop_values key_map offset) ∷ rest

  -- `fold(RoaringBitmap::new(), |acc, bm| acc | bm)` over the entries that pass a test
  unfoldable pub union_where : (K → Bool) → Dict K B → B → B
  union_where test [] acc = acc
  union_where test ((k, b) ∷ m) acc = union_where test m (if test k then bm.union acc b else acc)
