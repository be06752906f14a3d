-- ===== src/Engine/Postings/Nested/Cells.antt =====
-- What the three changes of the nested maps of `Postings` do to one bitmap.
use rekha.Prelude.{
  ℕ, ◌≡◌, String, Bool, true, false, ◌&&◌, [], ◌∷◌, arith, ◌==◌, str_eq, if◌then◌else◌, eq_iff,
}
use rekha.Prelude.Dict.{
  Eqv, Dict, string_eqv, get, insert, get-nil, get-insert, get-remove, get_cong,
}
use rekha.Engine.Bitmap.{Bitmap}
use rekha.Engine.Postings.Nested.{
  NestedMap, or_default, is_nil, index_in, clear_in, unindex_in, bitmap_in,
}

module _ {K B : Type 0} ⦃e : Eqv K⦄ ⦃bm : Bitmap B⦄ where
  -- whether the bitmap at `key` and `k` has the offset
  abbrev pub cell : NestedMap K B → String → K → ℕ → Bool
  cell m key k o = bm.contains (bitmap_in m key k) o

  -- the same in an inner map
  abbrev pub slot : Dict K B → K → ℕ → Bool
  slot m k o = bm.contains (or_default bm.empty (get m k)) o

  pub cell-index_in :
      (m : NestedMap K B) (key key' : String) (k k' : K) (i o : ℕ)
      → cell (index_in m key k i) key' k' o
        ≡ (if str_eq key key' && e.beq k k' && i == o then true else cell m key' k' o)
  unfolding index_in bitmap_in
  cell-index_in m key key' k k' i o =
      let km = or_default [] (get m key) in
      let b = bm.insert (or_default bm.empty (get km k)) i in
      ground (
        arith,
        get-insert m key key' (insert km k b),
        get-insert km k k' b,
        get_cong km k k',
        bm.contains-insert (or_default bm.empty (get km k)) i o,
        get_cong m key key',
        bm.contains-empty o,
        get-nil {K = K} {V = B} k',
        eq_iff key key',
      )

  slot-clear_in :
      (m : Dict K B) (k k' : K) (i o : ℕ)
      → slot (clear_in m k i) k' o ≡ (if e.beq k k' && i == o then false else slot m k' o)
  unfolding clear_in
  slot-clear_in m k k' i o =
      let b = or_default bm.empty (get m k) in
      ground (
        arith,
        get-insert m k k' (bm.remove b i),
        get-remove m k k',
        get_cong m k k',
        bm.contains-remove b i o,
        bm.is_empty-contains (bm.remove b i) o,
        bm.contains-empty o,
      )

  pub slot-nil : (m : Dict K B) (k : K) (o : ℕ) → is_nil m ≡ true → slot m k o ≡ false
  slot-nil [] k o h = ground (arith, get-nil {K = K} {V = B} k, bm.contains-empty o)
  slot-nil (x ∷ m) k o h = cc

  pub cell-unindex_in :
      (m : NestedMap K B) (key key' : String) (k k' : K) (i o : ℕ)
      → cell (unindex_in m key k i) key' k' o
        ≡ (if str_eq key key' && e.beq k k' && i == o then false else cell m key' k' o)
  unfolding unindex_in bitmap_in
  cell-unindex_in m key key' k k' i o =
      let km = or_default [] (get m key) in
      ground (
        arith,
        get-insert m key key' (clear_in km k i),
        get-remove m key key',
        get_cong m key key',
        slot-clear_in km k k' i o,
        slot-nil (clear_in km k i) k' o,
        bm.contains-empty o,
        eq_iff key key',
      )
