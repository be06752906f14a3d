-- ===== src/Engine/Postings/Nested/Drop.antt =====
-- `remove_all` on the nested maps of `Postings` clears one offset everywhere.
use rekha.Prelude.{ℕ, ◌≡◌, String, false, [], ◌∷◌, arith, ◌==◌, if◌then◌else◌}
use rekha.Prelude.Dict.{Eqv, Dict, string_eqv, get, get_cong, Unique}
use rekha.Engine.Bitmap.{Bitmap}
use rekha.Engine.Postings.Nested.{NestedMap, bitmap_in, drop_values, drop_in}
use rekha.Engine.Postings.Nested.Cells.{slot, cell, slot-nil}
use rekha.Engine.Postings.Nested.Unique.{AllUnique}

module _ {K B : Type 0} ⦃e : Eqv K⦄ ⦃bm : Bitmap B⦄ where
  slot-drop_values :
      (m : Dict K B) (k : K) (i o : ℕ)
      → Unique m
      → slot (drop_values m i) k o ≡ (if i == o then false else slot m k o)
  unfolding drop_values get
  slot-drop_values [] k i o u = ground (arith, bm.contains-empty o)
  slot-drop_values ((j, b) ∷ m) k i o u = ground (
    arith,
    slot-drop_values m k i o u.1,
    u.0,
    get_cong m j k,
    bm.contains-remove b i o,
    bm.is_empty-contains (bm.remove b i) o,
    bm.contains-empty o,
  )

  pub cell-drop_in :
      (m : NestedMap K B) (key : String) (k : K) (i o : ℕ)
      → Unique m
      → AllUnique m
      → cell (drop_in m i) key k o ≡ (if i == o then false else cell m key k o)
  unfolding drop_in bitmap_in get
  cell-drop_in [] key k i o u a = ground (arith, bm.contains-empty o)
  cell-drop_in ((j, km) ∷ m) key k i o u a = ground (
    arith,
    cell-drop_in m key k i o u.1 a.1,
    u.0,
    get_cong m j key,
    slot-drop_values km k i o a.0,
    slot-nil (drop_values km i) k o,
    bm.contains-empty o,
  )
