-- ===== src/Wal/Bytes.antt =====
-- Little-endian integers: `to_le_bytes`, and the `le_u16`, `le_u32` and `le_u64` of
-- crates/rekha-wal/src/lib.rs.
use rekha.Prelude.{
  ℕ, zero, suc, ◌+◌, ◌*◌, ◌/◌, ◌%◌, ◌^◌, ◌<◌, ◌≡◌, refl, List, [], ◌∷◌, length, take, arith,
}
use native.Mathlib.Nat.{pow-suc}

-- `n.to_le_bytes()` of a `w`-byte integer
unfoldable pub to_le_bytes : ℕ → ℕ → List ℕ
to_le_bytes zero n = []
to_le_bytes (suc w) n = (n % 256) ∷ to_le_bytes w (n / 256)

unfoldable pub from_le_bytes : List ℕ → ℕ
from_le_bytes [] = 0
from_le_bytes (b ∷ bs) = b + 256 * from_le_bytes bs

unfoldable pub le_u16 : List ℕ → ℕ
unfolding from_le_bytes
le_u16 b = from_le_bytes (take 2 b)

unfoldable pub le_u32 : List ℕ → ℕ
unfolding from_le_bytes
le_u32 b = from_le_bytes (take 4 b)

unfoldable pub le_u64 : List ℕ → ℕ
unfolding from_le_bytes
le_u64 b = from_le_bytes (take 8 b)

pub length-to_le_bytes : (w n : ℕ) → length (to_le_bytes w n) ≡ w
unfolding to_le_bytes
length-to_le_bytes zero n = refl
length-to_le_bytes (suc w) n = omega (arith, length-to_le_bytes w (n / 256))

-- Reading back the bytes of an integer that fits.
pub from-to_le_bytes : (w n : ℕ) → n < 256 ^ w → from_le_bytes (to_le_bytes w n) ≡ n
unfolding to_le_bytes from_le_bytes
from-to_le_bytes zero n h = omega arith
from-to_le_bytes (suc w) n h =
    let fits : n / 256 < 256 ^ w = omega (arith, pow-suc 256 w) in
    omega (arith, from-to_le_bytes w (n / 256) fits)
