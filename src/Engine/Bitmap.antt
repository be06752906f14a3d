-- ===== src/Engine/Bitmap.antt =====
-- `roaring::RoaringBitmap`: the sets of offsets that the postings hold. The crate is not part of
-- the program, so its operations are an interface with the laws of a finite set; its `len` counts
-- what `iter` gives.
use rekha.Prelude.{ℕ, ◌≡◌, Bool, true, false, not, ◌&&◌, ◌||◌, ◌==◌, if◌then◌else◌, List, any}

pub record Bitmap (B : Type 0) : Type 0 where
  pub empty : B
  pub insert : B → ℕ → B
  pub remove : B → ℕ → B
  pub union : B → B → B
  pub inter : B → B → B
  pub diff : B → B → B
  pub contains : B → ℕ → Bool
  pub is_empty : B → Bool
  pub contains-empty : (o : ℕ) → contains empty o ≡ false
  pub contains-insert :
      (b : B) (i o : ℕ) → contains (insert b i) o ≡ (if i == o then true else contains b o)
  pub contains-remove :
      (b : B) (i o : ℕ) → contains (remove b i) o ≡ (if i == o then false else contains b o)
  pub contains-union : (a b : B) (o : ℕ) → contains (union a b) o ≡ (contains a o || contains b o)
  pub contains-inter : (a b : B) (o : ℕ) → contains (inter a b) o ≡ (contains a o && contains b o)
  pub contains-diff :
      (a b : B) (o : ℕ) → contains (diff a b) o ≡ (contains a o && not (contains b o))
  pub is_empty-contains : (b : B) (o : ℕ) → is_empty b ≡ true → contains b o ≡ false
  pub iter : B → List ℕ
  pub contains-iter : (b : B) (o : ℕ) → any (λ i. i == o) (iter b) ≡ contains b o
