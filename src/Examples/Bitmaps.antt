-- ===== src/Examples/Bitmaps.antt =====
-- Bitmaps as lists of offsets.
use rekha.Prelude.{
  ℕ, ◌≡◌, refl, Bool, true, false, not, ◌&&◌, ◌||◌, List, [], ◌∷◌, ◌++◌, ◌==◌, ==_iff,
  if◌then◌else◌, any, arith,
}
use rekha.Engine.Bitmap.{Bitmap}

abbrev pub contains : List ℕ → ℕ → Bool
contains b o = any (λ i. i == o) b

abbrev keep : (ℕ → Bool) → List ℕ → List ℕ
keep p [] = []
keep p (i ∷ b) = let rest = keep p b in if p i then i ∷ rest else rest

abbrev is_empty : List ℕ → Bool
is_empty [] = true
is_empty (i ∷ b) = false

pub contains-keep :
    (p : ℕ → Bool) (b : List ℕ) (o : ℕ) → contains (keep p b) o ≡ (contains b o && p o)
contains-keep p [] o = refl
contains-keep p (i ∷ b) o = ground (arith, contains-keep p b o, ==_iff i o)

pub contains-append : (a b : List ℕ) (o : ℕ) → contains (a ++ b) o ≡ (contains a o || contains b o)
contains-append [] b o = refl
contains-append (i ∷ a) b o = ground (arith, contains-append a b o)

pub contains-cons :
    (b : List ℕ) (i o : ℕ) → contains (i ∷ b) o ≡ (if i == o then true else contains b o)
contains-cons b i o = ground arith

pub contains-remove :
    (b : List ℕ) (i o : ℕ)
    → contains (keep (λ j. not (i == j)) b) o ≡ (if i == o then false else contains b o)
contains-remove b i o = ground (arith, contains-keep (λ j. not (i == j)) b o)

pub is_empty-contains : (b : List ℕ) (o : ℕ) → is_empty b ≡ true → contains b o ≡ false
is_empty-contains b o h = ground arith

instance abbrev pub list_bitmap : Bitmap (List ℕ)
list_bitmap = record {
  empty = [];
  insert = λ b i. i ∷ b;
  remove = λ b i. keep (λ j. not (i == j)) b;
  union = λ a b. a ++ b;
  inter = λ a b. keep (contains b) a;
  diff = λ a b. keep (λ j. not (contains b j)) a;
  contains = contains;
  is_empty = is_empty;
  contains-empty = λ o. refl;
  contains-insert = contains-cons;
  contains-remove = contains-remove;
  contains-union = contains-append;
  contains-inter = λ a b o. contains-keep (contains b) a o;
  contains-diff = λ a b o. contains-keep (λ j. not (contains b j)) a o;
  is_empty-contains = is_empty-contains;
  iter = λ b. b;
  contains-iter = λ b o. refl;
}
