-- ===== src/Prelude/Dict.antt =====
-- `HashMap` and `BTreeMap` as association lists. The order of entries is that of the list, and
-- stands for whatever order an iteration has; a key counts up to its `Eqv` test, as in Rust.
use Prim.Native.Nat.{ℕ}
use Prim.Native.String.{String}
use mathlib.Core.Path.{◌≡◌, refl, sym}
use mathlib.Core.Logic.{inl, inr}
use mathlib.Core.Bool.{Bool, true, false, ◌||◌}
use mathlib.Core.Option.{Option, none, some}
use mathlib.Core.List.{List, [], ◌∷◌}
use native.Mathlib.Omega.{arith}
use text.Mathlib.Text.{◌==◌ as str_eq}
use text.Mathlib.TextEquality.{eq_iff}
use text.Mathlib.TextPositions.{eq_refl}
use rekha.Prelude.Tests.{◌==◌, if◌then◌else◌, Bool-cases}

-- The equality by which a map finds its keys: an equivalence, coarser than `≡` for floats.
pub record Eqv {ℓ} (K : Type ℓ) : Type ℓ where
  pub beq : K → K → Bool
  pub beq_refl : (a : K) → beq a a ≡ true
  pub beq_sym : (a b : K) → beq a b ≡ true → beq b a ≡ true
  pub beq_trans : (a b c : K) → beq a b ≡ true → beq b c ≡ true → beq a c ≡ true

pub str_eq_sym : (a b : String) → str_eq a b ≡ true → str_eq b a ≡ true
str_eq_sym a b h = (eq_iff b a).1 (sym ((eq_iff a b).0 h))

pub str_eq_trans : (a b c : String) → str_eq a b ≡ true → str_eq b c ≡ true → str_eq a c ≡ true
str_eq_trans a b c h k = rw ((eq_iff a b).0 h) k

instance abbrev pub string_eqv : Eqv String
string_eqv = record {
  beq = str_eq;
  beq_refl = eq_refl;
  beq_sym = str_eq_sym;
  beq_trans = str_eq_trans;
}

pub nat_eq_refl : (a : ℕ) → (a == a) ≡ true
nat_eq_refl a = ground arith

pub nat_eq_sym : (a b : ℕ) → (a == b) ≡ true → (b == a) ≡ true
nat_eq_sym a b h = ground arith

pub nat_eq_trans : (a b c : ℕ) → (a == b) ≡ true → (b == c) ≡ true → (a == c) ≡ true
nat_eq_trans a b c h k = ground arith

instance abbrev pub nat_eqv : Eqv ℕ
nat_eqv = record {
  beq = ◌==◌;
  beq_refl = nat_eq_refl;
  beq_sym = nat_eq_sym;
  beq_trans = nat_eq_trans;
}

abbrev pub Dict {ℓ κ} : Type ℓ → Type κ → Type (ℓ ⊔ κ)
Dict K V = List (K × V)

module _ {ℓ κ} {K : Type ℓ} {V : Type κ} ⦃e : Eqv K⦄ where
  -- map.get(&k)
  unfoldable pub get : Dict K V → K → Option V
  get [] k = none
  get ((j, v) ∷ m) k = if e.beq j k then some v else get m k

  pub get-nil : (k : K) → get [] k ≡ none
  unfolding get
  get-nil k = refl

  -- map.insert(k, v): the key of an entry that is there stays.
  unfoldable pub insert : Dict K V → K → V → Dict K V
  insert [] k v = (k, v) ∷ []
  insert ((j, w) ∷ m) k v = if e.beq j k then (j, v) ∷ m else (j, w) ∷ insert m k v

  -- map.remove(&k)
  unfoldable pub remove : Dict K V → K → Dict K V
  remove [] k = []
  remove ((j, w) ∷ m) k = let rest = remove m k in if e.beq j k then rest else (j, w) ∷ rest

  -- No two entries have one key.
  abbrev pub Unique : Dict K V → Type κ
  Unique [] = Unit
  Unique ((k, v) ∷ m) = (get m k ≡ none) × Unique m

  pub get_cong : (m : Dict K V) (i j : K) → e.beq i j ≡ true → get m i ≡ get m j
  unfolding get
  get_cong [] i j h = refl
  get_cong ((k, v) ∷ m) i j h =
      ground (arith, get_cong m i j h, e.beq_trans k i j, e.beq_trans k j i, e.beq_sym i j)

  pub get-insert :
      (m : Dict K V) (k j : K) (v : V)
      → get (insert m k v) j ≡ (if e.beq k j then some v else get m j)
  unfolding get insert
  get-insert [] k j v = refl
  get-insert ((i, w) ∷ m) k j v = ground (
    arith,
    get-insert m k j v,
    e.beq_trans i k j,
    e.beq_trans k i j,
    e.beq_trans i j k,
    e.beq_sym i k,
    e.beq_sym k j,
  )

  pub get-remove :
      (m : Dict K V) (k j : K) → get (remove m k) j ≡ (if e.beq k j then none else get m j)
  unfolding get remove
  get-remove [] k j = ground arith
  get-remove ((i, w) ∷ m) k j = ground (
    arith,
    get-remove m k j,
    e.beq_trans i k j,
    e.beq_trans i j k,
    e.beq_trans k i j,
    e.beq_sym i k,
    e.beq_sym k j,
  )

  pub remove-Unique : (m : Dict K V) (k : K) → Unique m → Unique (remove m k)
  unfolding remove
  remove-Unique [] k u = u
  remove-Unique ((j, w) ∷ m) k u = ground (arith, remove-Unique m k u.1, get-remove m k j)

  pub insert-Unique : (m : Dict K V) (k : K) (v : V) → Unique m → Unique (insert m k v)
  unfolding insert get
  insert-Unique [] k v u = (refl, tt)
  insert-Unique ((j, w) ∷ m) k v u =
      ground (arith, insert-Unique m k v u.1, get-insert m k j v, e.beq_sym k j)

  -- Some entry passes the test.
  abbrev pub any_entry : (K → V → Bool) → Dict K V → Bool
  any_entry p [] = false
  any_entry p ((k, v) ∷ m) = p k v || any_entry p m

  -- An entry that passes can be looked up by its key, since no other entry has that key.
  pub any_entry-get :
      (p : K → V → Bool) (m : Dict K V)
      → Unique m
      → any_entry p m ≡ true
      → (k : K) × (v : V) × (get m k ≡ some v) × (p k v ≡ true)
  unfolding get
  any_entry-get p [] u h = cc
  any_entry-get p ((k, v) ∷ m) u h = elim (Bool-cases (p k v)) [
    | inl t ↦ (k, v, rw (e.beq_refl k), t)
    | inr f ↦
        let (j, w, found, passes) = any_entry-get p m u.1 (ground arith) in
        (j, w, ground (arith, get_cong m k j, found, u.0), passes)
  ]

  -- A value that is looked up stands in an entry with an equal key.
  pub get-any_entry :
      (p : K → V → Bool) (m : Dict K V) (k : K) (v : V)
      → get m k ≡ some v
      → ((j : K) → e.beq j k ≡ true → p j v ≡ true)
      → any_entry p m ≡ true
  unfolding get
  get-any_entry p [] k v g h = cc
  get-any_entry p ((j, w) ∷ m) k v g h = elim (Bool-cases (e.beq j k)) [
    | inl t ↦ ground (arith, h j t)
    | inr f ↦ ground (arith, get-any_entry p m k v (ground arith) h)
  ]
