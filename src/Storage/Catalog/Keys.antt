-- ===== src/Storage/Catalog/Keys.antt =====
-- The keys of the tables that have more than one column.
use rekha.Prelude.{◌≡◌, refl, Bool, true, ◌&&◌, String, eq_iff, arith}
use rekha.Prelude.Dict.{Eqv, string_eqv}

module _ {ℓ κ} {K : Type ℓ} {L : Type κ} (e : Eqv K) (d : Eqv L) where
  abbrev pub pair_beq : K × L → K × L → Bool
  pair_beq (a, x) (b, y) = e.beq a b && d.beq x y

  pub pair_beq_refl : (p : K × L) → pair_beq p p ≡ true
  pair_beq_refl (a, x) = rw (e.beq_refl a, d.beq_refl x) refl

  pub pair_beq_sym : (p q : K × L) → pair_beq p q ≡ true → pair_beq q p ≡ true
  pair_beq_sym (a, x) (b, y) h = ground (arith, e.beq_sym a b, d.beq_sym x y)

  pub pair_beq_trans :
      (p q r : K × L) → pair_beq p q ≡ true → pair_beq q r ≡ true → pair_beq p r ≡ true
  pair_beq_trans (a, x) (b, y) (c, z) h k = ground (arith, e.beq_trans a b c, d.beq_trans x y z)

abbrev pub pair_eqv {ℓ κ} : {K : Type ℓ} {L : Type κ} → Eqv K → Eqv L → Eqv (K × L)
pair_eqv e d = record {
  beq = pair_beq e d;
  beq_refl = pair_beq_refl e d;
  beq_sym = pair_beq_sym e d;
  beq_trans = pair_beq_trans e d;
}

instance abbrev pub database_key_eqv : Eqv (String × String)
database_key_eqv = pair_eqv string_eqv string_eqv

instance abbrev pub name_key_eqv : Eqv (String × (String × String))
name_key_eqv = pair_eqv string_eqv database_key_eqv

-- When two names are one.
abbrev pub same_name : String × (String × String) → String × (String × String) → Bool
same_name = name_key_eqv.beq

pub same_name-eq : (k l : String × (String × String)) → same_name k l ≡ true → k ≡ l
same_name-eq (a, (b, c)) (d, (e, f)) h =
    let p : a ≡ d = ground (arith, eq_iff a d) in
    let q : b ≡ e = ground (arith, eq_iff b e) in
    let r : c ≡ f = ground (arith, eq_iff c f) in rw (p, q, r) refl
