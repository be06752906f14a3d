-- ===== src/Engine/Collection/Consistent.antt =====
-- The invariant of `Collection`: the two offset maps are inverse, the live records are those with
-- an offset, and the postings index exactly their metadata.
use mathlib.Core.Path.{fun_ext, subst}
use rekha.Prelude.{
  ℕ, ◌+◌, ◌%◌, ◌<◌, ◌≡◌, String, Option, none, some, List, eq_iff, eq_refl, is_some, Option-cases,
  inl, inr, arith,
}
use rekha.Prelude.Dict
use rekha.Prelude.Dict.{Eqv, Dict, string_eqv, nat_eqv, get, get-insert, get-remove}
use rekha.Core.Types.{Floats, Metadata}
use rekha.Engine.Bitmap.{Bitmap}
use rekha.Engine.ValueKey.{OrderedFloats}
use rekha.Engine.Base.{Record}
use rekha.Engine.Postings.{Postings}
use rekha.Engine.Postings.Represents.{Docs, put, IsMap, Represents}
use rekha.Engine.Collection.{Collection, u32_mod}

abbrev pub metadata_of_record : {F V : Type 0} → Option (Record F V) → Option (Option (Metadata F))
metadata_of_record none = none
metadata_of_record (some r) = some r.metadata

module _ {F V B I : Type 0} where
  -- The record that an offset stands for.
  abbrev pub record_at : Collection F V B I → ℕ → Option (Record F V)
  record_at c o = elim (get c.id_by_offset o) [ none ↦ none | some id ↦ get c.records id ]

  -- What the postings should index: at each offset, the metadata of its record.
  abbrev pub docs_of : Collection F V B I → Docs F
  docs_of c o = metadata_of_record (record_at c o)

module _ {F B : Type 0} ⦃fl : Floats F⦄ ⦃of : OrderedFloats fl⦄ ⦃bm : Bitmap B⦄ where
  pub Represents-cong :
      {p : Postings F B} (docs docs' : Docs F)
      → Represents p docs
      → ((o : ℕ) → docs o ≡ docs' o)
      → Represents p docs'
  Represents-cong {p} docs docs' r h = subst (λ d. Represents p d) (fun_ext h) r

module _ {F V B I : Type 0} ⦃fl : Floats F⦄ ⦃of : OrderedFloats fl⦄ ⦃bm : Bitmap B⦄ where
  pub record IsConsistent (c : Collection F V B I) : Type 0 where
    pub forward : (id : String) (o : ℕ) → get c.offsets id ≡ some o → get c.id_by_offset o ≡ some id
    pub backward :
        (id : String) (o : ℕ) → get c.id_by_offset o ≡ some id → get c.offsets id ≡ some o
    pub below : (id : String) (o : ℕ) → get c.offsets id ≡ some o → o < c.next_offset
    pub live : (id : String) → is_some (get c.records id) ≡ is_some (get c.offsets id)
    pub maps : (id : String) (r : Record F V) → get c.records id ≡ some r → IsMap r.metadata
    pub indexed : Represents c.postings (docs_of c)

  pub next-unused :
      (c : Collection F V B I) → IsConsistent c → get c.id_by_offset c.next_offset ≡ none
  next-unused c k = elim (Option-cases (get c.id_by_offset c.next_offset)) [
    | inl e ↦ e
    | inr (j, e) ↦ absurd (omega (arith, k.below j c.next_offset (k.backward j c.next_offset e)))
  ]

  -- A record with an offset is written anew.
  pub replace-IsConsistent :
      (c : Collection F V B I) (id : String) (o : ℕ) (r : Record F V) (p : Postings F B)
      (b : List (Record F V))
      → IsConsistent c
      → get c.offsets id ≡ some o
      → IsMap r.metadata
      → Represents p (put (docs_of c) o (some r.metadata))
      → IsConsistent (record c { records = Dict.insert c.records id r; postings = p; buffer = b })
  replace-IsConsistent c id o r p b k at u q = record {
    forward = k.forward;
    backward = k.backward;
    below = k.below;
    live = λ j. ground (arith, k.live j, get-insert c.records id j r, eq_iff id j, at);
    maps = λ j s e. ground (arith, k.maps j s, get-insert c.records id j r, e, u);
    indexed = Represents-cong (put (docs_of c) o (some r.metadata)) _ q (λ o'.
        elim (Option-cases (get c.id_by_offset o')) [
          | inl none_there ↦ ground (arith, none_there, k.forward id o, at)
          | inr (j, there) ↦ ground (
            arith,
            there,
            k.forward id o at,
            k.backward j o' there,
            at,
            get-insert c.records id j r,
            eq_iff id j,
          )
        ]);
  }

  -- A record without an offset is written at the next one.
  pub extend-IsConsistent :
      (c : Collection F V B I) (id : String) (r : Record F V) (p : Postings F B)
      (b : List (Record F V))
      → IsConsistent c
      → get c.offsets id ≡ none
      → c.next_offset + 1 < u32_mod
      → IsMap r.metadata
      → Represents p (put (docs_of c) c.next_offset (some r.metadata))
      → IsConsistent (record c {
        records = Dict.insert c.records id r;
        postings = p;
        buffer = b;
        next_offset = (c.next_offset + 1) % u32_mod;
        offsets = Dict.insert c.offsets id c.next_offset;
        id_by_offset = Dict.insert c.id_by_offset c.next_offset id;
      })
  extend-IsConsistent c id r p b k at room u q =
      let n = c.next_offset in
      let unused : get c.id_by_offset n ≡ none = next-unused c k in
      record {
        forward = λ j o e. ground (
          arith,
          k.forward j o,
          k.below j o,
          e,
          get-insert c.offsets id j n,
          get-insert c.id_by_offset n o id,
          eq_iff id j,
          at,
        );
        backward = λ j o e. ground (
          arith,
          k.backward j o,
          e,
          get-insert c.offsets id j n,
          get-insert c.id_by_offset n o id,
          eq_iff id j,
          at,
        );
        below = λ j o e. ground (arith, k.below j o, e, get-insert c.offsets id j n);
        live =
            λ j. ground (arith, k.live j, get-insert c.records id j r, get-insert c.offsets id j n);
        maps = λ j s e. ground (arith, k.maps j s, get-insert c.records id j r, e, u);
        indexed = Represents-cong (put (docs_of c) n (some r.metadata)) _ q (λ o.
            elim (Option-cases (get c.id_by_offset o)) [
              | inl none_there ↦ ground (
                arith,
                none_there,
                get-insert c.id_by_offset n o id,
                get-insert c.records id id r,
                eq_refl id,
              )
              | inr (j, there) ↦ ground (
                arith,
                there,
                unused,
                k.backward j o there,
                at,
                get-insert c.id_by_offset n o id,
                get-insert c.records id j r,
                eq_iff id j,
                eq_refl id,
              )
            ]);
      }

  -- A record and its offset go away.
  pub forget-IsConsistent :
      (c : Collection F V B I) (id : String) (o : ℕ) (p : Postings F B) (b : List (Record F V))
      (i : I)
      → IsConsistent c
      → get c.offsets id ≡ some o
      → Represents p (put (docs_of c) o none)
      → IsConsistent (record c {
        records = Dict.remove c.records id;
        postings = p;
        buffer = b;
        index = i;
        offsets = Dict.remove c.offsets id;
        id_by_offset = Dict.remove c.id_by_offset o;
      })
  forget-IsConsistent c id o p b i k at q = record {
    forward = λ j o' e. ground (
      arith,
      k.forward j o',
      e,
      k.forward id o at,
      get-remove c.offsets id j,
      get-remove c.id_by_offset o o',
      eq_iff id j,
    );
    backward = λ j o' e. ground (
      arith,
      k.backward j o',
      e,
      k.forward id o at,
      get-remove c.offsets id j,
      get-remove c.id_by_offset o o',
      eq_iff id j,
      at,
    );
    below = λ j o' e. ground (arith, k.below j o', e, get-remove c.offsets id j);
    live = λ j. ground (arith, k.live j, get-remove c.records id j, get-remove c.offsets id j);
    maps = λ j s e. ground (arith, k.maps j s, get-remove c.records id j, e);
    indexed = Represents-cong (put (docs_of c) o none) _ q (λ o'.
        elim (Option-cases (get c.id_by_offset o')) [
          | inl none_there ↦ ground (arith, none_there, get-remove c.id_by_offset o o')
          | inr (j, there) ↦ ground (
            arith,
            there,
            k.backward j o' there,
            k.forward id o at,
            at,
            get-remove c.id_by_offset o o',
            get-remove c.records id j,
            eq_iff id j,
          )
        ]);
  }
