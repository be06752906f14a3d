-- ===== src/Engine/Collection/Release.antt =====
-- A delete keeps the invariant of the collection: its part about the offsets, and its end.
use mathlib.Core.Path.{subst}
use rekha.Prelude.{
  ℕ, ◌≡◌, refl, sym, String, Option, none, some, List, eq_iff, Option-cases, inl, inr, arith,
}
use rekha.Prelude.Dict
use rekha.Prelude.Dict.{Eqv, Dict, string_eqv, nat_eqv, get, get-insert, get-remove}
use rekha.Core.Types.{Floats}
use rekha.Engine.Bitmap.{Bitmap}
use rekha.Engine.ValueKey.{OrderedFloats}
use rekha.Engine.Base.{Record}
use rekha.Engine.Postings
use rekha.Engine.Postings.{Postings}
use rekha.Engine.Postings.Represents.{put}
use rekha.Engine.Postings.Removal.{remove_all-Represents}
use rekha.Engine.Collection.{Collection, unindex_old, release_offset, index_result, retain_others}
use rekha.Engine.Collection.Consistent.{docs_of, IsConsistent, Represents-cong, forget-IsConsistent}
use rekha.Engine.Collection.Unindex.{unindexed, no_record}

module _ {F V B I : Type 0} ⦃fl : Floats F⦄ ⦃of : OrderedFloats fl⦄ ⦃bm : Bitmap B⦄ where
  -- Without an offset there is nothing to forget.
  absent-IsConsistent :
      (c : Collection F V B I) (id : String) (b : List (Record F V)) (i : I)
      → IsConsistent c
      → get c.offsets id ≡ none
      → IsConsistent (record c { records = Dict.remove c.records id; buffer = b; index = i })
  absent-IsConsistent c id b i k at =
      let gone = no_record c id k at in
      record {
        forward = k.forward;
        backward = k.backward;
        below = k.below;
        live = λ j. ground (arith, k.live j, get-remove c.records id j, at, eq_iff id j);
        maps = λ j s e. ground (arith, k.maps j s, get-remove c.records id j, e);
        indexed = Represents-cong (docs_of c) _ k.indexed (λ o.
            elim (Option-cases (get c.id_by_offset o)) [
              | inl none_there ↦ ground (arith, none_there)
              | inr (j, there) ↦
                  ground
                    (arith, there, k.backward j o there, at, get-remove c.records id j, eq_iff id j)
            ]);
      }

  abbrev pub dropped : Collection F V B I → String → I → Collection F V B I
  dropped c id i = record c {
    records = Dict.remove c.records id;
    buffer = retain_others id c.buffer;
    index = i;
  }

  release_offset-none :
      (c : Collection F V B I) (id : String) → get c.offsets id ≡ none → release_offset c id ≡ c
  unfolding release_offset
  release_offset-none c id e = rw (e, release_offset) refl

  release_offset-some :
      (c : Collection F V B I) (id : String) (o : ℕ)
      → get c.offsets id ≡ some o
      → release_offset c id ≡ record c {
        postings = Postings.remove_all (unindex_old c.postings o (get c.records id)) o;
        id_by_offset = Dict.remove c.id_by_offset o;
        offsets = Dict.remove c.offsets id;
      }
  unfolding release_offset
  release_offset-some c id o e = rw (e, release_offset) refl

  -- The state of a delete, whatever the index answers.
  pub released :
      (c : Collection F V B I) (id : String) (i : I)
      → IsConsistent c
      → IsConsistent (dropped (release_offset c id) id i)
  released c id i k = elim (Option-cases (get c.offsets id)) [
    | inl none_yet ↦
        subst (λ x. IsConsistent (dropped x id i)) (sym (release_offset-none c id none_yet))
          (absent-IsConsistent c id _ i k none_yet)
    | inr (o, at) ↦
        subst (λ x. IsConsistent (dropped x id i)) (sym (release_offset-some c id o at))
          (forget-IsConsistent c id o _ _ i k at (
            Represents-cong (put (put (docs_of c) o none) o none) _
              (remove_all-Represents o (unindexed c id o k at)) (λ o'. ground arith)))
  ]

  pub index_result-IsConsistent :
      (c : Collection F V B I) (r : Option I)
      → ((i : I) → IsConsistent (record c { index = i }))
      → IsConsistent (index_result c r).0
  unfolding index_result
  index_result-IsConsistent c none k = k c.index
  index_result-IsConsistent c (some i) k = k i
