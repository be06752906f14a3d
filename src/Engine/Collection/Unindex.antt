-- ===== src/Engine/Collection/Unindex.antt =====
-- The records of a collection against its postings: a live offset, and its removal.
use rekha.Prelude.{ℕ, ◌≡◌, String, none, some, Option-cases, inl, inr, arith}
use rekha.Prelude.Dict.{string_eqv, nat_eqv, get}
use rekha.Core.Types.{Floats}
use rekha.Engine.Bitmap.{Bitmap}
use rekha.Engine.ValueKey.{OrderedFloats}
use rekha.Engine.Base.{Record}
use rekha.Engine.Postings.Represents.{put, Represents}
use rekha.Engine.Postings.Removal.{remove-Represents}
use rekha.Engine.Collection.{Collection, unindex_old}
use rekha.Engine.Collection.Consistent.{docs_of, IsConsistent}

module _ {F V B I : Type 0} ⦃fl : Floats F⦄ ⦃of : OrderedFloats fl⦄ ⦃bm : Bitmap B⦄ where
  pub docs_of-live :
      (c : Collection F V B I) (id : String) (o : ℕ) (r : Record F V)
      → IsConsistent c
      → get c.offsets id ≡ some o
      → get c.records id ≡ some r
      → docs_of c o ≡ some r.metadata
  docs_of-live c id o r k at e = ground (arith, k.forward id o at, e)

  -- What is left of the postings once the old metadata of the record is gone.
  pub unindexed :
      (c : Collection F V B I) (id : String) (o : ℕ)
      → IsConsistent c
      → get c.offsets id ≡ some o
      → Represents (unindex_old c.postings o (get c.records id)) (put (docs_of c) o none)
  unfolding unindex_old
  unindexed c id o k at = elim (Option-cases (get c.records id)) [
    | inl gone ↦ absurd (ground (arith, k.live id, at, gone))
    | inr (r, e) ↦
        rw e
          (remove-Represents o r.metadata k.indexed (docs_of-live c id o r k at e) (k.maps id r e))
  ]

  pub no_record :
      (c : Collection F V B I) (id : String)
      → IsConsistent c
      → get c.offsets id ≡ none
      → get c.records id ≡ none
  no_record c id k e = ground (arith, k.live id, e)
