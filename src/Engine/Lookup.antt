-- ===== src/Engine/Lookup.antt =====
-- Reading records: `load_vector` of crates/rekha-engine/src/collection.rs, and `Engine::get` of
-- crates/rekha-engine/src/lib.rs on one collection.
pub mod Folded
pub mod Written
use rekha.Prelude.{ℕ, String, Option, none, some, List, [], ◌∷◌, get_elem?}
use rekha.Prelude.Dict.{string_eqv, get}
use rekha.Engine.Base.{Record}
use rekha.Engine.Durable.{Durable}

-- the vector that is returned: that of the segment, or else that of the record
abbrev pub or_else : {V : Type 0} → Option (List V) → Option (List V) → Option (List V)
or_else none v = v
or_else (some v) w = some v

module _ {F V B I : Type 0} where
  -- Collection::load_vector: only the first segment is asked.
  unfoldable pub load_vector : Durable F V B I → String → Option (List V)
  load_vector s id = elim (get s.segment_index id) [
    | none ↦ none
    | some offset ↦ elim s.segments [ [] ↦ none | ◌∷◌ segment segments ↦ get_elem? segment offset ]
  ]

  -- the closure of `Engine::get`
  unfoldable pub get_record : Durable F V B I → String → Option (Record F V)
  unfolding load_vector
  get_record s id = elim (get s.coll.records id) [
    | none ↦ none
    | some r ↦ some (record r { embedding = or_else (load_vector s id) r.embedding })
  ]

  -- Engine::get
  unfoldable pub get_records : Durable F V B I → List String → List (Option (Record F V))
  unfolding get_record
  get_records s [] = []
  get_records s (id ∷ ids) = get_record s id ∷ get_records s ids
