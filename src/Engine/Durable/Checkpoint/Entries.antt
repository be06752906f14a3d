-- ===== src/Engine/Durable/Checkpoint/Entries.antt =====
-- The entries of a checkpoint, in their order and at their positions.
use rekha.Prelude.{
  ℕ, ◌+◌, ◌≡◌, refl, ap, ◌∙◌, String, Option, none, some, List, [], ◌∷◌, ◌++◌, length, get_elem?,
  leb, if◌then◌else◌, arith, length-append,
}
use rekha.Prelude.Dict.{
  Dict, string_eqv, get, insert, Unique, get-insert, get_cong, str_eq_sym, str_eq_trans,
}
use rekha.Engine.Base.{Record}
use rekha.Engine.Durable.Open.{strip}
use rekha.Engine.Durable.Checkpoint.{
  entries_of, insert_entry, sort_by_key, vectors_of, positions_from,
}

-- The vector of a record that may be there.
abbrev pub vector_of : {F V : Type 0} → Option (Record F V) → Option (List V)
vector_of none = none
vector_of (some r) = r.embedding

module _ {F V : Type 0} where
  pub get-entries_of :
      (rs : Dict String (Record F V)) (id : String)
      → Unique rs
      → get (entries_of rs) id ≡ vector_of (get rs id)
  unfolding entries_of get
  get-entries_of [] id u = refl
  get-entries_of ((j, r) ∷ rs) id u =
      ground (arith, get-entries_of rs id u.1, get_cong rs j id, u.0)

  pub entries_of-Unique : (rs : Dict String (Record F V)) → Unique rs → Unique (entries_of rs)
  unfolding entries_of
  entries_of-Unique [] u = tt
  entries_of-Unique ((j, r) ∷ rs) u =
      ground (arith, entries_of-Unique rs u.1, get-entries_of rs j u.1, u.0)

module _ {V : Type 0} where
  get-insert_entry :
      (e : String × List V) (es : Dict String (List V)) (id : String)
      → get es e.0 ≡ none
      → get (insert_entry e es) id ≡ get (e ∷ es) id
  unfolding insert_entry get
  get-insert_entry e [] id fresh = refl
  get-insert_entry e ((j, w) ∷ es) id fresh = ground (
    arith,
    get-insert_entry e es id,
    str_eq_sym j e.0,
    str_eq_sym id e.0,
    str_eq_sym j id,
    str_eq_trans j id e.0,
    str_eq_sym e.0 id,
  )

  insert_entry-Unique :
      (e : String × List V) (es : Dict String (List V))
      → get es e.0 ≡ none
      → Unique es
      → Unique (insert_entry e es)
  unfolding insert_entry get
  insert_entry-Unique e [] fresh u = (refl, tt)
  insert_entry-Unique e ((j, w) ∷ es) fresh u = ground (
    arith,
    insert_entry-Unique e es,
    get-insert_entry e es j,
    str_eq_sym j e.0,
    str_eq_sym e.0 j,
    u,
  )

  pub get-sort_by_key :
      (es : Dict String (List V))
      → Unique es
      → Unique (sort_by_key es) × ((id : String) → get (sort_by_key es) id ≡ get es id)
  unfolding sort_by_key get
  get-sort_by_key [] u = (tt, λ id. refl)
  get-sort_by_key (e ∷ es) u =
      let (unique, same) = get-sort_by_key es u.1 in
      let fresh = same e.0 ∙ u.0 in
      (
        insert_entry-Unique e (sort_by_key es) fresh unique,
        λ id. get-insert_entry e (sort_by_key es) id fresh ∙ ground (arith, same id),
      )

  -- What an index of positions finds in a list of vectors.
  abbrev pub located : Option ℕ → List (List V) → Option (List V)
  located none vs = none
  located (some i) vs = get_elem? vs i

  abbrev pub or_located : Option (List V) → Option (List V) → Option (List V)
  or_located (some v) o = some v
  or_located none o = o

  get_elem?-middle :
      (vs : List (List V)) (v : List V) (ws : List (List V))
      → get_elem? (vs ++ v ∷ ws) (length vs) ≡ some v
  get_elem?-middle [] v ws = refl
  get_elem?-middle (x ∷ vs) v ws = get_elem?-middle vs v ws

  append-cons :
      (vs : List (List V)) (v : List V) (ws : List (List V)) → (vs ++ v ∷ []) ++ ws ≡ vs ++ v ∷ ws
  append-cons [] v ws = refl
  append-cons (x ∷ vs) v ws = ap (λ l. x ∷ l) (append-cons vs v ws)

  length-snoc : (vs : List (List V)) (v : List V) → length (vs ++ v ∷ []) ≡ length vs + 1
  length-snoc vs v = omega (arith, length-append vs (v ∷ []))

  pub located-positions_from :
      (vs : List (List V)) (idx : Dict String ℕ) (es : Dict String (List V)) (id : String)
      → Unique es
      → located (get (positions_from (length vs) idx es) id) (vs ++ vectors_of es)
        ≡ or_located (get es id) (located (get idx id) (vs ++ vectors_of es))
  unfolding positions_from vectors_of get
  located-positions_from vs idx [] id u = refl
  located-positions_from vs idx ((j, v) ∷ es) id u =
      let step = located-positions_from (vs ++ v ∷ []) (insert idx j (length vs)) es id u.1 in
      let ih = rw (append-cons vs v (vectors_of es), length-snoc vs v) at step in
      ground (
        arith,
        ih,
        get-insert idx j id (length vs),
        get_elem?-middle vs v (vectors_of es),
        get_cong es j id,
        u.0,
      )

-- The record with its embedding dropped, if the checkpoint covers it.
abbrev pub covered : {F V : Type 0} → ℕ → Option (Record F V) → Option (Record F V)
covered n none = none
covered n (some r) = some (if leb r.seq n then record r { embedding = none } else r)

module _ {F V : Type 0} where
  pub get-strip :
      (n : ℕ) (rs : Dict String (Record F V)) (id : String)
      → get (strip n rs) id ≡ covered n (get rs id)
  unfolding strip get
  get-strip n [] id = refl
  get-strip n ((j, r) ∷ rs) id = ground (arith, get-strip n rs id)

  pub strip-Unique : (n : ℕ) (rs : Dict String (Record F V)) → Unique rs → Unique (strip n rs)
  unfolding strip
  strip-Unique n [] u = tt
  strip-Unique n ((j, r) ∷ rs) u = ground (arith, strip-Unique n rs u.1, get-strip n rs j, u.0)
