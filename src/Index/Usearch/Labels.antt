-- ===== src/Index/Usearch/Labels.antt =====
-- The two maps of an index are inverse to each other, and no label is given twice.
use rekha.Prelude.{
  ℕ, ◌+◌, ◌%◌, ◌≡◌, ◌<◌, refl, sym, ◌∙◌, String, true, false, none, some, List, [], ◌∷◌, length,
  ltb, ◌==◌, str_eq, inl, inr, Bool-cases, Option-cases, eq_iff, eq_refl, ◌≤◌, arith,
}
use mathlib.Core.Path.{subst}
use rekha.Prelude.Dict
use rekha.Prelude.Dict.{Dict, string_eqv, nat_eqv, get, get-insert, get-remove}
use rekha.Core.Types.{Distance}
use rekha.Core.Config.{HnswConfig}
use rekha.Wal.{u64_mod}
use rekha.Engine.Base.{IndexHit}
use rekha.Index.Usearch.{
  Graph, UsearchIndex, ok, with_hnsw, ensure_capacity, insert_vector, add, delete, hits_of, search,
  contains,
}

-- Each id and its label find one another, and a label that is in use was handed out.
pub record AreInverse {G : Type 0} (s : UsearchIndex G) : Type 0 where
  pub to_id : (id : String) (l : ℕ) → get s.labels id ≡ some l → get s.ids l ≡ some id
  pub to_label : (l : ℕ) (id : String) → get s.ids l ≡ some id → get s.labels id ≡ some l
  pub handed_out : (l : ℕ) (id : String) → get s.ids l ≡ some id → l < s.next_label

module _ {G V : Type 0} (graph : Graph G V) where
  -- The maps of a new index are empty.
  pub with_hnsw-AreInverse :
      (space : Distance) (dimension : ℕ) (hnsw : HnswConfig) (s : UsearchIndex G)
      → with_hnsw graph space dimension hnsw ≡ ok s
      → AreInverse s
  unfolding with_hnsw get
  with_hnsw-AreInverse space dimension hnsw s made =
      elim (Option-cases (graph.new space dimension hnsw)) [
        | inl e ↦ absurd (ground (arith, rw (e, with_hnsw) at made))
        | inr (g, e) ↦
            let empty : UsearchIndex G = record {
              inner = g;
              space = space;
              dimension = dimension;
              labels = [];
              ids = [];
              next_label = 0;
            } in
            let same : empty ≡ s = ground (arith, rw (e, with_hnsw) at made) in
            subst AreInverse same (record {
              to_id = λ id l h. ground arith;
              to_label = λ l id h. ground arith;
              handed_out = λ l id h. ground arith;
            })
      ]

  -- Maps that have the same entries.
  AreInverse-same :
      (s t : UsearchIndex G)
      → ((id : String) → get t.labels id ≡ get s.labels id)
      → ((l : ℕ) → get t.ids l ≡ get s.ids l)
      → ltb t.next_label s.next_label ≡ false
      → AreInverse s
      → AreInverse t
  AreInverse-same s t labels ids later h = record {
    to_id = λ id l e. ids l ∙ h.to_id id l (sym (labels id) ∙ e);
    to_label = λ l id e. labels id ∙ h.to_label l id (sym (ids l) ∙ e);
    handed_out = λ l id e. ground (arith, h.handed_out l id (sym (ids l) ∙ e));
  }

  inserted-AreInverse :
      (s : UsearchIndex G) (g : G) (id : String)
      → get s.labels id ≡ none
      → s.next_label + 1 < u64_mod
      → AreInverse s
      → AreInverse (record s {
        inner = g;
        labels = Dict.insert s.labels id s.next_label;
        ids = Dict.insert s.ids s.next_label id;
        next_label = (s.next_label + 1) % u64_mod;
      })
  inserted-AreInverse s g id fresh unused h = record {
    to_id = λ j l e. elim (Bool-cases (str_eq id j)) [
      | inl t ↦
          let same : id ≡ j = (eq_iff id j).0 t in
          ground
            (arith, get-insert s.labels id j s.next_label, get-insert s.ids s.next_label l id, same)
      | inr f ↦
          let old : get s.labels j ≡ some l =
            ground (arith, get-insert s.labels id j s.next_label) in
          let used = h.handed_out l j (h.to_id j l old) in
          ground (arith, get-insert s.ids s.next_label l id, h.to_id j l old, used)
    ];
    to_label = λ l j e. elim (Bool-cases (s.next_label == l)) [
      | inl t ↦
          let same : id ≡ j = ground (arith, get-insert s.ids s.next_label l id) in
          ground (arith, get-insert s.labels id j s.next_label, (eq_iff id j).1 same)
      | inr f ↦
          let old : get s.ids l ≡ some j = ground (arith, get-insert s.ids s.next_label l id) in
          let there = h.to_label l j old in
          ground (arith, get-insert s.labels id j s.next_label, there, fresh, eq_iff id j)
    ];
    handed_out = λ l j e. elim (Bool-cases (s.next_label == l)) [
      | inl t ↦ ground arith
      | inr f ↦
          let old : get s.ids l ≡ some j = ground (arith, get-insert s.ids s.next_label l id) in
          ground (arith, h.handed_out l j old)
    ];
  }

  unused_label : (s : UsearchIndex G) → AreInverse s → get s.ids s.next_label ≡ none
  unused_label s h = elim (Option-cases (get s.ids s.next_label)) [
    | inl e ↦ e
    | inr (id, e) ↦ absurd (omega (arith, h.handed_out s.next_label id e))
  ]

  rolled_back-AreInverse :
      (s : UsearchIndex G) (g : G) (id : String)
      → get s.labels id ≡ none
      → s.next_label + 1 < u64_mod
      → AreInverse s
      → AreInverse (record s {
        inner = g;
        labels = Dict.remove (Dict.insert s.labels id s.next_label) id;
        ids = Dict.remove (Dict.insert s.ids s.next_label id) s.next_label;
        next_label = (s.next_label + 1) % u64_mod;
      })
  rolled_back-AreInverse s g id fresh unused h =
      AreInverse-same s _
        (λ j. ground (
          arith,
          get-remove (Dict.insert s.labels id s.next_label) id j,
          get-insert s.labels id j s.next_label,
          eq_iff id j,
          fresh,
        ))
        (λ l. ground (
          arith,
          get-remove (Dict.insert s.ids s.next_label id) s.next_label l,
          get-insert s.ids s.next_label l id,
          unused_label s h,
        ))
        (ground arith) h

  insert_vector-AreInverse :
      (s : UsearchIndex G) (g : G) (id : String) (v : List V)
      → get s.labels id ≡ none
      → s.next_label + 1 < u64_mod
      → AreInverse s
      → AreInverse (insert_vector graph s g id v).0
  unfolding insert_vector
  insert_vector-AreInverse s g id v fresh unused h =
      elim (Option-cases (graph.add g s.next_label v)) [
        | inl e ↦ rw (e, insert_vector) (rolled_back-AreInverse s g id fresh unused h)
        | inr (g', e) ↦ rw (e, insert_vector) (inserted-AreInverse s g' id fresh unused h)
      ]

  -- An add to the index keeps the maps from ids to labels and back inverse to each other, with
  -- every label in use below the next one, also where the vector is refused and the maps are rolled
  -- back. The labels of 64 bits must not be used up.
  pub add-AreInverse :
      (s : UsearchIndex G) (id : String) (v : List V)
      → s.next_label + 1 < u64_mod
      → AreInverse s
      → AreInverse (add graph s id v).0
  unfolding add
  add-AreInverse s id v unused h = elim (Bool-cases (length v == s.dimension)) [
    | inr e ↦ rw e h
    | inl e ↦ elim (Option-cases (get s.labels id)) [
      | inr (l, there) ↦ rw (e, there) h
      | inl fresh ↦ elim (Option-cases (ensure_capacity graph s.inner)) [
        | inl full ↦ rw (e, fresh, full) h
        | inr (g, room) ↦ rw (e, fresh, room) (insert_vector-AreInverse s g id v fresh unused h)
      ]
    ]
  ]

  deleted-AreInverse :
      (s : UsearchIndex G) (g : G) (id : String) (label : ℕ)
      → get s.labels id ≡ some label
      → AreInverse s
      → AreInverse
          (record s { inner = g; labels = Dict.remove s.labels id; ids = Dict.remove s.ids label })
  deleted-AreInverse s g id label there h = record {
    to_id = λ j l e.
        let old : get s.labels j ≡ some l = ground (arith, get-remove s.labels id j) in
        let back = h.to_id j l old in
        let mine = h.to_id id label there in
        ground (arith, get-remove s.labels id j, get-remove s.ids label l, back, mine, eq_iff id j);
    to_label = λ l j e.
        let old : get s.ids l ≡ some j = ground (arith, get-remove s.ids label l) in
        let back = h.to_label l j old in
        ground
          (arith, get-remove s.labels id j, get-remove s.ids label l, back, there, eq_iff id j);
    handed_out = λ l j e. h.handed_out l j (ground (arith, get-remove s.ids label l));
  }

  pub delete-AreInverse :
      (s : UsearchIndex G) (id : String)
      → AreInverse s
      → AreInverse (delete graph s id) × (contains graph (delete graph s id) id ≡ false)
  unfolding delete contains
  delete-AreInverse s id h = elim (Option-cases (get s.labels id)) [
    | inl e ↦ rw (e, delete) (h, rw e refl)
    | inr (label, e) ↦
        rw (e, delete)
          (
            deleted-AreInverse s (graph.remove s.inner label) id label e h,
            ground (arith, get-remove s.labels id id, eq_refl id),
          )
  ]

  -- Every hit is an id that the index contains.
  abbrev pub AllContained : UsearchIndex G → List (IndexHit V) → Type 0
  AllContained s [] = Unit
  AllContained s (hit ∷ hits) = (contains graph s hit.id ≡ true) × AllContained s hits

  hits_of-AllContained :
      (s : UsearchIndex G) (found : List (ℕ × V))
      → AreInverse s
      → AllContained s (hits_of graph s.ids found)
        × (length (hits_of graph s.ids found) ≤ length found)
  unfolding hits_of contains
  hits_of-AllContained s [] h = (tt, omega arith)
  hits_of-AllContained s ((label, distance) ∷ found) h =
      let (all, few) = hits_of-AllContained s found h in
      elim (Option-cases (get s.ids label)) [
        | inl e ↦ rw (e, hits_of) (all, omega (arith, few))
        | inr (id, e) ↦ rw (e, hits_of) ((rw (h.to_label label id e) refl, all), omega (arith, few))
      ]

  -- If the maps are inverse to each other, each hit of a search that succeeds is an id that the
  -- index contains, whatever labels the graph returns.
  pub search-AllContained :
      (s : UsearchIndex G) (query : List V) (k ef : ℕ) (hits : List (IndexHit V))
      → AreInverse s
      → search graph s query k ef ≡ ok hits
      → AllContained s hits
  unfolding search
  search-AllContained s query k ef hits h e = elim (Bool-cases (length query == s.dimension)) [
    | inr f ↦ absurd (ground (arith, rw f at e))
    | inl t ↦
        elim (Option-cases (graph.search (graph.change_expansion_search s.inner ef) query k)) [
          | inl f ↦ absurd (ground (arith, rw (t, f) at e))
          | inr (found, f) ↦
              subst (AllContained s) (ground (arith, rw (t, f) at e))
                (hits_of-AllContained s found h).0
        ]
  ]
