-- ===== src/Storage/Catalog/Indexed.antt =====
-- The index of names and the table of collections agree, and each operation keeps that.
use rekha.Prelude.{
  ◌≡◌, refl, sym, ap, ◌∙◌, String, false, none, some, inl, inr, Bool-cases, Option-cases, str_eq,
  eq_iff, arith,
}
use rekha.Prelude.Dict
use rekha.Prelude.Dict.{Dict, string_eqv, get, get-insert, get-remove, get_cong}
use mathlib.Core.Path.{subst}
use rekha.Storage.Catalog.Keys.{name_key_eqv, same_name, same_name-eq}
use rekha.Storage.Catalog.{
  CollectionRecord, CatalogResult, CatalogError, RedbCatalog, name_key, change_record,
  delete_collection,
}

module _ {F : Type 0} where
  -- Each record has its id and is found by its name, and each name is that of a record.
  pub record IsIndexed (c : RedbCatalog F) : Type 0 where
    pub named :
        (id : String) (r : CollectionRecord F)
        → get c.collections id ≡ some r
        → (r.config.id ≡ id) × (get c.collection_by_name (name_key r.config) ≡ some id)
    pub found :
        (k : String × (String × String)) (id : String)
        → get c.collection_by_name k ≡ some id
        → (r : CollectionRecord F) × (get c.collections id ≡ some r) × (name_key r.config ≡ k)

  -- A change that leaves the id and the names.
  abbrev pub KeepsName : (CollectionRecord F → CollectionRecord F) → Type 0
  KeepsName change =
      (r : CollectionRecord F)
      → ((change r).config.id ≡ r.config.id) × (name_key (change r).config ≡ name_key r.config)

  change_record-some :
      (c : RedbCatalog F) (id : String) (change : CollectionRecord F → CollectionRecord F)
      (r : CollectionRecord F)
      → get c.collections id ≡ some r
      → change_record c id change
        ≡ (record c { collections = Dict.insert c.collections id (change r) }, CatalogResult.ok tt)
  unfolding change_record
  change_record-some c id change r e = rw (e, change_record) refl

  change_record-none :
      (c : RedbCatalog F) (id : String) (change : CollectionRecord F → CollectionRecord F)
      → get c.collections id ≡ none
      → change_record c id change ≡ (c, CatalogResult.err CatalogError.not_found)
  unfolding change_record
  change_record-none c id change e = rw (e, change_record) refl

  changed-IsIndexed :
      (c : RedbCatalog F) (id : String) (change : CollectionRecord F → CollectionRecord F)
      (r : CollectionRecord F)
      → KeepsName change
      → get c.collections id ≡ some r
      → IsIndexed c
      → IsIndexed (record c { collections = Dict.insert c.collections id (change r) })
  changed-IsIndexed c id change r keeps e h = record {
    named = λ j s at. elim (Bool-cases (str_eq id j)) [
      | inl t ↦
          let same : id ≡ j = (eq_iff id j).0 t in
          let here : change r ≡ s = ground (arith, get-insert c.collections id j (change r)) in
          let (p, q) = h.named id r e in
          subst (λ x. (x.config.id ≡ j) × (get c.collection_by_name (name_key x.config) ≡ some j))
            here ((keeps r).0 ∙ (p ∙ same), rw ((keeps r).1) (q ∙ ap some same))
      | inr f ↦ h.named j s (ground (arith, get-insert c.collections id j (change r)))
    ];
    found = λ k j at.
        let (s, p, q) = h.found k j at in
        elim (Bool-cases (str_eq id j)) [
          | inl t ↦
              let here : s ≡ r = ground (arith, (eq_iff id j).0 t, e, p) in
              (
                change r,
                ground (arith, get-insert c.collections id j (change r)),
                (keeps r).1 ∙ (ap (λ x. name_key x.config) (sym here) ∙ q),
              )
          | inr f ↦ (s, ground (arith, get-insert c.collections id j (change r)), q)
        ];
  }

  pub change_record-IsIndexed :
      (c : RedbCatalog F) (id : String) (change : CollectionRecord F → CollectionRecord F)
      → KeepsName change
      → IsIndexed c
      → IsIndexed (change_record c id change).0
  change_record-IsIndexed c id change keeps h = elim (Option-cases (get c.collections id)) [
    | inl e ↦ subst (λ p. IsIndexed p.0) (sym (change_record-none c id change e)) h
    | inr (r, e) ↦
        subst (λ p. IsIndexed p.0) (sym (change_record-some c id change r e))
          (changed-IsIndexed c id change r keeps e h)
  ]

  delete_collection-some :
      (c : RedbCatalog F) (id : String) (r : CollectionRecord F)
      → get c.collections id ≡ some r
      → delete_collection c id ≡ (
        record c {
          collections = Dict.remove c.collections id;
          collection_by_name = Dict.remove c.collection_by_name (name_key r.config);
        },
        CatalogResult.ok tt,
      )
  unfolding delete_collection
  delete_collection-some c id r e = rw (e, delete_collection) refl

  delete_collection-none :
      (c : RedbCatalog F) (id : String)
      → get c.collections id ≡ none
      → delete_collection c id ≡ (c, CatalogResult.err CatalogError.not_found)
  unfolding delete_collection
  delete_collection-none c id e = rw (e, delete_collection) refl

  deleted-named :
      (c : RedbCatalog F) (id j : String) (r s : CollectionRecord F)
      → get c.collections id ≡ some r
      → IsIndexed c
      → get (Dict.remove c.collections id) j ≡ some s
      → (s.config.id ≡ j)
        × (get (Dict.remove c.collection_by_name (name_key r.config)) (name_key s.config) ≡ some j)
  deleted-named c id j r s e h at =
      let there : get c.collections j ≡ some s = ground (arith, get-remove c.collections id j) in
      let apart : str_eq id j ≡ false = ground (arith, get-remove c.collections id j) in
      let (p, q) = h.named j s there in
      let named_id = (h.named id r e).1 in
      (
        p,
        elim (Bool-cases (same_name (name_key r.config) (name_key s.config))) [
          | inl t ↦
              let same = same_name-eq (name_key r.config) (name_key s.config) t in
              let both : get c.collection_by_name (name_key s.config) ≡ some id =
                subst (λ k. get c.collection_by_name k ≡ some id) same named_id in
              absurd (ground (arith, both, q, apart, eq_iff id j))
          | inr f ↦ get-remove c.collection_by_name (name_key r.config) (name_key s.config) ∙ rw f q
        ],
      )

  deleted-found :
      (c : RedbCatalog F) (id j : String) (k : String × (String × String)) (r : CollectionRecord F)
      → get c.collections id ≡ some r
      → IsIndexed c
      → get (Dict.remove c.collection_by_name (name_key r.config)) k ≡ some j
      → (s : CollectionRecord F) × (get (Dict.remove c.collections id) j ≡ some s)
        × (name_key s.config ≡ k)
  deleted-found c id j k r e h at =
      let removed = get-remove c.collection_by_name (name_key r.config) k in
      elim (Bool-cases (same_name (name_key r.config) k)) [
        | inl t ↦ let gone = rw t at removed in absurd (ground (arith, gone, at))
        | inr f ↦
            let (s, p, q) = h.found k j (sym (rw f at removed) ∙ at) in
            elim (Bool-cases (str_eq id j)) [
              | inl t ↦
                  let here : r ≡ s = ground (arith, (eq_iff id j).0 t, e, p) in
                  let same : name_key r.config ≡ k = ap (λ x. name_key x.config) here ∙ q in
                  absurd (
                    cc (
                      sym f
                      ∙ (ap (same_name (name_key r.config)) (sym same)
                          ∙ name_key_eqv.beq_refl (name_key r.config))))
              | inr f' ↦ (s, get-remove c.collections id j ∙ rw f' p, q)
            ]
      ]

  pub delete_collection-IsIndexed :
      (c : RedbCatalog F) (id : String) → IsIndexed c → IsIndexed (delete_collection c id).0
  delete_collection-IsIndexed c id h = elim (Option-cases (get c.collections id)) [
    | inl e ↦ subst (λ p. IsIndexed p.0) (sym (delete_collection-none c id e)) h
    | inr (r, e) ↦
        subst (λ p. IsIndexed p.0) (sym (delete_collection-some c id r e))
          (record {
            named = λ j s at. deleted-named c id j r s e h at;
            found = λ k j at. deleted-found c id j k r e h at;
          })
  ]
