-- ===== src/Entities/Index/Exact.antt =====
-- entities.py, `build_entity_index`: the whole index.
use python_arch_testing.Base.{
  Bool-cases, Eq, In, In-sort_by, List, Text, [], ap, eq_nat, eq_pair, eq_text, inl, inr, some,
  subst, sym, text_eq_iff, ◌==◌, ◌↔◌, ◌≡◌, ◌≢◌,
}
use python_arch_testing.Entities.{
  Entity, EntityIndex, build_entity_index, core_key, entity_le, sort_index_lists,
}
use python_arch_testing.Entities.Index.{
  Finds, by_core-add_entities, by_fp-add_entities, by_name-add_entities, by_sig-add_entities,
  collect, Finds-built, fingerprint_key,
}

module _ {X : Type 0} where
  found_as :
      {K : Type 0} ⦃e : Eq K⦄ (key : Entity X → K) (entities : List (Entity X)) (k : K)
      (a : Entity X)
      → Finds (sort_index_lists (collect (λ b. some (key b)) entities [])) k a
        ↔ (In a entities × (key a ≡ k))
  found_as key entities k a = (
    λ i. let p = (Finds-built (λ b. some (key b)) entities k a).0 i in (p.0, cc p.1),
    λ p. (Finds-built (λ b. some (key b)) entities k a).1 (p.0, ap (λ z. some z) p.1),
  )

  fingerprint_key_iff :
      (a : Entity X) (k : Text × Text)
      → (fingerprint_key a ≡ some k)
        ↔ ((a.ast_fingerprint ≢ []) × ((a.kind, a.ast_fingerprint) ≡ k))
  unfolding fingerprint_key
  fingerprint_key_iff a k = elim (Bool-cases (a.ast_fingerprint == [])) [
    | inl h ↦ rw h (λ q. absurd (cc q), λ p. absurd (p.0 ((text_eq_iff _ _).0 h)))
    | inr h ↦ rw h (
      λ q. (λ z. cc (h, (text_eq_iff a.ast_fingerprint []).1 z), cc q),
      λ p. ap (λ z. some z) p.1,
    )
  ]

  abbrev pub IndexExact : List (Entity X) → EntityIndex X → Type 0
  IndexExact entities index =
      ((k : Text) (a : Entity X) → Finds index.by_core k a ↔ (In a entities × (core_key a ≡ k)))
      × ((k : Text × Text) (a : Entity X)
          → Finds index.by_name k a ↔ (In a entities × ((a.kind, a.name) ≡ k)))
      × ((k : Text × Text) (a : Entity X)
          → Finds index.by_sig k a ↔ (In a entities × ((a.kind, a.signature_key) ≡ k)))
      × ((k : Text × Text) (a : Entity X)
          → Finds index.by_fp k a
            ↔ (In a entities × ((a.ast_fingerprint ≢ []) × ((a.kind, a.ast_fingerprint) ≡ k))))
      × ((a : Entity X) → In a index.all_sorted ↔ In a entities)

  -- The index finds under a key exactly the given entities that have this key: by module, qualified
  -- name, kind and signature, by kind and name, by kind and signature, and by kind and fingerprint
  -- where the entity has one; the sorted list has exactly the given entities.
  pub build_entity_index_exact :
      (entities : List (Entity X)) → IndexExact entities (build_entity_index entities)
  unfolding build_entity_index
  build_entity_index_exact entities = (
    λ k a.
        subst (λ d. Finds (sort_index_lists d) k a ↔ (In a entities × (core_key a ≡ k)))
          (sym (by_core-add_entities entities _)) (found_as core_key entities k a),
    λ k a.
        subst (λ d. Finds (sort_index_lists d) k a ↔ (In a entities × ((a.kind, a.name) ≡ k)))
          (sym (by_name-add_entities entities _)) (found_as (λ b. (b.kind, b.name)) entities k a),
    λ k a.
        subst
          (λ d. Finds (sort_index_lists d) k a ↔ (In a entities × ((a.kind, a.signature_key) ≡ k)))
          (sym (by_sig-add_entities entities _))
          (found_as (λ b. (b.kind, b.signature_key)) entities k a),
    λ k a.
        subst
          (λ d.
            Finds (sort_index_lists d) k a
            ↔ (In a entities × ((a.ast_fingerprint ≢ []) × ((a.kind, a.ast_fingerprint) ≡ k))))
          (sym (by_fp-add_entities entities _))
          (
            λ i.
                let p = (Finds-built fingerprint_key entities k a).0 i in
                (p.0, (fingerprint_key_iff a k).0 p.1),
            λ p.
                (Finds-built fingerprint_key entities k a).1 (p.0, (fingerprint_key_iff a k).1 p.1),
          ),
    λ a. In-sort_by entity_le a entities,
  )
