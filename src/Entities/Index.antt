-- ===== src/Entities/Index.antt =====
-- entities.py, `build_entity_index`: what the index finds under a key.
pub mod Exact
use python_arch_testing.Base.{
  Bool-cases, Dict, Eq, In, In-append, In-sort_by, List, Option, Text, [], ap, eq_nat, eq_pair,
  eq_text, if◌then◌else◌, inl, inr, insert, lookup, lookup-insert, none, refl, some, subst, sym,
  ◌==◌, ◌↔◌, ◌∙◌, ◌∷◌, ◌≡◌, ◌≢◌, ◌⊎◌,
}
use python_arch_testing.Entities.{
  Entity, EntityIndex, append_at, values_of, add_entities, add_entity, core_key, entity_le,
  sort_entities, sort_index_lists,
}

module _ {X : Type 0} where
  module _ {K : Type 0} ⦃e : Eq K⦄ where
    abbrev pub Finds : Dict K (List (Entity X)) → K → Entity X → Type 0
    Finds index key a = In a (values_of (lookup key index))

    Finds-none :
        (d : Dict K (List (Entity X))) (k : K) (a : Entity X) → lookup k d ≡ none → ¬ Finds d k a
    Finds-none d k a h i = subst (λ o. In a (values_of o)) h i

    Finds-insert :
        (d : Dict K (List (Entity X))) (j k : K) (xs : List (Entity X)) (a : Entity X)
        → Finds (insert j xs d) k a ↔ (((j ≡ k) × In a xs) ⊎ ((j ≢ k) × Finds d k a))
    Finds-insert d j k xs a = elim (Bool-cases (j == k)) [
      | inl h ↦
          rw (lookup-insert j k xs d, h)
            (
              λ i. inl ((e.beq_iff j k).0 h, i),
              λ o. elim o [ inl p ↦ p.1 | inr p ↦ absurd (p.0 ((e.beq_iff j k).0 h)) ],
            )
      | inr h ↦
          rw (lookup-insert j k xs d, h)
            (
              λ i. inr (λ q. absurd (cc (h, (e.beq_iff j k).1 q)), i),
              λ o. elim o [ inl p ↦ absurd (cc (h, (e.beq_iff j k).1 p.0)) | inr p ↦ p.1 ],
            )
    ]

    Finds-append_at :
        (d : Dict K (List (Entity X))) (j k : K) (b a : Entity X)
        → Finds (append_at j b d) k a ↔ (Finds d k a ⊎ ((j ≡ k) × (a ≡ b)))
    unfolding append_at
    Finds-append_at d j k b a = (
      λ i. elim ((Finds-insert d j k _ a).0 i) [
        | inl p ↦ elim ((In-append a (values_of (lookup j d)) (b ∷ [])).0 p.1) [
          | inl m ↦ inl (subst (λ z. Finds d z a) p.0 m)
          | inr h ↦ elim h [ inl h ↦ inr (p.0, h) | inr n ↦ absurd n ]
        ]
        | inr p ↦ inl p.1
      ],
      λ o. elim (Bool-cases (j == k)) [
        | inl h ↦
            let q = (e.beq_iff j k).0 h in
            (Finds-insert d j k _ a).1 (
              inl (
                q,
                (In-append a (values_of (lookup j d)) (b ∷ [])).1 (elim o [
                  | inl m ↦ inl (subst (λ z. Finds d z a) (sym q) m)
                  | inr p ↦ inr (inl p.1)
                ]),
              ))
        | inr h ↦
            let q : j ≢ k = λ q. cc (h, (e.beq_iff j k).1 q) in
            (Finds-insert d j k _ a).1 (elim o [ inl m ↦ inr (q, m) | inr p ↦ absurd (q p.0) ])
      ],
    )

    -- The loop for one of the dictionaries, with the key that an entity has in it.
    append_some : Option K → Entity X → Dict K (List (Entity X)) → Dict K (List (Entity X))
    append_some none a d = d
    append_some (some k) a d = append_at k a d

    Finds-append_some :
        (o : Option K) (d : Dict K (List (Entity X))) (k : K) (b a : Entity X)
        → Finds (append_some o b d) k a ↔ (Finds d k a ⊎ ((o ≡ some k) × (a ≡ b)))
    unfolding append_some
    Finds-append_some none d k b a =
        (λ i. inl i, λ o. elim o [ inl i ↦ i | inr p ↦ absurd (cc p.0) ])
    Finds-append_some (some j) d k b a = (
      λ i. elim ((Finds-append_at d j k b a).0 i) [
        | inl m ↦ inl m
        | inr p ↦ inr (ap (λ z. some z) p.0, p.1)
      ],
      λ o. (Finds-append_at d j k b a).1 (elim o [ inl m ↦ inl m | inr p ↦ inr (cc p.0, p.1) ]),
    )

    pub collect :
        (Entity X → Option K)
        → List (Entity X)
        → Dict K (List (Entity X))
        → Dict K (List (Entity X))
    collect key [] d = d
    collect key (b ∷ entities) d = collect key entities (append_some (key b) b d)

    Finds-collect :
        (key : Entity X → Option K) (entities : List (Entity X)) (d : Dict K (List (Entity X)))
        (k : K) (a : Entity X)
        → Finds (collect key entities d) k a ↔ (Finds d k a ⊎ (In a entities × (key a ≡ some k)))
    unfolding collect
    Finds-collect key [] d k a = (λ i. inl i, λ o. elim o [ inl i ↦ i | inr p ↦ absurd p.0 ])
    Finds-collect key (b ∷ entities) d k a = (
      λ i. elim ((Finds-collect key entities (append_some (key b) b d) k a).0 i) [
        | inl m ↦ elim ((Finds-append_some (key b) d k b a).0 m) [
          | inl n ↦ inl n
          | inr p ↦ inr (inl p.1, ap key p.1 ∙ p.0)
        ]
        | inr p ↦ inr (inr p.0, p.1)
      ],
      λ o. (Finds-collect key entities (append_some (key b) b d) k a).1 (elim o [
        | inl m ↦ inl ((Finds-append_some (key b) d k b a).1 (inl m))
        | inr p ↦ elim p.0 [
          | inl h ↦ inl ((Finds-append_some (key b) d k b a).1 (inr (sym (ap key h) ∙ p.1, h)))
          | inr m ↦ inr (m, p.1)
        ]
      ]),
    )

    Finds-sorted :
        (d : Dict K (List (Entity X))) (k : K) (a : Entity X)
        → Finds (sort_index_lists d) k a ↔ Finds d k a
    unfolding sort_index_lists sort_entities lookup
    Finds-sorted [] k a = (λ i. i, λ i. i)
    Finds-sorted ((j, xs) ∷ d) k a = elim (Bool-cases (j == k)) [
      | inl h ↦ rw h (In-sort_by entity_le a xs)
      | inr h ↦ rw h (Finds-sorted d k a)
    ]

    -- What a finished dictionary finds.
    pub Finds-built :
        (key : Entity X → Option K) (entities : List (Entity X)) (k : K) (a : Entity X)
        → Finds (sort_index_lists (collect key entities [])) k a
          ↔ (In a entities × (key a ≡ some k))
    unfolding lookup
    Finds-built key entities k a = (
      λ i.
          elim ((Finds-collect key entities [] k a).0
            ((Finds-sorted (collect key entities []) k a).0 i)) [ inl m ↦ absurd m | inr p ↦ p ],
      λ p.
          (Finds-sorted (collect key entities []) k a).1
            ((Finds-collect key entities [] k a).1 (inr p)),
    )

  pub fingerprint_key : Entity X → Option (Text × Text)
  fingerprint_key a = if a.ast_fingerprint == [] then none else some (a.kind, a.ast_fingerprint)

  pub by_core-add_entities :
      (entities : List (Entity X)) (ix : EntityIndex X)
      → (add_entities entities ix).by_core ≡ collect (λ a. some (core_key a)) entities ix.by_core
  unfolding add_entities add_entity collect append_some
  by_core-add_entities [] ix = refl
  by_core-add_entities (b ∷ entities) ix = by_core-add_entities entities (add_entity b ix)

  pub by_name-add_entities :
      (entities : List (Entity X)) (ix : EntityIndex X)
      → (add_entities entities ix).by_name
        ≡ collect (λ a. some (a.kind, a.name)) entities ix.by_name
  unfolding add_entities add_entity collect append_some
  by_name-add_entities [] ix = refl
  by_name-add_entities (b ∷ entities) ix = by_name-add_entities entities (add_entity b ix)

  pub by_sig-add_entities :
      (entities : List (Entity X)) (ix : EntityIndex X)
      → (add_entities entities ix).by_sig
        ≡ collect (λ a. some (a.kind, a.signature_key)) entities ix.by_sig
  unfolding add_entities add_entity collect append_some
  by_sig-add_entities [] ix = refl
  by_sig-add_entities (b ∷ entities) ix = by_sig-add_entities entities (add_entity b ix)

  append_fingerprint :
      (b : Entity X) (d : Dict (Text × Text) (List (Entity X)))
      → (if b.ast_fingerprint == [] then d else append_at (b.kind, b.ast_fingerprint) b d)
        ≡ append_some (fingerprint_key b) b d
  unfolding append_some fingerprint_key
  append_fingerprint b d = elim (Bool-cases (b.ast_fingerprint == [])) [
    | inl h ↦ rw h refl
    | inr h ↦ rw h refl
  ]

  pub by_fp-add_entities :
      (entities : List (Entity X)) (ix : EntityIndex X)
      → (add_entities entities ix).by_fp ≡ collect fingerprint_key entities ix.by_fp
  unfolding add_entities add_entity collect
  by_fp-add_entities [] ix = refl
  by_fp-add_entities (b ∷ entities) ix =
      by_fp-add_entities entities (add_entity b ix)
      ∙ ap (collect fingerprint_key entities) (append_fingerprint b ix.by_fp)
