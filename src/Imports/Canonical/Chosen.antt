-- ===== src/Imports/Canonical/Chosen.antt =====
-- Which entity is chosen for a module.
use python_arch_testing.Base.{
  Bool, Dict, In, In-sort_by, List, Option, Option-cases, Text, [], ap, arith, beq_refl, eq_text,
  false, if◌then◌else◌, inl, inr, key_of_lookup, keys, lookup, lookup-insert, none, not, refl, some,
  sort_by, subst, sym, text-cases, text_eq_iff, text_le, true, ◌&&◌, ◌==◌, ◌↔◌, ◌∙◌, ◌∷◌, ◌≡◌, ◌⊎◌,
}
use python_arch_testing.Imports.Canonical.{
  Entity, admits, is_module, select_entities, select_entity, values_at,
  collect_canonical_module_entities,
}

module _ (ignored : Text → Bool) (scope_modules : Option (List Text)) where
  abbrev admitted : Entity → Bool
  admitted = admits ignored scope_modules

  -- The entity of one module, after another one has been looked at.
  abbrev next : Text → Entity → Option Entity → Option Entity
  next k e none = if admitted e && e.module_path == k then some e else none
  next k e (some x) =
      if admitted e && e.module_path == k && is_module e && not (is_module x)
      then some e
      else some x

  choose : Text → List Entity → Option Entity → Option Entity
  choose k [] cur = cur
  choose k (e ∷ es) cur = choose k es (next k e cur)

  lookup-select_entity :
      (k : Text) (e : Entity) (sel : Dict Text Entity)
      → lookup k (select_entity ignored scope_modules e sel) ≡ next k e (lookup k sel)
  unfolding select_entity
  lookup-select_entity k e sel = elim (text-cases e.module_path k) [
    | inl p ↦
        subst (λ z. lookup z (select_entity ignored scope_modules e sel) ≡ next z e (lookup z sel))
          p
          (ground (arith, beq_refl e.module_path, lookup-insert e.module_path e.module_path e sel))
    | inr n ↦ ground (arith, text_eq_iff e.module_path k, lookup-insert e.module_path k e sel)
  ]

  lookup-select_entities :
      (k : Text) (es : List Entity) (sel : Dict Text Entity)
      → lookup k (select_entities ignored scope_modules es sel) ≡ choose k es (lookup k sel)
  unfolding choose select_entities
  lookup-select_entities k [] sel = refl
  lookup-select_entities k (e ∷ es) sel =
      lookup-select_entities k es (select_entity ignored scope_modules e sel)
      ∙ ap (choose k es) (lookup-select_entity k e sel)

  -- The admitted entities of a module.
  abbrev pub Offers : List Entity → Text → Entity → Type 0
  Offers es k c = In c es × (admitted c ≡ true) × (c.module_path ≡ k)

  next_from :
      (k : Text) (e : Entity) (cur : Option Entity) (c : Entity)
      → next k e cur ≡ some c
      → (cur ≡ some c) ⊎ (c ≡ e) × (admitted e ≡ true) × (e.module_path ≡ k)
  next_from k e none c h = ground (arith, text_eq_iff e.module_path k)
  next_from k e (some x) c h = ground (arith, text_eq_iff e.module_path k)

  choose_from :
      (k : Text) (es : List Entity) (cur : Option Entity) (c : Entity)
      → choose k es cur ≡ some c
      → (cur ≡ some c) ⊎ Offers es k c
  unfolding choose
  choose_from k [] cur c h = inl h
  choose_from k (e ∷ es) cur c h = elim (choose_from k es (next k e cur) c h) [
    | inl q ↦ elim (next_from k e cur c q) [
      | inl p ↦ inl p
      | inr p ↦ inr (inl p.0, ap admitted p.0 ∙ p.1, ap (λ z. z.module_path) p.0 ∙ p.2)
    ]
    | inr o ↦ inr (inr o.0, o.1, o.2)
  ]

  -- At least as good: chosen, and a module if the other is one.
  abbrev AsGood : Option Entity → Entity → Type 0
  AsGood o e = (c : Entity) × (o ≡ some c) × (is_module e ≡ true → is_module c ≡ true)

  pick_keeps :
      (b : Bool) (e y x : Entity)
      → (b ≡ true → is_module e ≡ true)
      → (is_module x ≡ true → is_module y ≡ true)
      → AsGood (if b then some e else some y) x
  pick_keeps true e y x h m = (e, refl, λ _. h refl)
  pick_keeps false e y x h m = (y, refl, m)

  pick_takes :
      (b : Bool) (e y : Entity)
      → (b ≡ false → is_module e ≡ true → is_module y ≡ true)
      → AsGood (if b then some e else some y) e
  pick_takes true e y h = (e, refl, λ m. m)
  pick_takes false e y h = (y, refl, h refl)

  pick_some : (b : Bool) (e : Entity) → b ≡ true → AsGood (if b then some e else none) e
  pick_some true e h = (e, refl, λ m. m)
  pick_some false e h = cc h

  next_keeps :
      (k : Text) (e x : Entity) (cur : Option Entity) → AsGood cur x → AsGood (next k e cur) x
  next_keeps k e x none g = cc g.1
  next_keeps k e x (some y) (c, p, m) =
      pick_keeps (admitted e && e.module_path == k && is_module e && not (is_module y)) e y x
        (λ h. ground arith) (λ h. ap is_module (same p) ∙ m h)
    where
      same : some y ≡ some c → y ≡ c
      same p = cc p

  next_takes :
      (k : Text) (e : Entity) (cur : Option Entity)
      → admitted e ≡ true
      → e.module_path ≡ k
      → AsGood (next k e cur) e
  next_takes k e none a p =
      pick_some (admitted e && e.module_path == k) e (ground (arith, text_eq_iff e.module_path k))
  next_takes k e (some y) a p =
      pick_takes (admitted e && e.module_path == k && is_module e && not (is_module y)) e y
        (λ h m. ground (arith, text_eq_iff e.module_path k))

  choose_keeps :
      (k : Text) (es : List Entity) (cur : Option Entity) (x : Entity)
      → AsGood cur x
      → AsGood (choose k es cur) x
  unfolding choose
  choose_keeps k [] cur x g = g
  choose_keeps k (e ∷ es) cur x g = choose_keeps k es (next k e cur) x (next_keeps k e x cur g)

  choose_takes :
      (k : Text) (es : List Entity) (cur : Option Entity) (x : Entity)
      → Offers es k x
      → AsGood (choose k es cur) x
  unfolding choose
  choose_takes k [] cur x o = absurd o.0
  choose_takes k (e ∷ es) cur x (inl p, a, q) =
      choose_keeps k es (next k e cur) x
        (subst (λ z. AsGood (next k z cur) x) p (next_takes k x cur a q))
  choose_takes k (e ∷ es) cur x (inr m, a, q) = choose_takes k es (next k e cur) x (m, a, q)

  In-values_at :
      (names : List Text) (sel : Dict Text Entity) (c : Entity)
      → In c (values_at names sel) ↔ ((k : Text) × In k names × (lookup k sel ≡ some c))
  unfolding values_at
  In-values_at [] sel c = (λ m. absurd m, λ w. absurd w.1)
  In-values_at (n ∷ names) sel c = elim (Option-cases (lookup n sel)) [
    | inl h ↦
        rw (h, values_at)
          (
            λ m. let (k, i, e) = (In-values_at names sel c).0 m in (k, inr i, e),
            λ w. (In-values_at names sel c).1 (elim w.1 [
              | inl p ↦ absurd (cc (h, w.2, ap (λ z. lookup z sel) p))
              | inr i ↦ (w.0, i, w.2)
            ]),
          )
    | inr (x, h) ↦
        rw (h, values_at)
          (
            λ m. elim m [
              | inl p ↦ (n, inl refl, h ∙ ap some (sym p))
              | inr i ↦ let (k, j, e) = (In-values_at names sel c).0 i in (k, inr j, e)
            ],
            λ w. elim w.1 [
              | inl p ↦ inl (cc (h, w.2, ap (λ z. lookup z sel) p))
              | inr i ↦ inr ((In-values_at names sel c).1 (w.0, i, w.2))
            ],
          )
  ]

  abbrev selected : List Entity → Dict Text Entity
  selected es = select_entities ignored scope_modules es []

  lookup-selected : (k : Text) (es : List Entity) → lookup k (selected es) ≡ choose k es none
  unfolding lookup
  lookup-selected k es = lookup-select_entities k es []

  collected_iff :
      (es : List Entity) (c : Entity)
      → In c (collect_canonical_module_entities ignored scope_modules es)
        ↔ ((k : Text) × (choose k es none ≡ some c))
  unfolding collect_canonical_module_entities
  collected_iff es c = (
    λ m.
        let (k, i, e) = (In-values_at (sort_by text_le (keys (selected es))) (selected es) c).0 m in
        (k, sym (lookup-selected k es) ∙ e),
    λ w.
        let found = lookup-selected w.0 es ∙ w.1 in
        (In-values_at (sort_by text_le (keys (selected es))) (selected es) c).1 (
          w.0,
          (In-sort_by text_le w.0 (keys (selected es))).1 (key_of_lookup w.0 c (selected es) found),
          found,
        ),
  )

  offered : (k : Text) (es : List Entity) (c : Entity) → choose k es none ≡ some c → Offers es k c
  offered k es c h = elim (choose_from k es none c h) [ inl p ↦ absurd (cc p) | inr o ↦ o ]

  -- The entities that are collected are among those given that the guards admit, one for each
  -- module of an admitted entity, and one of kind "module" if the module has such an admitted one.
  pub canonical_entities :
      (es : List Entity)
      → ((c : Entity)
          → In c (collect_canonical_module_entities ignored scope_modules es)
          → In c es × (admitted c ≡ true))
        × ((e : Entity)
            → In e es
            → admitted e ≡ true
            → (c : Entity) × In c (collect_canonical_module_entities ignored scope_modules es)
              × (c.module_path ≡ e.module_path)
              × (is_module e ≡ true → is_module c ≡ true))
        × ((c d : Entity)
            → In c (collect_canonical_module_entities ignored scope_modules es)
            → In d (collect_canonical_module_entities ignored scope_modules es)
            → c.module_path ≡ d.module_path
            → c ≡ d)
  canonical_entities es = (
    λ c m. let (k, h) = (collected_iff es c).0 m in ((offered k es c h).0, (offered k es c h).1),
    λ e m a.
        let (c, h, good) = choose_takes e.module_path es none e (m, a, refl) in
        (c, (collected_iff es c).1 (e.module_path, h), (offered e.module_path es c h).2, good),
    λ c d m n p.
        let (k, h) = (collected_iff es c).0 m in
        let (j, g) = (collected_iff es d).0 n in
        let q : k ≡ j = sym ((offered k es c h).2) ∙ p ∙ (offered j es d g).2 in
        same c d (sym h ∙ ap (λ z. choose z es none) q ∙ g),
  )
    where
      same : (c d : Entity) → some c ≡ some d → c ≡ d
      same c d p = cc p
