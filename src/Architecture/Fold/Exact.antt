-- ===== src/Architecture/Fold/Exact.antt =====
-- architecture/compare.py: the two dictionaries that `fold_new_modules` returns.
use python_arch_testing.Base.{
  Bool-cases, Dict, In, In-append, List, Text, [], ap, arith, contains, contains_iff, eq_text,
  false, filter, inl, inr, keys, length, length-Subset, map, not, not_contains, refl, subst, suc,
  sym, true, ◌&&◌, ◌↔◌, ◌∷◌, ◌≡◌, ◌≢◌, ◌≤◌, ◌⊎◌,
}
use python_arch_testing.Architecture.Edges.{Edge, reachable}
use python_arch_testing.Architecture.Edges.Reach.{Reaches, reachable_iff, here, step}
use python_arch_testing.Architecture.Fold.{new_modules, is_dropped, reached_from, fold_new_modules}
use python_arch_testing.Architecture.Fold.Paths.{Via, direct, via}
use python_arch_testing.Architecture.Fold.Turns.{
  Touches, Folds, fold_loop-Folds, In-new_modules, new_modules-Nodup, In-new_modules,
  new_modules-Nodup,
}

-- Some known module reaches the module.
abbrev pub Used : List Text → List Edge → Text → Type 0
Used known edges m = (k : Text) × In k known × Reaches edges k m

reached_from_lem :
    (origins : List Text) (edges : List Edge) (known : List Text) (m : Text)
    → In m (reached_from origins edges known)
      ↔ ((o : Text) × In o origins × In o known × Reaches edges o m)
unfolding reached_from
reached_from_lem [] edges known m = (λ n. absurd n, λ w. absurd w.1)
reached_from_lem (o ∷ origins) edges known m = elim (Bool-cases (contains known o)) [
  | inl h ↦ rw h (
    λ n. elim ((In-append m (reachable o edges) (reached_from origins edges known)).0 n) [
      | inl k ↦ (o, inl refl, (contains_iff known o).0 h, (reachable_iff o edges m).0 k)
      | inr k ↦ let (p, i, j, r) = (reached_from_lem origins edges known m).0 k in (p, inr i, j, r)
    ],
    λ w. (In-append m (reachable o edges) (reached_from origins edges known)).1 (elim w.1 [
      | inl p ↦ inl ((reachable_iff o edges m).1 (subst (λ z. Reaches edges z m) p w.3))
      | inr i ↦ inr ((reached_from_lem origins edges known m).1 (w.0, i, w.2, w.3))
    ]),
  )
  | inr h ↦ rw h (
    λ n. let (p, i, j, r) = (reached_from_lem origins edges known m).0 n in (p, inr i, j, r),
    λ w. (reached_from_lem origins edges known m).1 (elim w.1 [
      | inl p ↦ absurd (not_contains known o h (subst (λ z. In z known) p w.2))
      | inr i ↦ (w.0, i, w.2, w.3)
    ]),
  )
]

module _ {T : Type 0} (edges : Dict Edge T) (known : List Text) where
  abbrev reached : List Text
  reached = reached_from (map (λ item. item.0.0) edges) (keys edges) known

  origin_of_key :
      (o e : Text) (items : Dict Edge T)
      → In (o, e) (keys items)
      → In o (map (λ item. item.0.0) items)
  origin_of_key o e [] m = m
  origin_of_key o e (((a, b), v) ∷ items) (inl p) = inl (ap (λ z. z.0) p)
  origin_of_key o e (((a, b), v) ∷ items) (inr m) = inr (origin_of_key o e items m)

  -- A module that is reached from another is reached from one that an edge starts at.
  origin_used :
      {k m : Text} → Reaches (keys edges) k m → (k ≡ m) ⊎ In k (map (λ item. item.0.0) edges)
  origin_used here = inl refl
  origin_used (step {a = a} {b = b} {c = c} r e) = elim (origin_used r) [
    | inl p ↦ inr (origin_of_key a c edges (subst (λ z. In (z, c) (keys edges)) (sym p) e))
    | inr i ↦ inr i
  ]

  is_dropped_iff :
      (item : Edge × T)
      → (is_dropped known reached item ≡ true) ↔ (¬ Used known (keys edges) item.0.0)
  unfolding is_dropped
  is_dropped_iff item = (
    λ h u. elim (origin_used u.2) [
      | inl p ↦ not_in_known h (subst (λ z. In z known) p u.1)
      | inr i ↦ not_reached h (
          (reached_from_lem (map (λ item. item.0.0) edges) (keys edges) known item.0.0).1
            (u.0, i, u.1, u.2))
    ],
    λ n.
        both (λ k. n (item.0.0, k, here))
          (λ r.
            let (o, i, k, c) =
              (reached_from_lem (map (λ item. item.0.0) edges) (keys edges) known item.0.0).0 r in
            n (o, k, c)),
  )
    where
      not_in_known :
          not (contains known item.0.0) && not (contains reached item.0.0) ≡ true
          → ¬ In item.0.0 known
      not_in_known h = ground (arith, contains_iff known item.0.0)

      not_reached :
          not (contains known item.0.0) && not (contains reached item.0.0) ≡ true
          → ¬ In item.0.0 reached
      not_reached h = ground (arith, contains_iff reached item.0.0)

      both :
          ¬ In item.0.0 known
          → ¬ In item.0.0 reached
          → not (contains known item.0.0) && not (contains reached item.0.0) ≡ true
      both a b = ground (arith, contains_iff known item.0.0, contains_iff reached item.0.0)

  abbrev current : Dict Edge T
  current = filter (λ item. not (is_dropped known reached item)) edges

  Used-of_kept :
      (item : Edge × T)
      → not (is_dropped known reached item) ≡ true
      → Used known (keys edges) item.0.0
  unfolding is_dropped
  Used-of_kept item h = elim (Bool-cases (contains known item.0.0)) [
    | inl k ↦ (item.0.0, (contains_iff known item.0.0).0 k, here)
    | inr k ↦ elim (Bool-cases (contains reached item.0.0)) [
      | inl r ↦
          let (o, i, j, c) =
            (reached_from_lem (map (λ item. item.0.0) edges) (keys edges) known item.0.0).0
              ((contains_iff reached item.0.0).0 r) in
          (o, j, c)
      | inr r ↦ absurd (neither k r)
    ]
  ]
    where
      neither : contains known item.0.0 ≡ false → contains reached item.0.0 ≡ false → ⊥
      neither k r = ground arith

  key_kept :
      (items : Dict Edge T) (o e : Text)
      → In (o, e) (keys (filter (λ item. not (is_dropped known reached item)) items))
        ↔ (In (o, e) (keys items) × Used known (keys edges) o)
  key_kept [] o e = (λ m. absurd m, λ w. absurd w.0)
  key_kept (item ∷ items) o e = elim (Bool-cases (not (is_dropped known reached item))) [
    | inl h ↦ rw h (
      λ m. elim m [
        | inl p ↦
            (inl p, subst (Used known (keys edges)) (sym (ap (λ z. z.0) p)) (Used-of_kept item h))
        | inr n ↦ (inr (((key_kept items o e).0 n).0), ((key_kept items o e).0 n).1)
      ],
      λ w. elim w.0 [ inl p ↦ inl p | inr n ↦ inr ((key_kept items o e).1 (n, w.1)) ],
    )
    | inr h ↦ rw h (
      λ n. (inr (((key_kept items o e).0 n).0), ((key_kept items o e).0 n).1),
      λ w. elim w.0 [
        | inl p ↦ absurd (
            (is_dropped_iff item).0 (dropped_of item h)
              (subst (Used known (keys edges)) (ap (λ z. z.0) p) w.1))
        | inr n ↦ (key_kept items o e).1 (n, w.1)
      ],
    )
  ]
    where
      dropped_of :
          (item : Edge × T)
          → not (is_dropped known reached item) ≡ false
          → is_dropped known reached item ≡ true
      dropped_of item h = ground arith

  key_dropped :
      (items : Dict Edge T) (o e : Text)
      → In (o, e) (keys (filter (is_dropped known reached) items))
        ↔ (In (o, e) (keys items) × (¬ Used known (keys edges) o))
  key_dropped [] o e = (λ m. absurd m, λ w. absurd w.0)
  key_dropped (item ∷ items) o e = elim (Bool-cases (is_dropped known reached item)) [
    | inl h ↦ rw h (
      λ m. elim m [
        | inl p ↦ (
          inl p,
          λ u. (is_dropped_iff item).0 h (subst (Used known (keys edges)) (ap (λ z. z.0) p) u),
        )
        | inr n ↦ (inr (((key_dropped items o e).0 n).0), ((key_dropped items o e).0 n).1)
      ],
      λ w. elim w.0 [ inl p ↦ inl p | inr n ↦ inr ((key_dropped items o e).1 (n, w.1)) ],
    )
    | inr h ↦ rw h (
      λ n. (inr (((key_dropped items o e).0 n).0), ((key_dropped items o e).0 n).1),
      λ w. elim w.0 [
        | inl p ↦ absurd (
            w.1 (
              subst (Used known (keys edges)) (sym (ap (λ z. z.0) p))
                (Used-of_kept item (kept item h))))
        | inr n ↦ (key_dropped items o e).1 (n, w.1)
      ],
    )
  ]
    where
      kept :
          (item : Edge × T)
          → is_dropped known reached item ≡ false
          → not (is_dropped known reached item) ≡ true
      kept item h = ground arith

  ends : Dict Edge T → List Text
  ends [] = []
  ends (item ∷ items) = item.0.1 ∷ ends items

  length-ends : (items : Dict Edge T) → length (ends items) ≡ length items
  unfolding ends
  length-ends [] = refl
  length-ends (item ∷ items) = omega (arith, length-ends items)

  In-ends : (o e : Text) (items : Dict Edge T) → In (o, e) (keys items) → In e (ends items)
  unfolding ends
  In-ends o e [] m = m
  In-ends o e (item ∷ items) (inl p) = inl (ap (λ z. z.1) p)
  In-ends o e (item ∷ items) (inr m) = inr (In-ends o e items m)

  new_is_end : (m : Text) → Touches (keys current) m → ¬ In m known → In m (ends current)
  new_is_end m (w, inr n) new = In-ends w m current n
  new_is_end m (w, inl n) new = let (k, i, r) = ((key_kept edges m w).0 n).1 in reached_end k i r
    where
      reached_end : (k : Text) → In k known → Reaches (keys edges) k m → In m (ends current)
      reached_end k i here = absurd (new i)
      reached_end k i (step {b = b} r e) =
          In-ends b m current ((key_kept edges b m).1 (e, (k, i, r)))

  enough : length (new_modules known current) ≤ suc (length current)
  enough = omega (
    arith,
    length-ends current,
    length-Subset (new_modules known current) (ends current) (new_modules-Nodup known current)
        (λ m n. let (t, new) = (In-new_modules known m current).0 n in new_is_end m t new),
  )

  folds : Folds known current ((fold_new_modules edges known).0)
  unfolding fold_new_modules
  folds = fold_loop-Folds known (suc (length current)) current enough

  chain_kept :
      {a b : Text}
      → Used known (keys edges) a
      → Via known (keys edges) a b
      → Via known (keys current) a b
  chain_kept u (direct {a = a} {b = b} m) = direct ((key_kept edges a b).1 (m, u))
  chain_kept u (via {a = a} {n = n} m new c) =
      via ((key_kept edges a n).1 (m, u)) new (chain_kept (u.0, u.1, step u.2 m) c)

  chain_of_kept : {a b : Text} → Via known (keys current) a b → Via known (keys edges) a b
  chain_of_kept (direct {a = a} {b = b} m) = direct (((key_kept edges a b).0 m).0)
  chain_of_kept (via {a = a} {n = n} m new c) =
      via (((key_kept edges a n).0 m).0) new (chain_of_kept c)

  -- The folded edges join known modules only: the loop makes turns enough.
  pub fold_known : (m : Text) → Touches (keys ((fold_new_modules edges known).0)) m → In m known
  fold_known = folds.all_known

  -- Two different known modules are joined by a folded edge just when a chain of the edges leads
  -- from the one to the other through modules that are not known.
  pub fold_chains :
      (a b : Text)
      → In a known
      → In b known
      → a ≢ b
      → In (a, b) (keys ((fold_new_modules edges known).0)) ↔ Via known (keys edges) a b
  fold_chains a b ka kb ab = (
    λ m. chain_of_kept (folds.lengthen a b (direct m)),
    λ c. single (folds.shorten a b ka kb ab (chain_kept (a, ka, here) c)),
  )
    where
      single :
          Via known (keys ((fold_new_modules edges known).0)) a b
          → In (a, b) (keys ((fold_new_modules edges known).0))
      single (direct m) = m
      single (via {n = n} m new c) = absurd (new (folds.all_known n (a, inr m)))

  -- The edges set apart are those whose origin no known module reaches, nor is it known.
  pub fold_dropped :
      (p : Edge)
      → In p (keys ((fold_new_modules edges known).1))
        ↔ (In p (keys edges) × (¬ Used known (keys edges) p.0))
  unfolding fold_new_modules
  fold_dropped p = key_dropped edges p.0 p.1
