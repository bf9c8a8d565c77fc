-- ===== src/Imports/Paths/Search.antt =====
-- execution/import_policy_paths.py: what the search as a whole returns and reports.
use python_arch_testing.Base.{
  Bool-cases, In, In-distinct, In-sort_by, List, Nodup, Nodup-sort_by, Option, Text, [], ap, arith,
  distinct, eq_text, if◌then◌else◌, inl, inr, keys, length, length-keys, not, refl, some, sort_by,
  subst, suc, text_le, true, zero, ℕ, ◌<◌, ◌↔◌, ◌∙◌, ◌∷◌, ◌≡◌, ◌⊎◌,
}
use python_arch_testing.Imports.Edge.{NormalizedImportEdge}
use python_arch_testing.Imports.Graph.{ModuleDependencyGraph, get_outgoing, is_internal_node}
use python_arch_testing.Imports.Paths.{
  ◌>>=◌, ImportPathStep, ReachableImportViolation, Found, Visit, visit_edge, visit_edges,
  visit_module, visit_roots, collect_reachable_import_violations, violation_le,
}
use python_arch_testing.Imports.Paths.Signature.{Tracks}
use python_arch_testing.Imports.Paths.Walk.{Explained, Explained-cons}
use python_arch_testing.Imports.Paths.Room.{room, unvisited-le-length}
use python_arch_testing.Imports.Paths.Step.{Ends, Explores, visit_edge_lem}

-- Ends, in sequence, and under another description of the same violations.
ends-bind :
    (m : Option Found) (k : Found → Option Found) (st : Found)
    (F G : ReachableImportViolation → Type 0)
    → Ends m st F
    → ((st' : Found) → Tracks st' → Ends (k st') st' G)
    → Ends (m >>= k) st (λ w. F w ⊎ G w)
ends-bind m k st F G (s₁, e₁, t₁, a₁) next =
    let (s₂, e₂, t₂, a₂) = next s₁ t₁ in
    (
      s₂,
      ap (λ o. o >>= k) e₁ ∙ e₂,
      t₂,
      λ w. (
        λ i. elim ((a₂ w).0 i) [
          | inl old ↦ elim ((a₁ w).0 old) [ inl x ↦ inl x | inr y ↦ inr (inl y) ]
          | inr y ↦ inr (inr y)
        ],
        λ c. (a₂ w).1 (elim c [
          | inl old ↦ inl ((a₁ w).1 (inl old))
          | inr f ↦ elim f [ inl y ↦ inl ((a₁ w).1 (inr y)) | inr z ↦ inr z ]
        ]),
      ),
    )

ends_iff :
    (m : Option Found) (st : Found) (F G : ReachableImportViolation → Type 0)
    → ((w : ReachableImportViolation) → G w ↔ F w)
    → Ends m st F
    → Ends m st G
ends_iff m st F G same (s, e, t, a) = (
  s,
  e,
  t,
  λ w. (
    λ i. elim ((a w).0 i) [ inl x ↦ inl x | inr y ↦ inr ((same w).1 y) ],
    λ c. (a w).1 (elim c [ inl x ↦ inl x | inr y ↦ inr ((same w).0 y) ]),
  ),
)

module _ (graph : ModuleDependencyGraph) (forbidden_prefixes allowed_prefixes : List Text) where
  module _ (start : Text) where
    visit_edges_lem :
        (fuel : ℕ) (visit : Visit) (path_steps : List ImportPathStep) (path : List Text)
        (edges : List NormalizedImportEdge) (st : Found)
        → Explores graph forbidden_prefixes allowed_prefixes start fuel visit
        → room graph path < suc fuel
        → Tracks st
        → Ends
            (visit_edges graph forbidden_prefixes allowed_prefixes visit start path_steps path edges
              st)
            st
            (Explained graph forbidden_prefixes allowed_prefixes start path_steps path edges)
    unfolding visit_edges
    visit_edges_lem fuel visit path_steps path [] st explores enough t =
        ends_iff (some st) st (λ w. ⊥) _ (λ w. (λ x. none_left w x, λ b. absurd b))
          (st, refl, t, λ w. (inl, λ c. elim c [ inl x ↦ x | inr b ↦ absurd b ]))
      where
        none_left :
            (w : ReachableImportViolation)
            → Explained graph forbidden_prefixes allowed_prefixes start path_steps path [] w
            → ⊥
        none_left w ([], p, h, x) = h
        none_left w (a ∷ [], p, (h, k), x) = h
        none_left w (a ∷ b ∷ es, p, (h, _, _), x) = h
    visit_edges_lem fuel visit path_steps path (e ∷ edges) st explores enough t =
        ends_iff _ st
          (λ w.
            Explained graph forbidden_prefixes allowed_prefixes start path_steps path (e ∷ []) w
            ⊎ Explained graph forbidden_prefixes allowed_prefixes start path_steps path edges w)
          _ (Explained-cons graph forbidden_prefixes allowed_prefixes start path_steps path e edges)
          (ends-bind
            (visit_edge graph forbidden_prefixes allowed_prefixes visit start path_steps path e st)
            (visit_edges graph forbidden_prefixes allowed_prefixes visit start path_steps path
              edges)
            st _ _
            (visit_edge_lem graph forbidden_prefixes allowed_prefixes start path_steps path fuel
              visit e st explores enough t)
            (λ s' t'. visit_edges_lem fuel visit path_steps path edges s' explores enough t'))

    visit_module_lem :
        (fuel : ℕ)
        → Explores graph forbidden_prefixes allowed_prefixes start fuel
            (visit_module graph forbidden_prefixes allowed_prefixes fuel start)
    unfolding visit_module
    visit_module_lem zero current path_steps path st enough t =
        let none_left : ⊥ = omega arith in absurd none_left
    visit_module_lem (suc fuel) current path_steps path st enough t =
        visit_edges_lem fuel (visit_module graph forbidden_prefixes allowed_prefixes fuel start)
          path_steps path (get_outgoing graph current) st (visit_module_lem fuel) enough t

  -- A violation of one root.
  abbrev OfRoot : Text → ReachableImportViolation → Type 0
  OfRoot root w =
      (is_internal_node graph root ≡ true)
      × Explained graph forbidden_prefixes allowed_prefixes root [] (root ∷ [])
          (get_outgoing graph root) w

  root_lem :
      (root : Text) (st : Found)
      → Tracks st
      → Ends
          (if not (is_internal_node graph root)
            then some st
            else visit_module graph forbidden_prefixes allowed_prefixes
                (suc (length graph.nodes))
                root
                root
                []
                (root ∷ [])
                st)
          st
          (OfRoot root)
  root_lem root st t = elim (Bool-cases (is_internal_node graph root)) [
    | inl i ↦ rw i (
        ends_iff _ st _ _ (λ w. (λ x. x.1, λ x. (refl, x)))
          (visit_module_lem root (suc (length graph.nodes)) root [] (root ∷ []) st enough t))
    | inr i ↦ rw i (st, refl, t, λ w. (inl, λ c. elim c [ inl x ↦ x | inr y ↦ absurd (cc y.0) ]))
  ]
    where
      enough : room graph (root ∷ []) < suc (length graph.nodes)
      enough =
          omega (
            arith,
            unvisited-le-length graph (root ∷ []) (keys graph.nodes),
            length-keys graph.nodes,
          )

  visit_roots_lem :
      (roots : List Text) (st : Found)
      → Tracks st
      → Ends
          (visit_roots graph forbidden_prefixes allowed_prefixes
            (suc (length graph.nodes))
            roots
            st)
          st
          (λ w. (root : Text) × In root roots × OfRoot root w)
  unfolding visit_roots
  visit_roots_lem [] st t =
      (st, refl, t, λ w. (inl, λ c. elim c [ inl x ↦ x | inr y ↦ absurd y.1 ]))
  visit_roots_lem (root ∷ roots) st t =
      ends_iff _ st (λ w. OfRoot root w ⊎ ((r : Text) × In r roots × OfRoot r w)) _ split
        (ends-bind _
          (visit_roots graph forbidden_prefixes allowed_prefixes (suc (length graph.nodes)) roots)
          st _ _ (root_lem root st t) (λ s' t'. visit_roots_lem roots s' t'))
    where
      split :
          (w : ReachableImportViolation)
          → ((r : Text) × In r (root ∷ roots) × OfRoot r w)
            ↔ (OfRoot root w ⊎ ((r : Text) × In r roots × OfRoot r w))
      split w = (
        λ x. elim x.1 [ inl p ↦ inl (subst (λ r. OfRoot r w) p x.2) | inr m ↦ inr (x.0, m, x.2) ],
        λ c. elim c [ inl y ↦ (root, inl refl, y) | inr y ↦ (y.0, inr y.1, y.2) ],
      )

  -- The search returns a list without duplicates, which holds just the violations that start at an
  -- internal module among the roots and that a chain of imports from there explains: one that
  -- passes only internal modules that are not allowed, not forbidden and not yet on the path, and
  -- ends with the first import of a forbidden module that is not allowed.
  pub collect_exact :
      (roots : List Text)
      → (vs : List ReachableImportViolation) × (collect_reachable_import_violations graph
            forbidden_prefixes allowed_prefixes roots
          ≡ some vs)
        × Nodup vs
        × ((v : ReachableImportViolation)
            → In v vs ↔ (
                (root : Text) × In root roots
                × (is_internal_node graph root ≡ true)
                × Explained graph forbidden_prefixes allowed_prefixes root []
                    (root ∷ [])
                    (get_outgoing graph root)
                    v))
  unfolding collect_reachable_import_violations
  collect_exact roots =
      let (st, e, t, a) =
        visit_roots_lem (sort_by text_le (distinct roots))
          (record { violations = []; seen_violations = [] }) (record { seen = refl; once = tt }) in
      (
        sort_by violation_le st.violations,
        ap (λ o. o >>= (λ s. some (sort_by violation_le s.violations))) e,
        Nodup-sort_by violation_le st.violations t.once,
        λ v. (
          λ i. elim ((a v).0 ((In-sort_by violation_le v st.violations).0 i)) [
            | inl b ↦ absurd b
            | inr (r, m, (y, x)) ↦ (r, root_of r m, y, x)
          ],
          λ x.
              (In-sort_by violation_le v st.violations).1
                ((a v).1 (inr (x.0, of_root x.0 x.1, (x.2, x.3)))),
        ),
      )
    where
      root_of : (r : Text) → In r (sort_by text_le (distinct roots)) → In r roots
      root_of r m = (In-distinct r roots).0 ((In-sort_by text_le r (distinct roots)).0 m)

      of_root : (r : Text) → In r roots → In r (sort_by text_le (distinct roots))
      of_root r m = (In-sort_by text_le r (distinct roots)).1 ((In-distinct r roots).1 m)
