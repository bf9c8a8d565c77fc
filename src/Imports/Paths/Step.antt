-- ===== src/Imports/Paths/Step.antt =====
-- execution/import_policy_paths.py: what one import of the loop in `visit_module` adds.
use python_arch_testing.Base.{
  Bool-cases, In, List, Option, Option-cases, Text, [], ap, arith, contains, contains_iff, eq_text,
  false, if◌then◌else◌, inl, inr, keys, none, not_contains, refl, some, subst, suc, sym, true, ℕ,
  ◌++◌, ◌<◌, ◌↔◌, ◌∙◌, ◌∷◌, ◌≡◌, ◌⊎◌,
}
use python_arch_testing.Names.{matches_prefix}
use python_arch_testing.Imports.Edge.{NormalizedImportEdge}
use python_arch_testing.Imports.Graph.{ModuleDependencyGraph, get_outgoing, is_internal_node}
use python_arch_testing.Imports.Paths.{
  ImportPathStep, ReachableImportViolation, step_from_edge, Found, report, Visit, visit_edge,
}
use python_arch_testing.Imports.Paths.Signature.{Tracks, report_lem}
use python_arch_testing.Imports.Paths.Walk.{violation_of, Follows, Hits, Explained, Explained-one}
use python_arch_testing.Imports.Paths.Room.{room, internal_key, unvisited-cons-lt}

-- The call returns, and adds just the violations of which `F` holds.
abbrev pub Ends : Option Found → Found → (ReachableImportViolation → Type 0) → Type 0
Ends m st F =
    (st' : Found) × (m ≡ some st')
    × Tracks st'
    × ((w : ReachableImportViolation) → In w st'.violations ↔ (In w st.violations ⊎ F w))

module _ (graph : ModuleDependencyGraph) (forbidden_prefixes allowed_prefixes : List Text) where
  module _ (start : Text) where
    -- What the recursive call is relied on for, with `fuel` left.
    abbrev pub Explores : ℕ → Visit → Type 0
    Explores fuel visit =
        (current : Text) (path_steps : List ImportPathStep) (path : List Text) (st : Found)
        → room graph path < fuel
        → Tracks st
        → Ends (visit current path_steps path st) st (
            Explained graph forbidden_prefixes allowed_prefixes start path_steps path
              (get_outgoing graph current))

    module _ (path_steps : List ImportPathStep) (path : List Text) where
      abbrev pub ExplainedBy : List NormalizedImportEdge → ReachableImportViolation → Type 0
      ExplainedBy = Explained graph forbidden_prefixes allowed_prefixes start path_steps path

      -- No chain begins with an edge that neither hits nor is followed.
      skips :
          (e : NormalizedImportEdge) (st : Found)
          → Tracks st
          → ((p : Text) → ¬ Hits graph forbidden_prefixes allowed_prefixes e p)
          → ¬ Follows graph forbidden_prefixes allowed_prefixes path e
          → Ends (some st) st (ExplainedBy (e ∷ []))
      skips e st t no_hit no_step = (
        st,
        refl,
        t,
        λ w. (
          inl,
          λ c. elim c [
            | inl old ↦ old
            | inr x ↦ elim ((one e w).0 x) [
              | inl (p, h, _) ↦ absurd (no_hit p h)
              | inr (h, _) ↦ absurd (no_step h)
            ]
          ],
        ),
      )
        where
          one :
              (e : NormalizedImportEdge) (w : ReachableImportViolation)
              → ExplainedBy (e ∷ []) w ↔ (
                  ((p : Text) × Hits graph forbidden_prefixes allowed_prefixes e p
                    × (w ≡ violation_of start path_steps (e ∷ []) p))
                  ⊎ Follows graph forbidden_prefixes allowed_prefixes path e
                    × Explained graph forbidden_prefixes allowed_prefixes start
                        (path_steps ++ step_from_edge e ∷ [])
                        (e.imported_module ∷ path)
                        (get_outgoing graph e.imported_module)
                        w)
          one = Explained-one graph forbidden_prefixes allowed_prefixes start path_steps path

      hits :
          (e : NormalizedImportEdge) (st : Found) (prefix : Text)
          → Tracks st
          → Hits graph forbidden_prefixes allowed_prefixes e prefix
          → Ends
              (some (report (violation_of start path_steps (e ∷ []) prefix) st))
              st
              (ExplainedBy (e ∷ []))
      hits e st prefix t h =
          let (t', added) = report_lem (violation_of start path_steps (e ∷ []) prefix) st t in
          (
            report (violation_of start path_steps (e ∷ []) prefix) st,
            refl,
            t',
            λ w. (
              λ m. elim ((added w).0 m) [
                | inl old ↦ inl old
                | inr x ↦ inr (e ∷ [], prefix, (inl refl, h), x)
              ],
              λ c. (added w).1 (elim c [
                | inl old ↦ inl old
                | inr x ↦
                    elim ((Explained-one graph forbidden_prefixes allowed_prefixes start path_steps
                        path e w).0
                      x) [
                        | inl (p, k, y) ↦
                            inr (y ∙ ap (violation_of start path_steps (e ∷ [])) (same_prefix p k))
                        | inr (k, _) ↦ absurd (no_prefix k)
                      ]
              ]),
            ),
          )
        where
          same_prefix : (p : Text) → Hits graph forbidden_prefixes allowed_prefixes e p → p ≡ prefix
          same_prefix p k = cc (k.forbidden, h.forbidden)

          no_prefix : Follows graph forbidden_prefixes allowed_prefixes path e → ⊥
          no_prefix k = cc (k.not_forbidden, h.forbidden)

      goes :
          (e : NormalizedImportEdge) (st : Found) (m : Option Found)
          → Follows graph forbidden_prefixes allowed_prefixes path e
          → Ends m st (
              Explained graph forbidden_prefixes allowed_prefixes start
                (path_steps ++ step_from_edge e ∷ [])
                (e.imported_module ∷ path)
                (get_outgoing graph e.imported_module))
          → Ends m st (ExplainedBy (e ∷ []))
      goes e st m h (st', returns, t, added) = (
        st',
        returns,
        t,
        λ w. (
          λ i. elim ((added w).0 i) [
            | inl old ↦ inl old
            | inr x ↦ inr (
                (Explained-one graph forbidden_prefixes allowed_prefixes start path_steps path e
                    w).1
                  (inr (h, x)))
          ],
          λ c. (added w).1 (elim c [
            | inl old ↦ inl old
            | inr x ↦
                elim ((Explained-one graph forbidden_prefixes allowed_prefixes start path_steps path
                    e w).0
                  x) [ inl (p, k, _) ↦ absurd (no_hit p k) | inr (_, y) ↦ inr y ]
          ]),
        ),
      )
        where
          no_hit : (p : Text) → Hits graph forbidden_prefixes allowed_prefixes e p → ⊥
          no_hit p k = cc (k.forbidden, h.not_forbidden)

      edge_allowed :
          (visit : Visit) (e : NormalizedImportEdge) (st : Found) (a : Text)
          → matches_prefix e.imported_module allowed_prefixes ≡ some a
          → visit_edge graph forbidden_prefixes allowed_prefixes visit start path_steps path e st
            ≡ some st
      unfolding visit_edge
      edge_allowed visit e st a q = rw (q, visit_edge) refl

      edge_forbidden :
          (visit : Visit) (e : NormalizedImportEdge) (st : Found) (p : Text)
          → matches_prefix e.imported_module allowed_prefixes ≡ none
          → matches_prefix e.imported_module forbidden_prefixes ≡ some p
          → visit_edge graph forbidden_prefixes allowed_prefixes visit start path_steps path e st
            ≡ some (report (violation_of start path_steps (e ∷ []) p) st)
      unfolding visit_edge
      edge_forbidden visit e st p q r = rw (q, r, visit_edge) refl

      edge_external :
          (visit : Visit) (e : NormalizedImportEdge) (st : Found)
          → matches_prefix e.imported_module allowed_prefixes ≡ none
          → matches_prefix e.imported_module forbidden_prefixes ≡ none
          → is_internal_node graph e.imported_module ≡ false
          → visit_edge graph forbidden_prefixes allowed_prefixes visit start path_steps path e st
            ≡ some st
      unfolding visit_edge
      edge_external visit e st q r i = rw (q, r, i, visit_edge) refl

      edge_internal :
          (visit : Visit) (e : NormalizedImportEdge) (st : Found)
          → matches_prefix e.imported_module allowed_prefixes ≡ none
          → matches_prefix e.imported_module forbidden_prefixes ≡ none
          → is_internal_node graph e.imported_module ≡ true
          → visit_edge graph forbidden_prefixes allowed_prefixes visit start path_steps path e st
            ≡ (if contains path e.imported_module
                then some st
                else visit e.imported_module
                    (path_steps ++ step_from_edge e ∷ [])
                    (e.imported_module ∷ path)
                    st)
      unfolding visit_edge
      edge_internal visit e st q r i = rw (q, r, i, visit_edge) refl

      follow_lem :
          (fuel : ℕ) (visit : Visit) (e : NormalizedImportEdge) (st : Found)
          → Explores fuel visit
          → room graph path < suc fuel
          → Tracks st
          → matches_prefix e.imported_module allowed_prefixes ≡ none
          → matches_prefix e.imported_module forbidden_prefixes ≡ none
          → is_internal_node graph e.imported_module ≡ true
          → Ends
              (if contains path e.imported_module
                then some st
                else visit e.imported_module
                    (path_steps ++ step_from_edge e ∷ [])
                    (e.imported_module ∷ path)
                    st)
              st
              (ExplainedBy (e ∷ []))
      follow_lem fuel visit e st explores enough t q r i =
          elim (Bool-cases (contains path e.imported_module)) [
            | inl c ↦ rw c (
                skips e st t (λ p h. cc (h.forbidden, r))
                  (λ h. h.unvisited ((contains_iff path e.imported_module).0 c)))
            | inr c ↦ rw c (
                goes e st _
                  (record {
                    not_allowed = q;
                    not_forbidden = r;
                    internal = i;
                    unvisited = not_contains path e.imported_module c;
                  })
                  (explores e.imported_module (path_steps ++ step_from_edge e ∷ [])
                    (e.imported_module ∷ path) st (less c) t))
          ]
        where
          less :
              contains path e.imported_module ≡ false → room graph (e.imported_module ∷ path) < fuel
          less c = omega (
            arith,
            unvisited-cons-lt graph e.imported_module path (keys graph.nodes)
                (internal_key graph e.imported_module i) i c,
          )

      pub visit_edge_lem :
          (fuel : ℕ) (visit : Visit) (e : NormalizedImportEdge) (st : Found)
          → Explores fuel visit
          → room graph path < suc fuel
          → Tracks st
          → Ends
              (visit_edge graph forbidden_prefixes allowed_prefixes visit start path_steps path e
                st)
              st
              (ExplainedBy (e ∷ []))
      visit_edge_lem fuel visit e st explores enough t =
          elim (Option-cases (matches_prefix e.imported_module allowed_prefixes)) [
            | inr (a, q) ↦
                subst (λ m. Ends m st (ExplainedBy (e ∷ []))) (sym (edge_allowed visit e st a q))
                  (skips e st t (λ p h. cc (h.not_allowed, q)) (λ h. cc (h.not_allowed, q)))
            | inl q ↦ elim (Option-cases (matches_prefix e.imported_module forbidden_prefixes)) [
              | inr (p, r) ↦
                  subst (λ m. Ends m st (ExplainedBy (e ∷ [])))
                    (sym (edge_forbidden visit e st p q r))
                    (hits e st p t (record { not_allowed = q; forbidden = r }))
              | inl r ↦ elim (Bool-cases (is_internal_node graph e.imported_module)) [
                | inr i ↦
                    subst (λ m. Ends m st (ExplainedBy (e ∷ [])))
                      (sym (edge_external visit e st q r i))
                      (skips e st t (λ p h. cc (h.forbidden, r)) (λ h. cc (h.internal, i)))
                | inl i ↦
                    subst (λ m. Ends m st (ExplainedBy (e ∷ [])))
                      (sym (edge_internal visit e st q r i))
                      (follow_lem fuel visit e st explores enough t q r i)
              ]
            ]
          ]
