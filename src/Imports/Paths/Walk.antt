-- ===== src/Imports/Paths/Walk.antt =====
-- What a reported path is, with no search in it: imports that lead from a module to a forbidden
-- one, through internal modules that are not allowed, not forbidden, and not on the path yet.
use python_arch_testing.Base.{
  In, List, Text, [], ap, append_assoc, inl, inr, map, none, refl, some, subst, sym, true, ◌++◌,
  ◌↔◌, ◌∙◌, ◌∷◌, ◌≡◌, ◌⊎◌,
}
use python_arch_testing.Names.{matches_prefix}
use python_arch_testing.Imports.Edge.{NormalizedImportEdge}
use python_arch_testing.Imports.Graph.{ModuleDependencyGraph, get_outgoing, is_internal_node}
use python_arch_testing.Imports.Paths.{ImportPathStep, ReachableImportViolation, step_from_edge}

abbrev pub last_target : List NormalizedImportEdge → Text
last_target [] = []
last_target (e ∷ []) = e.imported_module
last_target (e ∷ f ∷ es) = last_target (f ∷ es)

-- The violation that a chain of imports amounts to, after the steps already made.
abbrev pub violation_of :
    Text → List ImportPathStep → List NormalizedImportEdge → Text → ReachableImportViolation
violation_of start path_steps es prefix = record {
  start_module = start;
  forbidden_target = last_target es;
  forbidden_prefix = prefix;
  steps = path_steps ++ map step_from_edge es;
}

module _ (graph : ModuleDependencyGraph) (forbidden_prefixes allowed_prefixes : List Text) where
  -- An import may be followed to the next module.
  pub record Follows (path_modules : List Text) (edge : NormalizedImportEdge) : Type 0 where
    pub not_allowed : matches_prefix edge.imported_module allowed_prefixes ≡ none
    pub not_forbidden : matches_prefix edge.imported_module forbidden_prefixes ≡ none
    pub internal : is_internal_node graph edge.imported_module ≡ true
    pub unvisited : ¬ In edge.imported_module path_modules

  -- An import of a forbidden module, under the prefix that forbids it.
  pub record Hits (edge : NormalizedImportEdge) (prefix : Text) : Type 0 where
    pub not_allowed : matches_prefix edge.imported_module allowed_prefixes ≡ none
    pub forbidden : matches_prefix edge.imported_module forbidden_prefixes ≡ some prefix

  -- `Walk path_modules edges es prefix`: the first import of the chain `es` is one of `edges`.
  abbrev pub Walk :
      List Text → List NormalizedImportEdge → List NormalizedImportEdge → Text → Type 0
  Walk path_modules edges [] prefix = ⊥
  Walk path_modules edges (e ∷ []) prefix = In e edges × Hits e prefix
  Walk path_modules edges (e ∷ f ∷ es) prefix =
      In e edges
      × Follows path_modules e
      × Walk (e.imported_module ∷ path_modules) (get_outgoing graph e.imported_module) (f ∷ es)
          prefix

  -- A violation that such a chain explains.
  abbrev pub Explained :
      Text
      → List ImportPathStep
      → List Text
      → List NormalizedImportEdge
      → ReachableImportViolation
      → Type 0
  Explained start path_steps path_modules edges v =
      (es : List NormalizedImportEdge) × (prefix : Text) × Walk path_modules edges es prefix
      × (v ≡ violation_of start path_steps es prefix)

  module _ (start : Text) (path_steps : List ImportPathStep) (path_modules : List Text) where
    -- A chain begins with its first edge or with one of the others.
    pub Explained-cons :
        (e : NormalizedImportEdge) (edges : List NormalizedImportEdge)
        (v : ReachableImportViolation)
        → Explained start path_steps path_modules (e ∷ edges) v ↔ (
            Explained start path_steps path_modules (e ∷ []) v
            ⊎ Explained start path_steps path_modules edges v)
    Explained-cons e edges v = (split, join)
      where
        split :
            Explained start path_steps path_modules (e ∷ edges) v
            → Explained start path_steps path_modules (e ∷ []) v
              ⊎ Explained start path_steps path_modules edges v
        split ([], p, w, x) = absurd w
        split (a ∷ [], p, (inl q, h), x) = inl (a ∷ [], p, (inl q, h), x)
        split (a ∷ [], p, (inr q, h), x) = inr (a ∷ [], p, (q, h), x)
        split (a ∷ b ∷ es, p, (inl q, h, w), x) = inl (a ∷ b ∷ es, p, (inl q, h, w), x)
        split (a ∷ b ∷ es, p, (inr q, h, w), x) = inr (a ∷ b ∷ es, p, (q, h, w), x)

        join :
            Explained start path_steps path_modules (e ∷ []) v
              ⊎ Explained start path_steps path_modules edges v
            → Explained start path_steps path_modules (e ∷ edges) v
        join (inl ([], p, w, x)) = absurd w
        join (inl (a ∷ [], p, (inl q, h), x)) = (a ∷ [], p, (inl q, h), x)
        join (inl (a ∷ [], p, (inr q, h), x)) = absurd q
        join (inl (a ∷ b ∷ es, p, (inl q, h, w), x)) = (a ∷ b ∷ es, p, (inl q, h, w), x)
        join (inl (a ∷ b ∷ es, p, (inr q, h, w), x)) = absurd q
        join (inr ([], p, w, x)) = absurd w
        join (inr (a ∷ [], p, (q, h), x)) = (a ∷ [], p, (inr q, h), x)
        join (inr (a ∷ b ∷ es, p, (q, h, w), x)) = (a ∷ b ∷ es, p, (inr q, h, w), x)

    -- A chain that begins with a given edge hits at once, or follows it and goes on.
    pub Explained-one :
        (e : NormalizedImportEdge) (v : ReachableImportViolation)
        → Explained start path_steps path_modules (e ∷ []) v ↔ (
            ((p : Text) × Hits e p × (v ≡ violation_of start path_steps (e ∷ []) p))
            ⊎ Follows path_modules e
              × Explained start
                  (path_steps ++ step_from_edge e ∷ [])
                  (e.imported_module ∷ path_modules)
                  (get_outgoing graph e.imported_module)
                  v)
    Explained-one e v = (split, join)
      where
        longer :
            (f : NormalizedImportEdge) (es : List NormalizedImportEdge) (p : Text)
            → violation_of start path_steps (e ∷ f ∷ es) p
              ≡ violation_of start (path_steps ++ step_from_edge e ∷ []) (f ∷ es) p
        longer f es p = simp append_assoc

        split :
            Explained start path_steps path_modules (e ∷ []) v
            → ((p : Text) × Hits e p × (v ≡ violation_of start path_steps (e ∷ []) p))
              ⊎ Follows path_modules e
                × Explained start
                    (path_steps ++ step_from_edge e ∷ [])
                    (e.imported_module ∷ path_modules)
                    (get_outgoing graph e.imported_module)
                    v
        split ([], p, w, x) = absurd w
        split (a ∷ [], p, (inl q, h), x) =
            inl (
              p,
              subst (λ b. Hits b p) q h,
              x ∙ ap (λ b. violation_of start path_steps (b ∷ []) p) q,
            )
        split (a ∷ [], p, (inr q, h), x) = absurd q
        split (a ∷ f ∷ es, p, (inl q, h, w), x) = inr (
          subst (Follows path_modules) q h,
          (
            f ∷ es,
            p,
            subst
                (λ b.
                  Walk (b.imported_module ∷ path_modules) (get_outgoing graph b.imported_module)
                    (f ∷ es) p)
                q w,
            x ∙ ap (λ b. violation_of start path_steps (b ∷ f ∷ es) p) q ∙ longer f es p,
          ),
        )
        split (a ∷ f ∷ es, p, (inr q, h, w), x) = absurd q

        join :
            ((p : Text) × Hits e p × (v ≡ violation_of start path_steps (e ∷ []) p))
              ⊎ Follows path_modules e
                × Explained start
                    (path_steps ++ step_from_edge e ∷ [])
                    (e.imported_module ∷ path_modules)
                    (get_outgoing graph e.imported_module)
                    v
            → Explained start path_steps path_modules (e ∷ []) v
        join (inl (p, h, x)) = (e ∷ [], p, (inl refl, h), x)
        join (inr (h, ([], p, w, x))) = absurd w
        join (inr (h, (f ∷ es, p, w, x))) =
            (e ∷ f ∷ es, p, (inl refl, h, w), x ∙ sym (longer f es p))
