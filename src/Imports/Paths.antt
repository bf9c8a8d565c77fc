-- ===== src/Imports/Paths.antt =====
-- execution/import_policy_paths.py: the paths of imports from the modules of a scope to forbidden
-- modules, by a depth-first search. The recursion of `visit_module` takes fuel, one more than the
-- nodes of the graph; `none` means that it ran out.
use python_arch_testing.Base.{
  Bool, Eq, List, Option, Text, [], bool_le, contains, distinct, eq_bool, eq_list, eq_nat, eq_pair,
  eq_text, false, if◌then◌else◌, leb, length, lex, map, none, not, some, sort_by, suc, text_le,
  true, zero, ℕ, ◌++◌, ◌∷◌,
}
pub mod Signature
pub mod Walk
pub mod Room
pub mod Step
pub mod Search
use python_arch_testing.Names.{matches_prefix}
use python_arch_testing.Imports.Edge.{NormalizedImportEdge}
use python_arch_testing.Imports.Graph.{ModuleDependencyGraph, get_outgoing, is_internal_node}

pub record ImportPathStep : Type 0 where
  pub from_module : Text
  pub to_module : Text
  pub step_filepath : Text
  pub step_lineno : ℕ
  pub step_type_checking : Bool
  pub step_top_level : Bool

pub record ReachableImportViolation : Type 0 where
  pub start_module : Text
  pub forbidden_target : Text
  pub forbidden_prefix : Text
  pub steps : List ImportPathStep

pub step_from_edge : NormalizedImportEdge → ImportPathStep
step_from_edge edge = record {
  from_module = edge.importer_module;
  to_module = edge.imported_module;
  step_filepath = edge.filepath_rel;
  step_lineno = edge.lineno;
  step_type_checking = edge.in_type_checking;
  step_top_level = edge.is_top_level;
}

abbrev pub StepKey : Type 0
StepKey = Text × (Text × (Text × (ℕ × (Bool × Bool))))

instance abbrev pub eq_step_key : Eq StepKey
eq_step_key =
    eq_pair ⦃e = eq_text⦄
      ⦃f = eq_pair ⦃e = eq_text⦄
        ⦃f = eq_pair ⦃e = eq_text⦄
          ⦃f = eq_pair ⦃e = eq_nat⦄ ⦃f = eq_pair ⦃e = eq_bool⦄ ⦃f = eq_bool⦄⦄⦄⦄⦄

abbrev pub step_key_le : StepKey → StepKey → Bool
step_key_le = lex ⦃e = eq_text⦄ text_le (
    lex ⦃e = eq_text⦄ text_le
      (lex ⦃e = eq_text⦄ text_le (lex ⦃e = eq_nat⦄ leb (lex ⦃e = eq_bool⦄ bool_le bool_le))))

pub step_sort_key : ImportPathStep → StepKey
step_sort_key s = (
  s.from_module,
  (s.to_module, (s.step_filepath, (s.step_lineno, (s.step_type_checking, s.step_top_level)))),
)

-- Tuples of any length compare by the first item that differs, a shorter one before a longer.
abbrev pub step_keys_le : List StepKey → List StepKey → Bool
step_keys_le [] ys = true
step_keys_le (x ∷ xs) [] = false
step_keys_le (x ∷ xs) (y ∷ ys) = if eq_step_key.beq x y then step_keys_le xs ys else step_key_le x y

pub violation_le : ReachableImportViolation → ReachableImportViolation → Bool
unfolding step_sort_key
violation_le a b =
    lex ⦃e = eq_text⦄ text_le (lex ⦃e = eq_text⦄ text_le step_keys_le)
      (a.start_module, (a.forbidden_target, map step_sort_key a.steps))
      (b.start_module, (b.forbidden_target, map step_sort_key b.steps))

abbrev pub SignatureKey : Type 0
SignatureKey = Text × (Text × (Text × List StepKey))

instance abbrev pub eq_signature : Eq SignatureKey
eq_signature =
    eq_pair ⦃e = eq_text⦄
      ⦃f = eq_pair ⦃e = eq_text⦄ ⦃f = eq_pair ⦃e = eq_text⦄ ⦃f = eq_list ⦃e = eq_step_key⦄⦄⦄⦄

pub signature : ReachableImportViolation → SignatureKey
signature v =
    (v.start_module, (v.forbidden_target, (v.forbidden_prefix, map step_sort_key v.steps)))

-- The two variables that `visit_module` shares with its enclosing function.
pub record Found : Type 0 where
  pub violations : List ReachableImportViolation
  pub seen_violations : List SignatureKey

pub report : ReachableImportViolation → Found → Found
unfolding signature
report v st = if contains ⦃e = eq_signature⦄ st.seen_violations (signature v) then st else record {
  violations = st.violations ++ v ∷ [];
  seen_violations = st.seen_violations ++ signature v ∷ [];
}

infixl 5 ◌>>=◌
abbrev pub ◌>>=◌ {ℓ κ} : {A : Type ℓ} {B : Type κ} → Option A → (A → Option B) → Option B
none >>= f = none
some a >>= f = f a

-- What a call of `visit_module` takes besides the shared variables: the module, the steps that
-- lead to it and the modules on the path.
abbrev pub Visit : Type 0
Visit = Text → List ImportPathStep → List Text → Found → Option Found

module _ (graph : ModuleDependencyGraph) (forbidden_prefixes allowed_prefixes : List Text) where
  -- The body of the loop in `visit_module`, with the recursive call as an argument.
  pub visit_edge :
      Visit → Text → List ImportPathStep → List Text → NormalizedImportEdge → Found → Option Found
  visit_edge visit start path_steps path_modules edge st =
      elim (matches_prefix edge.imported_module allowed_prefixes) [
        | some _ ↦ some st
        | none ↦ elim (matches_prefix edge.imported_module forbidden_prefixes) [
          | some prefix ↦ some (
              report
                (record {
                  start_module = start;
                  forbidden_target = edge.imported_module;
                  forbidden_prefix = prefix;
                  steps = path_steps ++ step_from_edge edge ∷ [];
                })
                st)
          | none ↦
              if not (is_internal_node graph edge.imported_module)
              then some st
              else if contains path_modules edge.imported_module
              then some st
              else visit edge.imported_module (path_steps ++ step_from_edge edge ∷ [])
                  (edge.imported_module ∷ path_modules) st
        ]
      ]

  pub visit_edges :
      Visit
      → Text
      → List ImportPathStep
      → List Text
      → List NormalizedImportEdge
      → Found
      → Option Found
  unfolding visit_edge
  visit_edges visit start path_steps path_modules [] st = some st
  visit_edges visit start path_steps path_modules (edge ∷ edges) st = do
    st' ← visit_edge visit start path_steps path_modules edge st
    visit_edges visit start path_steps path_modules edges st'

  pub visit_module : ℕ → Text → Visit
  unfolding visit_edges
  visit_module zero start current path_steps path_modules st = none
  visit_module (suc fuel) start current path_steps path_modules st =
      visit_edges (visit_module fuel start) start path_steps path_modules
        (get_outgoing graph current) st

  -- The loop over the sorted roots.
  pub visit_roots : ℕ → List Text → Found → Option Found
  unfolding visit_module
  visit_roots fuel [] st = some st
  visit_roots fuel (root ∷ roots) st = do
    st' ←
        if not (is_internal_node graph root)
        then some st
        else visit_module fuel root root [] (root ∷ []) st
    visit_roots fuel roots st'

  unfoldable pub collect_reachable_import_violations :
      List Text → Option (List ReachableImportViolation)
  unfolding visit_roots violation_le
  collect_reachable_import_violations root_modules = do
    st ←
        visit_roots (suc (length graph.nodes)) (sort_by text_le (distinct root_modules))
          (record { violations = []; seen_violations = [] })
    some (sort_by violation_le st.violations)
