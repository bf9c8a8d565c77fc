-- ===== src/Tests/Compared.antt =====
-- The comparison of two architectures.
use python_arch_testing.Base.{
  Dict, In, List, Text, [], arith, codes, eq_text, inl, inr, keys, refl, some, text_eq, ℕ, ◌++◌,
  ◌↔◌, ◌∷◌, ◌≡◌, ◌≢◌,
}
use python_arch_testing.Architecture.Edges.{Edge, eq_arrow, reachable}
use python_arch_testing.Architecture.Edges.Reach.{Reaches, reachable_iff}
use python_arch_testing.Architecture.Metrics.{metrics, ModuleMetrics}
use python_arch_testing.Architecture.Metrics.Coupled.{metrics_exact, Counts, Touched}
use python_arch_testing.Architecture.Fold.{fold_new_modules}
use python_arch_testing.Architecture.Fold.Paths.{Via, direct, via}
use python_arch_testing.Architecture.Fold.Turns.{Touches}
use python_arch_testing.Architecture.Fold.Exact.{Used, fold_known, fold_chains, fold_dropped}
use python_arch_testing.Architecture.Compare.{
  compare_edges, EdgeDiff, compare_instances, compare_packages, judged_edges, layered, policy_of,
}
use python_arch_testing.Architecture.Compare.Diff.{Chosen, Judged, Reports, compare_edges_exact}
use python_arch_testing.Architecture.Compare.Others.{
  JudgedInstance, compare_instances_exact, compare_packages_exact, JudgedPackage,
}

abbrev cli : Text
cli = codes "cli"

abbrev core : Text
core = codes "core"

abbrev store : Text
store = codes "store"

abbrev helper : Text
helper = codes "helper"

abbrev reference : List Edge
reference = (cli, core) ∷ (core, store) ∷ []

-- The target reaches its store through a module of its own.
abbrev target : Dict Edge ℕ
target = ((cli, core), 1) ∷ ((core, helper), 2) ∷ ((helper, store), 3) ∷ ((store, cli), 4) ∷ []

abbrev known : List Text
known = cli ∷ core ∷ store ∷ []

reachable_iff_example : In store (reachable cli reference) ↔ Reaches reference cli store
reachable_iff_example = reachable_iff cli reference store

different : core ≢ store
different p = ground (arith, p)

fold_chains_example :
    In (core, store) (keys ((fold_new_modules target known).0)) ↔ Via known (keys target) core store
fold_chains_example =
    fold_chains target known core store (inr (inl refl)) (inr (inr (inl refl))) different

fold_dropped_example :
    In (helper, store) (keys ((fold_new_modules target known).1))
    ↔ (In (helper, store) (keys target) × (¬ Used known (keys target) helper))
fold_dropped_example = fold_dropped target known (helper, store)

core-Touches : Touches (keys ((fold_new_modules target known).0)) core
core-Touches = (
  store,
  inl (fold_chains_example.1 (via (inr (inl refl)) unknown (direct (inr (inr (inl refl)))))),
)
  where
    unknown : ¬ In helper known
    unknown m = ground (arith, m)

fold_known_example : In core known
fold_known_example = fold_known target known core core-Touches

by_name : policy_of (codes "layered") ≡ some layered
unfolding policy_of text_eq
by_name = refl

compare_edges_exact_example :
    (d : EdgeDiff) × (compare_edges reference target (codes "layered") known [] [] [] ≡ some d)
    × Reports
        (Judged layered (reference ++ []) [] [])
        ((judged_edges layered target known).0)
        ((judged_edges layered target known).1)
        reference
        d
    × Chosen layered target known
compare_edges_exact_example =
    compare_edges_exact reference target (codes "layered") layered known [] [] [] by_name

compare_instances_exact_example :
    (d : EdgeDiff) × (compare_instances reference target (codes "layered") reference [] [] known
      ≡ some d)
    × Reports (JudgedInstance layered reference reference known [] []) (keys target) [] reference d
compare_instances_exact_example =
    compare_instances_exact reference target (codes "layered") layered reference [] [] known by_name

compare_packages_exact_example :
    Reports
      (JudgedPackage (codes "json" ∷ []) (codes "abc" ∷ []) [] [])
      (keys target)
      []
      []
      (compare_packages (codes "json" ∷ []) target (codes "abc" ∷ []) [] [])
compare_packages_exact_example =
    compare_packages_exact (codes "json" ∷ []) target (codes "abc" ∷ []) [] []

metrics_exact_example :
    (In core (keys (metrics reference)) ↔ Touched reference core)
    × ((x : ModuleMetrics) → In (core, x) (metrics reference) → Counts reference core x)
metrics_exact_example = metrics_exact reference core
