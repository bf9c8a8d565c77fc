-- ===== src/Tests/Imports.antt =====
-- Imports, the search over them, and dotted names.
use python_arch_testing.Base.{
  Dict, In, List, Nodup, Option, Text, [], codes, contains, eq_text, false, keys, none, refl, some,
  text_eq, true, ℕ, ◌↔◌, ◌∷◌, ◌≡◌,
}
use python_arch_testing.Names.{
  module_of, in_module, longest, longest_from, module_of_specific, starts_with,
}
use python_arch_testing.Imports.Edge.{NormalizedImportEdge, eq_edge}
use python_arch_testing.Imports.Graph.{
  ModuleDependencyGraph, build_module_dependency_graph, filter_module_dependency_graph,
  get_outgoing, is_internal_node,
}
use python_arch_testing.Imports.Graph.Build.{build_outgoing, build-Nodup, build_internal}
use python_arch_testing.Imports.Graph.Filter.{
  filter_outgoing, Keyed, Kept, filter_internal, stays_internal,
}
use python_arch_testing.Imports.Paths.{
  ReachableImportViolation, collect_reachable_import_violations,
}
use python_arch_testing.Imports.Paths.Walk.{Explained}
use python_arch_testing.Imports.Paths.Search.{collect_exact}

abbrev app : Text
app = codes "app"

abbrev core : Text
core = codes "app.core"

abbrev store : Text
store = codes "app.store"

abbrev sql : Text
sql = codes "sqlite3"

abbrev import_of : Text → Text → ℕ → NormalizedImportEdge
import_of importer imported line = record {
  importer_module = importer;
  imported_module = imported;
  filepath_rel = importer;
  lineno = line;
  in_type_checking = false;
  is_top_level = true;
}

abbrev edges : List NormalizedImportEdge
edges = import_of core store 1 ∷ import_of store core 2 ∷ import_of store sql 3 ∷ []

abbrev internal_modules : Dict Text (Option Text)
internal_modules = (core, none) ∷ (store, none) ∷ []

abbrev graph : ModuleDependencyGraph
graph = build_module_dependency_graph internal_modules edges

collect_exact_example :
    (vs : List ReachableImportViolation) × (collect_reachable_import_violations graph
        (sql ∷ [])
        []
        (core ∷ [])
      ≡ some vs)
    × Nodup vs
    × ((v : ReachableImportViolation)
        → In v vs ↔ (
            (root : Text) × In root (core ∷ [])
            × (is_internal_node graph root ≡ true)
            × Explained graph (sql ∷ []) [] root [] (root ∷ []) (get_outgoing graph root) v))
collect_exact_example = collect_exact graph (sql ∷ []) [] (core ∷ [])

build_outgoing_example :
    In (import_of store sql 3) (get_outgoing graph store)
    ↔ (In (import_of store sql 3) edges × (store ≡ store))
build_outgoing_example = build_outgoing internal_modules edges (import_of store sql 3) store

build-Nodup_example : Nodup (get_outgoing graph store)
build-Nodup_example = build-Nodup internal_modules edges store

build_internal_example : is_internal_node graph sql ≡ contains (keys internal_modules) sql
build_internal_example = build_internal internal_modules edges sql

graph-Keyed : Keyed graph
graph-Keyed m e i = ((build_outgoing internal_modules edges e m).0 i).1

filter_outgoing_example :
    In
      (import_of store sql 3)
      (get_outgoing (filter_module_dependency_graph graph true false (core ∷ [])) store)
    ↔ (In (import_of store sql 3) (get_outgoing graph store)
        × Kept true false (core ∷ []) (import_of store sql 3))
filter_outgoing_example =
    filter_outgoing graph true false (core ∷ []) (import_of store sql 3) store graph-Keyed

filter_internal_example :
    is_internal_node (filter_module_dependency_graph graph true false (core ∷ [])) store
    ≡ stays_internal graph (core ∷ []) store
filter_internal_example = filter_internal graph true false (core ∷ []) store

found : module_of (codes "app.core.x") (app ∷ core ∷ []) ≡ some core
unfolding module_of longest longest_from in_module starts_with text_eq
found = refl

module_of_specific_example :
    In core (app ∷ core ∷ [])
    × (in_module (codes "app.core.x") core ≡ true)
    × ((other : Text)
        → In other (app ∷ core ∷ [])
        → in_module (codes "app.core.x") other ≡ true
        → in_module core other ≡ true)
module_of_specific_example = module_of_specific (codes "app.core.x") (app ∷ core ∷ []) core found
