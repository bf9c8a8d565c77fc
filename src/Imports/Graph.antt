-- ===== src/Imports/Graph.antt =====
-- execution/import_graph.py: `ModuleNode`, `ModuleDependencyGraph` and the functions that build
-- and filter a graph. A `dict` is an association list, a `set` a list tested by membership.
use python_arch_testing.Base.{
  Bool, Dict, List, Option, Text, [], bool_le, contains, eq_bool, eq_nat, eq_text, false,
  if◌then◌else◌, insert, keys, leb, lex, lookup, none, not, some, sort_by, text_le, true, ℕ, ◌&&◌,
  ◌++◌, ◌||◌, ◌∷◌,
}
pub mod Outgoing
pub mod Build
pub mod Filter
use python_arch_testing.Imports.Edge.{NormalizedImportEdge, eq_edge}

pub record ModuleNode : Type 0 where
  pub module_path : Text
  pub filepath_rel : Option Text
  pub is_internal : Bool

pub record ModuleDependencyGraph : Type 0 where
  pub nodes : Dict Text ModuleNode
  pub outgoing_edges : Dict Text (List NormalizedImportEdge)

abbrev pub empty_graph : ModuleDependencyGraph
empty_graph = record { nodes = []; outgoing_edges = [] }

-- Python's `a or b` on an optional text: an empty text is false too.
pub or_text : Option Text → Option Text → Option Text
or_text none b = b
or_text (some []) b = b
or_text (some (c ∷ s)) b = some (c ∷ s)

-- The node that replaces an existing one.
pub merged_node : ModuleNode → ModuleNode → ModuleNode
unfolding or_text
merged_node existing node = record {
  module_path = node.module_path;
  filepath_rel = or_text existing.filepath_rel node.filepath_rel;
  is_internal = existing.is_internal || node.is_internal;
}

pub add_node : ModuleDependencyGraph → ModuleNode → ModuleDependencyGraph
unfolding merged_node
add_node g node = elim (lookup node.module_path g.nodes) [
  | none ↦ record g { nodes = insert node.module_path node g.nodes }
  | some existing ↦ record g { nodes = insert node.module_path (merged_node existing node) g.nodes }
]

-- `if module not in self.nodes: self.add_node(...)`, for an end of an edge.
pub add_external : ModuleDependencyGraph → Text → Option Text → ModuleDependencyGraph
unfolding add_node
add_external g name file = elim (lookup name g.nodes) [
  | none ↦ add_node g (record { module_path = name; filepath_rel = file; is_internal = false })
  | some _ ↦ g
]

pub get_outgoing : ModuleDependencyGraph → Text → List NormalizedImportEdge
unfolding lookup
get_outgoing g name = elim (lookup name g.outgoing_edges) [ none ↦ [] | some es ↦ es ]

pub add_edge : ModuleDependencyGraph → NormalizedImportEdge → ModuleDependencyGraph
unfolding add_external
add_edge g edge =
    let g' = add_external g edge.importer_module (some edge.filepath_rel) in
    let g'' = add_external g' edge.imported_module none in
    record g'' {
      outgoing_edges =
          insert edge.importer_module (get_outgoing g'' edge.importer_module ++ edge ∷ [])
            g''.outgoing_edges;
    }

pub edge_sort_key : NormalizedImportEdge → Text × (ℕ × (Text × (Bool × Bool)))
edge_sort_key e =
    (e.filepath_rel, (e.lineno, (e.imported_module, (e.in_type_checking, e.is_top_level))))

pub edge_le : NormalizedImportEdge → NormalizedImportEdge → Bool
unfolding edge_sort_key
edge_le a b =
    lex text_le (lex leb (lex text_le (lex bool_le bool_le))) (edge_sort_key a) (edge_sort_key b)

pub sort_values : Dict Text (List NormalizedImportEdge) → Dict Text (List NormalizedImportEdge)
unfolding edge_le sort_by
sort_values [] = []
sort_values ((name, edges) ∷ d) = (name, sort_by edge_le edges) ∷ sort_values d

pub sort_outgoing_edges : ModuleDependencyGraph → ModuleDependencyGraph
unfolding sort_values
sort_outgoing_edges g = record g { outgoing_edges = sort_values g.outgoing_edges }

-- The two loops of `build_module_dependency_graph`.
pub add_internal_nodes :
    Dict Text (Option Text) → List Text → ModuleDependencyGraph → ModuleDependencyGraph
unfolding add_node lookup
add_internal_nodes files [] g = g
add_internal_nodes files (name ∷ names) g = add_internal_nodes files names (
    add_node g (record {
      module_path = name;
      filepath_rel = elim (lookup name files) [ none ↦ none | some file ↦ file ];
      is_internal = true;
    }))

pub add_new_edges :
    List NormalizedImportEdge
    → List NormalizedImportEdge
    → ModuleDependencyGraph
    → ModuleDependencyGraph
unfolding add_edge
add_new_edges seen [] g = g
add_new_edges seen (edge ∷ edges) g =
    let skip = add_new_edges seen edges g in
    let keep = add_new_edges (edge ∷ seen) edges (add_edge g edge) in
    if contains seen edge then skip else keep

unfoldable pub build_module_dependency_graph :
    Dict Text (Option Text) → List NormalizedImportEdge → ModuleDependencyGraph
unfolding add_internal_nodes add_new_edges sort_outgoing_edges
build_module_dependency_graph internal_modules edges = sort_outgoing_edges (
    add_new_edges [] edges
      (add_internal_nodes internal_modules (sort_by text_le (keys internal_modules)) empty_graph))

pub file_ignored : List Text → Option Text → Bool
file_ignored ignored none = false
file_ignored ignored (some file) = contains ignored file

-- The loops of `filter_module_dependency_graph`; a module whose file is ignored turns external.
pub filtered_node : List Text → Text → ModuleNode → ModuleNode
unfolding file_ignored
filtered_node ignored name node = record {
  module_path = name;
  filepath_rel = node.filepath_rel;
  is_internal =
      node.is_internal && not (node.is_internal && file_ignored ignored node.filepath_rel);
}

pub add_filtered_nodes :
    List Text → Dict Text ModuleNode → List Text → ModuleDependencyGraph → ModuleDependencyGraph
unfolding filtered_node add_node lookup
add_filtered_nodes ignored nodes [] g = g
add_filtered_nodes ignored nodes (name ∷ names) g =
    add_filtered_nodes ignored nodes names (elim (lookup name nodes) [
      | none ↦ g
      | some node ↦ add_node g (filtered_node ignored name node)
    ])

pub keeps_edge : Bool → Bool → List Text → NormalizedImportEdge → Bool
keeps_edge ignore_type_checking include_local_edges ignored edge =
    if contains ignored edge.filepath_rel
    then false
    else if ignore_type_checking && edge.in_type_checking
    then false
    else if not include_local_edges && not edge.is_top_level
    then false
    else true

pub add_kept_edges :
    (NormalizedImportEdge → Bool)
    → List NormalizedImportEdge
    → ModuleDependencyGraph
    → ModuleDependencyGraph
unfolding add_edge
add_kept_edges keeps [] g = g
add_kept_edges keeps (edge ∷ edges) g =
    add_kept_edges keeps edges (if keeps edge then add_edge g edge else g)

pub add_filtered_edges :
    (NormalizedImportEdge → Bool)
    → ModuleDependencyGraph
    → List Text
    → ModuleDependencyGraph
    → ModuleDependencyGraph
unfolding add_kept_edges get_outgoing
add_filtered_edges keeps graph [] g = g
add_filtered_edges keeps graph (name ∷ names) g =
    add_filtered_edges keeps graph names (add_kept_edges keeps (get_outgoing graph name) g)

unfoldable pub filter_module_dependency_graph :
    ModuleDependencyGraph → Bool → Bool → List Text → ModuleDependencyGraph
unfolding add_filtered_nodes add_filtered_edges keeps_edge sort_outgoing_edges
filter_module_dependency_graph graph ignore_type_checking include_local_edges ignored =
    sort_outgoing_edges (
      add_filtered_edges (keeps_edge ignore_type_checking include_local_edges ignored) graph
        (sort_by text_le (keys graph.outgoing_edges))
        (add_filtered_nodes ignored graph.nodes (sort_by text_le (keys graph.nodes)) empty_graph))

-- `node is not None and node.is_internal`.
unfoldable pub is_internal_node : ModuleDependencyGraph → Text → Bool
unfolding lookup
is_internal_node g name = elim (lookup name g.nodes) [ none ↦ false | some n ↦ n.is_internal ]
