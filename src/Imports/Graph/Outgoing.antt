-- ===== src/Imports/Graph/Outgoing.antt =====
-- What `add_edge`, `add_node` and the sort do to the edges out of a module and to its node.
use python_arch_testing.Base.{
  Bool-cases, Dict, In, In-sort_by, List, Option, Option-cases, Text, [], arith, eq_text, false,
  if◌then◌else◌, inl, inr, insert, lookup, lookup-insert, none, refl, some, sort_by, text_eq_iff,
  ◌++◌, ◌==◌, ◌||◌, ◌↔◌, ◌∙◌, ◌∷◌, ◌≡◌,
}
use python_arch_testing.Imports.Edge.{NormalizedImportEdge}
use python_arch_testing.Imports.Graph.{
  ModuleNode, ModuleDependencyGraph, add_node, add_external, add_edge, get_outgoing, edge_le,
  merged_node, sort_values, sort_outgoing_edges, is_internal_node,
}

pub get_outgoing-add_node :
    (g : ModuleDependencyGraph) (n : ModuleNode) (m : Text)
    → get_outgoing (add_node g n) m ≡ get_outgoing g m
unfolding get_outgoing add_node
get_outgoing-add_node g n m = ground arith

pub get_outgoing-add_external :
    (g : ModuleDependencyGraph) (name : Text) (file : Option Text) (m : Text)
    → get_outgoing (add_external g name file) m ≡ get_outgoing g m
unfolding add_external
get_outgoing-add_external g name file m = ground (
  arith,
  get_outgoing-add_node g (record { module_path = name; filepath_rel = file; is_internal = false })
      m,
)

abbrev append_outgoing : ModuleDependencyGraph → NormalizedImportEdge → ModuleDependencyGraph
append_outgoing h e = record h {
  outgoing_edges =
      insert e.importer_module (get_outgoing h e.importer_module ++ e ∷ []) h.outgoing_edges;
}

get_outgoing-append_outgoing :
    (h : ModuleDependencyGraph) (e : NormalizedImportEdge) (m : Text)
    → get_outgoing (append_outgoing h e) m
      ≡ (if e.importer_module == m then get_outgoing h m ++ e ∷ [] else get_outgoing h m)
unfolding get_outgoing
get_outgoing-append_outgoing h e m = ground (
  arith,
  text_eq_iff e.importer_module m,
  lookup-insert e.importer_module m (get_outgoing h e.importer_module ++ e ∷ []) h.outgoing_edges,
)

pub get_outgoing-add_edge :
    (g : ModuleDependencyGraph) (e : NormalizedImportEdge) (m : Text)
    → get_outgoing (add_edge g e) m
      ≡ (if e.importer_module == m then get_outgoing g m ++ e ∷ [] else get_outgoing g m)
unfolding add_edge
get_outgoing-add_edge g e m = ground (
  arith,
  get_outgoing-append_outgoing (add_external g' e.imported_module none) e m,
  get_outgoing-add_external g' e.imported_module none m,
  get_outgoing-add_external g e.importer_module (some e.filepath_rel) m,
)
  where
    g' : ModuleDependencyGraph
    g' = add_external g e.importer_module (some e.filepath_rel)

lookup-sort_values :
    (m : Text) (d : Dict Text (List NormalizedImportEdge))
    → lookup m (sort_values d)
      ≡ elim (lookup m d) [ none ↦ none | some es ↦ some (sort_by edge_le es) ]
unfolding sort_values lookup
lookup-sort_values m [] = refl
lookup-sort_values m ((j, es) ∷ d) = elim (Bool-cases (j == m)) [
  | inl e ↦ rw e
  | inr e ↦ rw e (lookup-sort_values m d)
]

pub get_outgoing-sort :
    (g : ModuleDependencyGraph) (m : Text)
    → get_outgoing (sort_outgoing_edges g) m ≡ sort_by edge_le (get_outgoing g m)
unfolding get_outgoing sort_outgoing_edges sort_by
get_outgoing-sort g m = ground (arith, lookup-sort_values m g.outgoing_edges)

pub In-get_outgoing-sort :
    (g : ModuleDependencyGraph) (m : Text) (e : NormalizedImportEdge)
    → In e (get_outgoing (sort_outgoing_edges g) m) ↔ In e (get_outgoing g m)
In-get_outgoing-sort g m e = rw get_outgoing-sort (In-sort_by edge_le e (get_outgoing g m))

-- The node of a module: what `add_node`, `add_edge` and the sort do to `is_internal`.
pub is_internal-add_node :
    (g : ModuleDependencyGraph) (n : ModuleNode) (m : Text)
    → is_internal_node (add_node g n) m
      ≡ (if n.module_path == m then is_internal_node g m || n.is_internal else is_internal_node g m)
unfolding is_internal_node add_node
is_internal-add_node g n m = elim (Option-cases (lookup n.module_path g.nodes)) [
  | inl e ↦ ground (arith, text_eq_iff n.module_path m, lookup-insert n.module_path m n g.nodes)
  | inr (v, e) ↦
      ground (
        arith,
        text_eq_iff n.module_path m,
        lookup-insert n.module_path m (merged_node v n) g.nodes,
      )
]

pub is_internal-add_external :
    (g : ModuleDependencyGraph) (name : Text) (file : Option Text) (m : Text)
    → is_internal_node (add_external g name file) m ≡ is_internal_node g m
unfolding add_external is_internal_node add_node
is_internal-add_external g name file m = ground (
  arith,
  text_eq_iff name m,
  is_internal-add_node g (record { module_path = name; filepath_rel = file; is_internal = false })
      m,
)

pub is_internal-add_edge :
    (g : ModuleDependencyGraph) (e : NormalizedImportEdge) (m : Text)
    → is_internal_node (add_edge g e) m ≡ is_internal_node g m
unfolding add_edge is_internal_node
is_internal-add_edge g e m =
    is_internal-add_external (add_external g e.importer_module (some e.filepath_rel))
      e.imported_module none m
    ∙ is_internal-add_external g e.importer_module (some e.filepath_rel) m
