-- ===== src/Imports/Graph/Build.antt =====
-- The graph that `build_module_dependency_graph` makes: its edges and its internal modules.
use python_arch_testing.Base.{
  Bool-cases, Dict, In, In-append, In-sort_by, List, Nodup, Nodup-sort_by, Option, Subset, Text, [],
  arith, contains, contains_iff, eq_text, false, inl, inr, keys, lookup, none, not_contains, refl,
  some, sort_by, text_eq_iff, text_le, true, ◌++◌, ◌==◌, ◌||◌, ◌↔◌, ◌∙◌, ◌∷◌, ◌≡◌, ◌⊎◌,
}
use python_arch_testing.Imports.Edge.{NormalizedImportEdge, eq_edge}
use python_arch_testing.Imports.Graph.{
  ModuleNode, ModuleDependencyGraph, empty_graph, add_node, add_edge, get_outgoing,
  add_internal_nodes, add_new_edges, sort_outgoing_edges, build_module_dependency_graph,
  is_internal_node, edge_le,
}
use python_arch_testing.Imports.Graph.Outgoing.{
  get_outgoing-add_node, get_outgoing-add_edge, In-get_outgoing-sort, get_outgoing-sort,
  is_internal-add_node, is_internal-add_edge,
}

pub In-add_edge :
    (g : ModuleDependencyGraph) (e d : NormalizedImportEdge) (m : Text)
    → In e (get_outgoing (add_edge g d) m)
      ↔ (In e (get_outgoing g m) ⊎ (e ≡ d) × (d.importer_module ≡ m))
In-add_edge g e d m = elim (Bool-cases (d.importer_module == m)) [
  | inl h ↦
      rw (get_outgoing-add_edge, h)
        (ground (arith, In-append e (get_outgoing g m) (d ∷ []), text_eq_iff d.importer_module m))
  | inr h ↦ rw (get_outgoing-add_edge, h) (ground (arith, text_eq_iff d.importer_module m))
]

-- The loop adds each edge that was not seen before.
In-add_new_edges :
    (seen edges : List NormalizedImportEdge) (g : ModuleDependencyGraph) (e : NormalizedImportEdge)
    (m : Text)
    → In e (get_outgoing (add_new_edges seen edges g) m)
      ↔ (In e (get_outgoing g m) ⊎ (¬ In e seen) × In e edges × (e.importer_module ≡ m))
unfolding add_new_edges
In-add_new_edges seen [] g e m = ground arith
In-add_new_edges seen (d ∷ edges) g e m = elim (Bool-cases (contains seen d)) [
  | inl h ↦
      rw h (
        ground (arith, In-add_new_edges seen edges g e m, contains_iff seen d, contains_iff seen e))
  | inr h ↦ rw h (
      ground (
        arith,
        In-add_new_edges (d ∷ seen) edges (add_edge g d) e m,
        In-add_edge g e d m,
        contains_iff seen d,
        eq_edge.beq_iff e d,
      ))
]

get_outgoing-add_internal_nodes :
    (files : Dict Text (Option Text)) (names : List Text) (g : ModuleDependencyGraph) (m : Text)
    → get_outgoing (add_internal_nodes files names g) m ≡ get_outgoing g m
unfolding add_internal_nodes
get_outgoing-add_internal_nodes files [] g m = refl
get_outgoing-add_internal_nodes files (name ∷ names) g m =
    get_outgoing-add_internal_nodes files names _ m ∙ get_outgoing-add_node g _ m

pub get_outgoing-empty_graph : (m : Text) → get_outgoing empty_graph m ≡ []
unfolding get_outgoing
get_outgoing-empty_graph m = refl

-- The edges out of a module are the given edges with that importer, each of them, and no others.
pub build_outgoing :
    (internal_modules : Dict Text (Option Text)) (edges : List NormalizedImportEdge)
    (e : NormalizedImportEdge) (m : Text)
    → In e (get_outgoing (build_module_dependency_graph internal_modules edges) m)
      ↔ (In e edges × (e.importer_module ≡ m))
unfolding build_module_dependency_graph
build_outgoing internal_modules edges e m = ground (
  arith,
  In-get_outgoing-sort (add_new_edges [] edges start) m e,
  In-add_new_edges [] edges start e m,
  get_outgoing-add_internal_nodes internal_modules names empty_graph m,
  get_outgoing-empty_graph m,
)
  where
    names : List Text
    names = sort_by text_le (keys internal_modules)

    start : ModuleDependencyGraph
    start = add_internal_nodes internal_modules names empty_graph

Nodup-concat :
    (xs : List NormalizedImportEdge) (e : NormalizedImportEdge)
    → Nodup xs
    → ¬ In e xs
    → Nodup (xs ++ e ∷ [])
Nodup-concat [] e d n = ground arith
Nodup-concat (x ∷ xs) e d n =
    (λ m. ground (arith, In-append x xs (e ∷ [])), Nodup-concat xs e d.1 (λ m. n (inr m)))

-- Whatever is in the graph already has been seen.
Nodup-add_new_edges :
    (seen edges : List NormalizedImportEdge) (g : ModuleDependencyGraph) (m : Text)
    → Nodup (get_outgoing g m)
    → Subset (get_outgoing g m) seen
    → Nodup (get_outgoing (add_new_edges seen edges g) m)
unfolding add_new_edges
Nodup-add_new_edges seen [] g m d s = d
Nodup-add_new_edges seen (e ∷ edges) g m d s = elim (Bool-cases (contains seen e)) [
  | inl h ↦ rw h (Nodup-add_new_edges seen edges g m d s)
  | inr h ↦ rw h (
      Nodup-add_new_edges (e ∷ seen) edges (add_edge g e) m
        (step (Bool-cases (e.importer_module == m)) (λ i. not_contains seen e h (s e i)))
        (λ a i. elim ((In-add_edge g a e m).0 i) [ inl old ↦ inr (s a old) | inr new ↦ inl new.0 ]))
]
  where
    step :
        (e.importer_module == m ≡ true) ⊎ (e.importer_module == m ≡ false)
        → ¬ In e (get_outgoing g m)
        → Nodup (get_outgoing (add_edge g e) m)
    step (inl h) n = rw (get_outgoing-add_edge, h) (Nodup-concat (get_outgoing g m) e d n)
    step (inr h) n = rw (get_outgoing-add_edge, h) d

-- No import is recorded twice.
pub build-Nodup :
    (internal_modules : Dict Text (Option Text)) (edges : List NormalizedImportEdge) (m : Text)
    → Nodup (get_outgoing (build_module_dependency_graph internal_modules edges) m)
unfolding build_module_dependency_graph
build-Nodup internal_modules edges m = rw get_outgoing-sort (
    Nodup-sort_by edge_le _
      (Nodup-add_new_edges [] edges start m (rw empty tt) (rw empty (λ a i. i))))
  where
    start : ModuleDependencyGraph
    start =
        add_internal_nodes internal_modules (sort_by text_le (keys internal_modules)) empty_graph

    empty : get_outgoing start m ≡ []
    empty =
        get_outgoing-add_internal_nodes internal_modules (sort_by text_le (keys internal_modules))
          empty_graph m
        ∙ get_outgoing-empty_graph m

is_internal-add_internal_nodes :
    (files : Dict Text (Option Text)) (names : List Text) (g : ModuleDependencyGraph) (m : Text)
    → is_internal_node (add_internal_nodes files names g) m
      ≡ (is_internal_node g m || contains names m)
unfolding add_internal_nodes
is_internal-add_internal_nodes files [] g m = ground arith
is_internal-add_internal_nodes files (name ∷ names) g m =
    is_internal-add_internal_nodes files names (add_node g node) m
    ∙ ground (arith, is_internal-add_node g node m, text_eq_iff name m, text_eq_iff m name)
  where
    node : ModuleNode
    node = record {
      module_path = name;
      filepath_rel = elim (lookup name files) [ none ↦ none | some file ↦ file ];
      is_internal = true;
    }

is_internal-add_new_edges :
    (seen edges : List NormalizedImportEdge) (g : ModuleDependencyGraph) (m : Text)
    → is_internal_node (add_new_edges seen edges g) m ≡ is_internal_node g m
unfolding add_new_edges
is_internal-add_new_edges seen [] g m = refl
is_internal-add_new_edges seen (e ∷ edges) g m = elim (Bool-cases (contains seen e)) [
  | inl h ↦ rw h (is_internal-add_new_edges seen edges g m)
  | inr h ↦
      rw h
        (is_internal-add_new_edges (e ∷ seen) edges (add_edge g e) m ∙ is_internal-add_edge g e m)
]

contains-sort :
    (names : List Text) (m : Text) → contains (sort_by text_le names) m ≡ contains names m
contains-sort names m = ground (
  arith,
  contains_iff names m,
  contains_iff (sort_by text_le names) m,
  In-sort_by text_le m names,
)

-- A module is internal in the graph exactly if it is one of the program's modules, whatever is
-- imported from where.
pub build_internal :
    (internal_modules : Dict Text (Option Text)) (edges : List NormalizedImportEdge) (m : Text)
    → is_internal_node (build_module_dependency_graph internal_modules edges) m
      ≡ contains (keys internal_modules) m
unfolding build_module_dependency_graph
build_internal internal_modules edges m =
    sorted_lem (add_new_edges [] edges start)
    ∙ is_internal-add_new_edges [] edges start m
    ∙ is_internal-add_internal_nodes internal_modules _ empty_graph m
    ∙ empty_lem
    ∙ contains-sort (keys internal_modules) m
  where
    start : ModuleDependencyGraph
    start =
        add_internal_nodes internal_modules (sort_by text_le (keys internal_modules)) empty_graph

    sorted_lem :
        (g : ModuleDependencyGraph)
        → is_internal_node (sort_outgoing_edges g) m ≡ is_internal_node g m
    sorted_lem g = unfold is_internal_node sort_outgoing_edges in refl

    empty_lem :
        (is_internal_node empty_graph m || contains (sort_by text_le (keys internal_modules)) m)
        ≡ contains (sort_by text_le (keys internal_modules)) m
    empty_lem = unfold is_internal_node lookup in refl
