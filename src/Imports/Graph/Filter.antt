-- ===== src/Imports/Graph/Filter.antt =====
-- What `filter_module_dependency_graph` keeps of a graph.
use python_arch_testing.Base.{
  Bool, Bool-cases, Dict, In, In-sort_by, List, Option-cases, Text, [], arith, contains,
  contains_iff, eq_text, false, inl, inr, key_of_lookup, keys, lookup, none, not, refl, some,
  sort_by, subst, text_eq_iff, text_le, true, ◌&&◌, ◌==◌, ◌||◌, ◌↔◌, ◌∙◌, ◌∷◌, ◌≡◌, ◌⊎◌,
}
use python_arch_testing.Imports.Edge.{NormalizedImportEdge, eq_edge}
use python_arch_testing.Imports.Graph.{
  ModuleNode, ModuleDependencyGraph, empty_graph, add_node, add_edge, get_outgoing, file_ignored,
  filtered_node, add_filtered_nodes, keeps_edge, add_kept_edges, add_filtered_edges,
  filter_module_dependency_graph, is_internal_node, sort_outgoing_edges,
}
use python_arch_testing.Imports.Graph.Outgoing.{
  get_outgoing-add_node, In-get_outgoing-sort, is_internal-add_node, is_internal-add_edge,
}
use python_arch_testing.Imports.Graph.Build.{In-add_edge, get_outgoing-empty_graph}

-- Every edge is filed under its importer.
abbrev pub Keyed : ModuleDependencyGraph → Type 0
Keyed g = (m : Text) (e : NormalizedImportEdge) → In e (get_outgoing g m) → e.importer_module ≡ m

In-add_kept_edges :
    (keeps : NormalizedImportEdge → Bool) (edges : List NormalizedImportEdge)
    (g : ModuleDependencyGraph) (e : NormalizedImportEdge) (m : Text)
    → In e (get_outgoing (add_kept_edges keeps edges g) m)
      ↔ (In e (get_outgoing g m) ⊎ In e edges × (keeps e ≡ true) × (e.importer_module ≡ m))
unfolding add_kept_edges
In-add_kept_edges keeps [] g e m = ground arith
In-add_kept_edges keeps (d ∷ edges) g e m = elim (Bool-cases (keeps d)) [
  | inl h ↦
      rw h (ground (arith, In-add_kept_edges keeps edges (add_edge g d) e m, In-add_edge g e d m))
  | inr h ↦ rw h (ground (arith, In-add_kept_edges keeps edges g e m))
]

-- The edges that the loop over the modules `names` takes over.
In-add_filtered_edges :
    (keeps : NormalizedImportEdge → Bool) (graph : ModuleDependencyGraph) (names : List Text)
    (g : ModuleDependencyGraph) (e : NormalizedImportEdge) (m : Text)
    → Keyed graph
    → In e (get_outgoing (add_filtered_edges keeps graph names g) m)
      ↔ (In e (get_outgoing g m) ⊎ In m names × In e (get_outgoing graph m) × (keeps e ≡ true))
unfolding add_filtered_edges
In-add_filtered_edges keeps graph [] g e m keyed = ground arith
In-add_filtered_edges keeps graph (name ∷ names) g e m keyed = ground (
  arith,
  In-add_filtered_edges keeps graph names (add_kept_edges keeps (get_outgoing graph name) g) e m
      keyed,
  In-add_kept_edges keeps (get_outgoing graph name) g e m,
  keyed name e,
  keyed m e,
)

get_outgoing-add_filtered_nodes :
    (ignored : List Text) (nodes : Dict Text ModuleNode) (names : List Text)
    (g : ModuleDependencyGraph) (m : Text)
    → get_outgoing (add_filtered_nodes ignored nodes names g) m ≡ get_outgoing g m
unfolding add_filtered_nodes
get_outgoing-add_filtered_nodes ignored nodes [] g m = refl
get_outgoing-add_filtered_nodes ignored nodes (name ∷ names) g m =
    elim (Option-cases (lookup name nodes)) [
      | inl h ↦ rw h (get_outgoing-add_filtered_nodes ignored nodes names g m)
      | inr (v, h) ↦
          rw h
            (get_outgoing-add_filtered_nodes ignored nodes names _ m ∙ get_outgoing-add_node g _ m)
    ]

key_of_outgoing :
    (g : ModuleDependencyGraph) (m : Text) (e : NormalizedImportEdge)
    → In e (get_outgoing g m)
    → In m (sort_by text_le (keys g.outgoing_edges))
unfolding get_outgoing
key_of_outgoing g m e i = elim (Option-cases (lookup m g.outgoing_edges)) [
  | inl h ↦ absurd (subst (λ es. In e es) (lem h) i)
  | inr (es, h) ↦
      (In-sort_by text_le m (keys g.outgoing_edges)).1 (key_of_lookup m es g.outgoing_edges h)
]
  where
    lem : lookup m g.outgoing_edges ≡ none → get_outgoing g m ≡ []
    lem h = rw (h, get_outgoing)

-- What the options leave: an edge of a file that is not ignored, not under TYPE_CHECKING where such
-- imports are ignored, and at the top level where local ones are not included.
abbrev pub Kept : Bool → Bool → List Text → NormalizedImportEdge → Type 0
Kept ignore_type_checking include_local_edges ignored e =
    (¬ In e.filepath_rel ignored)
    × ¬ ((ignore_type_checking ≡ true) × (e.in_type_checking ≡ true))
    × ((include_local_edges ≡ true) ⊎ (e.is_top_level ≡ true))

keeps_edge_iff :
    (ignore_type_checking include_local_edges : Bool) (ignored : List Text)
    (e : NormalizedImportEdge)
    → (keeps_edge ignore_type_checking include_local_edges ignored e ≡ true)
      ↔ Kept ignore_type_checking include_local_edges ignored e
unfolding keeps_edge
keeps_edge_iff ignore_type_checking include_local_edges ignored e =
    ground (arith, contains_iff ignored e.filepath_rel)

-- Of a graph in which every edge is filed under its importer, the filtered graph has exactly the
-- edges whose file is not ignored, which are not under TYPE_CHECKING where such imports are ignored,
-- and which are at the top level where local imports are not included.
pub filter_outgoing :
    (g : ModuleDependencyGraph) (ignore_type_checking include_local_edges : Bool)
    (ignored : List Text) (e : NormalizedImportEdge) (m : Text)
    → Keyed g
    → In e (
        get_outgoing
          (filter_module_dependency_graph g ignore_type_checking include_local_edges ignored)
          m)
      ↔ (In e (get_outgoing g m) × Kept ignore_type_checking include_local_edges ignored e)
unfolding filter_module_dependency_graph
filter_outgoing g ignore_type_checking include_local_edges ignored e m keyed = ground (
  arith,
  In-get_outgoing-sort (add_filtered_edges keeps g names start) m e,
  In-add_filtered_edges keeps g names start e m keyed,
  get_outgoing-add_filtered_nodes ignored g.nodes (sort_by text_le (keys g.nodes)) empty_graph m,
  get_outgoing-empty_graph m,
  key_of_outgoing g m e,
  keeps_edge_iff ignore_type_checking include_local_edges ignored e,
)
  where
    keeps : NormalizedImportEdge → Bool
    keeps = keeps_edge ignore_type_checking include_local_edges ignored

    names : List Text
    names = sort_by text_le (keys g.outgoing_edges)

    start : ModuleDependencyGraph
    start = add_filtered_nodes ignored g.nodes (sort_by text_le (keys g.nodes)) empty_graph

-- Whether a module stays internal: it was, and its file is not ignored.
pub stays_internal : ModuleDependencyGraph → List Text → Text → Bool
stays_internal g ignored m = elim (lookup m g.nodes) [
  | none ↦ false
  | some n ↦ n.is_internal && not (file_ignored ignored n.filepath_rel)
]

is_internal-add_kept_edges :
    (keeps : NormalizedImportEdge → Bool) (edges : List NormalizedImportEdge)
    (g : ModuleDependencyGraph) (m : Text)
    → is_internal_node (add_kept_edges keeps edges g) m ≡ is_internal_node g m
unfolding add_kept_edges
is_internal-add_kept_edges keeps [] g m = refl
is_internal-add_kept_edges keeps (d ∷ edges) g m = elim (Bool-cases (keeps d)) [
  | inl h ↦
      rw h (is_internal-add_kept_edges keeps edges (add_edge g d) m ∙ is_internal-add_edge g d m)
  | inr h ↦ rw h (is_internal-add_kept_edges keeps edges g m)
]

is_internal-add_filtered_edges :
    (keeps : NormalizedImportEdge → Bool) (graph : ModuleDependencyGraph) (names : List Text)
    (g : ModuleDependencyGraph) (m : Text)
    → is_internal_node (add_filtered_edges keeps graph names g) m ≡ is_internal_node g m
unfolding add_filtered_edges
is_internal-add_filtered_edges keeps graph [] g m = refl
is_internal-add_filtered_edges keeps graph (name ∷ names) g m =
    is_internal-add_filtered_edges keeps graph names _ m
    ∙ is_internal-add_kept_edges keeps (get_outgoing graph name) g m

is_internal-add_filtered_nodes :
    (old : ModuleDependencyGraph) (ignored : List Text) (names : List Text)
    (g : ModuleDependencyGraph) (m : Text)
    → is_internal_node (add_filtered_nodes ignored old.nodes names g) m
      ≡ (is_internal_node g m || contains names m && stays_internal old ignored m)
unfolding add_filtered_nodes
is_internal-add_filtered_nodes old ignored [] g m = ground arith
is_internal-add_filtered_nodes old ignored (name ∷ names) g m =
    elim (Option-cases (lookup name old.nodes)) [
      | inl h ↦ rw h (is_internal-add_filtered_nodes old ignored names g m ∙ absent h)
      | inr (v, h) ↦ rw h (
          is_internal-add_filtered_nodes old ignored names
            (add_node g (filtered_node ignored name v)) m
          ∙ present v h)
    ]
  where
    absent :
        lookup name old.nodes ≡ none
        → (is_internal_node g m || contains names m && stays_internal old ignored m) ≡ (
            is_internal_node g m || (m == name || contains names m) && stays_internal old ignored m)
    absent h = unfold stays_internal in ground (arith, text_eq_iff m name)

    present :
        (v : ModuleNode)
        → lookup name old.nodes ≡ some v
        → (is_internal_node (add_node g (filtered_node ignored name v)) m
            || contains names m && stays_internal old ignored m)
          ≡ (is_internal_node g m
              || (m == name || contains names m) && stays_internal old ignored m)
    present v h =
        unfold stays_internal filtered_node in
        ground (
          arith,
          text_eq_iff m name,
          text_eq_iff name m,
          is_internal-add_node g (filtered_node ignored name v) m,
        )

key_of_node :
    (g : ModuleDependencyGraph) (ignored : List Text) (m : Text)
    → stays_internal g ignored m ≡ true
    → contains (sort_by text_le (keys g.nodes)) m ≡ true
unfolding stays_internal
key_of_node g ignored m h = elim (Option-cases (lookup m g.nodes)) [
  | inl e ↦ ground arith
  | inr (n, e) ↦
      (contains_iff (sort_by text_le (keys g.nodes)) m).1
        ((In-sort_by text_le m (keys g.nodes)).1 (key_of_lookup m n g.nodes e))
]

-- A module of the filtered graph is internal exactly if it was and its file is not ignored.
pub filter_internal :
    (g : ModuleDependencyGraph) (ignore_type_checking include_local_edges : Bool)
    (ignored : List Text) (m : Text)
    → is_internal_node
        (filter_module_dependency_graph g ignore_type_checking include_local_edges ignored)
        m
      ≡ stays_internal g ignored m
unfolding filter_module_dependency_graph
filter_internal g ignore_type_checking include_local_edges ignored m =
    sorted_lem (add_filtered_edges keeps g names start)
    ∙ edges_lem names start
    ∙ is_internal-add_filtered_nodes g ignored (sort_by text_le (keys g.nodes)) empty_graph m
    ∙ ground (arith, key_of_node g ignored m, empty_lem)
  where
    keeps : NormalizedImportEdge → Bool
    keeps = keeps_edge ignore_type_checking include_local_edges ignored

    names : List Text
    names = sort_by text_le (keys g.outgoing_edges)

    start : ModuleDependencyGraph
    start = add_filtered_nodes ignored g.nodes (sort_by text_le (keys g.nodes)) empty_graph

    sorted_lem :
        (h : ModuleDependencyGraph)
        → is_internal_node (sort_outgoing_edges h) m ≡ is_internal_node h m
    sorted_lem h = unfold is_internal_node sort_outgoing_edges in refl

    empty_lem : is_internal_node empty_graph m ≡ false
    empty_lem = unfold is_internal_node lookup in refl

    edges_lem :
        (ns : List Text) (h : ModuleDependencyGraph)
        → is_internal_node (add_filtered_edges keeps g ns h) m ≡ is_internal_node h m
    edges_lem ns h = is_internal-add_filtered_edges keeps g ns h m
