-- ===== src/Structure/Renamed.antt =====
-- execution/module_structure.py: `import_module_edges` and `rename_edges`.
use python_arch_testing.Base.{
  Bool, Dict, Eq, List, Option, Text, [], any_of, eq_nat, eq_pair, eq_text, false, if◌then◌else◌,
  insert, leb, lex, lookup, none, not, set_default, some, sort_by, text_le, ℕ, ◌&&◌, ◌++◌, ◌==◌,
  ◌∷◌,
}
pub mod Exact
pub mod Makes
use python_arch_testing.Names.{module_of, dotted, starts_with}
use python_arch_testing.Imports.Edge.{NormalizedImportEdge}
use python_arch_testing.Architecture.Edges.{Edge, eq_arrow}

abbrev pub import_order : NormalizedImportEdge → NormalizedImportEdge → Bool
import_order a b =
    lex ⦃e = eq_text⦄ text_le (lex ⦃e = eq_text⦄ text_le (lex ⦃e = eq_nat⦄ leb text_le))
      (a.importer_module, (a.filepath_rel, (a.lineno, a.imported_module)))
      (b.importer_module, (b.filepath_rel, (b.lineno, b.imported_module)))

abbrev pub StatementKey : Type 0
StatementKey = Text × (Text × ℕ)

instance abbrev pub eq_statement : Eq StatementKey
eq_statement = eq_pair ⦃e = eq_text⦄ ⦃f = eq_pair ⦃e = eq_text⦄ ⦃f = eq_nat⦄⦄

pub statement_key : NormalizedImportEdge → StatementKey
statement_key edge = (edge.importer_module, (edge.filepath_rel, edge.lineno))

-- `statements.get(key)`, empty for a missing key.
pub names_of : StatementKey → Dict StatementKey (List Text) → List Text
names_of key statements = elim (lookup ⦃e = eq_statement⦄ key statements) [
  | none ↦ []
  | some names ↦ names
]

-- The first loop: the names that each statement imports, a set as a list.
pub statements_of :
    List NormalizedImportEdge → Dict StatementKey (List Text) → Dict StatementKey (List Text)
unfolding statement_key names_of
statements_of [] statements = statements
statements_of (edge ∷ edges) statements = statements_of edges (
    insert ⦃e = eq_statement⦄ (statement_key edge)
      (names_of (statement_key edge) statements ++ edge.imported_module ∷ []) statements)

-- `found not in (None, target)`.
abbrev pub is_another : Option Text → Text → Bool
is_another none target = false
is_another (some m) target = not (m == target)

-- Whether the statement imports a module inside `target` besides.
pub imports_inside : List Text → Text → List Text → Bool
imports_inside modules target siblings =
    any_of
      (λ other. starts_with other (dotted target) && is_another (module_of other modules) target)
      siblings

-- The edge that an import makes, by the guards of the second loop.
pub edge_of : List Text → Bool → Dict StatementKey (List Text) → NormalizedImportEdge → Option Edge
unfolding imports_inside
edge_of modules ignore_type_checking statements edge =
    if ignore_type_checking && edge.in_type_checking
    then none
    else elim (module_of edge.imported_module modules) [
      | none ↦ none
      | some target ↦
          if target == edge.importer_module
          then none
          else if edge.imported_module == target
              && imports_inside modules target (names_of (statement_key edge) statements)
          then none
          else some (edge.importer_module, target)
    ]

pub add_module_edges :
    List Text
    → Bool
    → Dict StatementKey (List Text)
    → List NormalizedImportEdge
    → Dict Edge NormalizedImportEdge
    → Dict Edge NormalizedImportEdge
unfolding edge_of
add_module_edges modules ignore statements [] graph = graph
add_module_edges modules ignore statements (edge ∷ edges) graph =
    elim (edge_of modules ignore statements edge) [
      | none ↦ add_module_edges modules ignore statements edges graph
      | some pair ↦
          add_module_edges modules ignore statements edges
            (set_default ⦃e = eq_arrow⦄ pair edge graph)
    ]

pub import_module_edges :
    List NormalizedImportEdge → List Text → Bool → Dict Edge NormalizedImportEdge
unfolding statements_of add_module_edges
import_module_edges edges modules ignore_type_checking =
    let ordered = sort_by import_order edges in
    add_module_edges modules ignore_type_checking (statements_of ordered []) ordered []

module _ {T : Type 0} where
  pub add_renamed : (Text → Text) → (Text → Text) → Dict Edge T → Dict Edge T → Dict Edge T
  add_renamed rename rename_end [] renamed = renamed
  add_renamed rename rename_end (((origin, target), value) ∷ edges) renamed =
      if rename origin == rename_end target
      then add_renamed rename rename_end edges renamed
      else add_renamed rename rename_end edges
          (set_default ⦃e = eq_arrow⦄ (rename origin, rename_end target) value renamed)

  -- `end or rename` for the other end.
  pub rename_edges : Dict Edge T → (Text → Text) → Option (Text → Text) → Dict Edge T
  unfolding add_renamed
  rename_edges edges rename none = add_renamed rename rename edges []
  rename_edges edges rename (some end) = add_renamed rename end edges []
