-- ===== src/Tests/Structures.antt =====
-- The module graph of imports, and its renaming.
use python_arch_testing.Base.{
  Dict, In, List, Text, [], codes, eq_text, false, keys, none, some, true, ℕ, ◌++◌, ◌↔◌, ◌∷◌, ◌≡◌,
  ◌≢◌,
}
use python_arch_testing.Imports.Edge.{NormalizedImportEdge}
use python_arch_testing.Architecture.Edges.{Edge}
use python_arch_testing.Structure.Renamed.{import_module_edges, rename_edges}
use python_arch_testing.Structure.Renamed.Exact.{rename_edges_iff}
use python_arch_testing.Structure.Renamed.Makes.{Makes, import_module_edges_iff}

abbrev line_of : Text → ℕ → NormalizedImportEdge
line_of name line = record {
  importer_module = codes "cli";
  imported_module = name;
  filepath_rel = codes "cli.py";
  lineno = line;
  in_type_checking = false;
  is_top_level = true;
}

abbrev lines : List NormalizedImportEdge
lines = line_of (codes "shop") 1 ∷ line_of (codes "shop.cart") 1 ∷ line_of (codes "shop") 2 ∷ []

abbrev modules : List Text
modules = codes "cli" ∷ codes "shop" ∷ codes "shop.cart" ∷ []

import_module_edges_iff_example :
    In (codes "cli", codes "shop") (keys (import_module_edges lines modules true)) ↔ (
      (e : NormalizedImportEdge) × In e lines
      × Makes lines modules true e (codes "cli", codes "shop"))
import_module_edges_iff_example =
    import_module_edges_iff lines modules true (codes "cli", codes "shop")

abbrev graph : Dict Edge ℕ
graph = ((codes "cli", codes "shop"), 1) ∷ ((codes "shop", codes "cart"), 2) ∷ []

abbrev renaming : Text → Text
renaming name = codes "new." ++ name

abbrev pair : Edge
pair = (codes "new.cli", codes "shop")

rename_edges_iff_example :
    (In pair (keys (rename_edges graph renaming (some (λ name. name))))
      ↔ ((q : Edge) × In q (keys graph) × (pair ≡ (renaming q.0, q.1)) × (pair.0 ≢ pair.1)))
    × (rename_edges graph renaming none ≡ rename_edges graph renaming (some renaming))
rename_edges_iff_example = rename_edges_iff graph renaming (λ name. name) pair
