-- ===== src/Imports.antt =====
-- The import side of the program, src/pythonarchtesting/execution: the edges read from import
-- statements (import_edges.py), their graph (import_graph.py) and the forbidden imports that can
-- be reached in it (import_policy_paths.py).
pub mod Edge
pub mod Canonical
pub mod Graph
pub mod Paths
