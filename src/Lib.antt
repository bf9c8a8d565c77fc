-- ===== src/Lib.antt =====
-- PythonArchTesting checks Python programs against the architecture of a reference program. This
-- library models the parts of src/pythonarchtesting that decide, and proves what they decide.
--
-- Base holds what the parts share: texts as lists of code points (a Python `str`), a `dict` as an
-- association list in insertion order, a `set` as the list of its elements, `sorted` as a stable
-- insertion sort, and the lemmas on them. A parameter stands for what the configuration says.
--
-- Names: in_module and module_of of execution/module_structure.py, _matches_prefix of
--   execution/import_policy_paths.py, _within of architecture/compare.py.
-- Imports.Edge: NormalizedImportEdge of execution/import_edges.py. Imports.Graph: the module
--   dependency graph of execution/import_graph.py, built by build_module_dependency_graph and cut
--   down by filter_module_dependency_graph. Imports.Paths: collect_reachable_import_violations of
--   execution/import_policy_paths.py, which walks such a graph; its nested visit_module shares two
--   variables with it, which are the record Found here. The recursion has fuel one more than the
--   nodes of the graph, since each call puts another internal module on the path.
-- Architecture.Edges, Fold, Compare: architecture/compare.py. `_reachable` runs on fuel one more
--   than the edges, since a module is pushed once; fold_new_modules has the bound of its source.
--   The values that edges are mapped to are a type parameter. A ValueError is `none`.
-- Architecture.Metrics: metrics of architecture/views.py.
-- Structure.Renamed: import_module_edges and rename_edges of execution/module_structure.py.
-- Structure.Layers: parse_layers, _placement and _kind of the same file; the errors that
--   parse_layers raises are the constructors of LayerError, and which characters count as white
--   space is a parameter.
-- Imports.Canonical: collect_canonical_module_entities of execution/import_edges.py. Whether a
--   file matches the ignored patterns is a parameter, since they become regular expressions.
-- Flow.Stages: _stage_order of execution/evaluators/runtime_flow.py, which passes what is left of
--   the calls where the source passes a position, and drops the text of the failure.
-- Flow.Cfg: the builder of execution/flow_cfg.py, with its state passed along; a statement keeps
--   its class and position, and the flow markers of a position are a parameter. Flow.Variable: the
--   check of execution/evaluators/variable_flow.py on such a graph. The search has fuel for every
--   edge at every progress, and a missing node, where the source raises a KeyError, is `none`.
-- Entities: entities.py, its index and the keys of signatures; `str` and `int` of numbers are
--   parameters, which are assumed to print digits and to read them back.
-- Signatures: execution/evaluators/signature_comparison.py; the comparison of two annotations is a
--   parameter, and an error keeps what its message prints.
-- Rules: core/evaluation.py. The registry of evaluators is a parameter, each a step on the state of
--   the evaluation that may raise; the values of a rule's parameters are of any type with the tests
--   that the source makes. Rules.Promote uses the keys and the index of Entities, and
--   Rules.Members is part of execution/evaluators/member_name_resolution.py.
-- Matching.Engine: _rank and _one_to_one of matching/engine.py, the step after the scoring that takes
--   a target away from every match of it but the best, over scores of any type.
-- Matching.Metrics: levenshtein_distance and module_distance of matching/metrics.py.
-- Report.Policy: the exit codes of report/policy.py.
-- Tests: each theorem at a concrete input.
--
-- Not modelled: what runs other programs or reads files (dynamic, runner, state, cli, mcp_server),
-- what rewrites or reads syntax trees (mutation, rules, entities_extraction), the other evaluators,
-- the scoring and the first choice of matching, reports, and floating point numbers.
pub mod Architecture
pub mod Base
pub mod Entities
pub mod Flow
pub mod Imports
pub mod Matching
pub mod Names
pub mod Report
pub mod Rules
pub mod Signatures
pub mod Structure
pub mod Tests
