-- ===== src/Names.antt =====
-- Dotted module names: src/pythonarchtesting/execution/module_structure.py (`in_module`,
-- `module_of`), execution/import_policy_paths.py and execution/evaluators/import_policy.py
-- (`_matches_prefix`), architecture/compare.py (`_within`).
mod Text
mod Laws
mod Specific
unfoldable pub use Text.*
pub use Laws.*
pub use Specific.*
