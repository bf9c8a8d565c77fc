-- ===== src/Rules.antt =====
-- core/evaluation.py, with the types of core/models.py and matching/models.py that it uses and the
-- search for the enclosing class of execution/evaluators/member_name_resolution.py.
pub mod Models
pub mod Members
pub mod Promote
pub mod Evaluate
