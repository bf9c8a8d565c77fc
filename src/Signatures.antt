-- ===== src/Signatures.antt =====
-- execution/evaluators/signature_comparison.py: the parameters of a function, the kind of a
-- method and the comparison of two signatures.
pub mod Params
pub mod Wrappers
pub mod Compare
