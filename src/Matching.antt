-- ===== src/Matching.antt =====
-- matching/: pairing the entities of a reference with those of a target.
pub mod Metrics
pub mod Engine
