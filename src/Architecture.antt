-- ===== src/Architecture.antt =====
-- architecture/: comparing the architecture of two programs.
pub mod Edges
pub mod Fold
pub mod Metrics
pub mod Compare
