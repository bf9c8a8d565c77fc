-- ===== src/Report.antt =====
-- report/: what a run amounts to.
pub mod Policy
