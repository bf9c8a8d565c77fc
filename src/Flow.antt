-- ===== src/Flow.antt =====
-- Rules on the order in which a program does things.
pub mod Stages
pub mod Variable
pub mod Cfg
