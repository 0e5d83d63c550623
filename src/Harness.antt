-- ===== src/Harness.antt =====
-- The harness of the workflow engine, app/harness/.
pub mod ActionHistory
pub mod Compaction
pub mod Constraint
pub mod Permission
pub mod Evaluate
pub mod Runner
