-- ===== src/Models.antt =====
-- The shared data of the program, app/models/.
pub mod Schema
pub mod Workflow
