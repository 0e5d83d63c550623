-- ===== src/Subagent.antt =====
-- app/subagent: an instance and its life, and the manager of the instances.
pub mod Instance
pub mod Manager
