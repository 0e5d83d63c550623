-- ===== src/Nodes.antt =====
-- The nodes of a workflow as the harness sees them, app/nodes/.
pub mod Base
pub mod Registry
