-- ===== src/Core.antt =====
-- app/core: the correction of SQL that fails.
pub mod SelfHeal
