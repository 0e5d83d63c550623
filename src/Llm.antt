-- ===== src/Llm.antt =====
-- The model gateway, app/llm/.
pub mod Budget
