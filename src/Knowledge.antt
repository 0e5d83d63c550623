-- ===== src/Knowledge.antt =====
-- app/knowledge: the rule engine, and the fusion of two rankings.
pub mod Fusion
pub mod RuleEngine
