-- ===== src/Tests.antt =====
-- Runs of the models on small inputs, and each theorem at an input that meets its hypotheses.
pub mod Budget
pub mod Runner
pub mod QueryCache
pub mod RuleEngine
pub mod Subagent
pub mod Fusion
pub mod ActionHistory
pub mod SelfHeal
pub mod Compaction
pub mod Agents
pub mod PlanSelector
pub mod Schema
