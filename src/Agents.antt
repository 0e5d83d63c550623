-- ===== src/Agents.antt =====
-- app/agents: the agents of a query, the modes in which they work together, and the orchestrator.
pub mod Base
pub mod Pipeline
pub mod Retry
pub mod MultiStep
pub mod Debate
pub mod Negotiation
pub mod Orchestrator
