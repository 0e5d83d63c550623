-- ===== src/Workflow.antt =====
-- app/workflow: the choice of a plan for a query.
pub mod PlanSelector
