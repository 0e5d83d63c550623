-- ===== src/Harness/Runner.antt =====
-- app/harness/runner.py: `WorkflowRunner`. The parts of `_run` are the child modules: the checks of
-- the plan, one node with its retries, the choice of the next node, and the loop.
pub mod State
pub mod Checks
pub mod Config
pub mod Attempt
pub mod Route
pub mod Run
pub mod Frame
pub mod Rounds
pub mod Progress
pub mod Outcome
pub mod Refusal
pub mod Grants
pub mod Retries
pub mod Trail
pub mod Order
