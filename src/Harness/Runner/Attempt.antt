-- ===== src/Harness/Runner/Attempt.antt =====
-- app/harness/runner.py: one attempt at a node, and the attempts that a node has.
use data_engineer.Prelude.{
  ℕ, zero, suc, ◌+◌, min, String, false, Option, none, some, [], ◌∷◌, ◌++◌, leb, if◌then◌else◌,
}
use data_engineer.Prelude.Dict.{Dict}
use data_engineer.Prelude.Sorted.{sorted_set}
use data_engineer.Prelude.Value.{Value}
use data_engineer.Prelude.Exec.{
  Exec, Caught, value, caught, catch, pure, lift, gets, modify, ◌>>=◌, ◌>>◌,
}
use data_engineer.Harness.Constraint.{record_retry}
use data_engineer.Harness.Permission.{PermissionManager}
use data_engineer.Harness.Evaluate.{evaluate_result}
use data_engineer.Harness.Runner.Config.{
  config_of, enabled, config_tools, manager_for, check_tools, skipped,
}
use data_engineer.Harness.Runner.State.{
  Setting, RunState, NodeEvent, EventKind, outside, emit, or_text, join_errors,
}
use data_engineer.Models.Workflow.{NodeDef, NodeTrace, Evaluation}
use data_engineer.Nodes.Base.{BaseNode, NodeInput, NodeOutput}

-- How an attempt came out: the node's output if there is one, its evaluation, the trace's error.
pub record Settled : Type 0 where
  pub output : Option NodeOutput
  pub evaluation : Evaluation
  pub error : Option String

abbrev pub or_none : String → Option String
or_none String.[] = none
or_none s = some s

-- The `except Exception` branch.
abbrev pub failed_with : Option NodeOutput → String → Settled
failed_with output message = record {
  output = output;
  evaluation = record { passed = false; metrics = []; needs_revision = false; notes = message };
  error = some message;
}

-- What the attempts of a node end with: no iteration is left, or the last evaluation.
pub data Verdict : Type 0 where
  exhausted : Verdict
  settled : Evaluation → Option String → Verdict

abbrev pub trace_of : NodeDef → Option Evaluation → Option String → NodeTrace
trace_of definition evaluation error = record {
  node_id = definition.id;
  node_name = definition.node;
  evaluation = evaluation;
  error = error;
}

module _ {W : Type 0} (definition : NodeDef) where
  unfoldable pub start_attempt : RunState W → RunState W
  start_attempt s = record s {
    iterations = s.iterations + 1;
    pending = some (trace_of definition none none);
  }

  unfoldable pub finish_attempt : Settled → RunState W → RunState W
  finish_attempt r s = record s {
    nodes = s.nodes ++ trace_of definition (some r.evaluation) r.error ∷ [];
    pending = none;
  }

module _ {W : Type 0} (setting : Setting W) (definition : NodeDef) (node : BaseNode W) where
  abbrev pub config : Dict Value
  config = config_of definition setting.node_configs

  -- The tools are checked, in order, before the node runs.
  unfoldable pub guarded : PermissionManager → NodeInput → Exec (RunState W) NodeOutput
  unfolding config_tools check_tools sorted_set
  guarded manager prepared = do
    tools ← lift (config_tools config)
    lift (check_tools manager (sorted_set (tools ++ node.required_tools)))
    outside (node.execute prepared)

  unfoldable pub produce : Exec (RunState W) NodeOutput
  unfolding guarded manager_for enabled
  produce = do
    context ← gets (λ s. s.context)
    prepared ← outside (
        node.setup_input
          (record { query_text = setting.query_text; context = context; config = config }))
    manager ← lift (manager_for node config)
    if enabled config then guarded manager prepared else pure skipped

  unfoldable pub absorb : NodeOutput → Exec (RunState W) Evaluation
  absorb output = do
    context ← gets (λ s. s.context)
    context' ← outside (node.update_context output context)
    modify (λ s. record s { context = context' })
    pure (evaluate_result setting.parses setting.plan.evaluation output)

  unfoldable pub after_absorb : NodeOutput → Caught Evaluation → Settled
  unfolding join_errors
  after_absorb output (caught message) = failed_with (some output) message
  after_absorb output (value evaluation) = record {
    output = some output;
    evaluation = evaluation;
    error = or_none (join_errors output.errors);
  }

  unfoldable pub after_produce : Caught NodeOutput → Exec (RunState W) Settled
  unfolding after_absorb
  after_produce (caught message) = pure (failed_with none message)
  after_produce (value output) = do
    absorbed ← catch (absorb output)
    pure (after_absorb output absorbed)

  -- The body of the `try`, and its `except Exception`.
  unfoldable pub settle : Exec (RunState W) Settled
  unfolding produce absorb after_produce
  settle = do produced ← catch produce; after_produce produced

  abbrev started_event : ℕ → NodeEvent
  started_event attempt = record {
    kind = EventKind.started;
    node_id = definition.id;
    node = node.name;
    attempt = attempt;
    output = none;
    error = "";
  }

  abbrev pub finished_event : ℕ → Settled → NodeEvent
  finished_event attempt r = record {
    kind = if r.evaluation.passed then EventKind.completed else EventKind.failed;
    node_id = definition.id;
    node = node.name;
    attempt = attempt;
    output = r.output;
    error = or_text r.error r.evaluation.notes;
  }

  -- The end of an attempt: the event, and the retry that a failed attempt counts.
  unfoldable pub report_attempt : ℕ → Settled → Exec (RunState W) Verdict
  unfolding emit
  report_attempt attempt r = do
    emit setting (finished_event attempt r)
    if r.evaluation.passed
        then pure tt
        else modify (λ s. record s { constraints = record_retry definition.id s.constraints })
    pure (settled r.evaluation r.error)

  unfoldable pub try_attempt : ℕ → Exec (RunState W) Verdict
  unfolding emit settle finish_attempt report_attempt
  try_attempt attempt = do
    emit setting (started_event attempt)
    r ← settle
    modify (finish_attempt definition r)
    report_attempt attempt r

  -- The part of an attempt after the iteration budget was checked.
  unfoldable pub run_attempt : ℕ → Exec (RunState W) Verdict
  unfolding start_attempt try_attempt
  run_attempt attempt = do modify (start_attempt definition); try_attempt attempt

  unfoldable pub attempt_once : ℕ → Exec (RunState W) Verdict
  unfolding run_attempt
  attempt_once attempt = do
    iterations ← gets (λ s. s.iterations)
    if leb setting.plan.max_iterations iterations then pure exhausted else run_attempt attempt

  -- The next attempt is made only after an evaluation that did not pass.
  unfoldable pub unless_passed : Exec (RunState W) Verdict → Verdict → Exec (RunState W) Verdict
  unless_passed next exhausted = pure exhausted
  unless_passed next (settled evaluation error) =
      if evaluation.passed then pure (settled evaluation error) else next

  -- The `for` loop: an attempt, and as many more as `retries`.
  unfoldable pub attempts : ℕ → ℕ → Exec (RunState W) Verdict
  unfolding attempt_once unless_passed
  attempts zero attempt = attempt_once attempt
  attempts (suc retries) attempt =
      attempt_once attempt >>= unless_passed (attempts retries (attempt + 1))

  -- `min` of the plan's retries and the harness's.
  unfoldable pub run_node : Exec (RunState W) Verdict
  unfolding attempts
  run_node = do
    limit ← gets (λ s. s.constraints.limits.max_node_retries)
    attempts (min setting.plan.failure_policy.max_retries limit) 1
