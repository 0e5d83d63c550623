-- ===== src/Tests/Runner.antt =====
-- app/harness/runner.py: a plan of two nodes that count their runs in the world.
use data_engineer.Prelude.{
  ℕ, ◌+◌, ◌≡◌, ◌≤◌, refl, String, true, false, none, some, List, [], ◌∷◌, length, inl,
}
use data_engineer.Prelude.Dict
use data_engineer.Prelude.Dict.{Dict, merge}
use data_engineer.Prelude.Exec.{answer, ok, catch, modify, ◌>>=◌}
use data_engineer.Prelude.Value.{null, str, zero_real}
use data_engineer.Harness.Constraint.{ConstraintEnforcer, create}
use data_engineer.Harness.Evaluate.{evaluate_result}
use data_engineer.Harness.Permission
use data_engineer.Harness.Permission.{PermissionManager, is_allowed}
use data_engineer.Harness.Runner.Attempt.{produce, run_node}
use data_engineer.Harness.Runner.Config.{config_of, enabled, manager_for, deny_all}
use data_engineer.Harness.Runner.Grants.{Stopped, produce-denied}
use data_engineer.Harness.Runner.Order.{Visits, run-Visits}
use data_engineer.Harness.Runner.Outcome.Ends.{Recorded}
use data_engineer.Harness.Runner.Outcome.{run-Recorded, run_bounded}
use data_engineer.Harness.Runner.Refusal.{Refused, run_refuses}
use data_engineer.Harness.Runner.Retries.{run_node_bounded}
use data_engineer.Harness.Runner.Run.{run}
use data_engineer.Harness.Runner.State.{Setting, RunState, outside}
use data_engineer.Models.Workflow.{
  NodeConfig, NodeDef, WorkflowPlan, NodeTrace, WorkflowTrace, WorkflowResult, completed, written,
}
use data_engineer.Nodes.Base.{BaseNode, NodeOutput, default_setup_input, default_update_context}
use data_engineer.Nodes.Registry
use data_engineer.Tests.Budget.{limits}

abbrev output : NodeOutput
output = record { result = null; metadata = []; errors = []; context = [] }

-- A node that counts its runs, and one that also wants a tool.
abbrev counting : String → List String → BaseNode ℕ
counting name tools = record {
  name = name;
  required_tools = tools;
  permission_manager = none;
  setup_input = default_setup_input;
  execute = λ input n. (ok output, n + 1);
  update_context = default_update_context;
}

abbrev node_config : NodeConfig
node_config = record {
  temperature = zero_real;
  max_candidates = 1;
  max_rows = 100;
  timeout_ms = 30000;
  mode = "default";
  extras = [];
}

abbrev definition_of : String → String → List String → NodeDef
definition_of id node depends_on = record {
  id = id;
  node = node;
  depends_on = depends_on;
  on_failure = "abort";
  on_pass = "";
  on_fail = "";
  config = node_config;
}

abbrev plan_of : List NodeDef → WorkflowPlan
plan_of order = record {
  id = "p";
  name = "";
  description = "";
  node_order = order;
  failure_policy = record { max_retries = 1; on_exhausted = "abort" };
  evaluation = record { enabled = true; metrics = "execution_success" ∷ [] };
  max_iterations = 10;
  on_exhausted = "force_output";
}

abbrev setting_of : List NodeDef → Setting ℕ
setting_of order = record {
  plan = plan_of order;
  registry = ("parse", counting "parse" []) ∷ ("query", counting "query" ("db" ∷ [])) ∷ [];
  query_text = "q";
  session_id = "s";
  node_configs = [];
  on_node_event = none;
  parses = λ sql. true;
  write = λ n t. written;
}

abbrev twice : Setting ℕ
twice = setting_of (definition_of "a" "parse" [] ∷ definition_of "b" "parse" ("a" ∷ []) ∷ [])

abbrev enforcer : ConstraintEnforcer
enforcer = create limits

-- What the tests compute with.
program : Unit {0}
unfolding run default_setup_input default_update_context evaluate_result Registry.get Dict.get
    Dict.put merge catch answer modify ◌>>=◌ outside config_of
program = tt

-- Both nodes run once, and the run completes.
twice_runs : (run twice true [] 0 enforcer []).1.world ≡ 2
unfolding program
twice_runs = refl

abbrev node_trace : String → NodeTrace
node_trace id = record {
  node_id = id;
  node_name = "parse";
  evaluation = some (record {
    passed = true;
    metrics = ("execution_success", record { name = "execution_success"; passed = true }) ∷ [];
    needs_revision = false;
    notes = "";
  });
  error = none;
}

abbrev twice_trace : WorkflowTrace
twice_trace = record {
  plan_id = "p";
  session_id = "s";
  nodes = node_trace "a" ∷ node_trace "b" ∷ [];
  status = completed;
  error = "";
  persistence_error = "";
}

abbrev twice_result : WorkflowResult
twice_result = record {
  status = completed;
  error = none;
  context = ("query_text", str "q") ∷ ("session_id", str "s") ∷ [];
  trace = twice_trace;
  final_output = none;
}

run-Recorded_example :
    Recorded twice [] (run twice true [] 0 enforcer []).0 (run twice true [] 0 enforcer []).1
run-Recorded_example = run-Recorded twice true [] 0 enforcer []

run_bounded_example : length (run twice true [] 0 enforcer []).1.nodes ≤ 10
run_bounded_example = run_bounded twice true [] 0 enforcer []

run-Visits_example : Visits twice.plan.node_order twice_result.trace.nodes
unfolding program
run-Visits_example =
    run-Visits twice ((refl, refl), ((refl, refl), tt)) true [] 0 enforcer [] twice_result refl refl

-- The second node depends on an id that does not stand above it.
abbrev unsatisfied : Setting ℕ
unsatisfied = setting_of (definition_of "a" "parse" [] ∷ definition_of "b" "parse" ("c" ∷ []) ∷ [])

run_refuses_example :
    Refused unsatisfied true [] 0 enforcer [] (run unsatisfied true [] 0 enforcer [])
run_refuses_example =
    run_refuses unsatisfied true [] 0 enforcer [] (definition_of "a" "parse" [] ∷ [])
      (definition_of "b" "parse" ("c" ∷ [])) [] refl (λ p. cc (p.satisfied "c" refl))

abbrev begun : RunState ℕ
begun = record {
  world = 0;
  constraints = enforcer;
  context = [];
  iterations = 0;
  nodes = [];
  pending = none;
  persisted = [];
}

run_node_bounded_example :
    (run_node twice (definition_of "a" "parse" []) (counting "parse" []) begun).1.iterations ≤ 2
run_node_bounded_example =
    run_node_bounded twice (definition_of "a" "parse" []) (counting "parse" []) begun

-- The node wants a tool that nothing grants: it does not count a run.
produce-denied_example :
    Stopped 0 (produce twice (definition_of "q" "query" []) (counting "query" ("db" ∷ [])) begun)
unfolding program manager_for enabled is_allowed Permission.check
produce-denied_example =
    produce-denied twice (definition_of "q" "query" []) (counting "query" ("db" ∷ [])) deny_all "db"
      begun refl refl (inl refl) refl
