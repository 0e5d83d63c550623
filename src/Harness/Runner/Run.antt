-- ===== src/Harness/Runner/Run.antt =====
-- app/harness/runner.py: the loop over the plan's nodes, and `_run` round it.
use data_engineer.Prelude.{
  ℕ, zero, suc, length, String, Bool, Option, none, some, List, [], ◌∷◌, ◌++◌, get_elem?,
  if◌then◌else◌,
}
use data_engineer.Prelude.Dict
use data_engineer.Prelude.Dict.{Dict, merge}
use data_engineer.Prelude.Value.{Value, str}
use data_engineer.Prelude.Exec.{
  Exec, Result, ok, raised, Exn, failure, infrastructure, cancelled, pure, raise, modify, ◌>>=◌,
  ◌>>◌,
}
use data_engineer.Harness.Constraint.{ConstraintEnforcer, reset}
use data_engineer.Harness.Runner.Attempt.{Verdict, exhausted, settled, run_node}
use data_engineer.Harness.Runner.Checks.{check_plan}
use data_engineer.Harness.Runner.Route.{Next, go, finish, next_step}
use data_engineer.Harness.Runner.State.{Setting, RunState, or_text}
use data_engineer.Models.Workflow.{
  NodeDef, NodeTrace, Status, completed, failed, aborted, WorkflowTrace, WorkflowResult, Write,
  written, lost, interrupted,
}
use data_engineer.Nodes.Base.{BaseNode}
use data_engineer.Nodes.Registry

-- How the loop ends. `out_of_fuel` stands for a loop that did not end.
pub data Ending : Type 0 where
  finished : Status → Option String → Ending
  out_of_fuel : Ending

-- What `finish` returns: a lost trace says so, and a cancellation is raised.
unfoldable pub answered : Write → WorkflowResult → Result WorkflowResult
answered written r = ok r
answered (lost name) r = ok (record r { trace = record r.trace { persistence_error = name } })
answered interrupted r = raised cancelled

module _ {W : Type 0} (setting : Setting W) where
  abbrev order : List NodeDef
  order = setting.plan.node_order

  -- One round of the loop at a node of the plan.
  unfoldable pub choose : ℕ → Option ℕ → NodeDef → Verdict → Next
  unfolding next_step
  choose index reflection definition exhausted =
      finish aborted (some "Workflow iteration budget exhausted")
  choose index reflection definition (settled evaluation error) =
      next_step order index reflection definition evaluation error

  -- The registry has the node, since the plan was checked; else its `KeyError` escapes.
  unfoldable pub visit_node : Option (BaseNode W) → ℕ → Option ℕ → NodeDef → Exec (RunState W) Next
  unfolding run_node
  visit_node none index reflection definition = raise (failure "KeyError")
  visit_node (some node) index reflection definition = do
    verdict ← run_node setting definition node
    pure (choose index reflection definition verdict)

  unfoldable pub visit : ℕ → Option ℕ → NodeDef → Exec (RunState W) Next
  unfolding visit_node
  visit index reflection definition =
      visit_node (Registry.get definition.node setting.registry) index reflection definition

  -- What a round hands on to the loop.
  abbrev pub follow : (ℕ → Option ℕ → Exec (RunState W) Ending) → Next → Exec (RunState W) Ending
  follow loop (go index reflection) = loop index reflection
  follow loop (finish status error) = pure (finished status error)

  -- The condition of the loop, `index < len(node_order)`, and its body.
  unfoldable pub round :
      (ℕ → Option ℕ → Exec (RunState W) Ending)
      → ℕ
      → Option ℕ
      → Option NodeDef
      → Exec (RunState W) Ending
  unfolding visit
  round loop index reflection none = pure (finished completed none)
  round loop index reflection (some definition) = visit index reflection definition >>= follow loop

  unfoldable pub run_loop : ℕ → ℕ → Option ℕ → Exec (RunState W) Ending
  unfolding round
  run_loop zero index reflection = pure out_of_fuel
  run_loop (suc fuel) index reflection =
      round (run_loop fuel) index reflection (get_elem? order index)

  -- The nested function `finish`: the trace is handed to a write, and the result returned.
  abbrev pub trace_with : RunState W → Status → Option String → WorkflowTrace
  trace_with s status error = record {
    plan_id = setting.plan.id;
    session_id = setting.session_id;
    nodes = s.nodes;
    status = status;
    error = or_text error "";
    persistence_error = "";
  }

  unfoldable pub conclude : Status → Option String → Exec (RunState W) WorkflowResult
  unfolding answered
  conclude status error s =
      let trace = trace_with s status error in
      let write = setting.write (length s.persisted) trace in
      (
        answered write (record {
          status = status;
          error = error;
          context = s.context;
          trace = trace;
          final_output = Dict.get "last_execution" s.context;
        }),
        record s { persisted = s.persisted ++ (trace, write) ∷ [] },
      )

  -- The two `except` branches: the attempt under way joins the trace with the reason.
  unfoldable pub add_pending : Option NodeTrace → String → RunState W → RunState W
  add_pending none reason s = s
  add_pending (some t) reason s = record s {
    nodes = s.nodes ++ record t { error = some reason } ∷ [];
    pending = none;
  }

  unfoldable pub abandon : String → RunState W → RunState W
  unfolding add_pending
  abandon reason s = add_pending s.pending reason s

  unfoldable pub give_up : Exn → String → Exec (RunState W) (Option WorkflowResult)
  unfolding abandon conclude
  give_up e reason = do modify (abandon reason); conclude aborted (some reason); raise e

  -- The `except` clauses of the `try` round the loop and its `finish`.
  unfoldable pub rescue : Exn → Exec (RunState W) (Option WorkflowResult)
  unfolding give_up
  rescue infrastructure = give_up infrastructure "Query infrastructure unavailable"
  rescue cancelled = give_up cancelled "Request cancelled"
  rescue (failure message) = raise (failure message)

  unfoldable pub rescue_finish : Result WorkflowResult → Exec (RunState W) (Option WorkflowResult)
  unfolding rescue
  rescue_finish (ok r) = pure (some r)
  rescue_finish (raised e) = rescue e

  -- `none` of the result stands for a loop that did not end.
  unfoldable pub conclude_loop : Result Ending → Exec (RunState W) (Option WorkflowResult)
  unfolding rescue_finish conclude
  conclude_loop (ok (finished status error)) s =
      let (r, s') = conclude status error s in rescue_finish r s'
  conclude_loop (ok out_of_fuel) s = (ok none, s)
  conclude_loop (raised e) s = rescue e s

  -- Each round that goes on uses an iteration, so one more round than iterations is enough.
  unfoldable pub execute : Exec (RunState W) (Option WorkflowResult)
  unfolding run_loop visit choose conclude_loop
  execute s =
      let (r, s') = run_loop (suc setting.plan.max_iterations) 0 none s in conclude_loop r s'

  -- `_run`: the state of a fresh run, the checks of the plan, and the loop.
  unfoldable pub fresh :
      Bool → Dict Value → W → ConstraintEnforcer → List (WorkflowTrace × Write) → RunState W
  unfolding reset merge
  fresh reset_constraints kwargs world constraints persisted = record {
    world = world;
    constraints = if reset_constraints then reset constraints else constraints;
    context =
        merge (("query_text", str setting.query_text) ∷ ("session_id", str setting.session_id) ∷ [])
          kwargs;
    iterations = 0;
    nodes = [];
    pending = none;
    persisted = persisted;
  }

  unfoldable pub checked : Option String → Exec (RunState W) (Option WorkflowResult)
  unfolding execute
  checked (some error) = do r ← conclude failed (some error); pure (some r)
  checked none = execute

  unfoldable pub run :
      Bool
      → Dict Value
      → W
      → ConstraintEnforcer
      → List (WorkflowTrace × Write)
      → Result (Option WorkflowResult) × RunState W
  unfolding checked fresh check_plan
  run reset_constraints kwargs world constraints persisted =
      checked (check_plan setting.registry setting.plan)
        (fresh reset_constraints kwargs world constraints persisted)
