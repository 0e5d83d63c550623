-- ===== src/Harness/Runner/State.antt =====
-- app/harness/runner.py: the variables of one run, and what it is given.
use Prim.Native.String.{◌++◌ as concat}
use data_engineer.Prelude.{ℕ, String, Bool, Option, none, some, List, [], ◌∷◌}
use data_engineer.Prelude.Dict.{Dict}
use data_engineer.Prelude.Value.{Value}
use data_engineer.Prelude.Exec.{Exec, ok}
use data_engineer.Harness.Constraint.{ConstraintEnforcer}
use data_engineer.Models.Workflow.{NodeTrace, WorkflowPlan, WorkflowTrace, Write}
use data_engineer.Nodes.Base.{NodeOutput}
use data_engineer.Nodes.Registry.{NodeRegistry}

pub data EventKind : Type 0 where
  started completed failed : EventKind

-- What `on_node_event` is called with.
pub record NodeEvent : Type 0 where
  pub kind : EventKind
  pub node_id : String
  pub node : String
  pub attempt : ℕ
  pub output : Option NodeOutput
  pub error : String

-- The plan, the registry and the arguments of `run` that no step changes.
pub record Setting (W : Type 0) : Type 0 where
  pub plan : WorkflowPlan
  pub registry : NodeRegistry W
  pub query_text : String
  pub session_id : String
  pub node_configs : Dict (Dict Value)
  pub on_node_event : Option (NodeEvent → Exec W (Unit {0}))
  pub parses : String → Bool
  -- What comes of a write, by how many went before it.
  pub write : ℕ → WorkflowTrace → Write

-- `pending` is the trace of an attempt that is not in `nodes` yet; `persisted` are the traces that
-- were handed to a write, in order, and what came of each.
pub record RunState (W : Type 0) : Type 0 where
  pub world : W
  pub constraints : ConstraintEnforcer
  pub context : Dict Value
  pub iterations : ℕ
  pub nodes : List NodeTrace
  pub pending : Option NodeTrace
  pub persisted : List (WorkflowTrace × Write)

module _ {W : Type 0} where
  -- An action of a node or of the event handler, on the world alone.
  unfoldable pub outside : {A : Type 0} → Exec W A → Exec (RunState W) A
  outside m s = let (r, w) = m s.world in (r, record s { world = w })

  unfoldable pub emit_to :
      Option (NodeEvent → Exec W (Unit {0})) → NodeEvent → Exec (RunState W) (Unit {0})
  unfolding outside
  emit_to none event s = (ok tt, s)
  emit_to (some handler) event s = outside (handler event) s

  unfoldable pub emit : Setting W → NodeEvent → Exec (RunState W) (Unit {0})
  unfolding emit_to
  emit setting event = emit_to setting.on_node_event event

-- `first or second`, of texts where `None` may stand for the first.
abbrev pub or_text : Option String → String → String
or_text none t = t
or_text (some String.[]) t = t
or_text (some s) t = s

-- `"; ".join(errors) or None`
unfoldable pub join_errors : List String → String
join_errors [] = ""
join_errors (e ∷ []) = e
join_errors (e ∷ e' ∷ es) = concat e (concat "; " (join_errors (e' ∷ es)))
