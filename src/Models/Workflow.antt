-- ===== src/Models/Workflow.antt =====
-- app/models/workflow.py: plans, evaluations and traces. Timestamps, latencies and the texts
-- written for display only (`input_summary`, `output_summary`, `details`) are left out.
use data_engineer.Prelude.{ℕ, String, Bool, Option, List}
use data_engineer.Prelude.Dict.{Dict}
use data_engineer.Prelude.Value.{Value}

pub record NodeConfig : Type 0 where
  pub temperature : Value
  pub max_candidates : ℕ
  pub max_rows : ℕ
  pub timeout_ms : ℕ
  pub mode : String
  pub extras : Dict Value

pub record NodeDef : Type 0 where
  pub id : String
  pub node : String
  pub depends_on : List String
  pub on_failure : String
  pub on_pass : String
  pub on_fail : String
  pub config : NodeConfig

pub record FailurePolicy : Type 0 where
  pub max_retries : ℕ
  pub on_exhausted : String

pub record EvaluationConfig : Type 0 where
  pub enabled : Bool
  pub metrics : List String

pub record WorkflowPlan : Type 0 where
  pub id : String
  pub name : String
  pub description : String
  pub node_order : List NodeDef
  pub failure_policy : FailurePolicy
  pub evaluation : EvaluationConfig
  pub max_iterations : ℕ
  pub on_exhausted : String

pub record MetricResult : Type 0 where
  pub name : String
  pub passed : Bool

pub record Evaluation : Type 0 where
  pub passed : Bool
  pub metrics : Dict MetricResult
  pub needs_revision : Bool
  pub notes : String

pub record NodeTrace : Type 0 where
  pub node_id : String
  pub node_name : String
  pub evaluation : Option Evaluation
  pub error : Option String

pub data Status : Type 0 where
  completed failed aborted : Status

-- What came of writing a trace: it was written, an `OSError` of a kind was suppressed, or the
-- caller was cancelled while the write was under way, which may still end.
pub data Write : Type 0 where
  written : Write
  lost : String → Write
  interrupted : Write

-- A trace as `finish` persists it.
pub record WorkflowTrace : Type 0 where
  pub plan_id : String
  pub session_id : String
  pub nodes : List NodeTrace
  pub status : Status
  pub error : String
  pub persistence_error : String

pub record WorkflowResult : Type 0 where
  pub status : Status
  pub error : Option String
  pub context : Dict Value
  pub trace : WorkflowTrace
  pub final_output : Option Value
