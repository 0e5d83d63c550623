-- ===== src/Harness/Runner/Checks.antt =====
-- app/harness/runner.py: what `_run` checks of a plan before it runs a node.
use data_engineer.Prelude.{
  String, Bool, not, ◌||◌, ◌&&◌, Option, none, some, List, [], ◌∷◌, any, if◌then◌else◌,
}
use Prim.Native.String.{◌++◌ as concat}
use data_engineer.Prelude.Dict.{mem, contains}
use data_engineer.Models.Workflow.{NodeDef, EvaluationConfig, WorkflowPlan}
use data_engineer.Nodes.Registry.{NodeRegistry}

abbrev pub known_metrics : List String
known_metrics = "syntax_valid" ∷ "schema_compliant" ∷ "execution_success" ∷ []

-- `set(metrics) - known_metrics` has a member.
abbrev pub unknown_metric : List String → Bool
unknown_metric metrics = any (λ m. not (mem m known_metrics)) metrics

module _ {W : Type 0} (registry : NodeRegistry W) where
  -- The loop over `node_order`; `seen` are the ids above. The error, if there is one.
  unfoldable pub check_nodes : List NodeDef → List String → Option String
  check_nodes [] seen = none
  check_nodes (definition ∷ rest) seen =
      let later = check_nodes rest (definition.id ∷ seen) in
      if not (contains definition.node registry) || mem definition.id seen
      then some (concat "Missing or duplicate node: " definition.node)
      else if any (λ d. not (mem d seen)) definition.depends_on
      then some (concat "Unsatisfied dependency: " definition.id)
      else later

  unfoldable pub check_order : EvaluationConfig → List NodeDef → Option String
  unfolding check_nodes
  check_order evaluation [] = some "Workflow plan contains no nodes"
  check_order evaluation (d ∷ ds) =
      if evaluation.enabled && unknown_metric evaluation.metrics
      then some "Unknown evaluation metric"
      else check_nodes (d ∷ ds) []

  unfoldable pub check_plan : WorkflowPlan → Option String
  unfolding check_order
  check_plan plan = check_order plan.evaluation plan.node_order
