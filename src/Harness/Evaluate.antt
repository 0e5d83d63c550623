-- ===== src/Harness/Evaluate.antt =====
-- app/harness/runner.py: `evaluate_result` and its metric checkers. `parses` stands for sqlglot:
-- whether `sqlglot.parse_one` accepts a text.

use data_engineer.Prelude.{
  ℕ, ◌+◌, String, Bool, true, false, not, ◌&&◌, ◌||◌, Option, none, some, List, [], ◌∷◌, leb, ◌==◌,
  all, str_eq, if◌then◌else◌,
}
use data_engineer.Prelude.Dict
use data_engineer.Prelude.Dict.{Dict, or_else}
use data_engineer.Prelude.Text.{codes, is_space}
use data_engineer.Prelude.Value.{Value, str, dict, obj, entries, truthy, present}
use data_engineer.Models.Workflow.{MetricResult, Evaluation, EvaluationConfig}
use data_engineer.Nodes.Base.{NodeOutput}

-- `isinstance(source, dict)`, and the dictionary.
abbrev pub as_dict : Value → Option (Dict Value)
as_dict (dict fs) = some (entries fs)
as_dict _ = none

-- The value, if it is a text that is not blank.
unfoldable pub sql_text : Option Value → Option String
unfolding is_space
sql_text (some (str s)) = if all is_space (codes s) then none else some s
sql_text _ = none

-- The inner loop over `_SQL_KEYS`.
unfoldable pub sql_in : Dict Value → Option String
unfolding sql_text
sql_in source =
    or_else (sql_text (Dict.get "sql" source))
      (or_else (sql_text (Dict.get "primary_sql" source)) (sql_text (Dict.get "sql_text" source)))

unfoldable pub sql_in_result : Option (Dict Value) → Option String
sql_in_result none = none
sql_in_result (some source) = sql_in source

unfoldable pub extract_sql : NodeOutput → Option String
unfolding sql_in sql_in_result
extract_sql output =
    or_else (sql_in_result (as_dict output.result))
      (or_else (sql_in output.context) (sql_in output.metadata))

-- A lower-case ASCII letter from an upper-case one; the letters of "error" have no other source.
abbrev lower : ℕ → ℕ
lower c = if leb b'A' c && leb c b'Z' then c + 32 else c

abbrev starts : List ℕ → List ℕ → Bool
starts [] text = true
starts (p ∷ ps) [] = false
starts (p ∷ ps) (c ∷ cs) = lower c == p && starts ps cs

unfoldable pub mentions : List ℕ → List ℕ → Bool
mentions word [] = starts word []
mentions word (c ∷ cs) = starts word (c ∷ cs) || mentions word cs

-- The first of the three sources that has the key, a key with `None` counting as absent.
unfoldable pub consult : String → NodeOutput → Option Value
consult key output = or_else (present (Dict.get key output.context)) (
    or_else (present (Dict.get key output.metadata))
      (elim (as_dict output.result) [ none ↦ none | some source ↦ present (Dict.get key source) ]))

-- `report.get("passed")` of a dictionary, `getattr(report, "passed", None)` of anything else.
unfoldable pub report_passed : Value → Option Value
report_passed (dict fs) = present (Dict.get "passed" (entries fs))
report_passed (obj fs) = present (Dict.get "passed" (entries fs))
report_passed _ = none

abbrev pub bind {ℓ κ} : {A : Type ℓ} {B : Type κ} → Option A → (A → Option B) → Option B
bind none f = none
bind (some a) f = f a

unfoldable pub check_schema_compliant : NodeOutput → Bool
unfolding consult report_passed
check_schema_compliant output =
    elim (or_else (bind (consult "validation_report" output) report_passed)
      (consult "validation_passed" output)) [ none ↦ true | some flag ↦ truthy flag ]

unfoldable pub status_is_error : Option Value → Bool
unfolding mentions
status_is_error (some (str s)) = mentions (codes "error") (codes s)
status_is_error _ = false

unfoldable pub check_execution_success : NodeOutput → Bool
unfolding status_is_error
check_execution_success output = elim output.errors [
  | _ ∷ _ ↦ false
  | [] ↦ elim (as_dict output.result) [
    | none ↦ true
    | some source ↦ not (status_is_error (Dict.get "status" source))
  ]
]

module _ (parses : String → Bool) where
  unfoldable pub check_syntax_valid : NodeOutput → Bool
  unfolding extract_sql
  check_syntax_valid output = elim (extract_sql output) [ none ↦ true | some sql ↦ parses sql ]

  -- An unknown name fails.
  unfoldable pub check_metric : String → NodeOutput → MetricResult
  unfolding check_syntax_valid check_schema_compliant check_execution_success
  check_metric metric_name output = record {
    name = metric_name;
    passed =
        if str_eq metric_name "syntax_valid"
        then check_syntax_valid output
        else if str_eq metric_name "schema_compliant"
        then check_schema_compliant output
        else if str_eq metric_name "execution_success"
        then check_execution_success output
        else false;
  }

  -- The loop over the configured metrics, with its two accumulators.
  unfoldable pub check_metrics :
      List String → NodeOutput → Dict MetricResult → Bool → Dict MetricResult × Bool
  check_metrics [] output metrics all_passed = (metrics, all_passed)
  check_metrics (name ∷ names) output metrics all_passed =
      let result = check_metric name output in
      check_metrics names output (Dict.put name result metrics) (all_passed && result.passed)

  unfoldable pub evaluate_result : EvaluationConfig → NodeOutput → Evaluation
  unfolding check_metrics check_metric
  evaluate_result config output = elim output.errors [
    | _ ∷ _ ↦ record {
      passed = false;
      metrics = ("execution_success", record { name = "execution_success"; passed = false }) ∷ [];
      needs_revision = false;
      notes = "Node execution returned errors";
    }
    | [] ↦
        let (metrics, all_passed) = check_metrics config.metrics output [] true in
        if config.enabled
        then record {
          passed = all_passed;
          metrics = metrics;
          needs_revision = elim (Dict.get "needs_revision" output.metadata) [
            | none ↦ false
            | some v ↦ truthy v
          ];
          notes = "";
        }
        else record { passed = true; metrics = []; needs_revision = false; notes = "" }
  ]
