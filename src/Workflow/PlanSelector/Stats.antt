-- ===== src/Workflow/PlanSelector/Stats.antt =====
-- app/workflow/plan_selector.py: `record_outcome` and the rates of the plans.
use data_engineer.Prelude.{
  ℕ, ◌+◌, max, ltb, String, Bool, List, [], ◌∷◌, ◌++◌, length, last_n, map, if◌then◌else◌,
}
use data_engineer.Prelude.Dict
use data_engineer.Prelude.Dict.{Dict, otherwise}

pub record Outcome : Type 0 where
  pub edit_count : ℕ
  pub validation_passed : Bool
  pub rating : ℕ

pub record Metrics : Type 0 where
  pub total_runs : ℕ
  pub total_edits : ℕ
  pub validation_passes : ℕ
  pub total_rating : ℕ
  pub rating_count : ℕ
  pub recent_history : List Outcome

abbrev pub no_metrics : Metrics
no_metrics = record {
  total_runs = 0;
  total_edits = 0;
  validation_passes = 0;
  total_rating = 0;
  rating_count = 0;
  recent_history = [];
}

unfoldable pub keep_last : List Outcome → List Outcome
keep_last history = if ltb 100 (length history) then last_n 100 history else history

unfoldable pub add_outcome : Outcome → Metrics → Metrics
unfolding keep_last
add_outcome o m = record {
  total_runs = m.total_runs + 1;
  total_edits = m.total_edits + o.edit_count;
  validation_passes = if o.validation_passed then m.validation_passes + 1 else m.validation_passes;
  total_rating = if ltb 0 o.rating then m.total_rating + o.rating else m.total_rating;
  rating_count = if ltb 0 o.rating then m.rating_count + 1 else m.rating_count;
  recent_history = keep_last (m.recent_history ++ o ∷ []);
}

unfoldable pub record_outcome : String → Outcome → Dict Metrics → Dict Metrics
unfolding add_outcome
record_outcome plan_id o workflow_stats =
    Dict.put plan_id (add_outcome o (otherwise (Dict.get plan_id workflow_stats) no_metrics))
      workflow_stats

-- `rate a b digits` is `round(a / b, digits)`, and `percent` the same of a hundred times `a / b`.
pub record WorkflowStats (F : Type 0) : Type 0 where
  pub total_runs : ℕ
  pub avg_edit_rate : F
  pub validation_pass_rate : F
  pub avg_rating : F

module _ {F : Type 0} (rate percent : ℕ → ℕ → ℕ → F) where
  unfoldable pub stats_of : Metrics → WorkflowStats F
  stats_of m = record {
    total_runs = m.total_runs;
    avg_edit_rate = rate m.total_edits (max m.total_runs 1) 2;
    validation_pass_rate = percent m.validation_passes (max m.total_runs 1) 1;
    avg_rating = rate m.total_rating (max m.rating_count 1) 2;
  }

  unfoldable pub get_workflow_stats : Dict Metrics → Dict (WorkflowStats F)
  unfolding stats_of
  get_workflow_stats workflow_stats = map (λ e. (e.0, stats_of e.1)) workflow_stats
