-- ===== src/Workflow/PlanSelector.antt =====
-- app/workflow/plan_selector.py: `PlanSelector`, which asks the rules, the history and the model in
-- turn.
pub mod Rules
pub mod Stats
pub mod History
pub mod Answer
pub mod Prompt
pub mod Listed
pub mod Chosen
pub mod Outcomes
use Prim.Native.String.{◌++◌ as concat}
use data_engineer.Prelude.{
  ℕ, ◌==◌, String, Bool, true, false, Option, none, some, List, [], ◌∷◌, ◌++◌, ◌&&◌, str_eq,
  if◌then◌else◌,
}
use data_engineer.Prelude.Dict.{mem, otherwise}
use data_engineer.Prelude.Text.{join_texts}
use data_engineer.Prelude.Value.{Value}
use data_engineer.Prelude.Exec.{Exec, Result, pure, ◌>>=◌}
use data_engineer.Prelude.World.{attempted}
use data_engineer.Prelude.Sorted.{sorted_set}
use data_engineer.Workflow.PlanSelector.Rules.{Rule, default_plan, l1_rules}
use data_engineer.Workflow.PlanSelector.Prompt.{
  PlanText, PlanLoader, tried, available_from, build_llm_prompt,
}
use data_engineer.Workflow.PlanSelector.History.{HistoryMatch, best_plan}
use data_engineer.Workflow.PlanSelector.Answer.{extract_response_text, parse_plan_id}

-- A confidence is kept in hundredths.
pub record SelectionResult : Type 0 where
  pub plan_id : String
  pub layer : String
  pub reason : String
  pub confidence : ℕ
  pub alternatives : List String

-- The loader, the history store and the model, as far as there are any, and what the selector uses
-- of Python: `str.strip`, `str.lower`, `str` of a number and of a value, and `re.search`.
pub record PlanSelector (W : Type 0) : Type 0 where
  pub plan_loader : Option (PlanLoader W)
  pub find_similar : Option (String → Option String → Exec W (List HistoryMatch))
  pub complete : Option (String → Exec W Value)
  pub strip : String → String
  pub to_lower : String → List ℕ
  pub decimal : ℕ → String
  pub show : Value → String
  pub search : String → String → Bool

abbrev others : String → List String → List String
others selected [] = []
others selected (a ∷ available) =
    (if str_eq a selected then [] else a ∷ []) ++ others selected available

unfoldable pub other_plans : String → List String → List String
unfolding sorted_set
other_plans selected available = others selected (sorted_set available)

unfoldable pub fallback : String → SelectionResult
fallback reason = record {
  plan_id = default_plan;
  layer = "default";
  reason = reason;
  confidence = 30;
  alternatives = [];
}

-- The layer's choice, or else the next layer.
unfoldable pub or_next :
    {W : Type 0} → Option SelectionResult → Exec W SelectionResult → Exec W SelectionResult
or_next none next = next
or_next (some result) next = pure result

module _ {W : Type 0} (selector : PlanSelector W) where
  abbrev pub available_plans : Exec W (List String)
  available_plans = available_from selector.plan_loader

  unfoldable pub first_match : List String → String → List Rule → Option SelectionResult
  unfolding other_plans
  first_match available query_text [] = none
  first_match available query_text (r ∷ rules) =
      let rest = first_match available query_text rules in
      if mem r.plan_id available && selector.search r.pattern query_text
      then some (record {
        plan_id = r.plan_id;
        layer = "L1";
        reason = r.reason;
        confidence = 90;
        alternatives = other_plans r.plan_id available;
      })
      else rest

  unfoldable pub select_by_rules : String → Exec W (Option SelectionResult)
  unfolding available_from first_match
  select_by_rules query_text = do
    available ← available_plans
    pure (first_match available query_text l1_rules)

  unfoldable pub history_result : List String → Option (String × ℕ) → Option SelectionResult
  unfolding other_plans
  history_result available none = none
  history_result available (some (best, n)) = some (record {
    plan_id = best;
    layer = "L2";
    reason = concat "Based on " (
        concat (selector.decimal n) (
          concat " similar historical quer" (
            concat (if n == 1 then "y" else "ies")
              (concat " that used plan '" (concat best "'")))));
    confidence = 75;
    alternatives = other_plans best available;
  })

  unfoldable pub from_matches : List HistoryMatch → Exec W (Option SelectionResult)
  unfolding available_from history_result best_plan
  from_matches [] = pure none
  from_matches (m ∷ matches) = do
    available ← available_plans
    pure (history_result available (best_plan available (m ∷ matches)))

  unfoldable pub from_store :
      Option (String → Option String → Exec W (List HistoryMatch))
      → String
      → Option String
      → Exec W (Option SelectionResult)
  unfolding from_matches tried
  from_store none query_text domain = pure none
  from_store (some find_similar) query_text domain = do
    found ← tried (find_similar query_text domain)
    from_matches (otherwise found [])

  abbrev pub select_by_history : String → Option String → Exec W (Option SelectionResult)
  select_by_history = from_store selector.find_similar

  unfoldable pub answer_result : List String → Option String → Option SelectionResult
  unfolding other_plans
  answer_result available none = none
  answer_result available (some pid) = some (record {
    plan_id = pid;
    layer = "L3";
    reason = concat "LLM classified the query as plan '" (concat pid "'");
    confidence = 60;
    alternatives = other_plans pid available;
  })

  unfoldable pub ask :
      (String → Exec W Value) → String → Option String → Exec W (Option SelectionResult)
  unfolding available_from build_llm_prompt answer_result extract_response_text parse_plan_id
  ask complete query_text domain = do
    available ← available_plans
    prompt ← build_llm_prompt selector.plan_loader query_text available domain
    response ← complete prompt
    pure (
        answer_result available (
          parse_plan_id selector.to_lower (extract_response_text selector.show response) available))

  unfoldable pub from_model :
      Option (String → Exec W Value) → String → Option String → Exec W (Option SelectionResult)
  unfolding ask tried
  from_model none query_text domain = pure none
  from_model (some complete) query_text domain = do
    r ← tried (ask complete query_text domain)
    pure (otherwise r none)

  abbrev pub select_by_llm : String → Option String → Exec W (Option SelectionResult)
  select_by_llm = from_model selector.complete

  unfoldable pub select : String → Option String → Exec W SelectionResult
  unfolding select_by_rules from_store from_model or_next fallback
  select query_text domain = do
    by_rules ← select_by_rules (selector.strip query_text)
    or_next by_rules (do
      by_history ← select_by_history (selector.strip query_text) domain
      or_next by_history (do
        by_llm ← select_by_llm (selector.strip query_text) domain
        or_next by_llm (pure (fallback "No rule/history/LLM match — using default plan"))))

  unfoldable pub select_sync : String → Option String → Exec W SelectionResult
  unfolding select_by_rules or_next fallback
  select_sync query_text domain = do
    by_rules ← select_by_rules (selector.strip query_text)
    or_next by_rules (pure (fallback "Sync mode — rules only, no history/LLM"))
