-- ===== src/Tests/PlanSelector.antt =====
-- Examples of app/workflow/plan_selector.py: a loader with three plans, and a model that names one.
use data_engineer.Prelude.{ℕ, String, true, false, none, some, List, [], ◌∷◌, ◌≡◌, refl}
use data_engineer.Prelude.Dict
use data_engineer.Prelude.Text.{codes}
use data_engineer.Prelude.Value.{Value, dict, list, str, cons, nil, field, end}
use data_engineer.Prelude.Exec.{pure, raise, failure}
use data_engineer.Prelude.Returned.{OrCancelled}
use data_engineer.Workflow.PlanSelector.{PlanSelector, select}
use data_engineer.Workflow.PlanSelector.Stats.{Outcome}
use data_engineer.Workflow.PlanSelector.History.{HistoryMatch, best_plan}
use data_engineer.Workflow.PlanSelector.Answer.{parse_plan_id, extract_response_text}
use data_engineer.Workflow.PlanSelector.Chosen.{Chosen, select-Chosen}
use data_engineer.Workflow.PlanSelector.Outcomes.{
  Log, record_outcomes, view, outcomes_of, record_outcomes-view,
}

abbrev plans : List String
plans = "ez_query" ∷ "gensql_agentic" ∷ "report" ∷ []

abbrev answer_value : Value
answer_value = dict (
    field "choices"
      (list (cons (dict (field "message" (dict (field "content" (str "use report") end)) end)) nil))
      end)

abbrev selector : PlanSelector (Unit {0})
selector = record {
  plan_loader =
      some (record { list_available = pure plans; load = λ pid. raise (failure "no such plan") });
  find_similar = some (λ q domain. raise (failure "no table"));
  complete = some (λ prompt. pure answer_value);
  strip = λ t. t;
  to_lower = codes;
  decimal = λ n. "n";
  show = λ v. "use report";
  search = λ pattern t. false;
}

select-Chosen_example : OrCancelled (Chosen selector) (select selector "q" none tt).0
select-Chosen_example = select-Chosen selector "q" none tt

answer_text : extract_response_text (λ v. "use report") answer_value ≡ "use report"
unfolding extract_response_text Dict.get
answer_text = refl

named_plan : parse_plan_id codes "use report or ez_query" plans ≡ some "report"
unfolding parse_plan_id
named_plan = refl

-- The longer of two that start at the same place.
longer_plan : parse_plan_id codes "ez_query2" ("ez" ∷ "ez_query" ∷ []) ≡ some "ez_query"
unfolding parse_plan_id
longer_plan = refl

abbrev success : String → HistoryMatch
success pid = record { plan_id = pid; success = true }

tied_plans :
    best_plan plans (success "report" ∷ success "ez_query" ∷ success "gone" ∷ [])
    ≡ some ("ez_query", 1)
unfolding best_plan Dict.get Dict.put
tied_plans = refl

abbrev rated : ℕ → Outcome
rated n = record { edit_count = 1; validation_passed = true; rating = n }

abbrev log : Log
log = ("report", rated 5) ∷ ("ez_query", rated 0) ∷ ("report", rated 0) ∷ []

record_outcomes-view_example :
    Dict.get "report" (record_outcomes log []) ≡ view (outcomes_of "report" log)
record_outcomes-view_example = record_outcomes-view log "report"
