-- ===== src/Workflow/PlanSelector/History.antt =====
-- app/workflow/plan_selector.py: the second layer counts the successes of the plans of similar
-- queries.
use data_engineer.Prelude.{
  ℕ, ◌+◌, ltb, String, Bool, Option, none, some, List, [], ◌∷◌, ◌&&◌, if◌then◌else◌,
}
use data_engineer.Prelude.Dict
use data_engineer.Prelude.Dict.{Dict, mem, keys, otherwise}
use data_engineer.Prelude.Sorted.{sorted_set}

-- What the layer reads of an entry of the history store.
pub record HistoryMatch : Type 0 where
  pub plan_id : String
  pub success : Bool

unfoldable pub count_success : List String → HistoryMatch → Dict ℕ → Dict ℕ
count_success available m counts =
    if mem m.plan_id available && m.success
    then Dict.put m.plan_id (otherwise (Dict.get m.plan_id counts) 0 + 1) counts
    else counts

unfoldable pub success_counts : List String → List HistoryMatch → Dict ℕ → Dict ℕ
unfolding count_success
success_counts available [] counts = counts
success_counts available (m ∷ matches) counts =
    success_counts available matches (count_success available m counts)

abbrev pub count_of : Dict ℕ → String → ℕ
count_of counts pid = otherwise (Dict.get pid counts) 0

-- `max(pids, key=…)`: the first of those with the most, from `best` on.
unfoldable pub most : Dict ℕ → String → List String → String
most counts best [] = best
most counts best (pid ∷ pids) =
    most counts (if ltb (count_of counts best) (count_of counts pid) then pid else best) pids

abbrev pub most_of : Dict ℕ → List String → Option String
most_of counts [] = none
most_of counts (pid ∷ pids) = some (most counts pid pids)

abbrev pub counted : Dict ℕ → Option String → Option (String × ℕ)
counted counts none = none
counted counts (some pid) = some (pid, count_of counts pid)

unfoldable pub best_plan : List String → List HistoryMatch → Option (String × ℕ)
unfolding success_counts most sorted_set
best_plan available matches =
    let counts = success_counts available matches [] in
    counted counts (most_of counts (sorted_set (keys counts)))
