-- ===== src/Workflow/PlanSelector/Listed.antt =====
-- app/workflow/plan_selector.py: what a layer chooses is among the plans that it was given.
use data_engineer.Prelude.{
  ℕ, ◌+◌, String, true, Option, none, some, List, [], ◌∷◌, ◌≡◌, arith, if-branch, eq_iff,
  if◌then◌else◌, ltb, ◌&&◌,
}
use data_engineer.Prelude.Dict
use data_engineer.Prelude.Dict.{Dict, mem, keys, contains, contains-put, otherwise}
use data_engineer.Prelude.Sorted.{sorted_set, mem-sorted_set}
use data_engineer.Prelude.Returned.{Given}
use data_engineer.Workflow.PlanSelector.{
  SelectionResult, PlanSelector, first_match, history_result, answer_result,
}
use data_engineer.Workflow.PlanSelector.Rules.{Rule}
use data_engineer.Workflow.PlanSelector.History.{
  HistoryMatch, count_success, success_counts, most, most_of, best_plan, counted, count_of,
}
use data_engineer.Workflow.PlanSelector.Answer.{
  Hit, better, best_hit, hit_at, choose_hit, find_from, is_empty, pid_of, parse_plan_id,
}

-- Every text of the one list is in the other.
abbrev Inside : List String → List String → Type 0
Inside xs available = (x : String) → mem x xs ≡ true → mem x available ≡ true

mem_self : (x : String) (xs : List String) → mem x (x ∷ xs) ≡ true
mem_self x xs = ground (arith, eq_iff x x)

mem_later : (x y : String) (xs : List String) → mem x xs ≡ true → mem x (y ∷ xs) ≡ true
mem_later x y xs h = ground (arith, h)

Inside-tail :
    (y : String) (xs available : List String) → Inside (y ∷ xs) available → Inside xs available
Inside-tail y xs available h = λ x m. h x (mem_later x y xs m)

count_success-Inside :
    (available : List String) (m : HistoryMatch) (counts : Dict ℕ)
    → Inside (keys counts) available
    → Inside (keys (count_success available m counts)) available
unfolding count_success
count_success-Inside available m counts h x = ground (
  arith,
  h x,
  eq_iff m.plan_id x,
  contains-put x m.plan_id (otherwise (Dict.get m.plan_id counts) 0 + 1) counts,
)

success_counts-Inside :
    (available : List String) (matches : List HistoryMatch) (counts : Dict ℕ)
    → Inside (keys counts) available
    → Inside (keys (success_counts available matches counts)) available
unfolding success_counts
success_counts-Inside available [] counts h = h
success_counts-Inside available (m ∷ matches) counts h =
    success_counts-Inside available matches (count_success available m counts)
      (count_success-Inside available m counts h)

most-mem :
    (counts : Dict ℕ) (available : List String) (best : String) (pids : List String)
    → mem best available ≡ true
    → Inside pids available
    → mem (most counts best pids) available ≡ true
unfolding most
most-mem counts available best [] b h = b
most-mem counts available best (pid ∷ pids) b h =
    most-mem counts available
      (if ltb (count_of counts best) (count_of counts pid) then pid else best) pids
      (if-branch (λ p. mem p available ≡ true) (ltb (count_of counts best) (count_of counts pid))
        pid best (λ t. h pid (mem_self pid pids)) (λ t. b))
      (Inside-tail pid pids available h)

-- The plan of a choice is among them.
abbrev pub Listed : List String → Option String → Type 0
Listed available o = Given (λ pid. mem pid available ≡ true) o

most_of-Listed :
    (counts : Dict ℕ) (available pids : List String)
    → Inside pids available
    → Listed available (most_of counts pids)
most_of-Listed counts available [] h = tt
most_of-Listed counts available (pid ∷ pids) h =
    most-mem counts available pid pids (h pid (mem_self pid pids))
      (Inside-tail pid pids available h)

pub sorted_set-Inside :
    (xs available : List String) → Inside xs available → Inside (sorted_set xs) available
sorted_set-Inside xs available h x m = h x (ground (arith, m, mem-sorted_set x xs))

-- The chosen one of the hits is listed.
abbrev HitListed : List String → Option Hit → Type 0
HitListed available o = Given (λ hit. mem hit.pid available ≡ true) o

better-Listed :
    (available : List String) (best : Option Hit) (new : Hit)
    → HitListed available best
    → mem new.pid available ≡ true
    → mem (better best new).pid available ≡ true
unfolding better
better-Listed available none new b n = n
better-Listed available (some old) new b n =
    if-branch (λ hit. mem hit.pid available ≡ true) _ new old (λ t. n) (λ t. b)

choose_hit-Listed :
    (available : List String) (best : Option Hit) (pid : String) (at : Option ℕ)
    → HitListed available best
    → mem pid available ≡ true
    → HitListed available (choose_hit best (hit_at pid at))
choose_hit-Listed available best pid none b m = b
choose_hit-Listed available best pid (some at) b m = better-Listed available best _ b m

best_hit-Listed :
    (to_lower : String → List ℕ) (lowered : List ℕ) (available pids : List String)
    (best : Option Hit)
    → HitListed available best
    → Inside pids available
    → HitListed available (best_hit to_lower lowered best pids)
unfolding best_hit
best_hit-Listed to_lower lowered available [] best b h = b
best_hit-Listed to_lower lowered available (pid ∷ pids) best b h =
    let found = find_from (to_lower pid) lowered 0 in
    best_hit-Listed to_lower lowered available pids (choose_hit best (hit_at pid found))
      (choose_hit-Listed available best pid found b (h pid (mem_self pid pids)))
      (Inside-tail pid pids available h)

pid_of-Listed :
    (available : List String) (best : Option Hit)
    → HitListed available best
    → Listed available (pid_of best)
pid_of-Listed available none b = tt
pid_of-Listed available (some hit) b = b

pub parse_plan_id-Listed :
    (to_lower : String → List ℕ) (text : String) (available : List String)
    → Listed available (parse_plan_id to_lower text available)
unfolding parse_plan_id
parse_plan_id-Listed to_lower text available =
    if-branch (Listed available) (is_empty text) none _ (λ t. tt)
      (λ t. pid_of-Listed available _ (
        best_hit-Listed to_lower _ available (sorted_set available) none tt
          (sorted_set-Inside available available (λ x m. m))))

-- The plan of a result is among the available ones.
abbrev pub ResultListed : List String → Option SelectionResult → Type 0
ResultListed available o = Given (λ r. mem r.plan_id available ≡ true) o

module _ {W : Type 0} (selector : PlanSelector W) where
  pub first_match-Listed :
      (available : List String) (query_text : String) (rules : List Rule)
      → ResultListed available (first_match selector available query_text rules)
  unfolding first_match
  first_match-Listed available query_text [] = tt
  first_match-Listed available query_text (r ∷ rules) =
      if-branch (ResultListed available)
        (mem r.plan_id available && selector.search r.pattern query_text) _ _
        (λ t. ground (arith, t)) (λ t. first_match-Listed available query_text rules)

  counted-Listed :
      (available : List String) (counts : Dict ℕ) (o : Option String)
      → Listed available o
      → ResultListed available (history_result selector available (counted counts o))
  unfolding history_result
  counted-Listed available counts none h = tt
  counted-Listed available counts (some pid) h = h

  pub best_plan-Listed :
      (available : List String) (matches : List HistoryMatch)
      → ResultListed available (history_result selector available (best_plan available matches))
  unfolding best_plan
  best_plan-Listed available matches =
      let counts = success_counts available matches [] in
      counted-Listed available counts _ (
        most_of-Listed counts available (sorted_set (keys counts)) (
          sorted_set-Inside (keys counts) available
            (success_counts-Inside available matches [] (λ x m. absurd (ground (arith, m))))))

  pub answer_result-Listed :
      (available : List String) (pid : Option String)
      → Listed available pid
      → ResultListed available (answer_result selector available pid)
  unfolding answer_result
  answer_result-Listed available none h = tt
  answer_result-Listed available (some pid) h = h
