-- ===== src/Workflow/PlanSelector/Outcomes.antt =====
-- app/workflow/plan_selector.py: the metrics as a summary of the log of all outcomes.
use mathlib.Core.List.{append_assoc, append-nil}
use mathlib.Core.Path.{subst}
use data_engineer.Prelude.{
  ℕ, ◌+◌, ◌-◌, ◌≤◌, zero, suc, String, Bool, true, false, Option, none, some, List, [], ◌∷◌, ◌++◌,
  ◌≡◌, refl, sym, ap, ◌∙◌, arith, length, length-append, length-drop, drop, last_n, ltb, str_eq,
  eq_iff, if◌then◌else◌, if-branch,
}
use data_engineer.Prelude.Dict
use data_engineer.Prelude.Dict.{Dict, get-put, otherwise}
use data_engineer.Workflow.PlanSelector.Stats.{
  Outcome, Metrics, no_metrics, keep_last, add_outcome, record_outcome,
}

-- The abstract state: every outcome with its plan, in the order of their recording.
abbrev pub Log : Type 0
Log = List (String × Outcome)

abbrev pub outcomes_of : String → Log → List Outcome
outcomes_of plan [] = []
outcomes_of plan ((p, o) ∷ log) = (if str_eq p plan then o ∷ [] else []) ++ outcomes_of plan log

abbrev sum_of : (Outcome → ℕ) → List Outcome → ℕ
sum_of f [] = 0
sum_of f (o ∷ os) = f o + sum_of f os

abbrev passes : Outcome → ℕ
passes o = if o.validation_passed then 1 else 0

abbrev rated : Outcome → ℕ
rated o = if ltb 0 o.rating then 1 else 0

-- What the metrics of a plan say of its outcomes: the totals of all, and the last hundred of them.
abbrev pub summary : List Outcome → Metrics
summary os = record {
  total_runs = length os;
  total_edits = sum_of (λ o. o.edit_count) os;
  validation_passes = sum_of passes os;
  total_rating = sum_of (λ o. o.rating) os;
  rating_count = sum_of rated os;
  recent_history = last_n 100 os;
}

-- The metrics of a plan, which has none before its first outcome.
abbrev pub view : List Outcome → Option Metrics
view [] = none
view (o ∷ os) = some (summary (o ∷ os))

sum_of-append :
    (f : Outcome → ℕ) (os : List Outcome) (o : Outcome)
    → sum_of f (os ++ o ∷ []) ≡ sum_of f os + f o
sum_of-append f [] o = omega arith
sum_of-append f (p ∷ os) o = omega (arith, sum_of-append f os o)

drop-append : (n : ℕ) (xs ys : List Outcome) → n ≤ length xs → drop n xs ++ ys ≡ drop n (xs ++ ys)
drop-append zero xs ys h = refl
drop-append (suc n) [] ys h = absurd (omega arith)
drop-append (suc n) (x ∷ xs) ys h = drop-append n xs ys (omega arith)

drop-nil : (n : ℕ) → drop {A = Outcome} n [] ≡ []
drop-nil zero = refl
drop-nil (suc n) = refl

drop-drop : (m n : ℕ) (xs : List Outcome) → drop m (drop n xs) ≡ drop (n + m) xs
drop-drop m zero xs = ap (λ k. drop k xs) (omega arith)
drop-drop m (suc n) [] = drop-nil m ∙ sym (drop-nil (suc n + m))
drop-drop m (suc n) (x ∷ xs) = drop-drop m n xs ∙ ap (λ k. drop k (x ∷ xs)) over
  where
    over : suc (n + m) ≡ suc n + m
    over = omega arith

keep_last-drop :
    (k : ℕ) (xs : List Outcome) → k ≡ (length xs - 1) - 100 → keep_last (drop k xs) ≡ last_n 100 xs
unfolding keep_last
keep_last-drop k xs e =
    if-branch (λ ys. ys ≡ last_n 100 xs) (ltb 100 (length (drop k xs))) _ _
      (λ long.
        drop-drop (length (drop k xs) - 100) k xs
        ∙ ap (λ n. drop n xs) (ground (arith, e, long, length-drop k xs)))
      (λ short. ap (λ n. drop n xs) (ground (arith, e, short, length-drop k xs)))

-- The last hundred of the last hundred and one more are the last hundred of them all.
keep_last-last_n :
    (os : List Outcome) (o : Outcome)
    → keep_last (last_n 100 os ++ o ∷ []) ≡ last_n 100 (os ++ o ∷ [])
keep_last-last_n os o =
    let k = length os - 100 in
    ap keep_last (drop-append k os (o ∷ []) (omega arith))
    ∙ keep_last-drop k (os ++ o ∷ []) (omega (arith, length-append os (o ∷ [])))

Metrics-equal :
    (m m' : Metrics)
    → m.total_runs ≡ m'.total_runs
    → m.total_edits ≡ m'.total_edits
    → m.validation_passes ≡ m'.validation_passes
    → m.total_rating ≡ m'.total_rating
    → m.rating_count ≡ m'.rating_count
    → m.recent_history ≡ m'.recent_history
    → m ≡ m'
Metrics-equal m m' runs edits validated rating count history = cc

add_outcome-summary :
    (os : List Outcome) (o : Outcome) → add_outcome o (summary os) ≡ summary (os ++ o ∷ [])
unfolding add_outcome
add_outcome-summary os o =
    Metrics-equal _ _ (omega (arith, length-append os (o ∷ [])))
      (omega (arith, sum_of-append (λ o. o.edit_count) os o))
      (ground (arith, sum_of-append passes os o))
      (ground (arith, sum_of-append (λ o. o.rating) os o))
      (ground (arith, sum_of-append rated os o)) (keep_last-last_n os o)

-- What one more outcome makes of the view.
view-append :
    (os : List Outcome) (o : Outcome)
    → some (add_outcome o (otherwise (view os) no_metrics)) ≡ view (os ++ o ∷ [])
view-append [] o = ap some (add_outcome-summary [] o)
view-append (p ∷ os) o = ap some (add_outcome-summary (p ∷ os) o)

outcomes_of-append :
    (plan p : String) (o : Outcome) (log : Log)
    → outcomes_of plan (log ++ (p, o) ∷ [])
      ≡ (if str_eq p plan then outcomes_of plan log ++ o ∷ [] else outcomes_of plan log)
outcomes_of-append plan p o [] = ground arith
outcomes_of-append plan p o ((q, n) ∷ log) = ground (arith, outcomes_of-append plan p o log)

-- The metrics are the views of the log.
abbrev pub Refines : Dict Metrics → Log → Type 0
Refines stats log = (plan : String) → Dict.get plan stats ≡ view (outcomes_of plan log)

branch-view :
    (test : Bool) (os : List Outcome) (o : Outcome) (x y : Option Metrics)
    → (test ≡ true → x ≡ view (os ++ o ∷ []))
    → y ≡ view os
    → (if test then x else y) ≡ view (if test then os ++ o ∷ [] else os)
branch-view true os o x y same other = same refl
branch-view false os o x y same other = other

record_outcome-Refines :
    (p : String) (o : Outcome) (stats : Dict Metrics) (log : Log)
    → Refines stats log
    → Refines (record_outcome p o stats) (log ++ (p, o) ∷ [])
unfolding record_outcome
record_outcome-Refines p o stats log h plan =
    get-put plan p _ stats
    ∙ (branch-view (str_eq p plan) (outcomes_of plan log) o _ _
          (λ same.
            ap (λ m. some (add_outcome o (otherwise m no_metrics)))
              (ap (λ q. Dict.get q stats) ((eq_iff p plan).0 same) ∙ h plan)
            ∙ view-append (outcomes_of plan log) o)
          (h plan)
        ∙ ap view (sym (outcomes_of-append plan p o log)))

-- Recordings, one after the other.
unfoldable pub record_outcomes : Log → Dict Metrics → Dict Metrics
unfolding record_outcome
record_outcomes [] stats = stats
record_outcomes ((p, o) ∷ log) stats = record_outcomes log (record_outcome p o stats)

record_outcomes-Refines :
    (later log : Log) (stats : Dict Metrics)
    → Refines stats log
    → Refines (record_outcomes later stats) (log ++ later)
unfolding record_outcomes
record_outcomes-Refines [] log stats h = subst (Refines stats) (sym (append-nil log)) h
record_outcomes-Refines ((p, o) ∷ later) log stats h =
    subst (Refines (record_outcomes later (record_outcome p o stats)))
      (append_assoc log ((p, o) ∷ []) later)
      (record_outcomes-Refines later (log ++ (p, o) ∷ []) (record_outcome p o stats)
        (record_outcome-Refines p o stats log h))

-- From no statistics, any sequence of recordings leaves for each plan what the log of all the
-- outcomes says of it: nothing if it has none, and otherwise the totals over all its outcomes and
-- the last hundred of them in their order.
pub record_outcomes-view :
    (log : Log) (plan : String)
    → Dict.get plan (record_outcomes log []) ≡ view (outcomes_of plan log)
unfolding Dict.get
record_outcomes-view log plan = record_outcomes-Refines log [] [] (λ q. refl) plan
