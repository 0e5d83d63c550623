-- ===== src/Tests/Budget.antt =====
-- app/llm/budget.py: three budgets, the first of them the query's and a caller's at once.
use data_engineer.Prelude.{
  ◌+◌, ◌≡◌, ◌≤◌, ◌<◌, ◌⊎◌, ℕ, refl, true, none, some, [], ◌∷◌, arith, if◌then◌else◌,
}
use data_engineer.Harness.Constraint.{
  ConstraintLimits, force_output, create, can_call_llm, record_llm_call,
}
use data_engineer.Llm.Budget.{Heap, record_all, reserve_llm_call}
use data_engineer.Llm.Budget.Reserve.{
  used, limit, in_scope, reserve_many, grants, reserve_llm_call-granted, reserve_many_bounded,
  reserve_llm_call_cases,
}

abbrev pub limits : ConstraintLimits
limits = record {
  max_llm_calls_per_query = 2;
  max_node_retries = 1;
  reflection_max_rounds = 3;
  reflection_on_exhausted = force_output;
  session_ttl_seconds = 3600;
  read_only = true;
  max_result_rows = 1000;
  statement_timeout_ms = 30000;
}

abbrev heap : Heap
heap r = create limits

shared_counts_once : used (record_all (0 ∷ 1 ∷ []) heap) 0 ≡ 1
unfolding record_all record_llm_call
shared_counts_once = refl

reserve_llm_call-granted_example :
    (used (record_all (0 ∷ 1 ∷ []) heap) 0
      ≡ (if in_scope 0 (some 0) (0 ∷ 1 ∷ []) then used heap 0 + 1 else used heap 0))
    × ((record_all (0 ∷ 1 ∷ []) heap 0).limits ≡ (heap 0).limits)
    × (in_scope 0 (some 0) (0 ∷ 1 ∷ []) ≡ true → can_call_llm (heap 0) ≡ true)
unfolding reserve_llm_call can_call_llm
reserve_llm_call-granted_example =
    reserve_llm_call-granted (some 0) (0 ∷ 1 ∷ []) heap (record_all (0 ∷ 1 ∷ []) heap) 0 refl

reserve_many_bounded_example :
    (used (reserve_many ((some 0, 0 ∷ []) ∷ (some 0, []) ∷ (none, 0 ∷ []) ∷ []) heap) 0
      ≡ used heap 0 + grants 0 ((some 0, 0 ∷ []) ∷ (some 0, []) ∷ (none, 0 ∷ []) ∷ []) heap)
    × (used heap 0 + grants 0 ((some 0, 0 ∷ []) ∷ (some 0, []) ∷ (none, 0 ∷ []) ∷ []) heap
        ≤ limit heap 0)
reserve_many_bounded_example =
    reserve_many_bounded ((some 0, 0 ∷ []) ∷ (some 0, []) ∷ (none, 0 ∷ []) ∷ []) heap 0
      (omega arith)

reserve_llm_call_cases_example :
    ((r : ℕ) × (in_scope r (some 0) (1 ∷ []) ≡ true)
      × (limit heap r ≤ used heap r)
      × (reserve_llm_call (some 0) (1 ∷ []) heap ≡ none))
    ⊎ ((h' : Heap) × (reserve_llm_call (some 0) (1 ∷ []) heap ≡ some h')
        × ((r : ℕ) → in_scope r (some 0) (1 ∷ []) ≡ true → used heap r < limit heap r))
reserve_llm_call_cases_example = reserve_llm_call_cases (some 0) (1 ∷ []) heap
