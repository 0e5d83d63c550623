-- ===== src/Llm/Budget.antt =====
-- app/llm/budget.py: `reserve_llm_call` reserves one model call in every budget that is in scope.
-- Budgets are shared objects, compared by identity: a heap of enforcers, named by references.
pub mod Reserve
use data_engineer.Prelude.{
  ℕ, Bool, true, false, Option, none, some, List, [], ◌∷◌, not, any, ◌==◌, if◌then◌else◌,
}
use data_engineer.Harness.Constraint.{ConstraintEnforcer, can_call_llm, record_llm_call}

abbrev pub Heap : Type 0
Heap = ℕ → ConstraintEnforcer

abbrev pub member : ℕ → List ℕ → Bool
member r [] = false
member r (s ∷ ss) = if s == r then true else member r ss

-- `dict.fromkeys`: the first occurrence of each reference, in order; `seen` are the earlier ones.
unfoldable pub dedup : List ℕ → List ℕ → List ℕ
dedup seen [] = []
dedup seen (r ∷ rs) =
    let skip = dedup seen rs in
    let keep = r ∷ dedup (r ∷ seen) rs in if member r seen then skip else keep

-- The budgets in scope: the query's, then the callers'.
unfoldable pub budgets : Option ℕ → List ℕ → List ℕ
unfolding dedup
budgets none limits = dedup [] limits
budgets (some query) limits = dedup [] (query ∷ limits)

unfoldable pub record_all : List ℕ → Heap → Heap
record_all [] h = h
record_all (r ∷ rs) h = record_all rs (λ j. if j == r then record_llm_call (h r) else h j)

-- `none` is the `RuntimeError` of an exhausted budget.
unfoldable pub reserve_llm_call : Option ℕ → List ℕ → Heap → Option Heap
unfolding budgets record_all
reserve_llm_call query limits h =
    let refs = budgets query limits in
    if any (λ r. not (can_call_llm (h r))) refs then none else some (record_all refs h)
