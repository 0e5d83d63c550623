-- ===== src/Harness/Runner/Route.antt =====
-- app/harness/runner.py: which node comes next, decided by the plan and the evaluation alone.
use data_engineer.Prelude.{
  ℕ, ◌+◌, ◌-◌, String, Bool, false, not, ◌&&◌, Option, none, some, List, [], ◌∷◌, ◌==◌, str_eq,
  length, if◌then◌else◌,
}
use data_engineer.Harness.Runner.State.{or_text}
use data_engineer.Models.Workflow.{NodeDef, Status, completed, failed, Evaluation}

-- Go on at an index, with the index of the reflection node if a revision is under way; or finish.
pub data Next : Type 0 where
  go : ℕ → Option ℕ → Next
  finish : Status → Option String → Next

-- `next((i for i, nd in enumerate(order) if nd.id == "revise"), None)`, counting from `i`.
unfoldable pub revision_index : List NodeDef → ℕ → Option ℕ
revision_index [] i = none
revision_index (nd ∷ rest) i = if str_eq nd.id "revise" then some i else revision_index rest (i + 1)

abbrev pub is_at : Option ℕ → ℕ → Bool
is_at none index = false
is_at (some r) index = r == index

-- The end of the loop's body: back to the reflection node after the last node, or on to the next.
unfoldable pub advance : List NodeDef → ℕ → Option ℕ → Next
advance order index none = go (index + 1) none
advance order index (some r) =
    if index == length order - 1 then go r (some r) else go (index + 1) (some r)

-- A reflection that wants a revision goes to the node `revise`, if the plan has one.
unfoldable pub reflect : List NodeDef → ℕ → Option ℕ → Next
unfolding revision_index advance
reflect order index reflection = elim (revision_index order 0) [
  | some revision ↦ go revision (some index)
  | none ↦ advance order index reflection
]

unfoldable pub after_pass : List NodeDef → ℕ → Option ℕ → NodeDef → Bool → Next
unfolding reflect
after_pass order index reflection definition needs_revision =
    if str_eq definition.on_pass "output" && not needs_revision
    then finish completed none
    else if is_at reflection index && not needs_revision
    then finish completed none
    else if str_eq definition.id "reflect" && needs_revision
    then reflect order index reflection
    else advance order index reflection

unfoldable pub after_failure : ℕ → Option ℕ → NodeDef → Evaluation → Option String → Next
after_failure index reflection definition evaluation error =
    if str_eq definition.on_failure "skip"
    then go (index + 1) reflection
    else finish failed
        (some (or_text error (or_text (some evaluation.notes) "Node evaluation failed")))

unfoldable pub next_step : List NodeDef → ℕ → Option ℕ → NodeDef → Evaluation → Option String → Next
unfolding after_pass after_failure
next_step order index reflection definition evaluation error =
    if evaluation.passed
    then after_pass order index reflection definition evaluation.needs_revision
    else after_failure index reflection definition evaluation error
