-- ===== src/Harness/Runner/Retries.antt =====
-- app/harness/runner.py: how often one visit of a node tries it.
use data_engineer.Prelude.{ℕ, zero, suc, ◌+◌, ◌≤◌, min, arith, leb, Bool-cases, inl, inr}
use data_engineer.Prelude.Exec.{answer, Exec, Result, ok, raised, modify, proceed, ◌>>=◌}
use data_engineer.Harness.Runner.Attempt.{
  Verdict, exhausted, settled, start_attempt, finish_attempt, run_attempt, attempt_once,
  unless_passed, attempts, run_node,
}
use data_engineer.Harness.Runner.Frame.{Stable, Phases, Leads-try_attempt}
use data_engineer.Harness.Runner.State.{Setting, RunState}
use data_engineer.Models.Workflow.{NodeDef}
use data_engineer.Nodes.Base.{BaseNode}

module _ {W : Type 0} (n : ℕ) where
  abbrev AtMost : RunState W → Type 0
  AtMost s = s.iterations ≤ n

  AtMost-Stable : Stable AtMost
  AtMost-Stable = record { in_world = λ s w h. h; in_context = λ s c h. h }

  AtMost-Phases : (d : NodeDef) → Phases n AtMost AtMost d
  unfolding start_attempt finish_attempt
  AtMost-Phases d = record {
    start = λ s h lt. omega arith;
    finish = λ r s h. h;
    retry = λ c s h. h;
    weaken = λ s h. h;
  }

module _ {W : Type 0} (setting : Setting W) (definition : NodeDef) (node : BaseNode W) where
  attempt_once_adds :
      (attempt : ℕ) (s : RunState W)
      → (attempt_once setting definition node attempt s).1.iterations ≤ s.iterations + 1
  unfolding attempt_once run_attempt start_attempt answer modify ◌>>=◌
  attempt_once_adds attempt s = elim (Bool-cases (leb setting.plan.max_iterations s.iterations)) [
    | inl used ↦ rw used (omega arith)
    | inr left ↦ rw left (
        (Leads-try_attempt setting definition node (AtMost-Stable (s.iterations + 1))
            (AtMost-Stable (s.iterations + 1)) (AtMost-Phases (s.iterations + 1) definition)
            attempt).at
          (start_attempt definition s) (omega arith))
  ]

  unless_passed_adds :
      (k m : ℕ) (next : Exec (RunState W) Verdict) (r : Result Verdict) (s : RunState W)
      → s.iterations ≤ m
      → ((t : RunState W) → (next t).1.iterations ≤ t.iterations + k)
      → (proceed r (unless_passed setting definition node next) s).1.iterations ≤ m + k
  unfolding unless_passed answer
  unless_passed_adds k m next (raised e) s le add = omega arith
  unless_passed_adds k m next (ok exhausted) s le add = omega arith
  unless_passed_adds k m next (ok (settled evaluation error)) s le add =
      elim (Bool-cases evaluation.passed) [
        | inl good ↦ rw good (omega arith)
        | inr bad ↦ rw bad (omega (arith, add s))
      ]

  attempts_adds :
      (retries attempt : ℕ) (s : RunState W)
      → (attempts setting definition node retries attempt s).1.iterations
        ≤ s.iterations + 1 + retries
  unfolding attempts ◌>>=◌
  attempts_adds zero attempt s = omega (arith, attempt_once_adds attempt s)
  attempts_adds (suc retries) attempt s =
      let (r, s') = attempt_once setting definition node attempt s in
      let more =
        unless_passed_adds (1 + retries) (s.iterations + 1)
          (attempts setting definition node retries (attempt + 1)) r s'
          (attempt_once_adds attempt s)
          (λ t. omega (arith, attempts_adds retries (attempt + 1) t)) in
      omega (arith, more)

  -- A visit of a node tries it once, and again at most as often as both the plan's failure policy
  -- and the harness's limit on retries allow.
  pub run_node_bounded :
      (s : RunState W)
      → (run_node setting definition node s).1.iterations
        ≤ s.iterations
          + 1
          + min setting.plan.failure_policy.max_retries s.constraints.limits.max_node_retries
  unfolding run_node answer ◌>>=◌
  run_node_bounded s = attempts_adds _ 1 s
