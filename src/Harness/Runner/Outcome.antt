-- ===== src/Harness/Runner/Outcome.antt =====
-- app/harness/runner.py: the outcome of a run, its attempts and the traces that it hands to a write.
pub mod Counts
pub mod Ends
use data_engineer.Prelude.{
  ℕ, suc, ◌+◌, ◌≤◌, ◌≡◌, ◌≢◌, refl, sym, ap, ◌∙◌, ◌⊎◌, inl, inr, String, Bool, Option, none, some,
  List, [], ◌∷◌, ◌++◌, arith, length, length-append,
}
use data_engineer.Prelude.Dict.{Dict}
use data_engineer.Prelude.Value.{Value}
use data_engineer.Prelude.Exec.{
  answer, raise, pure, proceed, Exn, Result, ok, raised, failure, infrastructure, cancelled, modify,
  ◌>>=◌,
}
use data_engineer.Harness.Constraint.{ConstraintEnforcer}
use data_engineer.Harness.Runner.Attempt.{start_attempt, finish_attempt}
use data_engineer.Harness.Runner.Frame.{Stable, Phases}
use data_engineer.Harness.Runner.Progress.{run_loop-ends}
use data_engineer.Harness.Runner.Rounds.{Keeps-run_loop}
use data_engineer.Harness.Runner.Run.{
  Ending, finished, out_of_fuel, run_loop, trace_with, answered, conclude, rescue, rescue_finish,
  add_pending, abandon, give_up, conclude_loop, execute, fresh, checked, run,
}
use data_engineer.Harness.Runner.State.{Setting, RunState, or_text}
use data_engineer.Models.Workflow.{
  NodeDef, NodeTrace, WorkflowTrace, WorkflowResult, Status, failed, aborted, Write, written, lost,
  interrupted,
}
use data_engineer.Harness.Runner.Outcome.Counts.{
  Counted, Underway, Counted-Stable, Underway-Stable, Counted-Phases, Counted-pend, Counted-le,
}
use data_engineer.Harness.Runner.Outcome.Ends.{
  Sound, Recorded, Finishing, rescue-Sound, rescue_finish-Sound, refuse-Sound,
}

module _ {W : Type 0} (setting : Setting W) (persisted : List (WorkflowTrace × Write)) where
  abbrev limit : ℕ
  limit = setting.plan.max_iterations

  conclude_loop-Sound :
      (r : Result Ending) (s : RunState W)
      → Counted setting persisted s
      → r ≢ ok out_of_fuel
      → Sound setting persisted (conclude_loop setting r s)
  unfolding conclude_loop conclude
  conclude_loop-Sound (ok (finished status error)) s h n =
      let t = trace_with setting s status error in
      rescue_finish-Sound setting persisted t (setting.write (length s.persisted) t) _ _
        (Counted-pend setting persisted s h)
        (
          ap
              (λ (l : List (WorkflowTrace × Write)).
                l ++ (t, setting.write (length s.persisted) t) ∷ [])
              h.unwritten,
          refl,
          refl,
          refl,
          refl,
          refl,
        )
  conclude_loop-Sound (ok out_of_fuel) s h n = absurd (n refl)
  conclude_loop-Sound (raised e) s h n =
      rescue-Sound setting persisted e s (Counted-pend setting persisted s h) h.unwritten

  execute-Sound :
      (s : RunState W)
      → Counted setting persisted s
      → s.iterations ≡ 0
      → Sound setting persisted (execute setting s)
  unfolding execute
  execute-Sound s h z =
      let (r, s') = run_loop setting (suc limit) 0 none s in
      conclude_loop-Sound r s'
        ((Keeps-run_loop setting (Counted-Stable setting persisted)
            (Underway-Stable setting persisted) (Counted-Phases setting persisted) (suc limit) 0
            none).at
          s h)
        (run_loop-ends setting (suc limit) 0 none s (h.within, omega arith))

  checked-Sound :
      (o : Option String) (s : RunState W)
      → Counted setting persisted s
      → s.iterations ≡ 0
      → Sound setting persisted (checked setting o s)
  unfolding checked conclude ◌>>=◌
  checked-Sound none s h z = execute-Sound s h z
  checked-Sound (some error) s h z =
      let t = trace_with setting s failed (some error) in
      refuse-Sound setting persisted t (setting.write (length s.persisted) t) _ _
        (Counted-le setting persisted s h)
        (
          ap
              (λ (l : List (WorkflowTrace × Write)).
                l ++ (t, setting.write (length s.persisted) t) ∷ [])
              h.unwritten,
          refl,
          refl,
          refl,
          refl,
          refl,
        )

module _ {W : Type 0} (setting : Setting W) (reset_constraints : Bool) (kwargs : Dict Value)
    (world : W) (constraints : ConstraintEnforcer) (persisted : List (WorkflowTrace × Write)) where
  run-Sound :
      Sound setting persisted (run setting reset_constraints kwargs world constraints persisted)
  unfolding run fresh
  run-Sound =
      checked-Sound setting persisted _ _
        (record { fits = omega arith; within = omega arith; unwritten = refl }) refl

  -- Every run ends. When it returns, it handed one trace to a write, with the status, the error
  -- and the attempts of the result, and the result carries that trace, with the kind of the error if
  -- the write was lost. When it gives up on the infrastructure, the one trace handed over says so. A
  -- cancelled run handed over one trace that says so, or one whose write was interrupted, or such
  -- a one and then a second that says so. Only an ordinary exception that escapes the nodes' handler
  -- leaves no trace.
  pub run-Recorded :
      Recorded setting persisted
        (run setting reset_constraints kwargs world constraints persisted).0
        (run setting reset_constraints kwargs world constraints persisted).1
  run-Recorded = run-Sound.0

  -- However the nodes answer, and however a revision goes round, a run makes no more attempts at
  -- nodes than the plan's `max_iterations`.
  pub run_bounded :
      length (run setting reset_constraints kwargs world constraints persisted).1.nodes
      ≤ setting.plan.max_iterations
  run_bounded = run-Sound.1
