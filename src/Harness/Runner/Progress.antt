-- ===== src/Harness/Runner/Progress.antt =====
-- app/harness/runner.py: the progress of the loop. Each round that goes on to another node has
-- used an iteration, so the loop ends.
use data_engineer.Prelude.{
  ℕ, zero, suc, ◌+◌, ◌≤◌, ◌<◌, ◌≡◌, ◌≢◌, ◌⊎◌, inl, inr, refl, Option, none, some, arith, leb,
  Bool-cases,
}
use data_engineer.Prelude.Exec.{
  answer, Exec, Result, ok, raised, Keeps, modify, pure, proceed, ◌>>=◌,
}
use data_engineer.Harness.Runner.Attempt.{
  Verdict, exhausted, settled, start_attempt, finish_attempt, run_attempt, attempt_once,
  unless_passed, attempts, run_node,
}
use data_engineer.Harness.Runner.Frame.{Stable, Phases, Leads-try_attempt, Keeps-attempts}
use data_engineer.Harness.Runner.Route.{Next, go, finish}
use data_engineer.Harness.Runner.Run.{
  Ending, out_of_fuel, choose, visit_node, visit, follow, round, run_loop,
}
use data_engineer.Harness.Runner.State.{Setting, RunState}
use data_engineer.Models.Workflow.{NodeDef}
use data_engineer.Nodes.Base.{BaseNode}
use data_engineer.Harness.Runner.Rounds.{Keeps-visit, Within-Stable, Within-Phases}

-- More iterations are used than `n`: nothing that the runner does takes that back.
module _ {W : Type 0} (n : ℕ) where
  abbrev pub Used : RunState W → Type 0
  Used s = n < s.iterations

  pub Used-Stable : Stable Used
  Used-Stable = record { in_world = λ s w h. h; in_context = λ s c h. h }

  pub Used-Phases : (limit : ℕ) (d : NodeDef) → Phases limit Used Used d
  unfolding start_attempt finish_attempt
  Used-Phases limit d = record {
    start = λ s h lt. omega arith;
    finish = λ r s h. h;
    retry = λ c s h. h;
    weaken = λ s h. h;
  }

module _ {W : Type 0} (setting : Setting W) where
  -- The two ways in which an action uses the iteration budget up or uses some of it.
  abbrev Uses : RunState W → Result Verdict × RunState W → Type 0
  Uses s (r, s') = (r ≡ ok exhausted) ⊎ (s.iterations < s'.iterations)

  module _ (definition : NodeDef) (node : BaseNode W) where
    attempt_once-Uses :
        (attempt : ℕ) (s : RunState W) → Uses s (attempt_once setting definition node attempt s)
    unfolding attempt_once run_attempt start_attempt answer modify ◌>>=◌
    attempt_once-Uses attempt s = elim (Bool-cases (leb setting.plan.max_iterations s.iterations)) [
      | inl used ↦ inl (rw used)
      | inr left ↦ inr (
          rw left (
            (Leads-try_attempt setting definition node (Used-Stable s.iterations)
                (Used-Stable s.iterations)
                (Used-Phases s.iterations setting.plan.max_iterations definition) attempt).at
              (start_attempt definition s) (omega arith)))
    ]

    unless_passed-Uses :
        (next : Exec (RunState W) Verdict) (s : RunState W) (r : Result Verdict) (s' : RunState W)
        → Keeps (Used s.iterations) next
        → Uses s (r, s')
        → Uses s (proceed r (unless_passed setting definition node next) s')
    unfolding unless_passed answer
    unless_passed-Uses next s (raised e) s' k u = u
    unless_passed-Uses next s (ok exhausted) s' k u = inl refl
    unless_passed-Uses next s (ok (settled evaluation error)) s' k (inl e) = absurd (cc)
    unless_passed-Uses next s (ok (settled evaluation error)) s' k (inr lt) =
        elim (Bool-cases evaluation.passed) [
          | inl good ↦ rw good (inr lt)
          | inr bad ↦ rw bad (inr (k.at s' lt))
        ]

    attempts-Uses :
        (retries attempt : ℕ) (s : RunState W)
        → Uses s (attempts setting definition node retries attempt s)
    unfolding attempts ◌>>=◌
    attempts-Uses zero attempt s = attempt_once-Uses attempt s
    attempts-Uses (suc retries) attempt s =
        let (r, s') = attempt_once setting definition node attempt s in
        unless_passed-Uses (attempts setting definition node retries (attempt + 1)) s r s'
          (Keeps-attempts setting definition node (Used-Stable s.iterations)
            (Used-Stable s.iterations)
            (Used-Phases s.iterations setting.plan.max_iterations definition) retries (attempt + 1))
          (attempt_once-Uses attempt s)

    run_node-Uses : (s : RunState W) → Uses s (run_node setting definition node s)
    unfolding run_node answer ◌>>=◌
    run_node-Uses s = attempts-Uses _ 1 s

  -- A round that goes on to another node has used an iteration.
  abbrev Moves : RunState W → Result Next × RunState W → Type 0
  Moves s (r, s') = (i : ℕ) (f : Option ℕ) → r ≡ ok (go i f) → s.iterations < s'.iterations

  choose-Moves :
      (index : ℕ) (reflection : Option ℕ) (definition : NodeDef) (s : RunState W)
      (r : Result Verdict) (s' : RunState W)
      → Uses s (r, s')
      → Moves s (proceed r (λ v. pure (choose setting index reflection definition v)) s')
  unfolding choose answer
  choose-Moves index reflection definition s (raised e) s' u i f eq = absurd (cc)
  choose-Moves index reflection definition s (ok exhausted) s' u i f eq = absurd (cc)
  choose-Moves index reflection definition s (ok (settled v e)) s' (inl u) i f eq = absurd (cc)
  choose-Moves index reflection definition s (ok (settled v e)) s' (inr u) i f eq = u

  visit_node-Moves :
      (o : Option (BaseNode W)) (index : ℕ) (reflection : Option ℕ) (definition : NodeDef)
      (s : RunState W)
      → Moves s (visit_node setting o index reflection definition s)
  unfolding visit_node answer ◌>>=◌
  visit_node-Moves none index reflection definition s = λ i f eq. absurd (cc)
  visit_node-Moves (some node) index reflection definition s =
      let (r, s') = run_node setting definition node s in
      choose-Moves index reflection definition s r s' (run_node-Uses definition node s)

  -- The loop's condition on fuel: the iterations that are left, and one round more.
  abbrev pub Enough : ℕ → RunState W → Type 0
  Enough fuel s =
      (s.iterations ≤ setting.plan.max_iterations)
      × (setting.plan.max_iterations < s.iterations + fuel)

  follow-ends :
      (loop : ℕ → Option ℕ → Exec (RunState W) Ending) (fuel : ℕ) (s : RunState W) (r : Result Next)
      (s' : RunState W)
      → Moves s (r, s')
      → Enough (suc fuel) s
      → s'.iterations ≤ setting.plan.max_iterations
      → ((i : ℕ) (f : Option ℕ) (t : RunState W) → Enough fuel t → (loop i f t).0 ≢ ok out_of_fuel)
      → (proceed r (follow setting loop) s').0 ≢ ok out_of_fuel
  unfolding answer
  follow-ends loop fuel s (raised e) s' m n b k = λ e. cc
  follow-ends loop fuel s (ok (finish status error)) s' m n b k = λ e. cc
  follow-ends loop fuel s (ok (go i f)) s' m n b k =
      k i f s' (b, let lt : s.iterations < s'.iterations = m i f refl in omega arith)

  round-ends :
      (loop : ℕ → Option ℕ → Exec (RunState W) Ending) (fuel i : ℕ) (f : Option ℕ)
      (o : Option NodeDef) (s : RunState W)
      → Enough (suc fuel) s
      → ((i : ℕ) (f : Option ℕ) (t : RunState W) → Enough fuel t → (loop i f t).0 ≢ ok out_of_fuel)
      → (round setting loop i f o s).0 ≢ ok out_of_fuel
  unfolding round visit answer ◌>>=◌
  round-ends loop fuel i f none s n k = λ e. cc
  round-ends loop fuel i f (some d) s n k =
      let (r, s') = visit setting i f d s in
      follow-ends loop fuel s r s' (visit_node-Moves _ i f d s) n
        ((Keeps-visit setting (Within-Stable setting) (Within-Stable setting)
            (Within-Phases setting) i f d).at
          s n.0)
        k

  -- With one round more than the iterations that are left the loop ends.
  pub run_loop-ends :
      (fuel index : ℕ) (reflection : Option ℕ) (s : RunState W)
      → Enough fuel s
      → (run_loop setting fuel index reflection s).0 ≢ ok out_of_fuel
  unfolding run_loop
  run_loop-ends zero index reflection s n = absurd (omega arith)
  run_loop-ends (suc fuel) index reflection s n =
      round-ends (run_loop setting fuel) fuel index reflection _ s n (run_loop-ends fuel)
