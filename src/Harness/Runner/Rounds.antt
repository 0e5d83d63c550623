-- ===== src/Harness/Runner/Rounds.antt =====
-- app/harness/runner.py: invariants of the loop.
use data_engineer.Prelude.{ℕ, zero, suc, ◌≤◌, Option, none, some, arith}
use data_engineer.Prelude.Exec.{Exec, Keeps, Keeps-bind, keeps_rules}
use data_engineer.Harness.Runner.Attempt.{start_attempt, finish_attempt}
use data_engineer.Harness.Runner.Frame.{Stable, Phases, Keeps-run_node}
use data_engineer.Harness.Runner.Route.{Next, go, finish}
use data_engineer.Harness.Runner.Run.{Ending, visit_node, visit, follow, round, run_loop}
use data_engineer.Harness.Runner.State.{Setting, RunState}
use data_engineer.Models.Workflow.{NodeDef}
use data_engineer.Nodes.Base.{BaseNode}

module _ {W : Type 0} {P Q : RunState W → Type 0} (setting : Setting W) (p : Stable P)
    (q : Stable Q) (ph : (d : NodeDef) → Phases setting.plan.max_iterations P Q d) where
  Keeps-visit_node :
      (o : Option (BaseNode W)) (index : ℕ) (reflection : Option ℕ) (definition : NodeDef)
      → Keeps P (visit_node setting o index reflection definition)
  unfolding visit_node
  Keeps-visit_node none index reflection definition = search keeps_rules
  Keeps-visit_node (some node) index reflection definition =
      search (keeps_rules, Keeps-run_node setting definition node p q (ph definition))

  pub Keeps-visit :
      (index : ℕ) (reflection : Option ℕ) (definition : NodeDef)
      → Keeps P (visit setting index reflection definition)
  unfolding visit
  Keeps-visit index reflection definition = Keeps-visit_node _ index reflection definition

  Keeps-follow :
      (loop : ℕ → Option ℕ → Exec (RunState W) Ending) (n : Next)
      → ((i : ℕ) (r : Option ℕ) → Keeps P (loop i r))
      → Keeps P (follow setting loop n)
  Keeps-follow loop (go i r) k = k i r
  Keeps-follow loop (finish status error) k = search keeps_rules

  Keeps-round :
      (loop : ℕ → Option ℕ → Exec (RunState W) Ending) (i : ℕ) (r : Option ℕ) (o : Option NodeDef)
      → ((i : ℕ) (r : Option ℕ) → Keeps P (loop i r))
      → Keeps P (round setting loop i r o)
  unfolding round
  Keeps-round loop i r none k = search keeps_rules
  Keeps-round loop i r (some definition) k =
      Keeps-bind _ _ (Keeps-visit i r definition) (λ n. Keeps-follow loop n k)

  -- Whatever holds between attempts holds at the end of the loop.
  pub Keeps-run_loop :
      (fuel index : ℕ) (reflection : Option ℕ) → Keeps P (run_loop setting fuel index reflection)
  unfolding run_loop
  Keeps-run_loop zero index reflection = search keeps_rules
  Keeps-run_loop (suc fuel) index reflection =
      Keeps-round (run_loop setting fuel) index reflection _ (Keeps-run_loop fuel)

module _ {W : Type 0} (setting : Setting W) where
  -- The iterations stay within their bound.
  abbrev pub Within : RunState W → Type 0
  Within s = s.iterations ≤ setting.plan.max_iterations

  pub Within-Stable : Stable Within
  Within-Stable = record { in_world = λ s w h. h; in_context = λ s c h. h }

  pub Within-Phases : (d : NodeDef) → Phases setting.plan.max_iterations Within Within d
  unfolding start_attempt finish_attempt
  Within-Phases d = record {
    start = λ s h lt. omega arith;
    finish = λ r s h. h;
    retry = λ c s h. h;
    weaken = λ s h. h;
  }
