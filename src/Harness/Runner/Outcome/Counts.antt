-- ===== src/Harness/Runner/Outcome/Counts.antt =====
-- app/harness/runner.py: the count of the attempts and iterations of the loop, and its traces so far.
use data_engineer.Prelude.{ℕ, ◌+◌, ◌≤◌, ◌≡◌, Option, none, some, List, arith, length, length-append}
use data_engineer.Harness.Runner.Attempt.{start_attempt, finish_attempt}
use data_engineer.Harness.Runner.Frame.{Stable, Phases}
use data_engineer.Harness.Runner.State.{Setting, RunState}
use data_engineer.Models.Workflow.{NodeDef, NodeTrace, WorkflowTrace, Write}

abbrev pub pend : Option NodeTrace → ℕ
pend none = 0
pend (some t) = 1

module _ {W : Type 0} (setting : Setting W) (persisted : List (WorkflowTrace × Write)) where
  abbrev limit : ℕ
  limit = setting.plan.max_iterations

  -- Each attempt in the trace, and the one under way, has used an iteration; and nothing is
  -- persisted before the run ends.
  pub record Counted (s : RunState W) : Type 0 where
    pub fits : length s.nodes + pend s.pending ≤ s.iterations
    pub within : s.iterations ≤ limit
    pub unwritten : s.persisted ≡ persisted

  -- The same during an attempt, which has used its iteration.
  pub record Underway (s : RunState W) : Type 0 where
    pub fits : length s.nodes + 1 ≤ s.iterations
    pub within : s.iterations ≤ limit
    pub unwritten : s.persisted ≡ persisted

  pub Counted-Stable : Stable Counted
  Counted-Stable = record {
    in_world = λ s w h. record { fits = h.fits; within = h.within; unwritten = h.unwritten };
    in_context = λ s c h. record { fits = h.fits; within = h.within; unwritten = h.unwritten };
  }

  pub Underway-Stable : Stable Underway
  Underway-Stable = record {
    in_world = λ s w h. record { fits = h.fits; within = h.within; unwritten = h.unwritten };
    in_context = λ s c h. record { fits = h.fits; within = h.within; unwritten = h.unwritten };
  }

  pend-le : (o : Option NodeTrace) → pend o ≤ 1
  pend-le none = omega arith
  pend-le (some t) = omega arith

  pub Counted-Phases : (d : NodeDef) → Phases limit Counted Underway d
  unfolding start_attempt finish_attempt
  Counted-Phases d = record {
    start = λ s h lt. record {
      fits = let f : length s.nodes + pend s.pending ≤ s.iterations = h.fits in omega arith;
      within = omega arith;
      unwritten = h.unwritten;
    };
    finish = λ r s h. record {
      fits = let f : length s.nodes + 1 ≤ s.iterations = h.fits in omega (arith, length-append {0});
      within = h.within;
      unwritten = h.unwritten;
    };
    retry = λ c s h. record { fits = h.fits; within = h.within; unwritten = h.unwritten };
    weaken = λ s h. record {
      fits = let f : length s.nodes + 1 ≤ s.iterations = h.fits in omega (arith, pend-le s.pending);
      within = h.within;
      unwritten = h.unwritten;
    };
  }

  pub Counted-pend : (s : RunState W) → Counted s → length s.nodes + pend s.pending ≤ limit
  Counted-pend s h =
      let f : length s.nodes + pend s.pending ≤ s.iterations = h.fits in
      let w : s.iterations ≤ limit = h.within in omega arith

  pub Counted-le : (s : RunState W) → Counted s → length s.nodes ≤ limit
  Counted-le s h = let f = Counted-pend s h in omega arith
