-- ===== src/Harness/Runner/Trail.antt =====
-- app/harness/runner.py: the attempts at a node stand together in the trace.
use data_engineer.Prelude.{
  ℕ, zero, suc, ◌+◌, ◌≡◌, refl, ◌∙◌, ap, some, List, [], ◌∷◌, ◌++◌, All, leb, Bool-cases, inl, inr,
}
use data_engineer.Prelude.Exec.{
  answer, Exec, Result, ok, raised, modify, ◌>>=◌, Keeps, Holds, Gives, Gives-bind, Gives-Keeps,
  Gives-modify, Keeps-modify, keeps_rules,
}
use data_engineer.Harness.Runner.Attempt.{
  Verdict, exhausted, settled, start_attempt, finish_attempt, run_attempt, attempt_once,
  unless_passed, attempts, run_node, Settled, report_attempt, try_attempt, trace_of,
}
use data_engineer.Harness.Constraint.{record_retry}
use data_engineer.Harness.Runner.Frame.{Stable, Keeps-emit, Keeps-settle}
use data_engineer.Nodes.Base.{BaseNode}
use mathlib.Core.List.{append_assoc}
use data_engineer.Harness.Runner.State.{Setting, RunState}
use data_engineer.Models.Workflow.{NodeDef, NodeTrace}

All-append :
    (P : NodeTrace → Type 0) (xs ys : List NodeTrace) → All P xs → All P ys → All P (xs ++ ys)
All-append P [] ys p q = q
All-append P (x ∷ xs) ys p q = (p.0, All-append P xs ys p.1 q)

module _ {W : Type 0} (setting : Setting W) (definition : NodeDef) (node : BaseNode W) where
  -- The trace is `base`.
  abbrev pub Base : List NodeTrace → RunState W → Type 0
  Base base s = s.nodes ≡ base

  -- The trace is `base` and at least one attempt at the node.
  pub record Attempted (base : List NodeTrace) (s : RunState W) : Type 0 where
    pub first : NodeTrace
    pub more : List NodeTrace
    pub nodes : s.nodes ≡ base ++ first ∷ more
    pub own : All (λ (a : NodeTrace). a.node_id ≡ definition.id) (first ∷ more)

  Base-Stable : (base : List NodeTrace) → Stable (Base base)
  Base-Stable base = record { in_world = λ s w h. h; in_context = λ s c h. h }

  abbrev moved :
      (base : List NodeTrace) (s s' : RunState W)
      → s'.nodes ≡ s.nodes
      → Attempted base s
      → Attempted base s'
  moved base s s' e a = record { first = a.first; more = a.more; nodes = e ∙ a.nodes; own = a.own }

  Attempted-Stable : (base : List NodeTrace) → Stable (Attempted base)
  Attempted-Stable base = record {
    in_world = λ s w h. moved base s (record s { world = w }) refl h;
    in_context = λ s c h. moved base s (record s { context = c }) refl h;
  }

  Keeps-report :
      (base : List NodeTrace) (attempt : ℕ) (r : Settled)
      → Keeps (Attempted base) (report_attempt setting definition node attempt r)
  unfolding report_attempt
  Keeps-report base attempt r =
      search (keeps_rules, Keeps-emit (Attempted-Stable base), Keeps-modify, retried)
    where
      retried :
          (s : RunState W)
          → Attempted base s
          → Attempted base (record s { constraints = record_retry definition.id s.constraints })
      retried s h = moved base s _ refl h

  finish-Attempted :
      (base : List NodeTrace) (r : Settled) (s : RunState W)
      → Base base s
      → Attempted base (finish_attempt definition r s)
  unfolding finish_attempt
  finish-Attempted base r s h = record {
    first = trace_of definition (some r.evaluation) r.error;
    more = [];
    nodes =
        ap (λ (b : List NodeTrace). b ++ trace_of definition (some r.evaluation) r.error ∷ []) h;
    own = (refl, tt);
  }

  try_attempt-Attempted :
      (base : List NodeTrace) (attempt : ℕ)
      → Gives (Base base) (try_attempt setting definition node attempt) (λ v. Attempted base)
  unfolding try_attempt
  try_attempt-Attempted base attempt =
      Gives-bind _ _ (Gives-Keeps _ (Keeps-emit (Base-Stable base) setting _)) λ _.
        Gives-bind _ _ (Gives-Keeps _ (Keeps-settle (Base-Stable base) setting definition node))
          λ r.
            Gives-bind _ _ (Gives-modify _ (finish-Attempted base r))
              λ _. Gives-Keeps _ (Keeps-report base attempt r)

  -- After an evaluation the node has been attempted; an exhausted budget says nothing.
  abbrev pub Tried : List NodeTrace → Verdict → RunState W → Type 0
  Tried base exhausted s = Unit
  Tried base (settled evaluation error) s = Attempted base s

  Tried-Attempted :
      (base : List NodeTrace) (r : Result Verdict) (s : RunState W)
      → Holds (λ v. Attempted base) (r, s)
      → Holds (Tried base) (r, s)
  Tried-Attempted base (raised e) s h = tt
  Tried-Attempted base (ok exhausted) s h = tt
  Tried-Attempted base (ok (settled evaluation error)) s h = h

  attempt_once-Tried :
      (base : List NodeTrace) (attempt : ℕ)
      → Gives (Base base) (attempt_once setting definition node attempt) (Tried base)
  unfolding attempt_once run_attempt start_attempt answer modify ◌>>=◌
  attempt_once-Tried base attempt = record {
    at = λ s h. elim (Bool-cases (leb setting.plan.max_iterations s.iterations)) [
      | inl used ↦ rw used tt
      | inr left ↦ rw left (
          let (r, s') = try_attempt setting definition node attempt (start_attempt definition s) in
          Tried-Attempted base r s'
            ((try_attempt-Attempted base attempt).at (start_attempt definition s) h))
    ];
  }

  Attempted-again :
      (base : List NodeTrace) (s t : RunState W)
      → Attempted base s
      → Attempted s.nodes t
      → Attempted base t
  Attempted-again base s t a b = record {
    first = a.first;
    more = a.more ++ b.first ∷ b.more;
    nodes =
        b.nodes
        ∙ ap (λ (l : List NodeTrace). l ++ b.first ∷ b.more) a.nodes
        ∙ append_assoc base (a.first ∷ a.more) (b.first ∷ b.more);
    own = (a.own.0, All-append _ a.more (b.first ∷ b.more) a.own.1 b.own);
  }

  again-Tried :
      (base : List NodeTrace) (s : RunState W) (r : Result Verdict) (t : RunState W)
      → Attempted base s
      → Holds (Tried s.nodes) (r, t)
      → Holds (Tried base) (r, t)
  again-Tried base s (raised e) t a h = tt
  again-Tried base s (ok exhausted) t a h = tt
  again-Tried base s (ok (settled evaluation error)) t a h = Attempted-again base s t a h

  unless_passed-Tried :
      (base : List NodeTrace) (next : Exec (RunState W) Verdict) (v : Verdict)
      → ((b : List NodeTrace) → Gives (Base b) next (Tried b))
      → Gives (Tried base v) (unless_passed setting definition node next v) (Tried base)
  unfolding unless_passed answer
  unless_passed-Tried base next exhausted g = record { at = λ s h. tt }
  unless_passed-Tried base next (settled evaluation error) g = record {
    at = λ s h. elim (Bool-cases evaluation.passed) [
      | inl good ↦ rw good h
      | inr bad ↦ rw bad (let (r, t) = next s in again-Tried base s r t h ((g s.nodes).at s refl))
    ];
  }

  attempts-Tried :
      (retries attempt : ℕ) (base : List NodeTrace)
      → Gives (Base base) (attempts setting definition node retries attempt) (Tried base)
  unfolding attempts
  attempts-Tried zero attempt base = attempt_once-Tried base attempt
  attempts-Tried (suc retries) attempt base = Gives-bind _ _ (attempt_once-Tried base attempt) (λ v.
      unless_passed-Tried base (attempts setting definition node retries (attempt + 1)) v
        (attempts-Tried retries (attempt + 1)))

  pub run_node-Tried :
      (base : List NodeTrace) → Gives (Base base) (run_node setting definition node) (Tried base)
  unfolding run_node answer ◌>>=◌
  run_node-Tried base = record { at = λ s h. (attempts-Tried _ 1 base).at s h }
