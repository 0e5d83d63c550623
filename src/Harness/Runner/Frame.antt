-- ===== src/Harness/Runner/Frame.antt =====
-- app/harness/runner.py: what a node and the event handler leave alone. A predicate on the run's
-- variables that looks neither at the world nor at the context is kept by all that they do.
use data_engineer.Prelude.{
  ◌+◌, ◌<◌, leb, Bool-cases, inl, inr, leb_false→lt, ℕ, zero, suc, Option, none, some,
}
use data_engineer.Prelude.Dict.{Dict}
use data_engineer.Prelude.Value.{Value}
use data_engineer.Prelude.Exec.{
  answer, Exec, Caught, value, caught, Keeps, Leads, Leads-bind, Leads-modify, modify, Keeps-bind,
  Keeps-modify, keeps_rules, ◌>>=◌,
}
use data_engineer.Harness.Constraint.{ConstraintEnforcer}
use data_engineer.Harness.Permission.{PermissionManager}
use data_engineer.Harness.Runner.Attempt.{
  Settled, Verdict, exhausted, settled, guarded, produce, absorb, after_produce, settle,
  report_attempt, try_attempt, run_attempt, start_attempt, finish_attempt, attempt_once,
  unless_passed, attempts, run_node,
}
use data_engineer.Harness.Runner.State.{Setting, RunState, NodeEvent, outside, emit_to, emit}
use data_engineer.Models.Workflow.{NodeDef}
use data_engineer.Nodes.Base.{BaseNode, NodeInput, NodeOutput}

pub record Stable {W : Type 0} (P : RunState W → Type 0) : Type 0 where
  pub in_world : (s : RunState W) (w : W) → P s → P (record s { world = w })
  pub in_context : (s : RunState W) (c : Dict Value) → P s → P (record s { context = c })

module _ {W : Type 0} {P : RunState W → Type 0} (st : Stable P) where
  pub Keeps-outside : {A : Type 0} (m : Exec W A) → Keeps P (outside m)
  unfolding outside
  Keeps-outside m = record { at = λ s h. st.in_world s (m s.world).1 h }

  Keeps-emit_to :
      (o : Option (NodeEvent → Exec W (Unit {0}))) (event : NodeEvent) → Keeps P (emit_to o event)
  unfolding emit_to
  Keeps-emit_to none event = record { at = λ s h. h }
  Keeps-emit_to (some handler) event = record { at = λ s h. (Keeps-outside (handler event)).at s h }

  pub Keeps-emit : (setting : Setting W) (event : NodeEvent) → Keeps P (emit setting event)
  unfolding emit
  Keeps-emit setting event = Keeps-emit_to setting.on_node_event event

  module _ (setting : Setting W) (definition : NodeDef) (node : BaseNode W) where
    Keeps-guarded :
        (m : PermissionManager) (i : NodeInput) → Keeps P (guarded setting definition node m i)
    unfolding guarded
    Keeps-guarded m i = search (keeps_rules, Keeps-outside)

    Keeps-produce : Keeps P (produce setting definition node)
    unfolding produce
    Keeps-produce = search (keeps_rules, Keeps-outside, Keeps-guarded)

    Keeps-absorb : (output : NodeOutput) → Keeps P (absorb setting definition node output)
    unfolding absorb
    Keeps-absorb output = search (keeps_rules, Keeps-outside, Keeps-modify, st.in_context)

    Keeps-after_produce :
        (c : Caught NodeOutput) → Keeps P (after_produce setting definition node c)
    unfolding after_produce
    Keeps-after_produce (caught message) = search keeps_rules
    Keeps-after_produce (value output) = search (keeps_rules, Keeps-absorb)

    pub Keeps-settle : Keeps P (settle setting definition node)
    unfolding settle
    Keeps-settle = search (keeps_rules, Keeps-produce, Keeps-after_produce)

-- `P` holds between attempts and `Q` within one, also where it raises.
pub record Phases {W : Type 0} (limit : ℕ) (P Q : RunState W → Type 0) (definition : NodeDef)
    : Type 0 where
  pub start : (s : RunState W) → P s → s.iterations < limit → Q (start_attempt definition s)
  pub finish : (r : Settled) (s : RunState W) → Q s → P (finish_attempt definition r s)
  pub retry : (c : ConstraintEnforcer) (s : RunState W) → P s → P (record s { constraints = c })
  pub weaken : (s : RunState W) → Q s → P s

module _ {W : Type 0} {P Q : RunState W → Type 0} (setting : Setting W) (definition : NodeDef)
    (node : BaseNode W) (p : Stable P) (q : Stable Q) {limit : ℕ}
    (ph : Phases limit P Q definition) where
  Keeps-report_attempt :
      (attempt : ℕ) (r : Settled) → Keeps P (report_attempt setting definition node attempt r)
  unfolding report_attempt
  Keeps-report_attempt attempt r = search (keeps_rules, Keeps-emit p, Keeps-modify, ph.retry)

  pub Leads-try_attempt : (attempt : ℕ) → Leads Q P (try_attempt setting definition node attempt)
  unfolding try_attempt
  Leads-try_attempt attempt = Leads-bind _ _ ph.weaken (Keeps-emit q setting _) λ _.
      Leads-bind _ _ ph.weaken (Keeps-settle q setting definition node)
        λ r. Leads-modify _ _ (ph.finish r) (Keeps-report_attempt attempt r)

module _ {W : Type 0} {P Q : RunState W → Type 0} (setting : Setting W) (definition : NodeDef)
    (node : BaseNode W) (p : Stable P) (q : Stable Q)
    (ph : Phases setting.plan.max_iterations P Q definition) where
  -- An attempt is made only while the iteration budget lasts.
  Keeps-attempt_once : (attempt : ℕ) → Keeps P (attempt_once setting definition node attempt)
  unfolding attempt_once run_attempt modify answer ◌>>=◌
  Keeps-attempt_once attempt = record {
    at = λ s h. elim (Bool-cases (leb setting.plan.max_iterations s.iterations)) [
      | inl used ↦ rw used h
      | inr left ↦ rw left (
          (Leads-try_attempt setting definition node p q ph attempt).at (start_attempt definition s)
            (ph.start s h (leb_false→lt _ _ left)))
    ];
  }

  Keeps-unless_passed :
      (next : Exec (RunState W) Verdict) (v : Verdict)
      → Keeps P next
      → Keeps P (unless_passed setting definition node next v)
  unfolding unless_passed
  Keeps-unless_passed next exhausted k = search keeps_rules
  Keeps-unless_passed next (settled evaluation error) k = search keeps_rules

  pub Keeps-attempts :
      (retries attempt : ℕ) → Keeps P (attempts setting definition node retries attempt)
  unfolding attempts
  Keeps-attempts zero attempt = Keeps-attempt_once attempt
  Keeps-attempts (suc retries) attempt =
      Keeps-bind _ _ (Keeps-attempt_once attempt)
        (λ v. Keeps-unless_passed _ v (Keeps-attempts retries (attempt + 1)))

  pub Keeps-run_node : Keeps P (run_node setting definition node)
  unfolding run_node
  Keeps-run_node = search (keeps_rules, Keeps-attempts)
