-- ===== src/Harness/Runner/Refusal.antt =====
-- app/harness/runner.py: a plan that breaks a rule is refused before any node runs.
use data_engineer.Prelude.{
  ◌≡◌, ◌≢◌, refl, sym, ◌∙◌, String, Bool, true, false, not, ◌||◌, Option, none, some, List, [], ◌∷◌,
  ◌++◌, ◌⊎◌, inl, inr, length, map, any, arith, eq_iff,
}
use mathlib.Core.Path.{subst}
use data_engineer.Prelude.Dict.{Dict, mem, contains}
use data_engineer.Prelude.Value.{Value}
use data_engineer.Prelude.Exec.{answer, pure, proceed, Result, ok, raised, cancelled, ◌>>=◌}
use data_engineer.Harness.Constraint.{ConstraintEnforcer}
use data_engineer.Harness.Runner.Checks.{check_nodes, check_order, check_plan}
use data_engineer.Harness.Runner.Run.{trace_with, answered, conclude, checked, fresh, run}
use data_engineer.Harness.Runner.State.{Setting, RunState}
use data_engineer.Models.Workflow.{
  NodeDef, WorkflowPlan, WorkflowTrace, Write, WorkflowResult, failed, written, lost, interrupted,
}
use data_engineer.Nodes.Registry.{NodeRegistry}

abbrev pub ids : List NodeDef → List String
ids = map (λ d. d.id)

-- The node stands in the registry, its id is new, and what it depends on stands above it.
pub record IsPlaced {W : Type 0} (registry : NodeRegistry W) (above : List String) (d : NodeDef)
    : Type 0 where
  pub registered : contains d.node registry ≡ true
  pub fresh_id : mem d.id above ≡ false
  pub satisfied : (x : String) → mem x d.depends_on ≡ true → mem x above ≡ true

-- The same, with the ids that were seen before the list began.
record Placed {W : Type 0} (registry : NodeRegistry W) (above seen : List String) (d : NodeDef)
    : Type 0 where
  registered : contains d.node registry ≡ true
  fresh_id : mem d.id above || mem d.id seen ≡ false
  satisfied : (x : String) → mem x d.depends_on ≡ true → mem x above || mem x seen ≡ true

any_missing :
    (seen xs : List String) (x : String)
    → any (λ d. not (mem d seen)) xs ≡ false
    → mem x xs ≡ true
    → mem x seen ≡ true
any_missing seen [] x a m = ground arith
any_missing seen (y ∷ ys) x a m = ground (arith, any_missing seen ys x, eq_iff y x)

module _ {W : Type 0} (registry : NodeRegistry W) where
  check_nodes-head :
      (d : NodeDef) (rest : List NodeDef) (seen : List String)
      → check_nodes registry (d ∷ rest) seen ≡ none
      → (contains d.node registry ≡ true)
        × (mem d.id seen ≡ false)
        × (any (λ x. not (mem x seen)) d.depends_on ≡ false)
        × (check_nodes registry rest (d.id ∷ seen) ≡ none)
  unfolding check_nodes
  check_nodes-head d rest seen e = ground arith

  check_nodes-Placed :
      (before : List NodeDef) (d : NodeDef) (after : List NodeDef) (seen : List String)
      → check_nodes registry (before ++ d ∷ after) seen ≡ none
      → Placed registry (ids before) seen d
  check_nodes-Placed [] d after seen e =
      let (r, f, a, _) = check_nodes-head d after seen e in
      record {
        registered = r;
        fresh_id = f;
        satisfied = λ x m. any_missing seen d.depends_on x a m;
      }
  check_nodes-Placed (b ∷ bs) d after seen e =
      let (_, _, _, later) = check_nodes-head b (bs ++ d ∷ after) seen e in
      let ih = check_nodes-Placed bs d after (b.id ∷ seen) later in
      record {
        registered = ih.registered;
        fresh_id = ground (arith, ih.fresh_id);
        satisfied = λ x m. ground (arith, ih.satisfied x m);
      }

  or_false : (b : Bool) → b || false ≡ b
  or_false true = refl
  or_false false = refl

  plan_accepts :
      (plan : WorkflowPlan)
      → check_plan registry plan ≡ none
      → check_nodes registry plan.node_order [] ≡ none
  unfolding check_plan
  plan_accepts plan e = go plan.node_order e
    where
      go :
          (l : List NodeDef)
          → check_order registry plan.evaluation l ≡ none
          → check_nodes registry l [] ≡ none
      go [] e = absurd (ground arith)
      go (d ∷ ds) e = ground arith

  -- A plan that passes the checks has every node in its place.
  pub check_plan-IsPlaced :
      (plan : WorkflowPlan) (before : List NodeDef) (d : NodeDef) (after : List NodeDef)
      → plan.node_order ≡ before ++ d ∷ after
      → check_plan registry plan ≡ none
      → IsPlaced registry (ids before) d
  check_plan-IsPlaced plan before d after split e =
      let placed =
        check_nodes-Placed before d after []
          (subst (λ l. check_nodes registry l [] ≡ none) split (plan_accepts plan e)) in
      record {
        registered = placed.registered;
        fresh_id = sym (or_false _) ∙ placed.fresh_id;
        satisfied = λ x m. sym (or_false _) ∙ placed.satisfied x m;
      }

module _ {W : Type 0} (setting : Setting W) (reset_constraints : Bool) (kwargs : Dict Value)
    (world : W) (constraints : ConstraintEnforcer) (persisted : List (WorkflowTrace × Write)) where
  -- The caller gets a failed result, unless it was cancelled during the write.
  abbrev FailedBy : Write → Result (Option WorkflowResult) → Type 0
  FailedBy p r =
      ((w : WorkflowResult) × (r ≡ ok (some w)) × (w.status ≡ failed))
      ⊎ ((r ≡ raised cancelled) × (p ≡ interrupted))

  -- The run did nothing: no node acted on the world, no attempt is in the trace. One failed trace
  -- was handed to a write.
  abbrev pub Refused : Result (Option WorkflowResult) × RunState W → Type 0
  Refused out =
      ((t : WorkflowTrace) × (p : Write) × (out.1.persisted ≡ persisted ++ (t, p) ∷ [])
        × (t.status ≡ failed)
        × FailedBy p out.0)
      × (out.1.world ≡ world)
      × (out.1.nodes ≡ [])

  answered-Refused :
      (p : Write) (t : WorkflowTrace) (r : WorkflowResult) (s : RunState W)
      → t.status ≡ failed
      → r.status ≡ failed
      → s.persisted ≡ persisted ++ (t, p) ∷ []
      → s.world ≡ world
      → s.nodes ≡ []
      → Refused (proceed (answered p r) (λ r. pure (some r)) s)
  unfolding answered answer
  answered-Refused written t r s e f h w n = ((t, written, h, e, inl (r, refl, f)), w, n)
  answered-Refused (lost name) t r s e f h w n =
      let r' = record r { trace = record r.trace { persistence_error = name } } in
      ((t, lost name, h, e, inl (r', refl, f)), w, n)
  answered-Refused interrupted t r s e f h w n = ((t, interrupted, h, e, inr (refl, refl)), w, n)

  Refused-checked :
      (o : Option String)
      → o ≢ none
      → Refused
          (checked setting o (fresh setting reset_constraints kwargs world constraints persisted))
  unfolding checked conclude fresh ◌>>=◌
  Refused-checked none n = absurd (n refl)
  Refused-checked (some e) n =
      let s = fresh setting reset_constraints kwargs world constraints persisted in
      let t = trace_with setting s failed (some e) in
      answered-Refused (setting.write (length persisted) t) t _ _ refl refl refl refl refl

  -- If some node of the plan is not registered, repeats an id above it, or depends on an id that
  -- does not stand above it, then the run fails before any node acts: one failed trace is handed to
  -- a write, and the run returns a failed result, unless it is cancelled during that write.
  pub run_refuses :
      (before : List NodeDef) (d : NodeDef) (after : List NodeDef)
      → setting.plan.node_order ≡ before ++ d ∷ after
      → ¬ IsPlaced setting.registry (ids before) d
      → Refused (run setting reset_constraints kwargs world constraints persisted)
  unfolding run
  run_refuses before d after split bad =
      Refused-checked (check_plan setting.registry setting.plan)
        (λ e. bad (check_plan-IsPlaced setting.registry setting.plan before d after split e))
