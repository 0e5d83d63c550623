-- ===== src/Harness/Runner/Order.antt =====
-- app/harness/runner.py: a run of a plan without a reflection visits the nodes in the plan's order.
use data_engineer.Prelude.{
  ℕ, zero, suc, ◌+◌, ◌≡◌, ◌⊎◌, inl, inr, refl, sym, ap, String, Bool, false, Option, none, some,
  List, [], ◌∷◌, ◌++◌, All, get_elem?, take, str_eq, arith, Bool-cases,
}
use mathlib.Core.Option.{some-injective}
use mathlib.Core.Path.{subst}
use data_engineer.Prelude.Dict.{Dict}
use data_engineer.Prelude.Value.{Value}
use data_engineer.Prelude.Exec.{
  answer, Exec, Result, ok, raised, failure, infrastructure, cancelled, pure, modify, ◌>>=◌, Holds,
  Gives, Gives-bind,
}
use data_engineer.Harness.Constraint.{ConstraintEnforcer}
use data_engineer.Harness.Runner.Attempt.{Verdict, exhausted, settled}
use data_engineer.Harness.Runner.Route.{Next, go, finish, next_step}
use data_engineer.Harness.Runner.Run.{
  Ending, finished, out_of_fuel, choose, visit_node, visit, follow, round, run_loop, conclude,
  give_up, conclude_loop, execute, checked, fresh, run,
}
use data_engineer.Harness.Runner.State.{Setting, RunState, or_text}
use data_engineer.Harness.Runner.Trail.{Tried, run_node-Tried}
use data_engineer.Models.Workflow.{
  NodeDef, NodeTrace, Evaluation, completed, failed, aborted, WorkflowTrace, Write, WorkflowResult,
}
use data_engineer.Nodes.Base.{BaseNode}

-- The trace lists the nodes in order, each by the attempts at it, of which there is at least one.
pub data Visits : List NodeDef → List NodeTrace → Type 0 where
  nothing : Visits [] []
  then_node :
      {ds ds' : List NodeDef} {ts ts' : List NodeTrace} (d : NodeDef) (t : NodeTrace)
      (more : List NodeTrace)
      → Visits ds ts
      → All (λ (a : NodeTrace). a.node_id ≡ d.id) (t ∷ more)
      → ds' ≡ ds ++ d ∷ []
      → ts' ≡ ts ++ t ∷ more
      → Visits ds' ts'

-- No node reflects, and none ends the run early.
abbrev pub IsStraight : NodeDef → Type 0
IsStraight d = (str_eq d.id "reflect" ≡ false) × (str_eq d.on_pass "output" ≡ false)

-- A straight node leads to the next one, or the run fails.
next_step-straight :
    (order : List NodeDef) (i : ℕ) (d : NodeDef) (v : Evaluation) (error : Option String)
    → IsStraight d
    → (next_step order i none d v error ≡ go (i + 1) none)
      ⊎ ((e : Option String) × (next_step order i none d v error ≡ finish failed e))
unfolding next_step
next_step-straight order i d v error st = elim (Bool-cases v.passed) [
  | inl good ↦ inl (ground arith)
  | inr bad ↦ elim (Bool-cases (str_eq d.on_failure "skip")) [
    | inl skip ↦ inl (ground arith)
    | inr abort ↦
        inr (some (or_text error (or_text (some v.notes) "Node evaluation failed")), ground arith)
  ]
]

All-get_elem? :
    (l : List NodeDef) (i : ℕ) (d : NodeDef)
    → All IsStraight l
    → get_elem? l i ≡ some d
    → IsStraight d
All-get_elem? [] i d a e = absurd (ground arith)
All-get_elem? (x ∷ xs) zero d a e = subst IsStraight (some-injective x d e) a.0
All-get_elem? (x ∷ xs) (suc i) d a e = All-get_elem? xs i d a.1 e

take-suc :
    (order : List NodeDef) (i : ℕ) (d : NodeDef)
    → get_elem? order i ≡ some d
    → take (i + 1) order ≡ take i order ++ d ∷ []
take-suc [] i d e = ground arith
take-suc (x ∷ xs) zero d e = ground arith
take-suc (x ∷ xs) (suc i) d e = ground (arith, take-suc xs i d)

take_all : (order : List NodeDef) (i : ℕ) → get_elem? order i ≡ none → take i order ≡ order
take_all [] zero e = refl
take_all [] (suc i) e = refl
take_all (x ∷ xs) zero e = ground arith
take_all (x ∷ xs) (suc i) e = ap (◌∷◌ x) (take_all xs i e)

module _ {W : Type 0} (setting : Setting W) where
  abbrev order : List NodeDef
  order = setting.plan.node_order

  -- The trace holds the nodes before the index.
  abbrev Upto : ℕ → RunState W → Type 0
  Upto i s = Visits (take i order) s.nodes

  -- After a round at the index `i`.
  abbrev After : ℕ → Next → RunState W → Type 0
  After i (go j none) s = (j ≡ i + 1) × Upto (i + 1) s
  After i (go j (some r)) s = ⊥
  After i (finish completed e) s = ⊥
  After i (finish failed e) s = Unit
  After i (finish aborted e) s = Unit

  -- A loop that completes has visited the whole plan.
  abbrev Complete : Ending → RunState W → Type 0
  Complete (finished completed e) s = Visits order s.nodes
  Complete (finished failed e) s = Unit
  Complete (finished aborted e) s = Unit
  Complete out_of_fuel s = Unit

  module _ (all_straight : All IsStraight order) where
    straight : (d : NodeDef) (i : ℕ) → get_elem? order i ≡ some d → IsStraight d
    straight d i at = All-get_elem? order i d all_straight at

    choose-After :
        (i : ℕ) (d : NodeDef) (node : BaseNode W) (base : List NodeTrace) (v : Verdict)
        → get_elem? order i ≡ some d
        → Visits (take i order) base
        → Gives (Tried setting d node base v) (pure (choose setting i none d v)) (After i)
    unfolding choose answer
    choose-After i d node base exhausted at before = record { at = λ s h. tt }
    choose-After i d node base (settled v error) at before = record {
      at = λ s h. elim (next_step-straight order i d v error (straight d i at)) [
        | inl on ↦
            rw on (refl, then_node d h.first h.more before h.own (take-suc order i d at) h.nodes)
        | inr (e, stop) ↦ rw stop tt
      ];
    }

    visit_node-After :
        (o : Option (BaseNode W)) (i : ℕ) (d : NodeDef) (s : RunState W)
        → get_elem? order i ≡ some d
        → Upto i s
        → Holds (After i) (visit_node setting o i none d s)
    unfolding visit_node answer
    visit_node-After none i d s at before = tt
    visit_node-After (some node) i d s at before =
        (Gives-bind _ _ (run_node-Tried setting d node s.nodes)
            (λ v. choose-After i d node s.nodes v at before)).at
          s refl

    follow-Complete :
        (loop : ℕ → Option ℕ → Exec (RunState W) Ending) (i : ℕ) (n : Next)
        → ((j : ℕ) → Gives (Upto j) (loop j none) Complete)
        → Gives (After i n) (follow setting loop n) Complete
    unfolding answer
    follow-Complete loop i (go j none) k = record {
      at = λ s h. (k j).at s (subst (λ m. Upto m s) (sym h.0) h.1);
    }
    follow-Complete loop i (go j (some r)) k = record { at = λ s h. absurd h }
    follow-Complete loop i (finish completed e) k = record { at = λ s h. absurd h }
    follow-Complete loop i (finish failed e) k = record { at = λ s h. tt }
    follow-Complete loop i (finish aborted e) k = record { at = λ s h. tt }

    round-Complete :
        (loop : ℕ → Option ℕ → Exec (RunState W) Ending) (i : ℕ) (o : Option NodeDef)
        → get_elem? order i ≡ o
        → ((j : ℕ) → Gives (Upto j) (loop j none) Complete)
        → Gives (Upto i) (round setting loop i none o) Complete
    unfolding round visit answer
    round-Complete loop i none at k = record {
      at = λ s h. subst (λ ds. Visits ds s.nodes) (take_all order i at) h;
    }
    round-Complete loop i (some d) at k =
        Gives-bind _ _ (record { at = λ s h. visit_node-After _ i d s at h })
          (λ n. follow-Complete loop i n k)

    run_loop-Complete : (fuel i : ℕ) → Gives (Upto i) (run_loop setting fuel i none) Complete
    unfolding run_loop answer
    run_loop-Complete zero i = record { at = λ s h. tt }
    run_loop-Complete (suc fuel) i =
        round-Complete (run_loop setting fuel) i _ refl (run_loop-Complete fuel)

    conclude_loop-Visits :
        (r : Result Ending) (s : RunState W) (w : WorkflowResult)
        → Holds Complete (r, s)
        → (conclude_loop setting r s).0 ≡ ok (some w)
        → w.status ≡ completed
        → Visits order w.trace.nodes
    unfolding conclude_loop give_up conclude modify answer ◌>>=◌
    conclude_loop-Visits (ok (finished completed e)) s w h eq done =
        let e : s.nodes ≡ w.trace.nodes = ground arith in subst (λ ns. Visits order ns) e h
    conclude_loop-Visits (ok (finished failed e)) s w h eq done = absurd (ground arith)
    conclude_loop-Visits (ok (finished aborted e)) s w h eq done = absurd (ground arith)
    conclude_loop-Visits (ok out_of_fuel) s w h eq done = absurd (ground arith)
    conclude_loop-Visits (raised infrastructure) s w h eq done = absurd (ground arith)
    conclude_loop-Visits (raised cancelled) s w h eq done = absurd (ground arith)
    conclude_loop-Visits (raised (failure m)) s w h eq done = absurd (ground arith)

    checked-Visits :
        (o : Option String) (s : RunState W) (w : WorkflowResult)
        → s.nodes ≡ []
        → (checked setting o s).0 ≡ ok (some w)
        → w.status ≡ completed
        → Visits order w.trace.nodes
    unfolding checked execute conclude answer ◌>>=◌
    checked-Visits (some e) s w empty eq done = absurd (ground arith)
    checked-Visits none s w empty eq done =
        let (r, s') = run_loop setting (suc setting.plan.max_iterations) 0 none s in
        conclude_loop-Visits r s' w
          ((run_loop-Complete (suc setting.plan.max_iterations) 0).at s
            (subst (λ ns. Visits [] ns) (sym empty) nothing))
          eq done

    -- In a plan with no node `reflect` and none that ends the run early, a run that completes has
    -- visited every node of the plan, in the plan's order, each by consecutive attempts: no node
    -- chooses where the run goes.
    pub run-Visits :
        (reset_constraints : Bool) (kwargs : Dict Value) (world : W)
        (constraints : ConstraintEnforcer) (persisted : List (WorkflowTrace × Write))
        (w : WorkflowResult)
        → (run setting reset_constraints kwargs world constraints persisted).0 ≡ ok (some w)
        → w.status ≡ completed
        → Visits order w.trace.nodes
    unfolding run fresh
    run-Visits reset_constraints kwargs world constraints persisted w eq done =
        checked-Visits _ _ w refl eq done
