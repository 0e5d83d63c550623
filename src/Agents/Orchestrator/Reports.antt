-- ===== src/Agents/Orchestrator/Reports.antt =====
-- app/agents/orchestrator.py: how the report of a run comes out, whatever the mode did.
use data_engineer.Prelude.{
  String, true, false, Option, List, [], ◌∷◌, ◌≡◌, ◌≢◌, ◌⊎◌, inl, inr, refl, sym, All,
}
use mathlib.Core.Path.{subst}
use data_engineer.Prelude.Dict.{Dict}
use data_engineer.Prelude.Value.{Value, str}
use data_engineer.Prelude.Exec.{Exn, failure, infrastructure, cancelled, Result, ok, raised}
use data_engineer.Prelude.World.{With}
use data_engineer.Agents.Base.{AgentResult, AgentStatus, idle, busy, done, error, is_done}
use data_engineer.Agents.Orchestrator.{
  OrchestratorResult, OrchestratorAgent, Services, all_done, failed_run, finished_run, close_run,
  run,
}
use data_engineer.Agents.Orchestrator.Complexity.{TaskBreakdown}
use data_engineer.Agents.Orchestrator.Synthesis.{Conflict, is_conflict, collect_conflicts}

abbrev pub IsDone : AgentResult → Type 0
IsDone r = r.status ≡ done

abbrev pub SomeOpen : List AgentResult → Type 0
SomeOpen [] = ⊥
SomeOpen (r ∷ rs) = (r.status ≢ done) ⊎ SomeOpen rs

status_cases :
    (st : AgentStatus) → ((st ≡ done) × (is_done st ≡ true)) ⊎ ((st ≢ done) × (is_done st ≡ false))
status_cases idle = inr (λ e. absurd (cc), refl)
status_cases busy = inr (λ e. absurd (cc), refl)
status_cases done = inl (refl, refl)
status_cases error = inr (λ e. absurd (cc), refl)

all_done-cases :
    (rs : List AgentResult)
    → ((all_done rs ≡ true) × All IsDone rs) ⊎ ((all_done rs ≡ false) × SomeOpen rs)
unfolding all_done
all_done-cases [] = inl (refl, tt)
all_done-cases (r ∷ rs) = elim (status_cases r.status) [
  | inr (pending, e) ↦ inr (rw e refl, inl pending)
  | inl (d, e) ↦ elim (all_done-cases rs) [
    | inl (f, all) ↦ inl (rw (e, f) refl, (d, all))
    | inr (f, some_open) ↦ inr (rw (e, f) refl, inr some_open)
  ]
]

collect_conflicts-done : (rs : List AgentResult) → All IsDone rs → collect_conflicts rs ≡ []
unfolding collect_conflicts
collect_conflicts-done [] h = refl
collect_conflicts-done (r ∷ rs) h = rw (h.0) (collect_conflicts-done rs h.1)

abbrev In : Conflict → List Conflict → Type 0
In c [] = ⊥
In c (d ∷ ds) = (c ≡ d) ⊎ In c ds

abbrev entry : AgentResult → Conflict
entry r = record { agent = r.agent_name; errors = r.errors }

-- Every result in error that has errors has its entry, and each entry is that of such a result.
abbrev HasEntry : List Conflict → AgentResult → Type 0
HasEntry conflicts r = r.status ≡ error → r.errors ≢ [] → In (entry r) conflicts

abbrev SomeEntry : List AgentResult → Conflict → Type 0
SomeEntry [] c = ⊥
SomeEntry (r ∷ rs) c = ((r.status ≡ error) × (r.errors ≢ []) × (c ≡ entry r)) ⊎ SomeEntry rs c

abbrev pub Logged : List AgentResult → List Conflict → Type 0
Logged rs conflicts = All (HasEntry conflicts) rs × All (SomeEntry rs) conflicts

conflict-cases :
    (st : AgentStatus) (errors : List String)
    → ((is_conflict st errors ≡ true) × (st ≡ error) × (errors ≢ []))
      ⊎ ((is_conflict st errors ≡ false) × (st ≡ error → errors ≢ [] → ⊥))
conflict-cases idle errors = inr (refl, λ e. absurd (cc))
conflict-cases busy errors = inr (refl, λ e. absurd (cc))
conflict-cases done errors = inr (refl, λ e. absurd (cc))
conflict-cases error [] = inr (refl, λ e h. h refl)
conflict-cases error (x ∷ errors) = inl (refl, refl, λ e. absurd (cc))

cons-HasEntry :
    (c : Conflict) (conflicts : List Conflict) (rs : List AgentResult)
    → All (HasEntry conflicts) rs
    → All (HasEntry (c ∷ conflicts)) rs
cons-HasEntry c conflicts [] h = tt
cons-HasEntry c conflicts (r ∷ rs) h = (λ e n. inr (h.0 e n), cons-HasEntry c conflicts rs h.1)

cons-SomeEntry :
    (r : AgentResult) (rs : List AgentResult) (conflicts : List Conflict)
    → All (SomeEntry rs) conflicts
    → All (SomeEntry (r ∷ rs)) conflicts
cons-SomeEntry r rs [] h = tt
cons-SomeEntry r rs (c ∷ conflicts) h = (inr h.0, cons-SomeEntry r rs conflicts h.1)

collect_conflicts-entry :
    (r : AgentResult) (rs : List AgentResult)
    → is_conflict r.status r.errors ≡ true
    → collect_conflicts (r ∷ rs) ≡ entry r ∷ collect_conflicts rs
unfolding collect_conflicts
collect_conflicts-entry r rs c = rw c refl

collect_conflicts-skip :
    (r : AgentResult) (rs : List AgentResult)
    → is_conflict r.status r.errors ≡ false
    → collect_conflicts (r ∷ rs) ≡ collect_conflicts rs
unfolding collect_conflicts
collect_conflicts-skip r rs c = rw c refl

collect_conflicts-Logged : (rs : List AgentResult) → Logged rs (collect_conflicts rs)
unfolding collect_conflicts
collect_conflicts-Logged [] = (tt, tt)
collect_conflicts-Logged (r ∷ rs) =
    let (has, some_entry) = collect_conflicts-Logged rs in
    let later = cons-SomeEntry r rs (collect_conflicts rs) some_entry in
    elim (conflict-cases r.status r.errors) [
      | inl (c, e, n) ↦ subst (Logged (r ∷ rs)) (sym (collect_conflicts-entry r rs c)) (
        (λ e' n'. inl refl, cons-HasEntry (entry r) (collect_conflicts rs) rs has),
        (inl (e, n, refl), later),
      )
      | inr (c, n) ↦
          subst (Logged (r ∷ rs)) (sym (collect_conflicts-skip r rs c))
            ((λ e' n'. absurd (n e' n'), has), later)
    ]

-- The report of a run: its mode raised, all its results are done, or some is not.
abbrev pub Reported : {W : Type 0} → Services W → OrchestratorResult → Type 0
Reported services o =
    ((o.status ≡ "failed")
      × (o.agent_results ≡ [])
      × (o.conflict_resolutions ≡ [])
      × ((e : Exn) × (o.final_output ≡ ("error", str (services.message e)) ∷ [])))
    ⊎ ((o.status ≡ "completed") × All IsDone o.agent_results × (o.conflict_resolutions ≡ []))
    ⊎ ((o.status ≡ "partial")
        × SomeOpen o.agent_results
        × Logged o.agent_results o.conflict_resolutions)

abbrev pub Closed : {W : Type 0} → Services W → Result OrchestratorResult → Type 0
Closed services (ok o) = Reported services o
Closed services (raised e) = e ≡ cancelled

module _ {W : Type 0} (services : Services W) (orchestrator : OrchestratorAgent W) where
  finished_run-Reported :
      (trace_id : String) (breakdown : TaskBreakdown) (mode : String)
      (agent_results : List AgentResult) (ctx : Dict Value) (elapsed : Value)
      → Reported services
          (finished_run services orchestrator trace_id breakdown mode agent_results ctx elapsed)
  unfolding finished_run
  finished_run-Reported trace_id breakdown mode rs ctx elapsed = elim (all_done-cases rs) [
    | inl (f, all) ↦ inr (inl (rw f refl, all, collect_conflicts-done rs all))
    | inr (f, some_open) ↦ inr (inr (rw f refl, some_open, collect_conflicts-Logged rs))
  ]

  close_run-Closed :
      (trace_id : String) (t0 : Value) (breakdown : TaskBreakdown) (mode : String)
      (r : Result (List AgentResult)) (s : With (Dict Value) W)
      → Closed services (close_run services orchestrator trace_id t0 breakdown mode r s).0
  unfolding close_run failed_run
  close_run-Closed trace_id t0 breakdown mode (ok rs) s =
      finished_run-Reported trace_id breakdown mode rs s.own
        (services.elapsed_ms t0 (services.perf_counter s.world).0)
  close_run-Closed trace_id t0 breakdown mode (raised cancelled) s = refl
  close_run-Closed trace_id t0 breakdown mode (raised (failure message)) s =
      inl (refl, refl, refl, (failure message, refl))
  close_run-Closed trace_id t0 breakdown mode (raised infrastructure) s =
      inl (refl, refl, refl, (infrastructure, refl))

  -- Whatever the agents do, `run` raises nothing but a cancellation. What it returns says "failed",
  -- with the text of an exception, no results and no conflicts; or "completed", and then every
  -- result is done and there are no conflicts; or "partial", and then some result is not done, and
  -- the conflicts are those of the results that are in error and have errors.
  pub run-Closed :
      (query_text : String) (context : Dict Value) (mode : Option String) (w : W)
      → Closed services (run services orchestrator query_text context mode w).0
  unfolding run
  run-Closed query_text context mode w = close_run-Closed _ _ _ _ _ _
