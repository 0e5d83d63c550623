-- ===== src/Harness/Runner/Outcome/Ends.antt =====
-- app/harness/runner.py: `finish` and the `except` clauses, and the traces that they hand to a write.
use data_engineer.Prelude.{
  ℕ, ◌+◌, ◌≤◌, ◌≡◌, ◌≢◌, refl, sym, ap, ◌∙◌, ◌⊎◌, inl, inr, String, Option, none, some, List, [],
  ◌∷◌, ◌++◌, arith, length, length-append,
}
use data_engineer.Prelude.Exec.{
  answer, raise, pure, proceed, Exn, Result, ok, raised, failure, infrastructure, cancelled, modify,
  ◌>>=◌,
}
use data_engineer.Harness.Runner.Run.{
  trace_with, answered, conclude, rescue, rescue_finish, add_pending, abandon, give_up,
}
use data_engineer.Harness.Runner.State.{Setting, RunState, or_text}
use data_engineer.Models.Workflow.{
  NodeTrace, WorkflowTrace, WorkflowResult, Status, aborted, Write, written, lost, interrupted,
}
use data_engineer.Harness.Runner.Outcome.Counts.{pend}

module _ {W : Type 0} (setting : Setting W) (persisted : List (WorkflowTrace × Write)) where
  abbrev limit : ℕ
  limit = setting.plan.max_iterations

  -- One trace was handed to a write, with its status, its error and the attempts of the run.
  abbrev pub Handed : Status → String → Write → RunState W → Type 0
  Handed status error p s =
      (t : WorkflowTrace) × (s.persisted ≡ persisted ++ (t, p) ∷ [])
      × (t.status ≡ status)
      × (t.error ≡ error)
      × (t.nodes ≡ s.nodes)

  -- A first write was interrupted, and a second trace says that the request was cancelled.
  abbrev pub HandedTwice : RunState W → Type 0
  HandedTwice s =
      (t : WorkflowTrace) × (t' : WorkflowTrace) × (p : Write) × (s.persisted
        ≡ (persisted ++ (t, interrupted) ∷ []) ++ (t', p) ∷ [])
      × (t'.status ≡ aborted)
      × (t'.error ≡ "Request cancelled")
      × (t'.nodes ≡ s.nodes)

  -- The trace of a result is the one that was written, or a lost one with the kind of the error.
  abbrev pub TraceOf : WorkflowTrace → Write → WorkflowTrace → Type 0
  TraceOf t written t' = t' ≡ t
  TraceOf t (lost name) t' = t' ≡ record t { persistence_error = name }
  TraceOf t interrupted t' = ⊥

  -- What the caller gets, and what was handed to a write.
  abbrev pub Recorded : Result (Option WorkflowResult) → RunState W → Type 0
  Recorded (ok none) s = ⊥
  Recorded (ok (some r)) s =
      (t : WorkflowTrace) × (p : Write) × (s.persisted ≡ persisted ++ (t, p) ∷ [])
      × (t.status ≡ r.status)
      × (t.error ≡ or_text r.error "")
      × (t.nodes ≡ s.nodes)
      × (r.context ≡ s.context)
      × TraceOf t p r.trace
  Recorded (raised (failure message)) s = s.persisted ≡ persisted
  Recorded (raised infrastructure) s =
      (p : Write) × (p ≢ interrupted) × Handed aborted "Query infrastructure unavailable" p s
  Recorded (raised cancelled) s =
      ((p : Write) × Handed aborted "Request cancelled" p s)
      ⊎ ((status : Status) × (error : String) × Handed status error interrupted s)
      ⊎ HandedTwice s

  add_pending-bounded :
      (o : Option NodeTrace) (reason : String) (s : RunState W)
      → length s.nodes + pend o ≤ limit
      → (length (add_pending setting o reason s).nodes ≤ limit)
        × ((add_pending setting o reason s).persisted ≡ s.persisted)
  unfolding add_pending
  add_pending-bounded none reason s f = (omega arith, refl)
  add_pending-bounded (some t) reason s f = (omega (arith, length-append {0}), refl)

  abandon-bounded :
      (reason : String) (s : RunState W)
      → length s.nodes + pend s.pending ≤ limit
      → (length (abandon setting reason s).nodes ≤ limit)
        × ((abandon setting reason s).persisted ≡ s.persisted)
  unfolding abandon
  abandon-bounded reason s f = add_pending-bounded s.pending reason s f

  -- What is claimed of a run: it ended, its trace was recorded, its attempts are within the limit.
  abbrev pub Sound : Result (Option WorkflowResult) × RunState W → Type 0
  Sound (r, s) = Recorded r s × (length s.nodes ≤ limit)

  -- The end of an `except` clause: the exception goes on, unless the write is interrupted.
  raise-Sound :
      (e : Exn) (p : Write) (r : WorkflowResult) (s : RunState W)
      → length s.nodes ≤ limit
      → (p ≢ interrupted → Recorded (raised e) s)
      → (p ≡ interrupted → Recorded (raised cancelled) s)
      → Sound (proceed (answered p r) (λ x. raise {A = Option WorkflowResult} e) s)
  unfolding answered answer
  raise-Sound e written r s le k c = (k (λ q. absurd (cc)), le)
  raise-Sound e (lost name) r s le k c = (k (λ q. absurd (cc)), le)
  raise-Sound e interrupted r s le k c = (c refl, le)

  pub rescue-Sound :
      (e : Exn) (s : RunState W)
      → length s.nodes + pend s.pending ≤ limit
      → s.persisted ≡ persisted
      → Sound (rescue setting e s)
  unfolding rescue give_up conclude modify answer ◌>>=◌
  rescue-Sound (failure message) s f u = (u, omega arith)
  rescue-Sound infrastructure s f u =
      let reason : String = "Query infrastructure unavailable" in
      let (le, v) = abandon-bounded reason s f in
      let t = trace_with setting (abandon setting reason s) aborted (some reason) in
      let handed : (p : Write)
          → (abandon setting reason s).persisted ++ (t, p) ∷ [] ≡ persisted ++ (t, p) ∷ [] =
        λ p. ap (λ (l : List (WorkflowTrace × Write)). l ++ (t, p) ∷ []) (v ∙ u) in
      raise-Sound infrastructure _ _ _ le (λ n. (_, n, (t, handed _, refl, refl, refl)))
        (λ q. inr (inl (aborted, reason, (t, rw (sym q) (handed _), refl, refl, refl))))
  rescue-Sound cancelled s f u =
      let reason : String = "Request cancelled" in
      let (le, v) = abandon-bounded reason s f in
      let t = trace_with setting (abandon setting reason s) aborted (some reason) in
      let handed : (p : Write)
          → (abandon setting reason s).persisted ++ (t, p) ∷ [] ≡ persisted ++ (t, p) ∷ [] =
        λ p. ap (λ (l : List (WorkflowTrace × Write)). l ++ (t, p) ∷ []) (v ∙ u) in
      raise-Sound cancelled _ _ _ le (λ n. inl (_, (t, handed _, refl, refl, refl)))
        (λ q. inl (_, (t, handed _, refl, refl, refl)))

  -- A request that is cancelled during the write of its trace hands over a second one.
  rescue-HandedTwice :
      (t : WorkflowTrace) (s : RunState W)
      → length s.nodes + pend s.pending ≤ limit
      → s.persisted ≡ persisted ++ (t, interrupted) ∷ []
      → Sound (rescue setting cancelled s)
  unfolding rescue give_up conclude modify answer ◌>>=◌
  rescue-HandedTwice t s f u =
      let reason : String = "Request cancelled" in
      let (le, v) = abandon-bounded reason s f in
      let t' = trace_with setting (abandon setting reason s) aborted (some reason) in
      let handed =
        λ (p : Write). ap (λ (l : List (WorkflowTrace × Write)). l ++ (t', p) ∷ []) (v ∙ u) in
      raise-Sound cancelled _ _ _ le (λ n. inr (inr (t, t', _, handed _, refl, refl, refl)))
        (λ q. inr (inr (t, t', _, handed _, refl, refl, refl)))

  -- What a `finish` hands over, in the state after it.
  abbrev pub Finishing : WorkflowTrace → Write → WorkflowResult → RunState W → Type 0
  Finishing t p r s =
      (s.persisted ≡ persisted ++ (t, p) ∷ [])
      × (t.status ≡ r.status)
      × (t.error ≡ or_text r.error "")
      × (t.nodes ≡ s.nodes)
      × (r.context ≡ s.context)
      × (r.trace ≡ t)

  returned-Recorded :
      (t : WorkflowTrace) (r : WorkflowResult) (s : RunState W)
      → Finishing t written r s
      → Recorded (ok (some r)) s
  returned-Recorded t r s (h, a, b, c, d, e) = (t, written, h, a, b, c, d, e)

  lost-Recorded :
      (name : String) (t : WorkflowTrace) (r : WorkflowResult) (s : RunState W)
      → Finishing t (lost name) r s
      → Recorded (ok (some (record r { trace = record r.trace { persistence_error = name } }))) s
  lost-Recorded name t r s (h, a, b, c, d, e) = (
    t,
    lost name,
    h,
    a,
    b,
    c,
    d,
    ap (λ (u : WorkflowTrace). record u { persistence_error = name }) e,
  )

  pub rescue_finish-Sound :
      (t : WorkflowTrace) (p : Write) (r : WorkflowResult) (s : RunState W)
      → length s.nodes + pend s.pending ≤ limit
      → Finishing t p r s
      → Sound (rescue_finish setting (answered p r) s)
  unfolding rescue_finish answered answer
  rescue_finish-Sound t written r s f h = (returned-Recorded t r s h, omega arith)
  rescue_finish-Sound t (lost name) r s f h = (lost-Recorded name t r s h, omega arith)
  rescue_finish-Sound t interrupted r s f h = rescue-HandedTwice t s f h.0

  -- The same before the loop, where nothing catches.
  pub refuse-Sound :
      (t : WorkflowTrace) (p : Write) (r : WorkflowResult) (s : RunState W)
      → length s.nodes ≤ limit
      → Finishing t p r s
      → Sound (proceed (answered p r) (λ r. pure (some r)) s)
  unfolding answered answer
  refuse-Sound t written r s le h = (returned-Recorded t r s h, le)
  refuse-Sound t (lost name) r s le h = (lost-Recorded name t r s h, le)
  refuse-Sound t interrupted r s le (h, a, b, c, d, e) =
      (inr (inl (t.status, t.error, (t, h, refl, refl, c))), le)
