-- ===== src/Workflow/PlanSelector/Chosen.antt =====
-- app/workflow/plan_selector.py: the result of a selection.
use data_engineer.Prelude.{
  String, Option, none, some, List, [], ◌∷◌, ◌≡◌, ◌⊎◌, inl, inr, refl, true, ◌≢◌, arith, eq_iff,
}
use data_engineer.Prelude.Dict.{mem, otherwise}
use data_engineer.Prelude.Exec.{Exec, Exn, Result, ok, raised, failure, infrastructure, cancelled}
use data_engineer.Prelude.World.{Returned, attempted}
use data_engineer.Prelude.Returned.{
  Returns, Returns-any, Returns-bind, Returns-pure, OrCancelled, Settles, Settles-bind,
  Settles-pure, Settles-Returns, Given, attempted-OrCancelled,
}
use data_engineer.Prelude.Value.{Value}
use data_engineer.Workflow.PlanSelector.{
  SelectionResult, PlanSelector, fallback, select_by_rules, from_matches, from_store, ask,
  from_model, or_next, select,
}
use data_engineer.Workflow.PlanSelector.Prompt.{PlanLoader, tried, available_from}
use data_engineer.Workflow.PlanSelector.Rules.{default_plan, l1_rules}
use data_engineer.Workflow.PlanSelector.History.{HistoryMatch}
use data_engineer.Workflow.PlanSelector.Listed.{
  ResultListed, first_match-Listed, best_plan-Listed, answer_result-Listed, parse_plan_id-Listed,
}

-- The action raised an ordinary exception in some world.
abbrev pub Failed : {W A : Type 0} → Exec W A → Type 0
Failed {W = W} m = (w : W) × (e : Exn) × (e ≢ cancelled) × ((m w).0 ≡ raised e)

-- The loader listed the plan; or there is no loader or its listing failed, and it is the default
-- plan.
abbrev pub FromLoader : {W : Type 0} → Option (PlanLoader W) → String → Type 0
FromLoader none pid = pid ≡ default_plan
FromLoader (some loader) pid =
    ((available : List String) × Returned loader.list_available available
      × (mem pid available ≡ true))
    ⊎ (Failed loader.list_available × (pid ≡ default_plan))

-- The same of the plans that are looked up.
abbrev Plans : {W : Type 0} → Option (PlanLoader W) → List String → Type 0
Plans none available = available ≡ default_plan ∷ []
Plans (some loader) available =
    Returned loader.list_available available
    ⊎ (Failed loader.list_available × (available ≡ default_plan ∷ []))

mem_one : (pid one : String) (xs : List String) → xs ≡ one ∷ [] → mem pid xs ≡ true → pid ≡ one
mem_one pid one xs e m = ground (arith, e, m, eq_iff one pid)

Plans-FromLoader :
    {W : Type 0} (loader : Option (PlanLoader W)) (available : List String) (pid : String)
    → Plans loader available
    → mem pid available ≡ true
    → FromLoader loader pid
Plans-FromLoader none available pid e m = mem_one pid default_plan available e m
Plans-FromLoader (some loader) available pid (inl listed) m = inl (available, listed, m)
Plans-FromLoader (some loader) available pid (inr (failed, e)) m =
    inr (failed, mem_one pid default_plan available e m)

-- What `try … except Exception` makes of an action.
abbrev Tried : {W A : Type 0} → Exec W A → Option A → Type 0
Tried m none = Failed m
Tried m (some a) = Returned m a

attempted-Tried :
    {W A : Type 0} (m : Exec W A) (w : W) (r : Result A)
    → (m w).0 ≡ r
    → OrCancelled (Tried m) (attempted r)
attempted-Tried m w (ok a) e = (w, e)
attempted-Tried m w (raised (failure message)) e = (w, failure message, λ q. absurd (cc), e)
attempted-Tried m w (raised infrastructure) e = (w, infrastructure, λ q. absurd (cc), e)
attempted-Tried m w (raised cancelled) e = refl

tried-Tried : {W A : Type 0} (m : Exec W A) → Settles (Tried m) (tried m)
unfolding tried
tried-Tried m = record { at = λ w. attempted-Tried m w (m w).0 refl }

tried-Settles :
    {W A : Type 0} (Q : A → Type 0) (m : Exec W A) → Returns Q m → Settles (Given Q) (tried m)
unfolding tried
tried-Settles Q m h = record { at = λ w. attempted-OrCancelled Q (m w).0 (h.at w) }

Tried-Plans :
    {W : Type 0} (loader : PlanLoader W) (o : Option (List String))
    → Tried loader.list_available o
    → Plans (some loader) (otherwise o (default_plan ∷ []))
Tried-Plans loader none failed = inr (failed, refl)
Tried-Plans loader (some available) listed = inl listed

module _ {W : Type 0} (selector : PlanSelector W) where
  available_from-Plans :
      (loader : Option (PlanLoader W)) → Settles (Plans loader) (available_from loader)
  unfolding available_from
  available_from-Plans none = Settles-pure _ refl
  available_from-Plans (some loader) =
      Settles-bind _ _ (tried-Tried loader.list_available)
        (λ found h. Settles-pure _ (Tried-Plans loader found h))

  -- A result of one of the layers.
  abbrev pub FromPlans : SelectionResult → Type 0
  FromPlans r = FromLoader selector.plan_loader r.plan_id

  from-Listed :
      (available : List String) (o : Option SelectionResult)
      → Plans selector.plan_loader available
      → ResultListed available o
      → Given FromPlans o
  from-Listed available none e h = tt
  from-Listed available (some r) e h = Plans-FromLoader selector.plan_loader available r.plan_id e h

  select_by_rules-FromPlans :
      (query_text : String) → Settles (Given FromPlans) (select_by_rules selector query_text)
  unfolding select_by_rules
  select_by_rules-FromPlans query_text =
      Settles-bind _ _ (available_from-Plans selector.plan_loader) (λ available e.
        Settles-pure _
          (from-Listed available _ e (first_match-Listed selector available query_text l1_rules)))

  from_matches-FromPlans :
      (matches : List HistoryMatch) → Settles (Given FromPlans) (from_matches selector matches)
  unfolding from_matches
  from_matches-FromPlans [] = Settles-pure _ tt
  from_matches-FromPlans (m ∷ matches) =
      Settles-bind _ _ (available_from-Plans selector.plan_loader) (λ available e.
        Settles-pure _
          (from-Listed available _ e (best_plan-Listed selector available (m ∷ matches))))

  from_store-FromPlans :
      (store : Option (String → Option String → Exec W (List HistoryMatch))) (query_text : String)
      (domain : Option String)
      → Settles (Given FromPlans) (from_store selector store query_text domain)
  unfolding from_store
  from_store-FromPlans none query_text domain = Settles-pure _ tt
  from_store-FromPlans (some find_similar) query_text domain =
      Settles-bind _ _ (tried-Settles (λ a. Unit) (find_similar query_text domain) (Returns-any _))
        (λ found h. from_matches-FromPlans (otherwise found []))

  ask-FromPlans :
      (complete : String → Exec W Value) (query_text : String) (domain : Option String)
      → Returns (Given FromPlans) (ask selector complete query_text domain)
  unfolding ask
  ask-FromPlans complete query_text domain =
      Returns-bind _ _ (Settles-Returns _ (available_from-Plans selector.plan_loader))
        (λ available e. Returns-bind _ _ (Returns-any _) (λ prompt known.
          Returns-bind _ _ (Returns-any _) (λ response known'. Returns-pure _ (
            from-Listed available _ e (
              answer_result-Listed selector available _
                (parse_plan_id-Listed selector.to_lower _ available))))))

  flat-Given :
      (o : Option (Option SelectionResult))
      → Given (Given FromPlans) o
      → Given FromPlans (otherwise o none)
  flat-Given none h = tt
  flat-Given (some o) h = h

  from_model-FromPlans :
      (model : Option (String → Exec W Value)) (query_text : String) (domain : Option String)
      → Settles (Given FromPlans) (from_model selector model query_text domain)
  unfolding from_model
  from_model-FromPlans none query_text domain = Settles-pure _ tt
  from_model-FromPlans (some complete) query_text domain =
      Settles-bind _ _
        (tried-Settles (Given FromPlans) _ (ask-FromPlans complete query_text domain))
        (λ r h. Settles-pure _ (flat-Given r h))

  -- What a selection comes to.
  abbrev pub Chosen : SelectionResult → Type 0
  Chosen r = FromPlans r ⊎ ((r.plan_id ≡ default_plan) × (r.layer ≡ "default"))

  or_next-Chosen :
      (o : Option SelectionResult) (next : Exec W SelectionResult)
      → Given FromPlans o
      → Settles Chosen next
      → Settles Chosen (or_next o next)
  unfolding or_next
  or_next-Chosen none next h n = n
  or_next-Chosen (some r) next h n = Settles-pure _ (inl h)

  -- Whatever the loader, the history and the model do, a selection raises nothing but a
  -- cancellation. Its plan is one that the loader listed; or it is the default plan, and there is no
  -- loader, or its listing failed, or the result says that it is the default.
  pub select-Chosen :
      (query_text : String) (domain : Option String) (w : W)
      → OrCancelled Chosen (select selector query_text domain w).0
  unfolding select fallback
  select-Chosen query_text domain w =
      (Settles-bind _ _ (select_by_rules-FromPlans (selector.strip query_text)) (λ o h.
          or_next-Chosen o _ h (
            Settles-bind _ _
              (from_store-FromPlans selector.find_similar (selector.strip query_text) domain)
              (λ o' h'. or_next-Chosen o' _ h' (
                Settles-bind _ _
                  (from_model-FromPlans selector.complete (selector.strip query_text) domain)
                  (λ o'' h''. or_next-Chosen o'' _ h'' (Settles-pure _ (inr (refl, refl))))))))).at
        w
