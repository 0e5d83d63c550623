-- ===== src/Subagent/Manager/Life.antt =====
-- app/subagent: what an activation and a deactivation leave of the instances.
use data_engineer.Prelude.{
  String, true, false, ◌⊎◌, inl, inr, Option, none, some, [], ◌∷◌, ◌≡◌, ◌≢◌, refl, arith, ap,
  if-branch, eq_iff,
}
use data_engineer.Prelude.Dict
use data_engineer.Prelude.Dict.{Dict, keys, get-put, get-put_self, Distinct}
use data_engineer.Prelude.Exec.{
  Exec, Result, ok, raised, failure, infrastructure, cancelled, Gives, Gives-bind, Gives-modify,
  Holds, pure, answer,
}
use data_engineer.Subagent.Instance.{
  SubagentConfig, SubagentInstance, Status, created, initializing, active, inactive, error,
  is_active, registers, import_agents, State, Platform, set_status, agents_for, scoped_context,
  outside, fail_status, build, initialize, on_instance,
}
use data_engineer.Subagent.Manager.{
  SubagentManager, activate, activate_found, deactivate_all, deactivate_each, deactivate_active,
  active_names, list_active,
}

-- The instance serves its own configuration with its own agents and context.
abbrev pub IsReady : SubagentConfig → SubagentInstance → Type 0
IsReady c i =
    (i.config ≡ c)
    × (i.status ≡ active)
    × (i.orchestrator ≡ some (agents_for c.capabilities))
    × (i.context ≡ scoped_context c)

-- An initialisation ends with an instance that is ready, or raises and leaves the status error.
abbrev pub Initialized : SubagentConfig → Result (Unit {0}) → SubagentInstance → Type 0
Initialized c (ok done) i = IsReady c i
Initialized c (raised cancelled) i = Unit
Initialized c (raised infrastructure) i = i.status ≡ error
Initialized c (raised (failure m)) i = i.status ≡ error

-- The instance that a manager holds after an activation.
abbrev pub Activated :
    {W : Type 0} → String → SubagentConfig → Result (Unit {0}) × SubagentManager W → Type 0
Activated name c out =
    (i : SubagentInstance) × (Dict.get name out.1.instances ≡ some i) × Initialized c out.0 i

module _ {W : Type 0} (platform : Platform W) where
  outside-Holds :
      {A : Type 0} (P : SubagentInstance → Type 0) (r : Result A) (w : W) (s : State W)
      → P s.instance_
      → Holds {S = State W} (λ a s. P s.instance_) (r, record s { world = w })
  outside-Holds P (ok a) w s h = h
  outside-Holds P (raised e) w s h = tt

  Gives-outside :
      {A : Type 0} (P : SubagentInstance → Type 0) (m : Exec W A)
      → Gives (λ s. P s.instance_) (outside m) (λ a s. P s.instance_)
  unfolding outside
  Gives-outside P m = record { at = λ s h. let (r, w) = m s.world in outside-Holds P r w s h }

  Gives-pure :
      (P : SubagentInstance → Type 0)
      → Gives (λ s. P s.instance_) (pure {S = State W} (tt {0})) (λ a s. P s.instance_)
  unfolding answer
  Gives-pure P = record { at = λ s h. h }

  Gives-import_agents :
      (P : SubagentInstance → Type 0)
      → Gives (λ s. P s.instance_) (import_agents platform) (λ a s. P s.instance_)
  unfolding import_agents
  Gives-import_agents P = record {
    at = λ s h.
        if-branch (λ (m : Exec (State W) (Unit {0})). Holds (λ a s. P s.instance_) (m s))
          (registers s.instance_.config.capabilities) _ _
          (λ t. (Gives-outside P platform.load_agents).at s h) (λ t. (Gives-pure P).at s h);
  }

  build-IsReady :
      (c : SubagentConfig)
      → Gives (λ s. s.instance_.config ≡ c) (build platform) (λ done s. IsReady c s.instance_)
  unfolding build
  build-IsReady c =
      Gives-bind _ _ (Gives-outside (λ i. i.config ≡ c) platform.load_orchestrator) (λ loaded.
        Gives-bind _ _ (Gives-modify _ (λ s h. h)) (λ made.
          Gives-bind _ _ (Gives-import_agents (λ i. i.config ≡ c)) (λ agents.
            Gives-modify _ (λ s h.
              (h, refl, ap (λ d. some (agents_for d.capabilities)) h, ap scoped_context h)))))

  fail_status-Initialized :
      (c : SubagentConfig) (r : Result (Unit {0})) (s : State W)
      → Holds (λ done s. IsReady c s.instance_) (r, s)
      → Initialized c (fail_status r s).0 (fail_status r s).1.instance_
  unfolding fail_status
  fail_status-Initialized c (ok done) s h = h
  fail_status-Initialized c (raised cancelled) s h = tt
  fail_status-Initialized c (raised infrastructure) s h = refl
  fail_status-Initialized c (raised (failure m)) s h = refl

  initialize-Initialized :
      (s : State W)
      → Initialized s.instance_.config (initialize platform s).0 (initialize platform s).1.instance_
  unfolding initialize
  initialize-Initialized s =
      let s' = on_instance (set_status Status.initializing) s in
      let (r, t) = build platform s' in
      fail_status-Initialized s.instance_.config r t ((build-IsReady s.instance_.config).at s' refl)

  activate_found-Activated :
      (name : String) (i : SubagentInstance) (m : SubagentManager W)
      → Activated name i.config (activate_found platform name (some i) m)
  unfolding activate_found
  activate_found-Activated name i m =
      let s : State W = record { instance_ = i; world = m.world } in
      let t = (initialize platform s).1 in
      (t.instance_, get-put_self name t.instance_ m.instances, initialize-Initialized s)

  activate_found-apart :
      (name j : String) (found : Option SubagentInstance) (m : SubagentManager W)
      → j ≢ name
      → Dict.get j (activate_found platform name found m).1.instances ≡ Dict.get j m.instances
  unfolding activate_found
  activate_found-apart name j none m other = refl
  activate_found-apart name j (some i) m other =
      let s : State W = record { instance_ = i; world = m.world } in
      ground (
        arith,
        other,
        eq_iff name j,
        get-put j name (initialize platform s).1.instance_ m.instances,
      )

  -- Activating a registered subagent makes it ready for its own configuration, or raises and leaves
  -- it in the status error, unless it was cancelled; no other instance changes.
  pub activate-Activated :
      (name : String) (i : SubagentInstance) (m : SubagentManager W)
      → Dict.get name m.instances ≡ some i
      → Activated name i.config (activate platform name m)
        × ((j : String)
            → j ≢ name
            → Dict.get j (activate platform name m).1.instances ≡ Dict.get j m.instances)
  unfolding activate
  activate-Activated name i m here = (
    rw here (activate_found-Activated name i m),
    λ j. activate_found-apart name j (Dict.get name m.instances) m,
  )

abbrev stopped : Option SubagentInstance → Option SubagentInstance
stopped none = none
stopped (some i) = some (deactivate_active i)

deactivate_each-active_names : (m : Dict SubagentInstance) → active_names (deactivate_each m) ≡ []
unfolding active_names deactivate_each deactivate_active
deactivate_each-active_names [] = refl
deactivate_each-active_names ((name, i) ∷ m) = ground (arith, deactivate_each-active_names m)

get-deactivate_each :
    (j : String) (m : Dict SubagentInstance)
    → Dict.get j (deactivate_each m) ≡ stopped (Dict.get j m)
unfolding deactivate_each Dict.get
get-deactivate_each j [] = refl
get-deactivate_each j ((name, i) ∷ m) = ground (arith, get-deactivate_each j m)

-- An instance that was active is inactive, and is otherwise as it was; any other is as it was.
abbrev pub Deactivated : Option SubagentInstance → Option SubagentInstance → Type 0
Deactivated none after = after ≡ none
Deactivated (some i) after =
    ((i.status ≡ active) × (after ≡ some (record i { status = inactive })))
    ⊎ ((i.status ≢ active) × (after ≡ some i))

active_cases :
    (s : Status) → ((s ≡ active) × (is_active s ≡ true)) ⊎ ((s ≢ active) × (is_active s ≡ false))
active_cases created = inr (λ e. absurd (cc), refl)
active_cases initializing = inr (λ e. absurd (cc), refl)
active_cases active = inl (refl, refl)
active_cases inactive = inr (λ e. absurd (cc), refl)
active_cases error = inr (λ e. absurd (cc), refl)

stopped-Deactivated : (o : Option SubagentInstance) → Deactivated o (stopped o)
unfolding deactivate_active
stopped-Deactivated none = refl
stopped-Deactivated (some i) = elim (active_cases i.status) [
  | inl (here, test) ↦ inl (here, rw test refl)
  | inr (other, test) ↦ inr (other, rw test refl)
]

-- No instance is active afterwards: each that was is inactive and keeps its configuration, its
-- orchestrator and its context, and the others are as they were.
pub deactivate_all-Deactivated :
    {W : Type 0} (m : SubagentManager W)
    → (list_active (deactivate_all m) ≡ [])
      × ((j : String)
          → Deactivated (Dict.get j m.instances) (Dict.get j (deactivate_all m).instances))
unfolding list_active deactivate_all
deactivate_all-Deactivated m = (
  deactivate_each-active_names m.instances,
  λ j. rw (get-deactivate_each j m.instances) (stopped-Deactivated (Dict.get j m.instances)),
)
