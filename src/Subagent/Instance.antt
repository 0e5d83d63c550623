-- ===== src/Subagent/Instance.antt =====
-- app/subagent/instance.py and what it reads of app/models/subagent.py. Latencies are left out; the
-- modules that an instance imports and the run of its orchestrator act on a world `W`.
use Prim.Native.String.{◌++◌ as concat}
use data_engineer.Prelude.{
  String, Bool, true, false, ◌||◌, Option, none, some, List, [], ◌∷◌, if◌then◌else◌,
}
use data_engineer.Prelude.Dict
use data_engineer.Prelude.Dict.{Dict, mem, merge}
use data_engineer.Prelude.Value.{Value, str, dict, field, end, list, Items, real, nil}
use data_engineer.Prelude.Exec.{
  Exec, Result, ok, raised, failure, infrastructure, cancelled, modify, pure, ◌>>◌,
}

pub data Status : Type 0 where
  created initializing active inactive error : Status

abbrev pub status_text : Status → String
status_text created = "created"
status_text initializing = "initializing"
status_text active = "active"
status_text inactive = "inactive"
status_text error = "error"

pub record LlmConfig : Type 0 where
  pub model : String
  pub temperature : Value

-- The parts of a configuration that the instance reads: `none` of the databases is a context, and
-- `none` of the model a setting, that is None.
pub record SubagentConfig : Type 0 where
  pub name : String
  pub domain : String
  pub databases : Option Items
  pub capabilities : List String
  pub llm_config : Option LlmConfig

pub data Agent : Type 0 where
  nl_understanding schema_retrieval sql_generation validation tool_execution feedback : Agent

pub record SubagentResult : Type 0 where
  pub subagent_name : String
  pub status : String
  pub data_ : Option Value
  pub errors : List Value
  pub trace_id : String

-- What `OrchestratorAgent.run` returns, as far as it is read.
pub record RunResult : Type 0 where
  pub status : String
  pub final_output : Value
  pub conflict_resolutions : List (Dict Value)
  pub trace_id : String

pub record SubagentInstance : Type 0 where
  pub config : SubagentConfig
  pub status : Status
  -- The agents of the orchestrator's registry, if there is an orchestrator.
  pub orchestrator : Option (List Agent)
  pub context : Dict Value

pub record State (W : Type 0) : Type 0 where
  pub instance_ : SubagentInstance
  pub world : W

-- The imports of an initialisation, and a run of the orchestrator with its agents.
pub record Platform (W : Type 0) : Type 0 where
  pub load_orchestrator : Exec W (Unit {0})
  pub load_agents : Exec W (Unit {0})
  pub run : List Agent → String → Dict Value → Exec W RunResult

abbrev pub create : SubagentConfig → SubagentInstance
create config = record { config = config; status = created; orchestrator = none; context = [] }

abbrev pub is_active : Status → Bool
is_active active = true
is_active _ = false

abbrev pub no_capabilities : List String → Bool
no_capabilities [] = true
no_capabilities (c ∷ cs) = false

abbrev pub registers : List String → Bool
registers capabilities = mem "nl_query" capabilities || no_capabilities capabilities

-- `_register_agents`
unfoldable pub agents_for : List String → List Agent
agents_for capabilities =
    if registers capabilities
    then nl_understanding ∷ schema_retrieval ∷ sql_generation ∷ validation ∷ tool_execution
      ∷ feedback ∷ []
    else []

abbrev model_of : Option LlmConfig → String
model_of none = "claude-sonnet-4"
model_of (some c) = c.model

abbrev temperature_of : Option LlmConfig → Value
temperature_of none = real "0.3"
temperature_of (some c) = c.temperature

abbrev databases_of : Option Items → Items
databases_of none = nil
databases_of (some databases) = databases

unfoldable pub scoped_context : SubagentConfig → Dict Value
scoped_context config =
    ("domain", str config.domain)
    ∷ ("databases", list (databases_of config.databases))
    ∷ (
      "llm_config",
      dict (
          field "model" (str (model_of config.llm_config))
            (field "temperature" (temperature_of config.llm_config) end)),
    )
    ∷ []

-- The values of `"errors"` in the entries that have one.
unfoldable pub errors_of : List (Dict Value) → List Value
errors_of [] = []
errors_of (e ∷ es) = elim (Dict.get "errors" e) [ none ↦ errors_of es | some v ↦ v ∷ errors_of es ]

abbrev pub set_status : Status → SubagentInstance → SubagentInstance
set_status status i = record i { status = status }

module _ {W : Type 0} where
  abbrev pub on_instance : (SubagentInstance → SubagentInstance) → State W → State W
  on_instance f s = record s { instance_ = f s.instance_ }

  unfoldable pub outside : {A : Type 0} → Exec W A → Exec (State W) A
  outside m s = let (r, w) = m s.world in (r, record s { world = w })

  -- `except Exception`: the status, and the exception goes on.
  unfoldable pub fail_status : Result (Unit {0}) → State W → Result (Unit {0}) × State W
  fail_status (ok done) s = (ok done, s)
  fail_status (raised cancelled) s = (raised cancelled, s)
  fail_status (raised infrastructure) s = (raised infrastructure, on_instance (set_status error) s)
  fail_status (raised (failure m)) s = (raised (failure m), on_instance (set_status error) s)

  unfoldable pub deactivate : State W → State W
  deactivate s = on_instance (set_status inactive) s

module _ {W : Type 0} (platform : Platform W) where
  -- The agents' modules are imported only where the agents are registered.
  unfoldable pub import_agents : Exec (State W) (Unit {0})
  unfolding outside
  import_agents s =
      (if registers s.instance_.config.capabilities then outside platform.load_agents else pure tt)
        s

  -- The body of the `try`.
  unfoldable pub build : Exec (State W) (Unit {0})
  unfolding outside import_agents agents_for scoped_context
  build = do
    outside platform.load_orchestrator
    modify (on_instance (λ i. record i { orchestrator = some [] }))
    import_agents
    modify (
        on_instance (λ i. record i {
          orchestrator = some (agents_for i.config.capabilities);
          context = scoped_context i.config;
          status = active;
        }))

  unfoldable pub initialize : Exec (State W) (Unit {0})
  unfolding build fail_status
  initialize s = let (r, s') = build (on_instance (set_status initializing) s) in fail_status r s'

  abbrev pub rejected : SubagentInstance → SubagentResult
  rejected i = record {
    subagent_name = i.config.name;
    status = "rejected";
    data_ = none;
    errors =
        str (
          concat "Subagent '" (
            concat i.config.name
              (concat "' is not active (status: " (concat (status_text i.status) ")"))))
        ∷ [];
    trace_id = "";
  }

  abbrev pub failed : SubagentInstance → String → SubagentResult
  failed i message = record {
    subagent_name = i.config.name;
    status = "failed";
    data_ = none;
    errors = str message ∷ [];
    trace_id = "";
  }

  -- The end of `query`: an `Exception` of the orchestrator is a failed result. `infrastructure_text`
  -- is the text of an infrastructure error.
  unfoldable pub report : String → SubagentInstance → Result RunResult → Result SubagentResult
  unfolding errors_of
  report infrastructure_text i (ok r) = ok (record {
    subagent_name = i.config.name;
    status = r.status;
    data_ = some r.final_output;
    errors = errors_of r.conflict_resolutions;
    trace_id = r.trace_id;
  })
  report infrastructure_text i (raised (failure message)) = ok (failed i message)
  report infrastructure_text i (raised infrastructure) = ok (failed i infrastructure_text)
  report infrastructure_text i (raised cancelled) = raised cancelled

  unfoldable pub query_with :
      String → Option (List Agent) → String → Dict Value → Exec (State W) SubagentResult
  unfolding report outside merge
  query_with infrastructure_text none nl_text context s =
      (ok (failed s.instance_ "Orchestrator not initialized"), s)
  query_with infrastructure_text (some agents) nl_text context s =
      let (r, s') = outside (platform.run agents nl_text (merge s.instance_.context context)) s in
      (report infrastructure_text s.instance_ r, s')

  unfoldable pub query : String → String → Dict Value → Exec (State W) SubagentResult
  unfolding query_with
  query infrastructure_text nl_text context s =
      let answered = query_with infrastructure_text s.instance_.orchestrator nl_text context s in
      if is_active s.instance_.status then answered else (ok (rejected s.instance_), s)
