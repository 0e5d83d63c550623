-- ===== src/Subagent/Manager.antt =====
-- app/subagent/manager.py: the registered instances and the statistics of their use.
pub mod Statistics
pub mod Life
use Prim.Native.String.{◌++◌ as concat}
use data_engineer.Prelude.{
  ℕ, ◌+◌, min, max, zero, suc, String, Bool, true, false, Option, none, some, List, [], ◌∷◌, ◌++◌,
  length, last_n, ltb, leb, ◌==◌, if◌then◌else◌,
}
use data_engineer.Prelude.Dict
use data_engineer.Prelude.Dict.{Dict, keys}
use data_engineer.Prelude.Exec.{Exec, Result, ok, raised, failure}
use data_engineer.Subagent.Instance.{
  SubagentConfig, SubagentInstance, State, Platform, create, is_active, set_status, inactive,
  deactivate as deactivate_instance, initialize,
}

-- The statistics of one subagent. Nothing writes the list of errors.
pub record Usage : Type 0 where
  pub total : ℕ
  pub success : ℕ
  pub latencies : List ℕ

pub record SubagentManager (W : Type 0) : Type 0 where
  pub instances : Dict SubagentInstance
  pub usage_stats : Dict Usage
  pub world : W

-- The KeyError's text, without the list of names.
abbrev pub not_registered : String → String
not_registered name = concat "Subagent '" (concat name "' not registered.")

-- `if inst.status == ACTIVE: await inst.deactivate()`
unfoldable pub deactivate_active : SubagentInstance → SubagentInstance
deactivate_active i = if is_active i.status then set_status inactive i else i

unfoldable pub deactivate_each : Dict SubagentInstance → Dict SubagentInstance
unfolding deactivate_active
deactivate_each [] = []
deactivate_each ((name, i) ∷ m) = (name, deactivate_active i) ∷ deactivate_each m

unfoldable pub active_names : Dict SubagentInstance → List String
active_names [] = []
active_names ((name, i) ∷ m) =
    let rest = active_names m in if is_active i.status then name ∷ rest else rest

module _ {W : Type 0} where
  unfoldable pub register : SubagentConfig → SubagentManager W → SubagentManager W
  register config m = record m { instances = Dict.put config.name (create config) m.instances }

  -- An instance that was active is deactivated later, by a task; the manager no longer knows it.
  unfoldable pub unregister : String → SubagentManager W → SubagentManager W
  unregister name m = record m { instances = Dict.remove name m.instances }

  unfoldable pub get : String → SubagentManager W → Option SubagentInstance
  get name m = Dict.get name m.instances

  abbrev pub put_back : String → State W → SubagentManager W → SubagentManager W
  put_back name s m = record m {
    instances = Dict.put name s.instance_ m.instances;
    world = s.world;
  }

  unfoldable pub activate_found :
      Platform W → String → Option SubagentInstance → Exec (SubagentManager W) (Unit {0})
  unfolding initialize
  activate_found platform name none m = (raised (failure (not_registered name)), m)
  activate_found platform name (some i) m =
      let (r, s) = initialize platform (record { instance_ = i; world = m.world }) in
      (r, put_back name s m)

  unfoldable pub activate : Platform W → String → Exec (SubagentManager W) (Unit {0})
  unfolding activate_found
  activate platform name m = activate_found platform name (Dict.get name m.instances) m

  unfoldable pub deactivate_found :
      String → Option SubagentInstance → SubagentManager W → SubagentManager W
  unfolding deactivate_instance
  deactivate_found name none m = m
  deactivate_found name (some i) m =
      put_back name (deactivate_instance (record { instance_ = i; world = m.world })) m

  unfoldable pub deactivate : String → SubagentManager W → SubagentManager W
  unfolding deactivate_found
  deactivate name m = deactivate_found name (Dict.get name m.instances) m

  unfoldable pub deactivate_all : SubagentManager W → SubagentManager W
  unfolding deactivate_each
  deactivate_all m = record m { instances = deactivate_each m.instances }

  unfoldable pub list_all : SubagentManager W → List String
  list_all m = keys m.instances

  unfoldable pub list_active : SubagentManager W → List String
  unfolding active_names
  list_active m = active_names m.instances

  unfoldable pub register_all : List SubagentConfig → SubagentManager W → SubagentManager W
  unfolding register
  register_all [] m = m
  register_all (config ∷ configs) m = register_all configs (register config m)

  unfoldable pub reset : SubagentManager W → SubagentManager W
  reset m = record m { instances = []; usage_stats = [] }

abbrev pub no_usage : Usage
no_usage = record { total = 0; success = 0; latencies = [] }

-- `latencies.append`, and the slice to the last 100.
unfoldable pub add_latency : ℕ → List ℕ → List ℕ
add_latency latency_ms latencies =
    let longer = latencies ++ latency_ms ∷ [] in
    if ltb 0 latency_ms
    then if ltb 100 (length longer) then last_n 100 longer else longer
    else latencies

unfoldable pub count_usage : Bool → ℕ → Usage → Usage
unfolding add_latency
count_usage success latency_ms u = record {
  total = u.total + 1;
  success = if success then u.success + 1 else u.success;
  latencies = add_latency latency_ms u.latencies;
}

-- `setdefault(name, …)`
unfoldable pub usage_of : String → Dict Usage → Usage
usage_of name stats = Dict.otherwise (Dict.get name stats) no_usage

module _ {W : Type 0} where
  unfoldable pub track_usage : String → Bool → ℕ → SubagentManager W → SubagentManager W
  unfolding count_usage usage_of
  track_usage name success latency_ms m = record m {
    usage_stats =
        Dict.put name (count_usage success latency_ms (usage_of name m.usage_stats)) m.usage_stats;
  }

  -- `ratio a b` is the float `round(a / b, 4)`.
  unfoldable pub get_effectiveness_score :
      {F : Type 0} → F → (ℕ → ℕ → F) → String → SubagentManager W → F
  unfolding usage_of
  get_effectiveness_score one ratio name m =
      let u = usage_of name m.usage_stats in
      let recent = min u.total 100 in
      if u.total == 0
      then one
      else if ltb 0 recent
      then ratio (min u.success recent) (max recent 1)
      else one
