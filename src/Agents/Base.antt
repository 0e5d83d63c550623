-- ===== src/Agents/Base.antt =====
-- app/agents/base.py and app/agents/registry.py: what an agent returns, and the agents by name. An
-- agent acts on the context that it is given, which it may write to, and on a world `W`.
use Prim.Native.String.{◌++◌ as concat}
use data_engineer.Prelude.{String, Bool, true, false, Option, none, some, List, [], ◌∷◌}
use data_engineer.Prelude.Dict
use data_engineer.Prelude.Dict.{Dict, keys}
use data_engineer.Prelude.Value.{Value, null, str, dict, boolean, Fields, end, field, entries}
use data_engineer.Prelude.Exec.{Exec}
use data_engineer.Prelude.World.{With}

pub data AgentStatus : Type 0 where
  idle busy done error : AgentStatus

pub record AgentResult : Type 0 where
  pub agent_name : String
  pub status : AgentStatus
  pub data_ : Value
  pub errors : List String
  pub metadata : Dict Value

-- An action of the modes: the context of the query beside the world.
abbrev pub Act : Type 0 → Type 0 → Type 0
Act W A = Exec (With (Dict Value) W) A

pub record BaseAgent (W : Type 0) : Type 0 where
  pub name : String
  pub execute : Value → Act W AgentResult

abbrev pub AgentRegistry : Type 0 → Type 0
AgentRegistry W = Dict (BaseAgent W)

module _ {W : Type 0} where
  unfoldable pub register : BaseAgent W → AgentRegistry W → AgentRegistry W
  register agent registry = Dict.put agent.name agent registry

  unfoldable pub get_agent : String → AgentRegistry W → Option (BaseAgent W)
  get_agent name registry = Dict.get name registry

  unfoldable pub agent_names : AgentRegistry W → List String
  agent_names registry = keys registry

abbrev pub is_done : AgentStatus → Bool
is_done done = true
is_done _ = false

abbrev pub is_error : AgentStatus → Bool
is_error error = true
is_error _ = false

-- `r.data is not None`
abbrev pub given : Value → Bool
given null = false
given _ = true

-- The context as a value, and what a value has under a key if it is a dictionary.
abbrev pub fields_of : Dict Value → Fields
fields_of [] = end
fields_of ((k, v) ∷ d) = field k v (fields_of d)

abbrev pub as_dict : Value → Option (Dict Value)
as_dict (dict fs) = some (entries fs)
as_dict _ = none

-- `_missing_agent` and `_skip_result`
unfoldable pub missing_agent : String → AgentResult
missing_agent agent_name = record {
  agent_name = agent_name;
  status = error;
  data_ = null;
  errors = concat "Agent '" (concat agent_name "' is not registered in the orchestrator") ∷ [];
  metadata = [];
}

unfoldable pub skip_result : String → String → AgentResult
skip_result agent_name message = record {
  agent_name = agent_name;
  status = done;
  data_ = dict (field "skipped" (boolean true) (field "reason" (str message) end));
  errors = [];
  metadata = [];
}

-- A result of the orchestrator itself.
abbrev pub own_result : AgentStatus → Value → List String → AgentResult
own_result status data_ errors = record {
  agent_name = "orchestrator";
  status = status;
  data_ = data_;
  errors = errors;
  metadata = [];
}
