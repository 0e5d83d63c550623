-- ===== src/Nodes/Base.antt =====
-- app/nodes/base.py: what a node is to the runner. `W` is the world that nodes act on (databases,
-- models, files); a node changes the shared context only by what `update_context` returns.
use data_engineer.Prelude.{String, Option, List}
use data_engineer.Prelude.Dict.{Dict, merge}
use data_engineer.Prelude.Value.{Value}
use data_engineer.Prelude.Exec.{answer, Exec, pure}
use data_engineer.Harness.Permission.{PermissionManager}

pub record NodeInput : Type 0 where
  pub query_text : String
  pub context : Dict Value
  pub config : Dict Value

pub record NodeOutput : Type 0 where
  pub result : Value
  pub metadata : Dict Value
  pub errors : List String
  pub context : Dict Value

-- `BaseNode`: the methods that a node may override.
pub record BaseNode (W : Type 0) : Type 0 where
  pub name : String
  pub required_tools : List String
  pub permission_manager : Option PermissionManager
  pub setup_input : NodeInput → Exec W NodeInput
  pub execute : NodeInput → Exec W NodeOutput
  pub update_context : NodeOutput → Dict Value → Exec W (Dict Value)

module _ {W : Type 0} where
  -- The default `setup_input`, which the runner always calls with the three keys.
  unfoldable pub default_setup_input : NodeInput → Exec W NodeInput
  unfolding answer
  default_setup_input raw_input = pure raw_input

  -- The default `update_context`, a shallow merge.
  unfoldable pub default_update_context : NodeOutput → Dict Value → Exec W (Dict Value)
  unfolding answer merge
  default_update_context output shared_context = pure (merge shared_context output.context)
