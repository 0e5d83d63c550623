-- ===== src/Nodes/Registry.antt =====
-- app/nodes/registry.py: the nodes of a request by name.
use data_engineer.Prelude.{String, Option, none, some, List, if◌then◌else◌}
use data_engineer.Prelude.Dict
use data_engineer.Prelude.Dict.{Dict, contains, keys}
use data_engineer.Prelude.Sorted.{sorted_set}
use data_engineer.Nodes.Base.{BaseNode}

abbrev pub NodeRegistry : Type 0 → Type 0
NodeRegistry W = Dict (BaseNode W)

module _ {W : Type 0} where
  -- `none` is the `ValueError` of a name that is taken.
  unfoldable pub register : BaseNode W → NodeRegistry W → Option (NodeRegistry W)
  register node nodes =
      if contains node.name nodes then none else some (Dict.put node.name node nodes)

  -- `none` is the `KeyError`.
  unfoldable pub get : String → NodeRegistry W → Option (BaseNode W)
  get name nodes = Dict.get name nodes

  unfoldable pub unregister : String → NodeRegistry W → NodeRegistry W
  unregister name nodes = Dict.remove name nodes

  unfoldable pub list_all : NodeRegistry W → List String
  list_all nodes = sorted_set (keys nodes)
