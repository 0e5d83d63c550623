-- ===== src/Harness/Runner/Config.antt =====
-- app/harness/runner.py: the configuration of one attempt, and the permissions that it needs.
use data_engineer.Prelude.{String, Bool, true, Option, none, some, List, [], ◌∷◌, if◌then◌else◌}
use Prim.Native.String.{◌++◌ as concat}
use data_engineer.Prelude.Dict
use data_engineer.Prelude.Dict.{Dict, merge}
use data_engineer.Prelude.Value.{
  Value, pos, int, str, list, dict, entries, items, truthy, field, end,
}
use data_engineer.Prelude.Exec.{Result, ok, raised, failure}
use data_engineer.Harness.Permission
use data_engineer.Harness.Permission.{PermissionManager, is_allowed}
use data_engineer.Models.Workflow.{NodeConfig, NodeDef}
use data_engineer.Nodes.Base.{BaseNode, NodeOutput}

-- The configuration of a node: the plan's, its extras, then the caller's overrides.
unfoldable pub base_config : NodeConfig → Dict Value
base_config c =
    ("temperature", c.temperature)
    ∷ ("num_candidates", int (pos c.max_candidates))
    ∷ ("max_candidates", int (pos c.max_candidates))
    ∷ ("max_rows", int (pos c.max_rows))
    ∷ ("timeout_ms", int (pos c.timeout_ms))
    ∷ ("mode", str c.mode)
    ∷ []

unfoldable pub config_of : NodeDef → Dict (Dict Value) → Dict Value
unfolding base_config merge
config_of definition overrides =
    merge (merge (base_config definition.config) definition.config.extras)
      (elim (Dict.get definition.id overrides) [ none ↦ [] | some o ↦ o ])

-- `config.get("enabled", True)`, as a condition.
unfoldable pub enabled : Dict Value → Bool
enabled config = elim (Dict.get "enabled" config) [ none ↦ true | some v ↦ truthy v ]

abbrev pub type_error : {A : Type 0} → Result A
type_error = raised (failure "TypeError")

abbrev cons_ok : String → Result (List String) → Result (List String)
cons_ok s (ok ss) = ok (s ∷ ss)
cons_ok s (raised e) = raised e

-- The members of `set(v)`: the texts of a list, the keys of a dictionary, the characters of a text.
abbrev texts : List Value → Result (List String)
texts [] = ok []
texts (str s ∷ vs) = cons_ok s (texts vs)
texts (_ ∷ vs) = type_error

abbrev characters : String → List String
characters String.[] = []
characters (String.◌∷◌ c s) = String.◌∷◌ c String.[] ∷ characters s

abbrev pub set_of : Value → Result (List String)
set_of (list vs) = texts (items vs)
set_of (dict fs) = ok (Dict.keys (entries fs))
set_of (str s) = ok (characters s)
set_of _ = type_error

-- `config.get("tools", [])`
unfoldable pub config_tools : Dict Value → Result (List String)
config_tools config = elim (Dict.get "tools" config) [ none ↦ ok [] | some v ↦ set_of v ]

-- `rules.items()`: each tool with the text of its level.
abbrev levels : Dict Value → Option (List (String × String))
levels [] = some []
levels ((tool, str level) ∷ rest) = elim (levels rest) [
  | none ↦ none
  | some ls ↦ some ((tool, level) ∷ ls)
]
levels ((tool, _) ∷ rest) = none

-- A level that is no text is no `PermissionLevel`.
abbrev level_items : Option (List (String × String)) → Result (List (String × String))
level_items none = raised (failure "ValueError")
level_items (some ls) = ok ls

abbrev rule_items : Value → Result (List (String × String))
rule_items (dict fs) = level_items (levels (entries fs))
rule_items _ = raised (failure "AttributeError")

abbrev or_raise : Option PermissionManager → Result PermissionManager
or_raise none = raised (failure "ValueError")
or_raise (some m) = ok m

-- `PermissionManager()`
abbrev pub deny_all : PermissionManager
deny_all = record { default_level = Permission.deny; rules = [] }

abbrev rules_manager : Result (List (String × String)) → Result PermissionManager
rules_manager (raised e) = raised e
rules_manager (ok rule) = or_raise (Permission.create (rule ∷ []) "deny")

-- The permissions of the configuration, else the node's own, else none at all.
unfoldable pub manager_for : {W : Type 0} → BaseNode W → Dict Value → Result PermissionManager
manager_for node config = elim (Dict.get "permissions" config) [
  | some rules ↦ rules_manager (rule_items rules)
  | none ↦ elim node.permission_manager [ none ↦ ok deny_all | some own ↦ ok own ]
]

-- The first tool that is not granted raises.
unfoldable pub check_tools : PermissionManager → List String → Result (Unit {0})
check_tools manager [] = ok tt
check_tools manager (tool ∷ tools) =
    if is_allowed manager tool
    then check_tools manager tools
    else raised (failure (concat "Tool permission not granted: " tool))

abbrev pub skipped : NodeOutput
skipped = record {
  result = dict (field "status" (str "skipped") end);
  metadata = ("status", str "skipped") ∷ [];
  errors = [];
  context = [];
}
