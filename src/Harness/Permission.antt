-- ===== src/Harness/Permission.antt =====
-- app/harness/permission.py: which tools a node may call.
use data_engineer.Prelude.{
  String, Bool, true, false, Option, none, some, List, [], ◌∷◌, str_eq, if◌then◌else◌,
}
use data_engineer.Prelude.Dict
use data_engineer.Prelude.Dict.{Dict}

pub data PermissionLevel : Type 0 where
  allow deny ask : PermissionLevel

-- The enum's constructor: `none` is its `ValueError`.
unfoldable pub parse_level : String → Option PermissionLevel
parse_level s =
    if str_eq s "allow"
    then some allow
    else if str_eq s "deny"
    then some deny
    else if str_eq s "ask"
    then some ask
    else none

pub record PermissionManager : Type 0 where
  pub default_level : PermissionLevel
  pub rules : Dict PermissionLevel

-- The inner loop over the items of one rule.
unfoldable pub add_items :
    List (String × String) → Dict PermissionLevel → Option (Dict PermissionLevel)
add_items [] rules = some rules
add_items ((tool_name, level) ∷ rest) rules = elim (parse_level level) [
  | none ↦ none
  | some l ↦ add_items rest (Dict.put tool_name l rules)
]

unfoldable pub add_rules :
    List (List (String × String)) → Dict PermissionLevel → Option (Dict PermissionLevel)
add_rules [] rules = some rules
add_rules (rule ∷ rest) rules = elim (add_items rule rules) [
  | none ↦ none
  | some rules' ↦ add_rules rest rules'
]

-- `PermissionManager(rules, default_level)`
unfoldable pub create : List (List (String × String)) → String → Option PermissionManager
create rules default_level = elim (parse_level default_level) [
  | none ↦ none
  | some level ↦ elim (add_rules rules []) [
    | none ↦ none
    | some table ↦ some (record { default_level = level; rules = table })
  ]
]

unfoldable pub check : PermissionManager → String → PermissionLevel
check m tool_name = elim (Dict.get tool_name m.rules) [ none ↦ m.default_level | some l ↦ l ]

abbrev pub is_allow : PermissionLevel → Bool
is_allow allow = true
is_allow _ = false

unfoldable pub is_allowed : PermissionManager → String → Bool
is_allowed m tool_name = is_allow (check m tool_name)

unfoldable pub is_denied : PermissionManager → String → Bool
is_denied m tool_name = elim (check m tool_name) [ deny ↦ true | _ ↦ false ]

unfoldable pub add_rule : String → String → PermissionManager → Option PermissionManager
add_rule tool_name level m = elim (parse_level level) [
  | none ↦ none
  | some l ↦ some (record m { rules = Dict.put tool_name l m.rules })
]

unfoldable pub remove_rule : String → PermissionManager → PermissionManager
remove_rule tool_name m = record m { rules = Dict.remove tool_name m.rules }
