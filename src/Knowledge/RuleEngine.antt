-- ===== src/Knowledge/RuleEngine.antt =====
-- app/knowledge/rule_engine.py: the business rules, global and of a domain, and what they enforce.
-- A rule object stands in one scope, so that an update of it is seen in that scope alone.
pub mod Listing
pub mod Scopes
pub mod Writes
pub mod Match
pub mod Enforce
use data_engineer.Prelude.{
  ℕ, ◌+◌, max, String, Bool, true, false, Option, none, some, List, [], ◌∷◌, ◌++◌, map, not, ◌&&◌,
  ◌||◌, leb, ltb, ◌==◌, length, if◌then◌else◌, str_eq,
}
use data_engineer.Prelude.Dict
use data_engineer.Prelude.Dict.{Dict, contains, merge}

pub record BusinessRule : Type 0 where
  pub id : String
  pub description : String
  pub pattern : String
  pub enforce : List String
  pub sql_template : String
  pub domain_id : String

-- One entry of `updates`; `other` is a name that a rule has no field for.
pub data Update : Type 0 where
  set_id set_description set_pattern : String → Update
  set_enforce : List String → Update
  set_sql_template set_domain_id : String → Update
  other : String → Update

pub record RuleEngine : Type 0 where
  pub global : Dict BusinessRule
  pub domain_rules : Dict (Dict BusinessRule)

-- What the engine asks of the domain manager: the names, and the rules of a domain.
pub record DomainManager : Type 0 where
  pub list_all : List String
  pub get : String → Option (List BusinessRule)

abbrev pub create : RuleEngine
create = record { global = []; domain_rules = [] }

-- `if domain`: neither `None` nor the empty text.
abbrev pub given : Option String → Option String
given none = none
given (some domain) = if str_eq domain "" then none else some domain

-- `self._domain_rules.get(domain, {})`
unfoldable pub rules_of : RuleEngine → String → Dict BusinessRule
rules_of e domain = Dict.otherwise (Dict.get domain e.domain_rules) []

unfoldable pub rule_count : RuleEngine → ℕ
rule_count e = length e.global + total e.domain_rules
  where
    total : Dict (Dict BusinessRule) → ℕ
    total [] = 0
    total ((domain, rules) ∷ m) = length rules + total m

unfoldable pub domain_count : RuleEngine → ℕ
domain_count e = length e.domain_rules

unfoldable pub add_in : Option String → BusinessRule → RuleEngine → RuleEngine
unfolding rules_of
add_in none rule e = record e { global = Dict.put rule.id rule e.global }
add_in (some domain) rule e = record e {
  domain_rules = Dict.put domain (Dict.put rule.id rule (rules_of e domain)) e.domain_rules;
}

unfoldable pub add : BusinessRule → Option String → RuleEngine → RuleEngine
unfolding add_in
add rule domain = add_in (given domain) rule

-- `load_from_domains`, with the number of rules loaded.
unfoldable pub load_rules : String → List BusinessRule → RuleEngine × ℕ → RuleEngine × ℕ
unfolding add
load_rules name [] p = p
load_rules name (rule ∷ rules) p = load_rules name rules (add rule (some name) p.0, p.1 + 1)

abbrev load_domain : String → Option (List BusinessRule) → RuleEngine × ℕ → RuleEngine × ℕ
load_domain name none p = p
load_domain name (some rules) p = load_rules name rules p

unfoldable pub load_names : DomainManager → List String → RuleEngine × ℕ → RuleEngine × ℕ
unfolding load_rules
load_names manager [] p = p
load_names manager (name ∷ names) p =
    load_names manager names (load_domain name (manager.get name) p)

unfoldable pub load_from_domains : Option DomainManager → RuleEngine → RuleEngine × ℕ
unfolding load_names
load_from_domains none e = (e, 0)
load_from_domains (some manager) e = load_names manager manager.list_all (e, 0)

unfoldable pub get_in : Option String → String → RuleEngine → Option BusinessRule
unfolding rules_of
get_in none rule_id e = Dict.get rule_id e.global
get_in (some domain) rule_id e =
    Dict.or_else (Dict.get rule_id (rules_of e domain)) (Dict.get rule_id e.global)

unfoldable pub get : String → Option String → RuleEngine → Option BusinessRule
unfolding get_in
get rule_id domain = get_in (given domain) rule_id

-- `_get_store` puts an empty store for a domain that has none.
unfoldable pub get_store : Option String → RuleEngine → Dict BusinessRule × RuleEngine
unfolding rules_of
get_store none e = (e.global, e)
get_store (some domain) e = (
  rules_of e domain,
  if contains domain e.domain_rules
      then e
      else record e { domain_rules = Dict.put domain [] e.domain_rules },
)

abbrev pub set_field : BusinessRule → Update → BusinessRule
set_field rule (set_id v) = record rule { id = v }
set_field rule (set_description v) = record rule { description = v }
set_field rule (set_pattern v) = record rule { pattern = v }
set_field rule (set_enforce v) = record rule { enforce = v }
set_field rule (set_sql_template v) = record rule { sql_template = v }
set_field rule (set_domain_id v) = record rule { domain_id = v }
set_field rule (other name) = rule

abbrev pub set_fields : BusinessRule → List Update → BusinessRule
set_fields rule [] = rule
set_fields rule (u ∷ us) = set_fields (set_field rule u) us

-- The rule under a key is mutated: its key stays.
unfoldable pub write_global : String → BusinessRule → RuleEngine → RuleEngine
write_global rule_id rule e = record e { global = Dict.put rule_id rule e.global }

unfoldable pub write_store : Option String → String → BusinessRule → RuleEngine → RuleEngine
unfolding write_global rules_of
write_store none rule_id rule e = write_global rule_id rule e
write_store (some domain) rule_id rule e = record e {
  domain_rules = Dict.put domain (Dict.put rule_id rule (rules_of e domain)) e.domain_rules;
}

unfoldable pub update_global :
    Option BusinessRule → String → List Update → RuleEngine → RuleEngine × Bool
unfolding write_global
update_global none rule_id updates e = (e, false)
update_global (some rule) rule_id updates e =
    (write_global rule_id (set_fields rule updates) e, true)

unfoldable pub update_found :
    Option BusinessRule → Option String → String → List Update → RuleEngine → RuleEngine × Bool
unfolding write_store update_global
update_found (some rule) domain rule_id updates e =
    (write_store domain rule_id (set_fields rule updates) e, true)
update_found none none rule_id updates e = (e, false)
update_found none (some domain) rule_id updates e =
    update_global (Dict.get rule_id e.global) rule_id updates e

unfoldable pub update : String → List Update → Option String → RuleEngine → RuleEngine × Bool
unfolding get_store update_found
update rule_id updates domain e =
    let (store, e') = get_store (given domain) e in
    update_found (Dict.get rule_id store) (given domain) rule_id updates e'

unfoldable pub delete_global : String → RuleEngine → RuleEngine
delete_global rule_id e = record e { global = Dict.remove rule_id e.global }

unfoldable pub delete_in :
    Option String → String → Dict BusinessRule → RuleEngine → RuleEngine × Bool
unfolding delete_global
delete_in none rule_id store e =
    if contains rule_id store then (delete_global rule_id e, true) else (e, false)
delete_in (some domain) rule_id store e =
    if contains rule_id store
    then (
      record e { domain_rules = Dict.put domain (Dict.remove rule_id store) e.domain_rules },
      true,
    )
    else if contains rule_id e.global
    then (delete_global rule_id e, true)
    else (e, false)

unfoldable pub delete : String → Option String → RuleEngine → RuleEngine × Bool
unfolding get_store delete_in
delete rule_id domain e =
    let (store, e') = get_store (given domain) e in delete_in (given domain) rule_id store e'

unfoldable pub clear_in : Option String → RuleEngine → RuleEngine × ℕ
unfolding rules_of rule_count
clear_in none e = (create, rule_count e)
clear_in (some domain) e =
    (record e { domain_rules = Dict.remove domain e.domain_rules }, length (rules_of e domain))

unfoldable pub clear : Option String → RuleEngine → RuleEngine × ℕ
unfolding clear_in
clear domain = clear_in (given domain)
