-- ===== src/Knowledge/RuleEngine/Scopes.antt =====
-- app/knowledge/rule_engine.py: which scope answers for an identifier, and the counts.
use data_engineer.Prelude.{
  ◌&&◌, String, Bool, true, false, Option, none, some, [], ◌≡◌, refl, arith, str_eq, eq_iff,
  if◌then◌else◌,
}
use data_engineer.Prelude.Dict
use data_engineer.Prelude.Dict.{
  Dict, get_none-contains, Distinct, keys, contains, get-put, get-put_self, get-remove,
  contains-get, get-contains, length-put, length-remove, or_else, otherwise, contains-put,
  put-Distinct, remove-Distinct, contains-remove,
}
use data_engineer.Knowledge.RuleEngine.{
  BusinessRule, RuleEngine, add, add_in, get, get_in, given, rules_of, get_store,
}

-- The rule that stands under an identifier in one scope alone.
unfoldable pub at_scope : Option String → String → RuleEngine → Option BusinessRule
unfolding rules_of
at_scope none rule_id e = Dict.get rule_id e.global
at_scope (some domain) rule_id e = Dict.get rule_id (rules_of e domain)

-- The scopes are separate stores: a rule that is added answers in its own scope, and no answer in
-- another scope or under another identifier changes.
abbrev pub same_scope : Option String → Option String → Bool
same_scope none none = true
same_scope none (some d) = false
same_scope (some d) none = false
same_scope (some d) (some d') = str_eq d d'

pub rules_of-put :
    (e : RuleEngine) (d d' : String) (rules : Dict BusinessRule)
    → rules_of (record e { domain_rules = Dict.put d' rules e.domain_rules }) d
      ≡ (if str_eq d' d then rules else rules_of e d)
unfolding rules_of
rules_of-put e d d' rules = ground (arith, get-put d d' rules e.domain_rules)

add_in-at_scope :
    (scope : Option String) (rule : BusinessRule) (scope' : Option String) (rule_id : String)
    (e : RuleEngine)
    → at_scope scope' rule_id (add_in scope rule e) ≡ (
        if same_scope scope scope'
        then (if str_eq rule.id rule_id then some rule else at_scope scope' rule_id e)
        else at_scope scope' rule_id e)
unfolding add_in at_scope
add_in-at_scope none rule none rule_id e = get-put rule_id rule.id rule e.global
add_in-at_scope none rule (some d) rule_id e = refl
add_in-at_scope (some d) rule none rule_id e = refl
add_in-at_scope (some d) rule (some d') rule_id e = ground (
  arith,
  eq_iff d d',
  rules_of-put e d' d (Dict.put rule.id rule (rules_of e d)),
  get-put rule_id rule.id rule (rules_of e d),
)

-- A rule that is added answers under its identifier in its scope; nothing else changes.
pub add-at_scope :
    (rule : BusinessRule) (domain scope : Option String) (rule_id : String) (e : RuleEngine)
    → at_scope scope rule_id (add rule domain e) ≡ (
        if same_scope (given domain) scope && str_eq rule.id rule_id
        then some rule
        else at_scope scope rule_id e)
unfolding add
add-at_scope rule domain scope rule_id e =
    ground (arith, add_in-at_scope (given domain) rule scope rule_id e)

-- The scope whose rule a request under an identifier reaches.
unfoldable pub owner_in : Option String → String → RuleEngine → Option String
unfolding rules_of
owner_in none rule_id e = none
owner_in (some d) rule_id e = if contains rule_id (rules_of e d) then some d else none

unfoldable pub owner : String → Option String → RuleEngine → Option String
unfolding owner_in
owner rule_id domain = owner_in (given domain) rule_id

get_in-owner :
    (scope : Option String) (rule_id : String) (e : RuleEngine)
    → get_in scope rule_id e ≡ at_scope (owner_in scope rule_id e) rule_id e
unfolding get_in owner_in at_scope
get_in-owner none rule_id e = refl
get_in-owner (some d) rule_id e =
    ground (arith, get_none-contains rule_id (rules_of e d), contains-get rule_id (rules_of e d))

-- A lookup answers with the rule of the scope that it reaches, the domain's before the global one.
pub get-owner :
    (rule_id : String) (domain : Option String) (e : RuleEngine)
    → get rule_id domain e ≡ at_scope (owner rule_id domain e) rule_id e
unfolding get owner
get-owner rule_id domain = get_in-owner (given domain) rule_id

pub at_scope-get_store :
    (scope scope' : Option String) (rule_id : String) (e : RuleEngine)
    → at_scope scope' rule_id (get_store scope e).1 ≡ at_scope scope' rule_id e
unfolding get_store at_scope rules_of
at_scope-get_store none scope' rule_id e = refl
at_scope-get_store (some d) none rule_id e = ground arith
at_scope-get_store (some d) (some d') rule_id e =
    ground (arith, contains-get d e.domain_rules, get-put d' d [] e.domain_rules, eq_iff d d')
