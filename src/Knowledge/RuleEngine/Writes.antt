-- ===== src/Knowledge/RuleEngine/Writes.antt =====
-- app/knowledge/rule_engine.py: what a deletion and an update reach.
use data_engineer.Prelude.{
  ◌&&◌, String, Option, none, some, List, [], ◌≡◌, refl, ap, arith, str_eq, eq_iff, if◌then◌else◌,
}
use data_engineer.Prelude.Dict
use data_engineer.Prelude.Dict.{
  Dict, get_none-contains, Distinct, keys, contains, get-put, get-put_self, get-remove,
  contains-get, get-contains, length-put, length-remove, or_else, otherwise, contains-put,
  put-Distinct, remove-Distinct, contains-remove,
}
use data_engineer.Knowledge.RuleEngine.{
  BusinessRule, RuleEngine, given, rules_of, get_store, delete, delete_in, delete_global, update,
  update_found, update_global, write_store, write_global, set_fields, Update,
}
use data_engineer.Knowledge.RuleEngine.Scopes.{
  at_scope, same_scope, owner, owner_in, rules_of-put, at_scope-get_store,
}

delete_in-at_scope :
    (scope scope' : Option String) (rule_id rule_id' : String) (e : RuleEngine)
    → at_scope scope' rule_id' (delete_in scope rule_id (get_store scope e).0 e).0 ≡ (
        if same_scope (owner_in scope rule_id e) scope' && str_eq rule_id rule_id'
        then none
        else at_scope scope' rule_id' e)
unfolding delete_in delete_global at_scope get_store owner_in
delete_in-at_scope none none rule_id rule_id' e = ground (
  arith,
  get-remove rule_id' rule_id e.global,
  contains-get rule_id e.global,
  eq_iff rule_id rule_id',
)
delete_in-at_scope none (some d') rule_id rule_id' e = ground arith
delete_in-at_scope (some d) none rule_id rule_id' e = ground (
  arith,
  get-remove rule_id' rule_id e.global,
  contains-get rule_id e.global,
  eq_iff rule_id rule_id',
)
delete_in-at_scope (some d) (some d') rule_id rule_id' e = ground (
  arith,
  eq_iff d d',
  rules_of-put e d' d (Dict.remove rule_id (rules_of e d)),
  get-remove rule_id' rule_id (rules_of e d),
)

rules_of-get_store :
    (d : String) (e : RuleEngine) → rules_of (get_store (some d) e).1 d ≡ rules_of e d
unfolding get_store rules_of
rules_of-get_store d e =
    ground (arith, eq_iff d d, contains-get d e.domain_rules, get-put d d [] e.domain_rules)

get_store_twice :
    (scope : Option String) (e : RuleEngine)
    → (get_store scope (get_store scope e).1).0 ≡ (get_store scope e).0
unfolding get_store
get_store_twice none e = refl
get_store_twice (some d) e = rules_of-get_store d e

owner_in-get_store :
    (scope : Option String) (rule_id : String) (e : RuleEngine)
    → owner_in scope rule_id (get_store scope e).1 ≡ owner_in scope rule_id e
unfolding owner_in
owner_in-get_store none rule_id e = refl
owner_in-get_store (some d) rule_id e = rw (rules_of-get_store d e)

-- A deletion takes out the rule that a lookup finds, and no other, in no scope.
pub delete-at_scope :
    (rule_id : String) (domain scope : Option String) (rule_id' : String) (e : RuleEngine)
    → at_scope scope rule_id' (delete rule_id domain e).0 ≡ (
        if same_scope (owner rule_id domain e) scope && str_eq rule_id rule_id'
        then none
        else at_scope scope rule_id' e)
unfolding delete owner
delete-at_scope rule_id domain scope rule_id' e = ground (
  arith,
  get_store_twice (given domain) e,
  owner_in-get_store (given domain) rule_id e,
  at_scope-get_store (given domain) scope rule_id' e,
  delete_in-at_scope (given domain) scope rule_id rule_id' (get_store (given domain) e).1,
)

abbrev pub updated : List Update → Option BusinessRule → Option BusinessRule
updated us none = none
updated us (some rule) = some (set_fields rule us)

update_global-at_scope :
    (found : Option BusinessRule) (scope : Option String) (rule_id rule_id' : String)
    (us : List Update) (e : RuleEngine)
    → Dict.get rule_id e.global ≡ found
    → at_scope scope rule_id' (update_global found rule_id us e).0 ≡ (
        if same_scope none scope && str_eq rule_id rule_id'
        then updated us (at_scope scope rule_id' e)
        else at_scope scope rule_id' e)
unfolding update_global write_global at_scope
update_global-at_scope none none rule_id rule_id' us e h =
    ground (arith, eq_iff rule_id rule_id', h)
update_global-at_scope none (some d) rule_id rule_id' us e h = refl
update_global-at_scope (some rule) (some d) rule_id rule_id' us e h = refl
update_global-at_scope (some rule) none rule_id rule_id' us e h =
    ground
      (arith, eq_iff rule_id rule_id', h, get-put rule_id' rule_id (set_fields rule us) e.global)

update_found-at_scope :
    (found : Option BusinessRule) (scope scope' : Option String) (rule_id rule_id' : String)
    (us : List Update) (e : RuleEngine)
    → Dict.get rule_id (get_store scope e).0 ≡ found
    → at_scope scope' rule_id' (update_found found scope rule_id us e).0 ≡ (
        if same_scope (owner_in scope rule_id e) scope' && str_eq rule_id rule_id'
        then updated us (at_scope scope' rule_id' e)
        else at_scope scope' rule_id' e)
unfolding update_found update_global write_global write_store at_scope get_store owner_in
update_found-at_scope none none scope' rule_id rule_id' us e h =
    update_global-at_scope none scope' rule_id rule_id' us e h
update_found-at_scope (some rule) none scope' rule_id rule_id' us e h =
    update_global-at_scope (some rule) scope' rule_id rule_id' us e h
update_found-at_scope none (some d) scope' rule_id rule_id' us e h = ground (
  arith,
  get_none-contains rule_id (rules_of e d) h,
  update_global-at_scope (Dict.get rule_id e.global) scope' rule_id rule_id' us e refl,
)
update_found-at_scope (some rule) (some d) none rule_id rule_id' us e h =
    ground (arith, get-contains rule_id (rules_of e d) rule h)
update_found-at_scope (some rule) (some d) (some d') rule_id rule_id' us e h = ground (
  arith,
  eq_iff d d',
  eq_iff rule_id rule_id',
  h,
  get-contains rule_id (rules_of e d) rule h,
  rules_of-put e d' d (Dict.put rule_id (set_fields rule us) (rules_of e d)),
  get-put rule_id' rule_id (set_fields rule us) (rules_of e d),
)

-- An update changes the fields of the rule that a lookup finds, and of no other, in no scope.
pub update-at_scope :
    (rule_id : String) (us : List Update) (domain scope : Option String) (rule_id' : String)
    (e : RuleEngine)
    → at_scope scope rule_id' (update rule_id us domain e).0 ≡ (
        if same_scope (owner rule_id domain e) scope && str_eq rule_id rule_id'
        then updated us (at_scope scope rule_id' e)
        else at_scope scope rule_id' e)
unfolding update owner
update-at_scope rule_id us domain scope rule_id' e =
    let e' = (get_store (given domain) e).1 in
    let found = Dict.get rule_id (get_store (given domain) e).0 in
    ground (
      arith,
      owner_in-get_store (given domain) rule_id e,
      at_scope-get_store (given domain) scope rule_id' e,
      update_found-at_scope found (given domain) scope rule_id rule_id' us e'
          (ap (Dict.get rule_id) (get_store_twice (given domain) e)),
    )
