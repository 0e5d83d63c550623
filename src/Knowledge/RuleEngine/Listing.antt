-- ===== src/Knowledge/RuleEngine/Listing.antt =====
-- app/knowledge/rule_engine.py: `list_all`, the rules of one scope by identifier.
use data_engineer.Prelude.{
  ℕ, ◌+◌, String, Bool, false, Option, none, some, List, [], ◌∷◌, ◌≡◌, refl, arith, ◌∙◌, inl, inr,
  str_eq, Bool-cases, if◌then◌else◌,
}
use data_engineer.Prelude.Dict
use data_engineer.Prelude.Dict.{Dict, otherwise}
use data_engineer.Prelude.Sorted.{text_before, text_before-asym}
use data_engineer.Knowledge.RuleEngine.{BusinessRule, RuleEngine, given, rules_of}

unfoldable pub rule_values : Dict BusinessRule → List BusinessRule
rule_values [] = []
rule_values ((rule_id, rule) ∷ m) = rule ∷ rule_values m

-- A stable sort by the rules' own identifiers.
unfoldable pub insert_rule : BusinessRule → List BusinessRule → List BusinessRule
insert_rule a [] = a ∷ []
insert_rule a (b ∷ rules) =
    let rest = insert_rule a rules in if text_before b.id a.id then b ∷ rest else a ∷ b ∷ rules

unfoldable pub sort_rules : List BusinessRule → List BusinessRule
unfolding insert_rule
sort_rules [] = []
sort_rules (a ∷ rules) = insert_rule a (sort_rules rules)

abbrev pub scope_rules : Option String → RuleEngine → Dict BusinessRule
scope_rules none e = e.global
scope_rules (some domain) e = rules_of e domain

unfoldable pub list_all : Option String → RuleEngine → List BusinessRule
unfolding rule_values sort_rules
list_all domain e = sort_rules (rule_values (scope_rules (given domain) e))

-- No rule has an identifier before that of the rule above it.
abbrev pub IsAscending : List BusinessRule → Type 0
IsAscending [] = Unit
IsAscending (a ∷ []) = Unit
IsAscending (a ∷ b ∷ rules) = (text_before b.id a.id ≡ false) × IsAscending (b ∷ rules)

-- How many rules have a property.
abbrev pub tally : (BusinessRule → Bool) → List BusinessRule → ℕ
tally p [] = 0
tally p (rule ∷ rules) = (if p rule then 1 else 0) + tally p rules

insert_rule-IsAscending :
    (a : BusinessRule) (rules : List BusinessRule)
    → IsAscending rules
    → IsAscending (insert_rule a rules)
unfolding insert_rule
insert_rule-IsAscending a [] h = tt
insert_rule-IsAscending a (b ∷ []) h = ground (arith, text_before-asym b.id a.id)
insert_rule-IsAscending a (b ∷ c ∷ rules) h =
    ground (arith, text_before-asym b.id a.id, insert_rule-IsAscending a (c ∷ rules) h.1, h)

sort_rules-IsAscending : (rules : List BusinessRule) → IsAscending (sort_rules rules)
unfolding sort_rules
sort_rules-IsAscending [] = tt
sort_rules-IsAscending (a ∷ rules) =
    insert_rule-IsAscending a (sort_rules rules) (sort_rules-IsAscending rules)

tally-insert_rule :
    (p : BusinessRule → Bool) (a : BusinessRule) (rules : List BusinessRule)
    → tally p (insert_rule a rules) ≡ tally p (a ∷ rules)
unfolding insert_rule
tally-insert_rule p a [] = refl
tally-insert_rule p a (b ∷ rules) = ground (arith, tally-insert_rule p a rules)

tally-sort_rules :
    (p : BusinessRule → Bool) (rules : List BusinessRule)
    → tally p (sort_rules rules) ≡ tally p rules
unfolding sort_rules
tally-sort_rules p [] = refl
tally-sort_rules p (a ∷ rules) =
    ground (arith, tally-insert_rule p a (sort_rules rules), tally-sort_rules p rules)

-- How many entries of a scope have a rule with a property.
abbrev pub entries : (BusinessRule → Bool) → Dict BusinessRule → ℕ
entries p [] = 0
entries p ((rule_id, rule) ∷ m) = (if p rule then 1 else 0) + entries p m

-- The same of the scope that a listing is asked for: the global one without a domain or with an
-- empty one, else the domain's, which has none if nothing was added to it.
abbrev pub asked : (BusinessRule → Bool) → Option String → RuleEngine → ℕ
asked p none e = entries p e.global
asked p (some domain) e =
    if str_eq domain ""
    then entries p e.global
    else elim (Dict.get domain e.domain_rules) [ none ↦ 0 | some m ↦ entries p m ]

tally-rule_values :
    (p : BusinessRule → Bool) (m : Dict BusinessRule) → tally p (rule_values m) ≡ entries p m
unfolding rule_values
tally-rule_values p [] = refl
tally-rule_values p ((rule_id, rule) ∷ m) = ground (arith, tally-rule_values p m)

entries-rules_of :
    (p : BusinessRule → Bool) (found : Option (Dict BusinessRule))
    → entries p (otherwise found []) ≡ elim found [ none ↦ 0 | some m ↦ entries p m ]
entries-rules_of p none = refl
entries-rules_of p (some m) = refl

entries-scope_rules :
    (p : BusinessRule → Bool) (domain : Option String) (e : RuleEngine)
    → entries p (scope_rules (given domain) e) ≡ asked p domain e
unfolding rules_of
entries-scope_rules p none e = refl
entries-scope_rules p (some domain) e = elim (Bool-cases (str_eq domain "")) [
  | inl empty ↦ rw empty refl
  | inr named ↦ rw named (entries-rules_of p (Dict.get domain e.domain_rules))
]

-- A listing is in ascending order of the identifiers. Without a domain, or with an empty one, it has
-- the global rules, each as often as the scope has it; with a domain that domain's, and not the
-- global ones.
pub list_all-IsAscending :
    (domain : Option String) (e : RuleEngine)
    → IsAscending (list_all domain e)
      × ((p : BusinessRule → Bool) → tally p (list_all domain e) ≡ asked p domain e)
unfolding list_all
list_all-IsAscending domain e =
    let rules = rule_values (scope_rules (given domain) e) in
    (
      sort_rules-IsAscending rules,
      λ p.
          tally-sort_rules p rules
          ∙ tally-rule_values p (scope_rules (given domain) e)
          ∙ entries-scope_rules p domain e,
    )
