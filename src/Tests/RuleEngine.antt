-- ===== src/Tests/RuleEngine.antt =====
-- Examples of app/knowledge/rule_engine.py: a pattern matches the whole text, a score is a number.
use data_engineer.Prelude.{
  map, leb, ℕ, ◌*◌, ◌/◌, String, Bool, none, some, List, [], ◌∷◌, ◌≡◌, refl, ltb, if◌then◌else◌,
  ◌&&◌, length, arith, str_eq, ap,
}
use data_engineer.Prelude.Dict
use data_engineer.Prelude.Dict.{or_else}
use data_engineer.Prelude.Text.{codes}
use data_engineer.Knowledge.RuleEngine.{
  BusinessRule, RuleEngine, set_pattern, add, get, given, rules_of, delete, update,
}
use data_engineer.Knowledge.RuleEngine.Listing
use data_engineer.Knowledge.RuleEngine.Listing.{list_all, asked, IsAscending, list_all-IsAscending}
use data_engineer.Knowledge.RuleEngine.Scopes.{at_scope, owner, same_scope, add-at_scope, get-owner}
use data_engineer.Knowledge.RuleEngine.Writes.{updated, delete-at_scope, update-at_scope}
use data_engineer.Knowledge.RuleEngine.Match.{Engine, RuleMatch, candidates, match}
use data_engineer.Knowledge.RuleEngine.Match.Chosen.{
  IsDescending, hits, tally, candidates-get, match-IsDescending,
}
use data_engineer.Knowledge.RuleEngine.Enforce.{
  get_enforcements, partition, best_value, get-get_enforcements,
}

abbrev engine : Engine ℕ
engine = record {
  finditer = λ pattern text.
      some
        (record { start = 0; end_ = length (codes pattern); groups = none ∷ some "g" ∷ [] } ∷ []);
  zero_float = 0;
  coverage = λ a b. (a * 100) / b;
  greater = λ a b. ltb b a;
  at_least = λ a b. leb b a;
}

abbrev rule : String → String → List String → BusinessRule
rule id pattern enforce = record {
  id = id;
  description = "";
  pattern = pattern;
  enforce = enforce;
  sql_template = "";
  domain_id = "";
}

abbrev shop : RuleEngine
shop = record {
  global = ("r", rule "r" "ab" ("precision=2" ∷ [])) ∷ ("s", rule "s" "abc" []) ∷ [];
  domain_rules = ("shop", ("r", rule "r" "a" ("precision=4" ∷ "tz=utc" ∷ [])) ∷ []) ∷ [];
}

add-at_scope_example : at_scope (some "shop") "q" (add (rule "q" "x" []) (some "shop") shop) ≡ (
    if same_scope (given (some "shop")) (some "shop") && str_eq "q" "q"
    then some (rule "q" "x" [])
    else at_scope (some "shop") "q" shop)
add-at_scope_example = add-at_scope (rule "q" "x" []) (some "shop") (some "shop") "q" shop

get-owner_example : get "s" (some "shop") shop ≡ at_scope (owner "s" (some "shop") shop) "s" shop
get-owner_example = get-owner "s" (some "shop") shop

delete-at_scope_example : at_scope none "s" (delete "s" (some "shop") shop).0 ≡ (
    if same_scope (owner "s" (some "shop") shop) none && str_eq "s" "s"
    then none
    else at_scope none "s" shop)
delete-at_scope_example = delete-at_scope "s" (some "shop") none "s" shop

update-at_scope_example :
    at_scope none "s" (update "s" (set_pattern "b" ∷ []) (some "shop") shop).0 ≡ (
      if same_scope (owner "s" (some "shop") shop) none && str_eq "s" "s"
      then updated (set_pattern "b" ∷ []) (at_scope none "s" shop)
      else at_scope none "s" shop)
update-at_scope_example = update-at_scope "s" (set_pattern "b" ∷ []) (some "shop") none "s" shop

candidates-get_example :
    (Dict.get "r" (candidates (some "shop") shop)
      ≡ or_else (Dict.get "r" shop.global) (Dict.get "r" (rules_of shop "shop")))
    × (get "r" (some "shop") shop
        ≡ or_else (Dict.get "r" (rules_of shop "shop")) (Dict.get "r" shop.global))
unfolding rules_of Dict.get
candidates-get_example =
    candidates-get "shop" "r" shop (λ same. ground (arith, ap (str_eq "shop") same))
      (refl, (refl, tt)) (refl, tt)

match-IsDescending_example :
    IsDescending engine (match engine "abc" (some "shop") 10 shop)
    × ((p : RuleMatch ℕ → Bool)
        → tally engine p (match engine "abc" (some "shop") 10 shop)
          ≡ hits engine p "abc" 10 (candidates (some "shop") shop))
match-IsDescending_example =
    match-IsDescending engine "abc" (some "shop") 10 shop (λ x y h. ground (arith, h))

-- The better match comes first.
best_first : map (λ m. m.rule.id) (match engine "abc" (some "shop") 10 shop) ≡ "s" ∷ "r" ∷ []
unfolding match Dict.put Dict.get
best_first = refl

get-get_enforcements_example :
    Dict.get "tz" (get_enforcements engine "abc" (some "shop") 10 shop)
    ≡ best_value "tz" (match engine "abc" (some "shop") 10 shop)
get-get_enforcements_example = get-get_enforcements engine "abc" (some "shop") 10 shop "tz"

-- The rule of the domain is not among the candidates, so its time zone is not enforced.
tz_lost : Dict.get "tz" (get_enforcements engine "abc" (some "shop") 10 shop) ≡ none
unfolding get_enforcements Dict.get match Dict.put partition
tz_lost = refl

precision_kept :
    Dict.get "precision" (get_enforcements engine "abc" (some "shop") 10 shop) ≡ some "2"
unfolding get_enforcements Dict.get match Dict.put partition
precision_kept = refl

list_all-IsAscending_example :
    IsAscending (list_all (some "shop") shop)
    × ((p : BusinessRule → Bool)
        → Listing.tally p (list_all (some "shop") shop) ≡ asked p (some "shop") shop)
list_all-IsAscending_example = list_all-IsAscending (some "shop") shop
