-- ===== src/Knowledge/RuleEngine/Enforce.antt =====
-- app/knowledge/rule_engine.py: `get_enforcements`, the directives of the rules that match.
use Prim.Native.Char.{Char, code}
use data_engineer.Prelude.{
  String, Option, none, some, List, [], ◌∷◌, ◌==◌, ◌≡◌, arith, str_eq, eq_iff, if◌then◌else◌,
}
use data_engineer.Prelude.Dict
use data_engineer.Prelude.Dict.{Dict, contains, get-put, get_none-contains, contains-get, or_else}
use data_engineer.Knowledge.RuleEngine.{RuleEngine}
use data_engineer.Knowledge.RuleEngine.Match.{Engine, RuleMatch, match}

-- `directive.partition("=")`, if there is an equals sign.
abbrev cons_key : Char → Option (String × String) → Option (String × String)
cons_key c none = none
cons_key c (some (key, value)) = some (String.◌∷◌ c key, value)

unfoldable pub partition : String → Option (String × String)
partition String.[] = none
partition (String.◌∷◌ c s) =
    let rest = cons_key c (partition s) in if code c == 61 then some ("", s) else rest

unfoldable pub enforce_pair : Option (String × String) → Dict String → Dict String
enforce_pair none enforcements = enforcements
enforce_pair (some (key, value)) enforcements =
    if contains key enforcements then enforcements else Dict.put key value enforcements

unfoldable pub enforce_all : List String → Dict String → Dict String
unfolding enforce_pair
enforce_all [] enforcements = enforcements
enforce_all (directive ∷ directives) enforcements =
    enforce_all directives (enforce_pair (partition directive) enforcements)

unfoldable pub enforce_matches : {F : Type 0} → List (RuleMatch F) → Dict String → Dict String
unfolding enforce_all
enforce_matches [] enforcements = enforcements
enforce_matches (m ∷ ms) enforcements = enforce_matches ms (enforce_all m.rule.enforce enforcements)

unfoldable pub get_enforcements :
    {F : Type 0} → Engine F → String → Option String → F → RuleEngine → Dict String
unfolding enforce_matches
get_enforcements engine text domain threshold e =
    enforce_matches (match engine text domain threshold e) []

-- The value that the first directive for a key sets.
abbrev pub pair_value : String → Option (String × String) → Option String
pair_value key none = none
pair_value key (some (k, value)) = if str_eq k key then some value else none

abbrev pub first_value : String → List String → Option String
first_value key [] = none
first_value key (directive ∷ directives) =
    or_else (pair_value key (partition directive)) (first_value key directives)

abbrev pub best_value : {F : Type 0} → String → List (RuleMatch F) → Option String
best_value key [] = none
best_value key (m ∷ ms) = or_else (first_value key m.rule.enforce) (best_value key ms)

get-enforce_pair :
    (key : String) (p : Option (String × String)) (d : Dict String)
    → Dict.get key (enforce_pair p d) ≡ or_else (Dict.get key d) (pair_value key p)
unfolding enforce_pair
get-enforce_pair key none d = ground arith
get-enforce_pair key (some (k, value)) d =
    ground (arith, eq_iff k key, get-put key k value d, contains-get k d, get_none-contains k d)

get-enforce_all :
    (key : String) (directives : List String) (d : Dict String)
    → Dict.get key (enforce_all directives d)
      ≡ or_else (Dict.get key d) (first_value key directives)
unfolding enforce_all
get-enforce_all key [] d = ground arith
get-enforce_all key (directive ∷ directives) d = ground (
  arith,
  get-enforce_all key directives (enforce_pair (partition directive) d),
  get-enforce_pair key (partition directive) d,
)

get-enforce_matches :
    {F : Type 0} (key : String) (ms : List (RuleMatch F)) (d : Dict String)
    → Dict.get key (enforce_matches ms d) ≡ or_else (Dict.get key d) (best_value key ms)
unfolding enforce_matches
get-enforce_matches key [] d = ground arith
get-enforce_matches key (m ∷ ms) d = ground (
  arith,
  get-enforce_matches key ms (enforce_all m.rule.enforce d),
  get-enforce_all key m.rule.enforce d,
)

-- A directive's value is that of the best match that sets its key, and in that rule of the first
-- directive that sets it.
pub get-get_enforcements :
    {F : Type 0} (engine : Engine F) (text : String) (domain : Option String) (threshold : F)
    (e : RuleEngine) (key : String)
    → Dict.get key (get_enforcements engine text domain threshold e)
      ≡ best_value key (match engine text domain threshold e)
unfolding get_enforcements Dict.get
get-get_enforcements engine text domain threshold e key =
    get-enforce_matches key (match engine text domain threshold e) []
