-- ===== src/Tests/SelfHeal.antt =====
-- Examples of app/core/self_heal.py: a generator that corrects on the second call.
use data_engineer.Prelude.{
  ℕ, ◌+◌, String, true, none, some, List, [], ◌∷◌, ◌≡◌, refl, ◌==◌, length, str_eq, if◌then◌else◌,
}
use data_engineer.Prelude.Text.{codes}
use data_engineer.Prelude.Exec.{ok, ◌>>=◌, modify, answer}
use data_engineer.Prelude.World.{With}
use data_engineer.Core.SelfHeal.{
  Platform, SqlCandidate, HistoryEntry, retry_until_valid, total_errors, analyse_errors,
  is_blocking,
}
use data_engineer.Core.SelfHeal.Classes.{total_errors-analyse_errors}
use data_engineer.Core.SelfHeal.Rounds.{EndsAs, retry_until_valid-EndsAs}

abbrev candidate : String → SqlCandidate ℕ (Unit {0})
candidate sql_text = record {
  id = "c";
  sql_text = sql_text;
  confidence = 9;
  generation_mode = "primary";
  reasoning = "";
  dialect = "ansi";
  other = tt;
}

abbrev platform : Platform ℕ (Unit {0}) ℕ
platform = record {
  to_upper = codes;
  show = λ n. "n";
  healed_confidence = λ n. n;
  accepted_confidence = 7;
  generator = some (λ prompt n. (ok (candidate (if n == 0 then "bad" else "good") ∷ []), n + 1));
  validator = some (λ sql n. (
    ok (record {
      passed = str_eq sql "good";
      syntax_errors = "SYNTAX" ∷ [];
      schema_errors = [];
      type_errors = [];
    }),
    n,
  ));
  dialect = none;
}

abbrev start : With (List HistoryEntry) ℕ
start = record { own = []; world = 0 }

retry_until_valid-EndsAs_example :
    EndsAs platform.validator
      (retry_until_valid platform "bad" ("PARSE" ∷ []) start).0
      (retry_until_valid platform "bad" ("PARSE" ∷ []) start).1.own
retry_until_valid-EndsAs_example = retry_until_valid-EndsAs platform "bad" ("PARSE" ∷ []) start

two_rounds : length (retry_until_valid platform "bad" ("PARSE" ∷ []) start).1.own ≡ 2
unfolding retry_until_valid ◌>>=◌ modify answer
two_rounds = refl

total_errors-analyse_errors_example :
    total_errors (analyse_errors codes ("PARSE" ∷ "a TABLE" ∷ "x" ∷ [])) ≡ 3
total_errors-analyse_errors_example =
    total_errors-analyse_errors codes ("PARSE" ∷ "a TABLE" ∷ "x" ∷ [])

blocking : is_blocking (analyse_errors codes ("a TABLE" ∷ [])) ≡ true
unfolding analyse_errors is_blocking
blocking = refl
