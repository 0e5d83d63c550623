-- ===== src/Core/SelfHeal.antt =====
-- app/core/self_heal.py: the loop that corrects SQL, and the classes of its errors. The question,
-- the schema and the domain are only passed on, so they are part of the generator and the validator.
pub mod Classes
pub mod Rounds
use Prim.Native.String.{◌++◌ as concat}
use data_engineer.Prelude.{
  str_eq, ℕ, ◌+◌, zero, suc, String, Bool, true, false, ◌||◌, Option, none, some, List, [], ◌∷◌,
  ◌++◌, map, take, length, ltb, if◌then◌else◌,
}
use data_engineer.Prelude.Text.{codes, is_infix, join_texts}
use data_engineer.Prelude.Exec.{Exec, Result, ok, pure, modify, ◌>>=◌, ◌>>◌}
use data_engineer.Prelude.World.{With, outside, on_own}

pub record ErrorAnalysis : Type 0 where
  pub syntax_errors : List String
  pub schema_errors : List String
  pub type_errors : List String
  pub execution_errors : List String
  pub unknown_errors : List String

unfoldable pub total_errors : ErrorAnalysis → ℕ
total_errors a =
    length a.syntax_errors
    + length a.schema_errors
    + length a.type_errors
    + length a.execution_errors
    + length a.unknown_errors

unfoldable pub is_blocking : ErrorAnalysis → Bool
is_blocking a = ltb 0 (length a.syntax_errors) || ltb 0 (length a.schema_errors)

abbrev pub no_errors : ErrorAnalysis
no_errors = record {
  syntax_errors = [];
  schema_errors = [];
  type_errors = [];
  execution_errors = [];
  unknown_errors = [];
}

-- `to_upper` is `str.upper`, as code points.
module _ (to_upper : String → List ℕ) where
  abbrev says : String → String → Bool
  says word err = is_infix (codes word) (to_upper err)

  -- The branch for one error.
  unfoldable pub classify : String → ErrorAnalysis → ErrorAnalysis
  unfolding is_infix
  classify err a =
      if says "SYNTAX" err || says "PARSE" err
      then record a { syntax_errors = a.syntax_errors ++ err ∷ [] }
      else if says "SCHEMA" err || says "TABLE" err || says "COLUMN" err
      then record a { schema_errors = a.schema_errors ++ err ∷ [] }
      else if says "TYPE" err || says "COMPATIB" err
      then record a { type_errors = a.type_errors ++ err ∷ [] }
      else if says "EXECUTION" err || says "ERROR:" err
      then record a { execution_errors = a.execution_errors ++ err ∷ [] }
      else record a { unknown_errors = a.unknown_errors ++ err ∷ [] }

  unfoldable pub classify_all : List String → ErrorAnalysis → ErrorAnalysis
  unfolding classify
  classify_all [] a = a
  classify_all (err ∷ errors) a = classify_all errors (classify err a)

  unfoldable pub analyse_errors : List String → ErrorAnalysis
  unfolding classify_all
  analyse_errors errors = classify_all errors no_errors

abbrev instruct : List String → String → List String → List String
instruct [] text parts = parts
instruct (e ∷ es) text parts = text ∷ parts

abbrev or_review : List String → List String
or_review [] = "- Review the SQL carefully and correct any issues." ∷ []
or_review (p ∷ parts) = p ∷ parts

unfoldable pub build_fix_instructions : ErrorAnalysis → String
unfolding join_texts
build_fix_instructions a = join_texts "\n" (
    or_review (
      instruct a.syntax_errors
        "- SYNTAX: Check SQL syntax — verify keywords, parentheses, quotes, and statement structure are correct."
        (instruct a.schema_errors
          "- SCHEMA: Verify all table and column names exist in the database schema. Check for typos and use fully qualified names (schema.table.column) where needed."
          (instruct a.type_errors
            "- TYPE: Ensure comparisons are between compatible types. Use CAST() or ::type to convert as needed."
            (instruct a.execution_errors
              "- EXECUTION: The query failed at runtime. Check for division by zero, invalid date formats, constraint violations, or NULL handling issues."
              [])))))

unfoldable pub build_error_context : String → List String → ErrorAnalysis → String
unfolding join_texts build_fix_instructions
build_error_context sql errors analysis = concat "Failed SQL:\n" (
    concat sql (
      concat "\n\nErrors:\n" (
        concat (join_texts "\n" (map (concat "  - ") (take 5 errors)))
          (concat "\n\n" (build_fix_instructions analysis)))))

-- `F` are floats, and `other` stands for the fields that are not touched.
pub record SqlCandidate (F X : Type 0) : Type 0 where
  pub id : String
  pub sql_text : String
  pub confidence : F
  pub generation_mode : String
  pub reasoning : String
  pub dialect : String
  pub other : X

pub record ValidationReport : Type 0 where
  pub passed : Bool
  pub syntax_errors : List String
  pub schema_errors : List String
  pub type_errors : List String

pub data Outcome : Type 0 where
  no_candidates no_generator passed accepted_no_validator still_failing : Outcome

pub record HistoryEntry : Type 0 where
  pub round : ℕ
  pub sql : String
  pub errors : List String
  pub result : Outcome

pub record Platform (F X W : Type 0) : Type 0 where
  pub to_upper : String → List ℕ
  -- `str(n)`
  pub show : ℕ → String
  -- `max(0.7 - round * 0.1, 0.3)`, and 0.7
  pub healed_confidence : ℕ → F
  pub accepted_confidence : F
  pub generator : Option (String → Exec W (List (SqlCandidate F X)))
  pub validator : Option (String → Exec W ValidationReport)
  pub dialect : Option String

abbrev pub or_ansi : Option String → String
or_ansi none = "ansi"
or_ansi (some d) = if str_eq d "" then "ansi" else d

abbrev pub push :
    {W : Type 0} → ℕ → String → List String → Outcome → Exec (With (List HistoryEntry) W) (Unit {0})
push round sql errors result = modify (
    on_own (λ history.
      history ++ record { round = round; sql = sql; errors = errors; result = result } ∷ []))

-- The loop, or what is left of it.
abbrev pub Healing : Type 0 → Type 0 → Type 0 → Type 0
Healing F X W = Exec (With (List HistoryEntry) W) (Option (SqlCandidate F X))

-- What is left of it, from the SQL, its errors and their analysis.
abbrev pub Rest : Type 0 → Type 0 → Type 0 → Type 0
Rest F X W = String → List String → ErrorAnalysis → Healing F X W

module _ {F X W : Type 0} (p : Platform F X W) where
  unfoldable pub healed : ℕ → SqlCandidate F X → SqlCandidate F X
  healed round c = record c {
    id = concat "heal_" (p.show round);
    confidence = p.healed_confidence round;
    generation_mode = "self_heal";
    reasoning = concat "Corrected after " (concat (p.show round) " retry(s)");
    dialect = or_ansi p.dialect;
  }

  unfoldable pub accepted : ℕ → SqlCandidate F X → SqlCandidate F X
  accepted round c = record c {
    id = concat "heal_" (p.show round);
    confidence = p.accepted_confidence;
    generation_mode = "self_heal";
    dialect = or_ansi p.dialect;
  }

  -- The end of a round with a report.
  unfoldable pub judge : ℕ → SqlCandidate F X → ValidationReport → Rest F X W → Healing F X W
  unfolding healed analyse_errors
  judge round c report rest =
      let errors = report.syntax_errors ++ report.schema_errors ++ report.type_errors in
      if report.passed
      then push round c.sql_text [] passed >> pure (some (healed round c))
      else push round c.sql_text errors still_failing
        >> rest c.sql_text errors (analyse_errors p.to_upper errors)

  unfoldable pub validate :
      Option (String → Exec W ValidationReport) → ℕ → SqlCandidate F X → Rest F X W → Healing F X W
  unfolding judge accepted outside
  validate none round c rest = do
    push round c.sql_text [] accepted_no_validator
    pure (some (accepted round c))
  validate (some validator) round c rest = do
    report ← outside (validator c.sql_text)
    judge round c report rest

  unfoldable pub correct :
      ℕ
      → String
      → List String
      → ErrorAnalysis
      → List (SqlCandidate F X)
      → Rest F X W
      → Healing F X W
  unfolding validate
  correct round sql errors analysis [] rest = do
    push round sql errors no_candidates
    rest sql errors analysis
  correct round sql errors analysis (c ∷ candidates) rest = validate p.validator round c rest

  unfoldable pub heal_round :
      Option (String → Exec W (List (SqlCandidate F X))) → ℕ → Rest F X W → Rest F X W
  unfolding correct build_error_context outside
  heal_round none round rest sql errors analysis = do push round sql errors no_generator; pure none
  heal_round (some generator) round rest sql errors analysis = do
    candidates ← outside (generator (build_error_context sql errors analysis))
    correct round sql errors analysis candidates rest

  -- `for round_num in range(round, round + n)`
  unfoldable pub heal_rounds : ℕ → ℕ → Rest F X W
  unfolding heal_round
  heal_rounds zero round sql errors analysis = pure none
  heal_rounds (suc n) round sql errors analysis =
      heal_round p.generator round (heal_rounds n (round + 1)) sql errors analysis

  abbrev pub max_rounds : ℕ
  max_rounds = 3

  unfoldable pub retry_until_valid : String → List String → Healing F X W
  unfolding heal_rounds analyse_errors
  retry_until_valid failed_sql errors = do
    modify (on_own (λ history. []))
    heal_rounds max_rounds 1 failed_sql errors (analyse_errors p.to_upper errors)
