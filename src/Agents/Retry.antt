-- ===== src/Agents/Retry.antt =====
-- app/agents/collaboration.py: `run_retry_correction`, the pipeline with a loop of corrections.
pub mod Rounds
use Prim.Native.String.{◌++◌ as concat}
use data_engineer.Prelude.{
  ℕ, ◌+◌, ◌==◌, zero, suc, String, Bool, true, false, Option, none, some, List, [], ◌∷◌, ◌++◌,
  if◌then◌else◌,
}
use data_engineer.Prelude.Dict
use data_engineer.Prelude.Dict.{Dict, otherwise}
use data_engineer.Prelude.Value.{Value, null, str, dict, list, Items, nil, cons, Fields, truthy}
use data_engineer.Prelude.Exec.{Exec, Result, ok, lift, pure, gets, modify, ◌>>=◌, ◌>>◌}
use data_engineer.Prelude.World.{With, on_own}
use data_engineer.Agents.Base.{
  AgentResult, BaseAgent, AgentRegistry, Act, error, get_agent, is_done, fields_of, as_dict,
  missing_agent, own_result,
}
use data_engineer.Agents.Pipeline.{attribute, sql_of, run_step, understand}

-- `str(v)` of a value and of a number, and `"; ".join(v)`, which raises if `v` is no sequence of
-- texts.
pub record Texts : Type 0 where
  pub show : Value → String
  pub decimal : ℕ → String
  pub join : Value → Result String

-- `vr.data.get("passed")`, which a result without a dictionary does not have.
abbrev pub is_passed : Option (Dict Value) → Bool
is_passed none = false
is_passed (some found) = truthy (otherwise (Dict.get "passed" found) null)

-- The first of the candidates, if the generator is done and has any.
abbrev first_of : Value → Option Value
first_of (list (cons v vs)) = some v
first_of _ = none

abbrev pub generated : AgentResult → Option Value
generated r = if is_done r.status then first_of r.data_ else none

abbrev errors_attribute : Option (Dict Value) → Option Value
errors_attribute none = none
errors_attribute (some fs) = Dict.get "errors" fs

-- `error_text or "Validation failed"`
abbrev or_failed : String → String
or_failed String.[] = "Validation failed"
or_failed error_text = error_text

module _ (texts : Texts) where
  unfoldable pub gave_up : ℕ → String → AgentResult
  gave_up max_rounds error_text = own_result error null (
      concat "Correction failed after "
        (concat (texts.decimal max_rounds) (concat " rounds: " error_text))
      ∷ [])

  abbrev report_text : Option (Dict Value) → Result String
  report_text none = ok ""
  report_text (some found) =
      elim (errors_attribute (attribute (otherwise (Dict.get "report" found) null))) [
        | none ↦ ok (texts.show (otherwise (Dict.get "report" found) (str "")))
        | some errors ↦ texts.join errors
      ]

  module _ {W : Type 0} (max_rounds : ℕ) where
    -- A report that did not pass goes into the context, and `rest` are the rounds that are left.
    unfoldable pub reject : ℕ → AgentResult → Act W (List AgentResult) → Act W (List AgentResult)
    unfolding gave_up
    reject round vr rest = do
      error_text ← lift (report_text (as_dict vr.data_))
      modify (on_own (Dict.put "correction_error" (str (or_failed error_text))))
      more ← rest
      pure ((if round == max_rounds then gave_up max_rounds error_text ∷ [] else []) ++ more)

    unfoldable pub judge_report :
        ℕ → AgentResult → Act W (List AgentResult) → Act W (List AgentResult)
    unfolding reject
    judge_report round vr rest =
        if is_passed (as_dict vr.data_)
        then pure (vr ∷ [])
        else (reject round vr rest >>= λ more. pure (vr ∷ more))

    unfoldable pub check_sql :
        Option (BaseAgent W) → ℕ → Value → Act W (List AgentResult) → Act W (List AgentResult)
    unfolding judge_report
    check_sql none round sql rest = pure []
    check_sql (some validator) round sql rest = do
      vr ← validator.execute sql
      judge_report round vr rest

    unfoldable pub correct_sql :
        Option (BaseAgent W)
        → ℕ
        → Option Value
        → Act W (List AgentResult)
        → Act W (List AgentResult)
    unfolding check_sql sql_of
    correct_sql validator round none rest = pure []
    correct_sql validator round (some candidate) rest = do
      modify (on_own (Dict.put "sql" (sql_of texts.show candidate)))
      check_sql validator round (sql_of texts.show candidate) rest

    unfoldable pub correction_round :
        BaseAgent W → Option (BaseAgent W) → ℕ → Act W (List AgentResult) → Act W (List AgentResult)
    unfolding correct_sql
    correction_round generator validator round rest = do
      context ← gets (λ s. s.own)
      r ← generator.execute (dict (fields_of context))
      more ← correct_sql validator round (generated r) rest
      pure (r ∷ more)

    -- The loop: `n` rounds are left, the next one is `round`.
    unfoldable pub correction_rounds :
        ℕ → BaseAgent W → Option (BaseAgent W) → ℕ → Act W (List AgentResult)
    unfolding correction_round
    correction_rounds zero generator validator round = pure []
    correction_rounds (suc n) generator validator round =
        correction_round generator validator round
          (correction_rounds n generator validator (round + 1))

    unfoldable pub corrections :
        Option (BaseAgent W) → Option (BaseAgent W) → Act W (List AgentResult)
    unfolding correction_rounds missing_agent
    corrections none validator = pure (missing_agent "sql_generator" ∷ [])
    corrections (some generator) validator = correction_rounds max_rounds generator validator 1

    unfoldable pub run_retry_correction : AgentRegistry W → String → Act W (List AgentResult)
    unfolding corrections understand run_step get_agent
    run_retry_correction registry query_text = do
      r1 ← understand texts.show [] registry query_text
      r2 ←
          run_step texts.show [] (λ r context. context) (get_agent "schema_retriever" registry)
            (str query_text)
      r3 ← corrections (get_agent "sql_generator" registry) (get_agent "sql_validator" registry)
      pure (r1 ++ r2 ++ r3)
