-- ===== src/Agents/Pipeline.antt =====
-- app/agents/collaboration.py: `run_pipeline`, and the steps that it shares with the other modes.
pub mod Unchecked
use data_engineer.Prelude.{
  String, Bool, true, false, ◌&&◌, not, Option, none, some, List, [], ◌∷◌, ◌++◌, if◌then◌else◌,
}
use data_engineer.Prelude.Dict
use data_engineer.Prelude.Dict.{Dict, otherwise}
use data_engineer.Prelude.Value.{
  Value, null, str, dict, obj, list, boolean, Items, nil, cons, Fields, end, field, entries, truthy,
}
use data_engineer.Prelude.Exec.{Exec, pure, gets, modify, ◌>>=◌, ◌>>◌}
use data_engineer.Prelude.World.{With, on_own}
use data_engineer.Agents.Base.{
  AgentResult, BaseAgent, AgentRegistry, Act, get_agent, is_done, given, fields_of, as_dict,
  missing_agent, skip_result,
}

-- `data[0].sql_text if hasattr(data[0], "sql_text") else str(data[0])`; `show` is `str`.
abbrev pub attribute : Value → Option (Dict Value)
attribute (obj fs) = some (entries fs)
attribute _ = none

unfoldable pub sql_of : (Value → String) → Value → Value
sql_of show v = elim (attribute v) [
  | none ↦ str (show v)
  | some fs ↦ otherwise (Dict.get "sql_text" fs) (str (show v))
]

module _ (show : Value → String) where
  abbrev pub store_sqr : AgentResult → Dict Value → Dict Value
  store_sqr r context =
      if is_done r.status && given r.data_ then Dict.put "sqr" r.data_ context else context

  abbrev store_schema_of : Option (Dict Value) → Dict Value → Dict Value
  store_schema_of none context = context
  store_schema_of (some found) context =
      Dict.put "rules" (otherwise (Dict.get "rules" found) (list nil)) (
        Dict.put "terms" (otherwise (Dict.get "terms" found) (list nil)) (
          Dict.put "tables" (otherwise (Dict.get "tables" found) (list nil)) (
            Dict.put "filtered_schema" (otherwise (Dict.get "filtered_schema" found) null)
              context)))

  abbrev pub store_schema : AgentResult → Dict Value → Dict Value
  store_schema r context =
      if is_done r.status then store_schema_of (as_dict r.data_) context else context

  abbrev store_candidates_of : Value → Dict Value → Dict Value
  store_candidates_of (list (cons v vs)) context =
      Dict.put "sql" (sql_of show v) (Dict.put "candidates" (list (cons v vs)) context)
  store_candidates_of _ context = context

  abbrev store_candidates : AgentResult → Dict Value → Dict Value
  store_candidates r context =
      if is_done r.status then store_candidates_of r.data_ context else context

  abbrev store_verdict_of : Option (Dict Value) → Dict Value → Dict Value
  store_verdict_of none context = context
  store_verdict_of (some found) context =
      Dict.put "validation_report" (otherwise (Dict.get "report" found) null)
        (Dict.put "validation_passed" (otherwise (Dict.get "passed" found) (boolean false)) context)

  abbrev store_verdict : AgentResult → Dict Value → Dict Value
  store_verdict r context =
      if is_done r.status then store_verdict_of (as_dict r.data_) context else context

  module _ {W : Type 0} where
    -- One step: the agent runs, and `store` keeps what it returned; `absent` are the results if the
    -- agent is not registered.
    unfoldable pub run_step :
        List AgentResult
        → (AgentResult → Dict Value → Dict Value)
        → Option (BaseAgent W)
        → Value
        → Act W (List AgentResult)
    run_step absent store none input = pure absent
    run_step absent store (some agent) input = do
      r ← agent.execute input
      modify (on_own (store r))
      pure (r ∷ [])

    unfoldable pub understand :
        List AgentResult → AgentRegistry W → String → Act W (List AgentResult)
    unfolding run_step get_agent
    understand absent registry query_text =
        run_step absent store_sqr (get_agent "nl_understander" registry) (str query_text)

    unfoldable pub retrieve : AgentRegistry W → String → Act W (List AgentResult)
    unfolding run_step get_agent missing_agent
    retrieve registry query_text =
        run_step (missing_agent "schema_retriever" ∷ []) store_schema
          (get_agent "schema_retriever" registry) (str query_text)

    unfoldable pub generate : AgentRegistry W → Act W (List AgentResult)
    unfolding run_step get_agent missing_agent sql_of
    generate registry = do
      context ← gets (λ s. s.own)
      run_step (missing_agent "sql_generator" ∷ []) store_candidates
          (get_agent "sql_generator" registry) (dict (fields_of context))

    unfoldable pub validate : AgentRegistry W → Act W (List AgentResult)
    unfolding run_step get_agent missing_agent
    validate registry = do
      sql ← gets (λ s. otherwise (Dict.get "sql" s.own) (str ""))
      run_step (missing_agent "sql_validator" ∷ []) store_verdict
          (get_agent "sql_validator" registry) sql

    -- The fifth step, with the agent and the SQL of the context.
    unfoldable pub run_tool : Option (BaseAgent W) → Value → Act W (List AgentResult)
    unfolding skip_result
    run_tool none sql = pure []
    run_tool (some agent) sql =
        if truthy sql
        then (agent.execute (dict (field "sql" sql end)) >>= λ r. pure (r ∷ []))
        else pure (skip_result "tool_executor" "No SQL to execute" ∷ [])

    unfoldable pub execute_tool : AgentRegistry W → Act W (List AgentResult)
    unfolding run_tool get_agent
    execute_tool registry = do
      sql ← gets (λ s. otherwise (Dict.get "sql" s.own) null)
      run_tool (get_agent "tool_executor" registry) sql

    unfoldable pub run_pipeline : AgentRegistry W → String → Act W (List AgentResult)
    unfolding understand retrieve generate validate execute_tool missing_agent
    run_pipeline registry query_text = do
      r1 ← understand (missing_agent "nl_understander" ∷ []) registry query_text
      r2 ← retrieve registry query_text
      r3 ← generate registry
      r4 ← validate registry
      r5 ← execute_tool registry
      pure (r1 ++ r2 ++ r3 ++ r4 ++ r5)
