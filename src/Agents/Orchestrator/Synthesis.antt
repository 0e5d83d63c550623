-- ===== src/Agents/Orchestrator/Synthesis.antt =====
-- app/agents/orchestrator.py: `_synthesize` and `_collect_conflicts`.
use data_engineer.Prelude.{
  String, Bool, true, false, Option, none, some, List, [], ◌∷◌, ◌++◌, if◌then◌else◌, str_eq,
}
use data_engineer.Prelude.Dict
use data_engineer.Prelude.Dict.{Dict, otherwise, contains}
use data_engineer.Prelude.Value.{Value, null, str, list, boolean, nil, cons, truthy}
use data_engineer.Agents.Base.{AgentResult, AgentStatus, error, as_dict}
use data_engineer.Agents.Pipeline.{attribute, sql_of}

-- A dictionary of `_collect_conflicts`, whose other entries are always "agent_error" and "logged".
pub record Conflict : Type 0 where
  pub agent : String
  pub errors : List String

abbrev has_intent : Option (Dict Value) → Bool
has_intent none = false
has_intent (some fs) = contains "intent" fs

module _ (show : Value → String) where
  abbrev add_schema : Option (Dict Value) → Dict Value → Dict Value
  add_schema none output = output
  add_schema (some found) output =
      Dict.put "rules" (otherwise (Dict.get "rules" found) (list nil)) (
        Dict.put "terms" (otherwise (Dict.get "terms" found) (list nil)) (
          Dict.put "tables" (otherwise (Dict.get "tables" found) (list nil))
            (Dict.put "schema" (otherwise (Dict.get "filtered_schema" found) null) output)))

  abbrev add_candidates : Value → Dict Value → Dict Value
  add_candidates (list nil) output = Dict.put "candidates" (list nil) output
  add_candidates (list (cons v vs)) output =
      Dict.put "sql" (sql_of show v) (Dict.put "candidates" (list (cons v vs)) output)
  add_candidates _ output = output

  abbrev add_verdict : Option (Dict Value) → Dict Value → Dict Value
  add_verdict none output = output
  add_verdict (some found) output =
      Dict.put "validation_passed" (otherwise (Dict.get "passed" found) (boolean false))
        (Dict.put "validation" (otherwise (Dict.get "report" found) null) output)

  abbrev add_execution : Value → Option (Dict Value) → Dict Value → Dict Value
  add_execution v none output = output
  add_execution v (some found) output =
      if truthy (otherwise (Dict.get "skipped" found) null)
      then Dict.put "tool_skipped" (str (show (otherwise (Dict.get "reason" found) (str ""))))
          output
      else Dict.put "execution_result" v output

  abbrev add_feedback : Value → Option (Dict Value) → Dict Value → Dict Value
  add_feedback v none output = output
  add_feedback v (some found) output = Dict.put "feedback" v output

  abbrev add_sqr : Value → Dict Value → Dict Value
  add_sqr v output = if has_intent (attribute v) then Dict.put "sqr" v output else output

  -- What one result adds to the output. A value that the branch of its agent does not take is
  -- tested by the other branches in vain, since they ask for another name.
  unfoldable pub add_output : AgentResult → Dict Value → Dict Value
  unfolding sql_of
  add_output r output =
      if str_eq r.agent_name "nl_understander"
      then add_sqr r.data_ output
      else (if str_eq r.agent_name "schema_retriever"
          then add_schema (as_dict r.data_) output
          else (if str_eq r.agent_name "sql_generator"
              then add_candidates r.data_ output
              else (if str_eq r.agent_name "sql_validator"
                  then add_verdict (as_dict r.data_) output
                  else (if str_eq r.agent_name "tool_executor"
                      then add_execution r.data_ (as_dict r.data_) output
                      else (if str_eq r.agent_name "feedback_processor"
                          then add_feedback r.data_ (as_dict r.data_) output
                          else output)))))

  unfoldable pub add_outputs : List AgentResult → Dict Value → Dict Value
  unfolding add_output
  add_outputs [] output = output
  add_outputs (r ∷ rs) output = add_outputs rs (add_output r output)

  unfoldable pub synthesize : List AgentResult → Dict Value → Dict Value
  unfolding add_outputs
  synthesize results context =
      add_outputs results (("query_text", otherwise (Dict.get "query_text" context) (str "")) ∷ [])

-- `status == ERROR and errors`
abbrev pub is_conflict : AgentStatus → List String → Bool
is_conflict error (e ∷ errors) = true
is_conflict _ _ = false

unfoldable pub collect_conflicts : List AgentResult → List Conflict
collect_conflicts [] = []
collect_conflicts (r ∷ rs) =
    (if is_conflict r.status r.errors
      then record { agent = r.agent_name; errors = r.errors } ∷ []
      else [])
    ++ collect_conflicts rs
