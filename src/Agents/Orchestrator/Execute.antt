-- ===== src/Agents/Orchestrator/Execute.antt =====
-- app/agents/orchestrator.py: `execute`, the orchestrator as an agent. Its result holds the report
-- of the run as an object with the fields of its dataclass.
use data_engineer.Prelude.{String, none, List, [], ◌∷◌, if◌then◌else◌, str_eq}
use data_engineer.Prelude.Dict
use data_engineer.Prelude.Dict.{Dict, otherwise}
use data_engineer.Prelude.Value.{
  Value, null, str, dict, obj, list, Items, nil, cons, end, field, entries, truthy,
}
use data_engineer.Prelude.Exec.{Result, ok, lift, pure, gets, ◌>>=◌}
use data_engineer.Prelude.World.{outside}
use data_engineer.Agents.Base.{AgentResult, AgentStatus, idle, busy, done, error, Act, fields_of}
use data_engineer.Agents.Debate.{of_items}
use data_engineer.Agents.Orchestrator.{OrchestratorResult, OrchestratorAgent, Services, run}
use data_engineer.Agents.Orchestrator.Complexity.{TaskBreakdown}
use data_engineer.Agents.Orchestrator.Synthesis.{Conflict}

abbrev texts_of : List String → Items
texts_of [] = nil
texts_of (t ∷ ts) = cons (str t) (texts_of ts)

abbrev status_text : AgentStatus → String
status_text idle = "idle"
status_text busy = "busy"
status_text done = "done"
status_text error = "error"

abbrev result_value : AgentResult → Value
result_value r = obj (
    field "agent_name" (str r.agent_name) (
      field "status" (str (status_text r.status)) (
        field "data" r.data_ (
          field "errors" (list (texts_of r.errors))
            (field "metadata" (dict (fields_of r.metadata)) end)))))

abbrev result_values : List AgentResult → Items
result_values [] = nil
result_values (r ∷ rs) = cons (result_value r) (result_values rs)

unfoldable pub conflict_value : Conflict → Value
conflict_value c = dict (
    field "agent" (str c.agent) (
      field "type" (str "agent_error")
        (field "errors" (list (texts_of c.errors)) (field "resolution" (str "logged") end))))

abbrev conflict_values : List Conflict → Items
conflict_values [] = nil
conflict_values (c ∷ cs) = cons (conflict_value c) (conflict_values cs)

abbrev breakdown_value : TaskBreakdown → Value
breakdown_value b = obj (
    field "original_query" (str b.original_query) (
      field "subtasks" (list (of_items b.subtasks)) (
        field "complexity" (str b.complexity) (
          field "collaboration_mode" (str b.collaboration_mode)
            (field "reason" (str b.reason) end)))))

abbrev report_value : OrchestratorResult → Value
report_value o = obj (
    field "trace_id" (str o.trace_id) (
      field "status" (str o.status) (
        field "task_breakdown" (breakdown_value o.task_breakdown) (
          field "agent_results" (list (result_values o.agent_results)) (
            field "final_output" (dict (fields_of o.final_output)) (
              field "conflict_resolutions" (list (conflict_values o.conflict_resolutions)) (
                field "total_latency_ms" o.total_latency_ms
                  (field "collaboration_mode_used" (str o.collaboration_mode_used) end))))))))

unfoldable pub as_result : OrchestratorResult → AgentResult
as_result o = record {
  agent_name = "orchestrator";
  status = if str_eq o.status "completed" then done else error;
  data_ = report_value o;
  errors = [];
  metadata =
      ("trace_id", str o.trace_id)
      ∷ ("collaboration_mode", str o.collaboration_mode_used)
      ∷ ("total_latency_ms", o.total_latency_ms)
      ∷ [];
}

abbrev or_value : Value → Value → Value
or_value a b = if truthy a then a else b

module _ {W : Type 0} (services : Services W) (orchestrator : OrchestratorAgent W) where
  -- The text of the input; `.lower()` raises on what stands there and is no text.
  unfoldable pub query_text_of : Value → Result String
  query_text_of (str t) = ok t
  query_text_of (dict fs) = services.as_text (
      or_value (otherwise (Dict.get "query_text" (entries fs)) null)
        (or_value (otherwise (Dict.get "nl_text" (entries fs)) null) (str "")))
  query_text_of _ = ok ""

  unfoldable pub execute : Value → Act W AgentResult
  unfolding run query_text_of as_result
  execute input = do
    query_text ← lift (query_text_of input)
    context ← gets (λ s. s.own)
    o ← outside (run services orchestrator query_text context none)
    pure (as_result o)
