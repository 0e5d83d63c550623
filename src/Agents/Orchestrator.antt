-- ===== src/Agents/Orchestrator.antt =====
-- app/agents/orchestrator.py: the choice of a mode for a query, its run and the report of it.
pub mod Complexity
pub mod Synthesis
pub mod Reports
pub mod Modes
pub mod Execute
use data_engineer.Prelude.{
  String, Bool, true, false, Option, none, some, List, [], ◌∷◌, if◌then◌else◌, ◌&&◌,
}
use data_engineer.Prelude.Dict
use data_engineer.Prelude.Dict.{Dict, otherwise}
use data_engineer.Prelude.Value.{
  Value, null, str, dict, obj, list, Items, nil, cons, Fields, end, field, entries, truthy,
}
use data_engineer.Prelude.Exec.{
  Exec, Exn, failure, infrastructure, cancelled, Result, ok, raised, lift, ◌>>=◌,
}
use data_engineer.Prelude.World.{With}
use data_engineer.Agents.Base.{
  AgentResult, AgentRegistry, Act, AgentStatus, idle, busy, done, error, is_done, fields_of,
}
use data_engineer.Agents.Pipeline.{run_pipeline}
use data_engineer.Agents.Retry.{Texts, run_retry_correction}
use data_engineer.Agents.Debate.{Debate, run_parallel_debate}
use data_engineer.Agents.Negotiation.{Sizes, run_negotiation}
use data_engineer.Agents.MultiStep.{Splitter, run_multi_step}
use data_engineer.Agents.Orchestrator.Complexity.{TaskBreakdown, analyze_complexity}
use data_engineer.Agents.Orchestrator.Synthesis.{Conflict, synthesize, collect_conflicts}

pub record OrchestratorResult : Type 0 where
  pub trace_id : String
  pub status : String
  pub task_breakdown : TaskBreakdown
  pub agent_results : List AgentResult
  pub final_output : Dict Value
  pub conflict_resolutions : List Conflict
  pub total_latency_ms : Value
  pub collaboration_mode_used : String

-- What the orchestrator has of the platform: what its modes use, `str.lower`, `re.search`, `str` of
-- an exception, `uuid.uuid4`, the clock, the time between two of its readings in rounded
-- milliseconds, and `.lower()` of a value that may be no text.
pub record Services (W : Type 0) : Type 0 where
  pub texts : Texts
  pub debate : Debate W
  pub sizes : Sizes
  pub splitter : Splitter
  pub lower : String → String
  pub search : String → String → Bool
  pub message : Exn → String
  pub new_id : W → String × W
  pub perf_counter : W → Value × W
  pub elapsed_ms : Value → Value → Value
  pub as_text : Value → Result String

pub record OrchestratorAgent (W : Type 0) : Type 0 where
  pub registry : AgentRegistry W
  pub default_mode : String

-- `a or b` of texts.
abbrev pub or_text : String → String → String
or_text String.[] b = b
or_text a b = a

unfoldable pub all_done : List AgentResult → Bool
all_done [] = true
all_done (r ∷ rs) = is_done r.status && all_done rs

module _ {W : Type 0} (services : Services W) (orchestrator : OrchestratorAgent W) where
  unfoldable pub mode_runners : Dict (String → Act W (List AgentResult))
  unfolding run_pipeline run_retry_correction run_parallel_debate run_negotiation run_multi_step
  mode_runners =
      ("pipeline", run_pipeline services.texts.show orchestrator.registry)
      ∷ ("retry_correction", run_retry_correction services.texts 3 orchestrator.registry)
      ∷ ("parallel_debate", run_parallel_debate services.debate 3 orchestrator.registry)
      ∷ ("negotiation", run_negotiation services.sizes orchestrator.registry)
      ∷ ("multi_step", run_multi_step services.splitter orchestrator.registry)
      ∷ []

  unfoldable pub run_mode : String → String → Act W (List AgentResult)
  unfolding mode_runners run_pipeline
  run_mode selected_mode =
      otherwise (Dict.get selected_mode mode_runners)
        (run_pipeline services.texts.show orchestrator.registry)

  -- `mode or breakdown.collaboration_mode or self._default_mode`
  unfoldable pub selected : Option String → TaskBreakdown → String
  selected mode breakdown =
      or_text (otherwise mode "") (or_text breakdown.collaboration_mode orchestrator.default_mode)

  -- The report of a mode that raised, and of one that returned.
  unfoldable pub failed_run : String → TaskBreakdown → String → Exn → Value → OrchestratorResult
  failed_run trace_id breakdown mode e elapsed = record {
    trace_id = trace_id;
    status = "failed";
    task_breakdown = breakdown;
    agent_results = [];
    final_output = ("error", str (services.message e)) ∷ [];
    conflict_resolutions = [];
    total_latency_ms = elapsed;
    collaboration_mode_used = mode;
  }

  unfoldable pub finished_run :
      String → TaskBreakdown → String → List AgentResult → Dict Value → Value → OrchestratorResult
  unfolding all_done synthesize collect_conflicts
  finished_run trace_id breakdown mode agent_results ctx elapsed = record {
    trace_id = trace_id;
    status = if all_done agent_results then "completed" else "partial";
    task_breakdown = breakdown;
    agent_results = agent_results;
    final_output = synthesize services.texts.show agent_results ctx;
    conflict_resolutions = collect_conflicts agent_results;
    total_latency_ms = elapsed;
    collaboration_mode_used = mode;
  }

  -- After the mode: `except Exception`, which lets only a cancellation through.
  unfoldable pub close_run :
      String
      → Value
      → TaskBreakdown
      → String
      → Result (List AgentResult)
      → With (Dict Value) W
      → Result OrchestratorResult × W
  unfolding failed_run finished_run
  close_run trace_id t0 breakdown mode (ok agent_results) s =
      let (t1, w) = services.perf_counter s.world in
      (ok (finished_run trace_id breakdown mode agent_results s.own (services.elapsed_ms t0 t1)), w)
  close_run trace_id t0 breakdown mode (raised cancelled) s = (raised cancelled, s.world)
  close_run trace_id t0 breakdown mode (raised e) s =
      let (t1, w) = services.perf_counter s.world in
      (ok (failed_run trace_id breakdown mode e (services.elapsed_ms t0 t1)), w)

  unfoldable pub run : String → Dict Value → Option String → Exec W OrchestratorResult
  unfolding run_mode close_run selected analyze_complexity
  run query_text context mode w =
      let (trace_id, w1) = services.new_id w in
      let (t0, w2) = services.perf_counter w1 in
      let breakdown = analyze_complexity services.lower services.search query_text in
      let (r, s) =
        run_mode (selected mode breakdown) query_text
          (record { own = Dict.put "query_text" (str query_text) context; world = w2 }) in
      close_run trace_id t0 breakdown (selected mode breakdown) r s
