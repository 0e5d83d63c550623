-- ===== src/Agents/Orchestrator/Modes.antt =====
-- app/agents/orchestrator.py: the mode of a run never depends on the default mode.
use data_engineer.Prelude.{String, Bool, Option, ◌≡◌, refl, true, false}
use data_engineer.Prelude.Dict.{Dict}
use data_engineer.Prelude.Value.{Value}
use data_engineer.Agents.Base.{AgentRegistry}
use data_engineer.Agents.Orchestrator.{
  OrchestratorAgent, Services, or_text, mode_runners, run_mode, selected, close_run, run,
}
use data_engineer.Agents.Orchestrator.Complexity.{TaskBreakdown, classify, analyze_complexity}

-- The mode of the analysis is there.
record Decided (b : TaskBreakdown) : Type 0 where
  at : (d : String) → or_text b.collaboration_mode d ≡ b.collaboration_mode

classify-Decided :
    (steps ambiguous complex medium : Bool) (query_text : String)
    → Decided (classify steps ambiguous complex medium query_text)
classify-Decided true ambiguous complex medium query_text = record { at = λ d. refl }
classify-Decided false true complex medium query_text = record { at = λ d. refl }
classify-Decided false false true medium query_text = record { at = λ d. refl }
classify-Decided false false false true query_text = record { at = λ d. refl }
classify-Decided false false false false query_text = record { at = λ d. refl }

analyze_complexity-Decided :
    (lower : String → String) (search : String → String → Bool) (query_text : String)
    → Decided (analyze_complexity lower search query_text)
unfolding analyze_complexity
analyze_complexity-Decided lower search query_text = classify-Decided _ _ _ _ query_text

module _ {W : Type 0} (services : Services W) (registry : AgentRegistry W) (d d' : String) where
  abbrev with_default : String → OrchestratorAgent W
  with_default default_mode = record { registry = registry; default_mode = default_mode }

  selected-default :
      (mode : Option String) (b : TaskBreakdown)
      → Decided b
      → selected services (with_default d) mode b ≡ selected services (with_default d') mode b
  unfolding selected
  selected-default mode b h = rw (h.at d, h.at d') refl

  -- The default mode that the orchestrator is made with is never used: two that differ only in it
  -- run every query alike.
  pub run-default_mode :
      (query_text : String) (context : Dict Value) (mode : Option String) (w : W)
      → run services (with_default d) query_text context mode w
        ≡ run services (with_default d') query_text context mode w
  unfolding run close_run run_mode mode_runners
  run-default_mode query_text context mode w =
      rw
        (selected-default mode (analyze_complexity services.lower services.search query_text)
          (analyze_complexity-Decided services.lower services.search query_text))
        refl
