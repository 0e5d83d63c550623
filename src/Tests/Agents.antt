-- ===== src/Tests/Agents.antt =====
-- Examples of app/agents: a validator that refuses everything, and a tool that counts its runs.
use data_engineer.Prelude.{ℕ, ◌+◌, String, false, true, ◌++◌, none, some, [], ◌∷◌, ◌≡◌, refl}
use data_engineer.Prelude.Dict
use data_engineer.Prelude.Dict.{Dict}
use data_engineer.Prelude.Value.{
  Value, null, boolean, str, dict, obj, list, nil, cons, end, field, truthy,
}
use data_engineer.Prelude.Exec.{ok, ◌>>=◌, pure, answer, modify}
use data_engineer.Prelude.Returned.{Yields}
use data_engineer.Prelude.World.{With, on_own}
use data_engineer.Agents.Base.{
  AgentResult, done, missing_agent, BaseAgent, AgentRegistry, get_agent,
}
use data_engineer.Agents.Pipeline.{run_pipeline, understand, retrieve, generate}
use data_engineer.Agents.Pipeline.Unchecked.{run_pipeline-Unchecked}
use data_engineer.Agents.Retry.{Texts, run_retry_correction}
use data_engineer.Agents.Retry.Rounds.{Corrected, run_retry_correction-Corrected}
use data_engineer.Agents.Debate.{strategies_for}
use data_engineer.Agents.MultiStep.{
  Splitter, pipeline, negotiation, select_mode, split_sub_queries, run_multi_step,
}
use data_engineer.Agents.MultiStep.Steps.{InBlocks, run_multi_step-InBlocks}
use data_engineer.Agents.Orchestrator.{OrchestratorAgent, Services, run}
use data_engineer.Agents.Orchestrator.Reports.{Closed, run-Closed}
use data_engineer.Agents.Orchestrator.Modes.{run-default_mode}

abbrev show : Value → String
show (str t) = t
show v = "None"

-- An agent that returns `r`, and a result that is done.
abbrev constant : {W : Type 0} → AgentResult → BaseAgent W
constant r = record { name = r.agent_name; execute = λ input. pure r }

abbrev done_with : String → Value → AgentResult
done_with name v = record {
  agent_name = name;
  status = done;
  data_ = v;
  errors = [];
  metadata = [];
}

abbrev proposal : AgentResult
proposal = done_with "sql_generator" (
    list (
      cons
        (obj (
          field "id" (str "c1") (field "sql_text" (str "DROP") (field "dialect" (str "ansi") end))))
        nil))

-- The report of a refusal, with the validator's metadata.
abbrev refusal : AgentResult
refusal = record {
  agent_name = "sql_validator";
  status = done;
  data_ = dict (
      field "passed" (boolean false)
        (field "report" (obj (field "syntax_errors" (list (cons (str "PARSE") nil)) end)) end));
  errors = "PARSE" ∷ [];
  metadata = ("strictness", str "strict") ∷ [];
}

-- An agent that also writes to the context.
abbrev note : String → BaseAgent ℕ → BaseAgent ℕ
note key agent = record agent {
  execute = λ input.
      (agent.execute input >>= λ r.
      modify (on_own (Dict.put key (boolean true))) >>= λ noted. pure r);
}

abbrev validator : BaseAgent ℕ
validator = note "judged" (constant refusal)

abbrev tool : BaseAgent ℕ
tool = record {
  name = "tool_executor";
  execute = λ input s. (ok (done_with "tool_executor" input), record s { world = s.world + 1 });
}

abbrev registry : AgentRegistry ℕ
registry =
    ("nl_understander", note "understood" (constant (done_with "nl_understander" null)))
    ∷ ("schema_retriever", note "retrieved" (constant (done_with "schema_retriever" null)))
    ∷ ("sql_generator", note "generated" (constant proposal))
    ∷ ("sql_validator", validator)
    ∷ ("tool_executor", tool)
    ∷ []

abbrev start : With (Dict Value) ℕ
start = record { own = []; world = 0 }

abbrev texts : Texts
texts = record { show = show; decimal = λ n. "n"; join = λ v. ok "errors" }

abbrev splitter : Splitter
splitter = record {
  show = show;
  decimal = λ n. "n";
  strip = λ t. t;
  split_steps = λ t. "count" ∷ "sum" ∷ [];
  split_sentences = λ t. t ∷ [];
}

abbrev services : Services ℕ
services = record {
  texts = texts;
  debate = record {
    show = show;
    message = λ e. "error";
    by_confidence = λ vs. vs;
    gather = λ actions. pure [];
  };
  sizes = record { show = show; len = λ v. ok v; positive = λ v. ok false };
  splitter = splitter;
  lower = λ t. t;
  search = λ pattern t. false;
  message = λ e. "error";
  new_id = λ w. ("id", w);
  perf_counter = λ w. (null, w);
  elapsed_ms = λ a b. null;
  as_text = λ v. ok "";
}

abbrev orchestrator : OrchestratorAgent ℕ
orchestrator = record { registry = registry; default_mode = "multi_step" }

abbrev understood : With (Dict Value) ℕ
understood = (understand show (missing_agent "nl_understander" ∷ []) registry "q" start).1

abbrev retrieved : With (Dict Value) ℕ
retrieved = (retrieve show registry "q" understood).1

abbrev generated : With (Dict Value) ℕ
generated = (generate show registry retrieved).1

abbrev judged : With (Dict Value) ℕ
judged = (validator.execute (str "DROP") generated).1

run_pipeline-Unchecked_example :
    (c : Dict Value) × (v : Value) × (Dict.get "validation_passed" c ≡ some v)
    × (truthy v ≡ false)
    × (Dict.get "sql" c ≡ some (str "DROP"))
    × (run_pipeline show registry "q" start
        ≡ (tool.execute (dict (field "sql" (str "DROP") end)) >>= λ r. pure (
              (done_with "nl_understander" null ∷ [])
              ++ (done_with "schema_retriever" null ∷ [])
              ++ (proposal ∷ [])
              ++ (refusal ∷ [])
              ++ (r ∷ [])))
            (record judged { own = c }))
unfolding run_pipeline ◌>>=◌ answer modify Dict.get Dict.put get_agent
run_pipeline-Unchecked_example =
    run_pipeline-Unchecked show registry "q" start understood retrieved generated judged
      (done_with "nl_understander" null ∷ []) (done_with "schema_retriever" null ∷ [])
      (proposal ∷ []) validator tool refusal
      (("passed", boolean false)
        ∷ ("report", obj (field "syntax_errors" (list (cons (str "PARSE") nil)) end))
        ∷ [])
      (str "DROP") refl refl refl refl refl refl refl refl refl refl refl

-- The refused text runs.
tool_runs : (run_pipeline show registry "q" start).1.world ≡ 1
unfolding run_pipeline ◌>>=◌ answer modify Dict.get Dict.put get_agent
tool_runs = refl

run_retry_correction-Corrected_example :
    Yields (Corrected texts 2 registry) (run_retry_correction texts 2 registry "q" start).0
run_retry_correction-Corrected_example = run_retry_correction-Corrected texts 2 registry "q" start

run_multi_step-InBlocks_example :
    Yields
      (InBlocks (split_sub_queries splitter "q"))
      (run_multi_step splitter registry "q" start).0
    × ((run_multi_step splitter registry "q" start).1.own ≡ start.own)
unfolding split_sub_queries
run_multi_step-InBlocks_example = run_multi_step-InBlocks splitter registry "q" start refl

two_parts : (run_multi_step splitter registry "q" start).1.world ≡ 2
unfolding run_multi_step ◌>>=◌ answer modify Dict.get Dict.put get_agent
two_parts = refl

run-Closed_example : Closed services (run services orchestrator "q" [] none 0).0
run-Closed_example = run-Closed services orchestrator "q" [] none 0

run-default_mode_example :
    run services orchestrator "q" [] none 0
    ≡ run services (record { registry = registry; default_mode = "negotiation" }) "q" [] none 0
run-default_mode_example =
    run-default_mode services registry "multi_step" "negotiation" "q" [] none 0

known_mode : select_mode "negotiation" ≡ negotiation
unfolding select_mode
known_mode = refl

unknown_mode : select_mode "vote" ≡ pipeline
unfolding select_mode
unknown_mode = refl

four_strategies :
    strategies_for 4 ≡ "temperature" ∷ "multi_perspective" ∷ "temperature" ∷ "temperature" ∷ []
unfolding strategies_for
four_strategies = refl
