-- ===== src/Lib.antt =====
-- A verification library for the natural-language-to-SQL agent under app/.
--
-- The program answers a question in natural language by a fixed plan of nodes. `WorkflowRunner`
-- (app/harness/runner.py) checks the plan, runs the nodes one after the other with retries and
-- permissions, evaluates what they return and decides from that, never from a model, which node
-- comes next. Round it stand the limits and permissions of the harness, the budget of calls of the
-- model, a cache of questions and their SQL, the business rules that constrain what is generated,
-- and the subagents, each an orchestrator with its own agents and context. The orchestrator itself
-- runs its agents in one of five modes, which it chooses from the wording of the query.
--
-- The files and what they model:
--   Prelude, Prelude/         Python's dict, slices, text, values, sorted(set(...)), exceptions
--   Models/Workflow           app/models/workflow.py: plans, evaluations, traces, results
--   Models/Schema             app/models/schema.py: SchemaSnapshot; Format is format_for_llm
--   Nodes/                    app/nodes/base.py, registry.py: a node is a record of three actions
--   Harness/Constraint        app/harness/constraint.py: ConstraintEnforcer
--   Harness/Permission        app/harness/permission.py: PermissionManager
--   Harness/ActionHistory     app/harness/action_history.py: ActionHistoryManager
--   Harness/Evaluate          app/harness/runner.py: evaluate_result and the metric checkers
--   Harness/Runner/           app/harness/runner.py: _run. State holds the local variables, Checks
--                             the checks of the plan, Config and Attempt one attempt at a node,
--                             Route the choice of the next node, Run the loop, finish and the
--                             except branches; the other files there are proofs
--   Llm/Budget                app/llm/budget.py: reserve_llm_call
--   Cache/                    app/cache/query_cache.py: Entry is the data, QueryCache the operations
--   Knowledge/RuleEngine      app/knowledge/rule_engine.py: RuleEngine; Match is match and
--                             _match_pattern, Enforce is get_enforcements
--   Knowledge/Fusion          app/knowledge/retrieval/rrf_fusion.py: RRFFusion
--   Core/SelfHeal             app/core/self_heal.py: the classes of errors and the rounds of corrections
--   Harness/Compaction        app/harness/compaction.py: the limits of texts and lists
--   Agents/                   app/agents: Base is base.py and registry.py; Pipeline, Retry, Debate,
--                             Negotiation and MultiStep are the modes of collaboration.py;
--                             Orchestrator, with Complexity, Synthesis and Execute, is
--                             orchestrator.py; the other files there are proofs
--   Workflow/PlanSelector     app/workflow/plan_selector.py: Rules is the first layer's table, History
--                             the second layer, Answer and Prompt the third, Stats the outcomes
--   Subagent/                 app/subagent/instance.py, manager.py
--   Tests/                    runs on small inputs
--
-- Code that raises or changes state is an action on a state, `Exec S A = S → Result A × S`: what was
-- written before an exception stays written. Exceptions are an ordinary one with its text, the two
-- infrastructure errors as one, which the runner passes on, and a cancelled task. Where the code has
-- a state of its own beside what its callees act on, the state is a pair `With L W` (Prelude/World):
-- for an agent the context of the query and a world.
--
-- The loop of `_run` runs on fuel. Each round uses at least one iteration of the plan's
-- max_iterations or ends, so the max_iterations + 1 rounds that are given are enough. Every other
-- loop is structural, the loops of corrections by their number of rounds.
--
-- Objects that are shared stand in a store where a property depends on it: the budgets in
-- scope are references into a heap, since one budget can be in scope twice. A rule, a cache entry
-- and an instance are taken to stand in one container.
--
-- Parameters stand for what the files call: the nodes' bodies, sqlglot, SHA-256, `str.lower`,
-- `re`, floats, the vector store and the embedding generator, the agents' modules,
-- `asyncio.gather`, the history of the queries, the clock and the identifiers, and a
-- world that those act on. A number that the source keeps at 0 or above is a natural number.
--
-- Not modelled: timestamps, latencies and display texts; the file that a trace is written to (a
-- list of the traces that were handed to a write stands for it, each with what became of it: it was
-- written, an OSError was suppressed, or the task was cancelled meanwhile); texts with lone
-- surrogates, which have no encoding to write or to hash; values that a context and its copy share; the context variable that `run` sets round `_run`; nodes
-- that mutate the context they were given; tools that are not texts; the states IDLE and BUSY of an
-- agent; the clones of a schema, which share no object with it; the suggestions that are made from
-- the rates of the plans; the message bus and the traces of the agents; the YAML loaders; HTTP, the
-- databases, the model's SDK and the other packages of app/.
pub mod Agents
pub mod Prelude
pub mod Models
pub mod Nodes
pub mod Core
pub mod Workflow
pub mod Harness
pub mod Knowledge
pub mod Llm
pub mod Cache
pub mod Subagent
pub mod Tests
