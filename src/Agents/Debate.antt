-- ===== src/Agents/Debate.antt =====
-- app/agents/collaboration.py: `run_parallel_debate`, several generations at once and the best of
-- their candidates.
use data_engineer.Prelude.{
  ℕ, ◌-◌, zero, suc, String, Option, none, some, List, [], ◌∷◌, ◌++◌, length, map, if◌then◌else◌,
  ◌&&◌, ltb, str_eq,
}
use data_engineer.Prelude.Dict
use data_engineer.Prelude.Dict.{Dict, otherwise}
use data_engineer.Prelude.Value.{
  Value, null, int, pos, str, dict, list, Items, nil, cons, end, field, items,
}
use data_engineer.Prelude.Exec.{
  Exec, Exn, cancelled, Result, ok, raised, pure, gets, modify, ◌>>=◌, ◌>>◌,
}
use data_engineer.Prelude.World.{on_own, outside}
use data_engineer.Agents.Base.{
  AgentResult, BaseAgent, AgentRegistry, Act, done, error, get_agent, is_done, fields_of,
  missing_agent,
}
use data_engineer.Agents.Pipeline.{attribute, sql_of, run_step, understand}

-- `str` of a value and of an exception, `list.sort` by the confidence in descending order, and
-- `asyncio.gather(…, return_exceptions=True)`.
pub record Debate (W : Type 0) : Type 0 where
  pub show : Value → String
  pub message : Exn → String
  pub by_confidence : List Value → List Value
  pub gather : List (Exec W AgentResult) → Exec W (List (Result AgentResult))

abbrev repeat : ℕ → String → List String
repeat zero s = []
repeat (suc n) s = s ∷ repeat n s

abbrev first_n : ℕ → List String → List String
first_n zero xs = []
first_n (suc n) [] = []
first_n (suc n) (x ∷ xs) = x ∷ first_n n xs

abbrev two_strategies : List String
two_strategies = "temperature" ∷ "multi_perspective" ∷ []

unfoldable pub strategies_for : ℕ → List String
strategies_for num_candidates = first_n num_candidates (
    if ltb 2 num_candidates
    then two_strategies ++ repeat (num_candidates - 2) "temperature"
    else two_strategies)

abbrev pub of_items : List Value → Items
of_items [] = nil
of_items (v ∷ vs) = cons v (of_items vs)

abbrev list_of : Value → List Value
list_of (list vs) = items vs
list_of _ = []

-- The candidates of every generation that is done.
unfoldable pub all_candidates : List AgentResult → List Value
all_candidates [] = []
all_candidates (r ∷ rs) =
    (if str_eq r.agent_name "sql_generator" && is_done r.status then list_of r.data_ else [])
    ++ all_candidates rs

abbrev confidence_of : Option (Dict Value) → Value
confidence_of none = null
confidence_of (some fs) = otherwise (Dict.get "confidence" fs) null

unfoldable pub complete : List Value → Value → AgentResult
complete candidates best = record {
  agent_name = "orchestrator";
  status = done;
  data_ = dict (
      field "synthesis" (str "parallel_debate_complete")
        (field "candidate_count" (int (pos (length candidates))) end));
  errors = [];
  metadata = ("best_confidence", confidence_of (attribute best)) ∷ [];
}

module _ {W : Type 0} (d : Debate W) where
  -- One generation, on a copy of the context.
  unfoldable pub generate_one : BaseAgent W → Dict Value → String → Exec W AgentResult
  generate_one agent context strategy w =
      let ctx =
        Dict.put "num_candidates" (int (pos 1)) (Dict.put "strategy" (str strategy) context) in
      let (r, s) = agent.execute (dict (fields_of ctx)) (record { own = ctx; world = w }) in
      (r, s.world)

  -- What one of the gathered results adds: an `Exception` is reported, a cancellation is not.
  unfoldable pub gathered : Result AgentResult → List AgentResult
  gathered (ok r) = r ∷ []
  gathered (raised cancelled) = []
  gathered (raised e) =
      record {
        agent_name = "sql_generator";
        status = error;
        data_ = null;
        errors = d.message e ∷ [];
        metadata = [];
      }
      ∷ []

  abbrev all_gathered : List (Result AgentResult) → List AgentResult
  all_gathered [] = []
  all_gathered (r ∷ rs) = gathered r ++ all_gathered rs

  unfoldable pub pick : List Value → Act W (List AgentResult)
  unfolding complete sql_of
  pick [] = pure []
  pick (best ∷ candidates) = do
    modify (on_own (Dict.put "candidates" (list (of_items (best ∷ candidates)))))
    modify (on_own (Dict.put "sql" (sql_of d.show best)))
    pure (complete (best ∷ candidates) best ∷ [])

  unfoldable pub debate : ℕ → List AgentResult → Option (BaseAgent W) → Act W (List AgentResult)
  unfolding generate_one gathered pick all_candidates strategies_for missing_agent
  debate num_candidates results none = pure (results ++ missing_agent "sql_generator" ∷ [])
  debate num_candidates results (some agent) = do
    context ← gets (λ s. s.own)
    parallel ← outside (d.gather (map (generate_one agent context) (strategies_for num_candidates)))
    best ← pick (d.by_confidence (all_candidates (results ++ all_gathered parallel)))
    pure (results ++ all_gathered parallel ++ best)

  unfoldable pub run_parallel_debate : ℕ → AgentRegistry W → String → Act W (List AgentResult)
  unfolding debate understand run_step get_agent
  run_parallel_debate num_candidates registry query_text = do
    r1 ← understand d.show [] registry query_text
    r2 ←
        run_step d.show [] (λ r context. context) (get_agent "schema_retriever" registry)
          (str query_text)
    debate num_candidates (r1 ++ r2) (get_agent "sql_generator" registry)
