-- ===== src/Agents/Negotiation.antt =====
-- app/agents/collaboration.py: `run_negotiation`, which asks the user back when the query is
-- ambiguous.
use data_engineer.Prelude.{
  String, Bool, true, false, Option, none, some, List, [], ◌∷◌, ◌++◌, if◌then◌else◌, ◌&&◌,
}
use data_engineer.Prelude.Dict
use data_engineer.Prelude.Dict.{Dict, otherwise}
use data_engineer.Prelude.Value.{
  Value, null, int, pos, boolean, str, dict, list, end, field, truthy,
}
use data_engineer.Prelude.Exec.{Result, lift, pure, gets, modify, ◌>>=◌, ◌>>◌}
use data_engineer.Prelude.World.{on_own}
use data_engineer.Agents.Base.{
  AgentResult, BaseAgent, AgentRegistry, Act, done, get_agent, is_done, given, missing_agent,
  own_result,
}
use data_engineer.Agents.Pipeline.{attribute, run_step}

abbrev ambiguities_of : Option (Dict Value) → Value
ambiguities_of none = null
ambiguities_of (some fs) = otherwise (Dict.get "ambiguities" fs) null

abbrev is_list : Value → Bool
is_list (list vs) = true
is_list _ = false

unfoldable pub outcome : Bool → Value → AgentResult
outcome true count =
    own_result done
      (dict (
        field "negotiation_required" (boolean true) (
          field "ambiguity_count" count
            (field "message" (str "Ambiguity detected — user confirmation recommended") end))))
      []
outcome false count = own_result done (dict (field "negotiation_required" (boolean false) end)) []

abbrev store_interpretations : AgentResult → Dict Value → Dict Value
store_interpretations r context =
    if is_done r.status && is_list r.data_ then Dict.put "candidates" r.data_ context else context

-- `str(v)`; `len(v)` and `v > 0`, which raise on a value that has none.
pub record Sizes : Type 0 where
  pub show : Value → String
  pub len : Value → Result Value
  pub positive : Value → Result Bool

module _ (sizes : Sizes) {W : Type 0} where
  unfoldable pub count_ambiguities : Bool → Value → Act W (Unit {0})
  count_ambiguities false found = pure tt
  count_ambiguities true found = do
    n ← lift (sizes.len found)
    modify (on_own (Dict.put "ambiguities_detected" n))

  unfoldable pub note_sqr : AgentResult → Act W (Unit {0})
  unfolding count_ambiguities
  note_sqr r =
      if is_done r.status && given r.data_
      then (modify (on_own (Dict.put "sqr" r.data_))
          >> count_ambiguities (truthy (ambiguities_of (attribute r.data_)))
              (ambiguities_of (attribute r.data_)))
      else pure tt

  unfoldable pub understand_ambiguity : Option (BaseAgent W) → String → Act W (List AgentResult)
  unfolding note_sqr missing_agent
  understand_ambiguity none query_text = pure (missing_agent "nl_understander" ∷ [])
  understand_ambiguity (some agent) query_text = do
    r ← agent.execute (str query_text)
    note_sqr r
    pure (r ∷ [])

  unfoldable pub negotiate : Act W (List AgentResult)
  unfolding outcome
  negotiate = do
    count ← gets (λ s. otherwise (Dict.get "ambiguities_detected" s.own) (int (pos 0)))
    ambiguous ← lift (sizes.positive count)
    pure (outcome ambiguous count ∷ [])

  unfoldable pub run_negotiation : AgentRegistry W → String → Act W (List AgentResult)
  unfolding understand_ambiguity run_step negotiate get_agent
  run_negotiation registry query_text = do
    r1 ← understand_ambiguity (get_agent "nl_understander" registry) query_text
    r2 ←
        run_step sizes.show [] (λ r context. context) (get_agent "schema_retriever" registry)
          (str query_text)
    sqr ← gets (λ s. otherwise (Dict.get "sqr" s.own) null)
    r3 ← run_step sizes.show [] store_interpretations (get_agent "sql_generator" registry) (
        dict (
          field "sqr" sqr (
            field "num_candidates" (int (pos 3)) (field "strategy" (str "multi_perspective") end))))
    r4 ← negotiate
    pure (r1 ++ r2 ++ r3 ++ r4)
