-- ===== src/Agents/MultiStep.antt =====
-- app/agents/collaboration.py: `run_multi_step`, the pipeline for each part of a query, and the
-- choice of a mode by its name.
pub mod Steps
use Prim.Native.String.{◌++◌ as concat}
use data_engineer.Prelude.{
  ℕ, ◌+◌, String, Bool, true, false, Option, none, some, List, [], ◌∷◌, ◌++◌, length, map,
  if◌then◌else◌, str_eq, leb,
}
use data_engineer.Prelude.Dict
use data_engineer.Prelude.Dict.{Dict, otherwise}
use data_engineer.Prelude.Value.{
  Value, null, int, pos, boolean, str, dict, Fields, end, field, truthy,
}
use data_engineer.Prelude.Exec.{Exec, Result, ok, raised, pure, gets, ◌>>=◌, ◌>>◌}
use data_engineer.Prelude.World.{With, on_own}
use data_engineer.Agents.Base.{AgentResult, AgentRegistry, Act, done, own_result}
use data_engineer.Agents.Pipeline.{run_pipeline}

pub data CollaborationMode : Type 0 where
  pipeline retry_correction parallel_debate negotiation multi_step : CollaborationMode

abbrev pub mode_name : CollaborationMode → String
mode_name pipeline = "pipeline"
mode_name retry_correction = "retry_correction"
mode_name parallel_debate = "parallel_debate"
mode_name negotiation = "negotiation"
mode_name multi_step = "multi_step"

abbrev pub modes : List CollaborationMode
modes = pipeline ∷ retry_correction ∷ parallel_debate ∷ negotiation ∷ multi_step ∷ []

abbrev find_mode : String → List CollaborationMode → CollaborationMode
find_mode name [] = pipeline
find_mode name (m ∷ ms) = if str_eq (mode_name m) name then m else find_mode name ms

unfoldable pub select_mode : String → CollaborationMode
select_mode name = find_mode name modes

-- `str` of a value and of a number, `str.strip`, and `re.split` by the two patterns: the words for a
-- next step and the ends of sentences.
pub record Splitter : Type 0 where
  pub show : Value → String
  pub decimal : ℕ → String
  pub strip : String → String
  pub split_steps : String → List String
  pub split_sentences : String → List String

abbrev stripped : (String → String) → List String → List String
stripped strip [] = []
stripped strip (p ∷ ps) = (if truthy (str (strip p)) then strip p ∷ [] else []) ++ stripped strip ps

abbrev pub is_short : List String → Bool
is_short parts = leb (length parts) 1

abbrev beside : {A : Type 0} → Result A → Dict Value → Result (A × Dict Value)
beside (ok a) context = ok (a, context)
beside (raised e) context = raised e

-- An action on a context of its own, which comes back beside its value. `dict(context)` copies the
-- top level only; a value that an agent changes in place, which both copies share, is not modelled.
unfoldable pub on_copy : {W A : Type 0} → Dict Value → Act W A → Act W (A × Dict Value)
on_copy copy m s =
    let (r, t) = m (record s { own = copy }) in (beside r t.own, record t { own = s.own })

unfoldable pub tag_step : ℕ → AgentResult → AgentResult
tag_step i r = record r { metadata = Dict.put "sub_step" (int (pos i)) r.metadata }

unfoldable pub decomposed : ℕ → AgentResult
decomposed n =
    own_result done
      (dict (field "decomposed" (boolean true) (field "sub_query_count" (int (pos n)) end))) []

module _ (splitter : Splitter) where
  unfoldable pub split_sub_queries : String → List String
  split_sub_queries query_text =
      let parts = splitter.split_steps query_text in
      stripped splitter.strip
        (if is_short parts then splitter.split_sentences query_text else parts)

  -- `if sub_ctx.get(key): accumulated[f"step_{i}_{suffix}"] = sub_ctx[key]`
  abbrev carry : ℕ → String → Value → Dict Value → Dict Value
  carry i suffix v accumulated =
      if truthy v
      then Dict.put (concat "step_" (concat (splitter.decimal i) suffix)) v accumulated
      else accumulated

  unfoldable pub carry_forward : ℕ → Dict Value → Dict Value → Dict Value
  carry_forward i sub_ctx accumulated =
      carry i "_result" (otherwise (Dict.get "execution_result" sub_ctx) null)
        (carry i "_sql" (otherwise (Dict.get "sql" sub_ctx) null) accumulated)

  module _ {W : Type 0} (registry : AgentRegistry W) where
    -- One sub-query on a copy of what was accumulated, and what it carries forward.
    unfoldable pub sub_step : ℕ → String → Dict Value → Act W (List AgentResult × Dict Value)
    unfolding on_copy run_pipeline tag_step carry_forward
    sub_step i sub_q accumulated = do
      found ←
          on_copy
            (Dict.put "sub_step" (int (pos i))
              (Dict.put "query_text" (str (splitter.strip sub_q)) accumulated))
            (run_pipeline splitter.show registry (splitter.strip sub_q))
      pure (map (tag_step i) found.0, carry_forward i found.1 accumulated)

    unfoldable pub sub_steps : ℕ → List String → Dict Value → Act W (List AgentResult)
    unfolding sub_step
    sub_steps i [] accumulated = pure []
    sub_steps i (sub_q ∷ sub_queries) accumulated = do
      found ← sub_step i sub_q accumulated
      more ← sub_steps (i + 1) sub_queries found.1
      pure (found.0 ++ more)

    unfoldable pub run_sub_queries : List String → Act W (List AgentResult)
    unfolding sub_steps decomposed
    run_sub_queries sub_queries = do
      context ← gets (λ s. s.own)
      rs ← sub_steps 1 sub_queries context
      pure (decomposed (length sub_queries) ∷ rs)

    unfoldable pub run_multi_step : String → Act W (List AgentResult)
    unfolding run_pipeline run_sub_queries split_sub_queries
    run_multi_step query_text =
        if is_short (split_sub_queries query_text)
        then run_pipeline splitter.show registry query_text
        else run_sub_queries (split_sub_queries query_text)
