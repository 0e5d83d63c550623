-- ===== src/Agents/Pipeline/Unchecked.antt =====
-- app/agents/collaboration.py: the fifth step of the pipeline does not ask for the verdict of the
-- fourth.
use data_engineer.Prelude.{String, true, false, some, List, [], ◌∷◌, ◌++◌, ◌≡◌, refl, ap, ◌∙◌}
use data_engineer.Prelude.Dict
use data_engineer.Prelude.Dict.{Dict, otherwise, get-put, get-put_self}
use data_engineer.Prelude.Value.{Value, null, str, dict, boolean, end, field, truthy}
use data_engineer.Prelude.Exec.{Result, ok, raised, pure, answer, modify, proceed, ◌>>=◌}
use data_engineer.Prelude.World.{With}
use data_engineer.Agents.Base.{
  AgentResult, BaseAgent, AgentRegistry, done, get_agent, as_dict, missing_agent,
}
use data_engineer.Agents.Pipeline.{
  store_verdict, run_step, understand, retrieve, generate, validate, run_tool, execute_tool,
  run_pipeline,
}

-- The verdict that a validator returned.
abbrev pub passed : Dict Value → Value
passed found = otherwise (Dict.get "passed" found) (boolean false)

-- What the fourth step makes of the context.
abbrev judged : Dict Value → Dict Value → Dict Value
judged found context =
    Dict.put "validation_report" (otherwise (Dict.get "report" found) null)
      (Dict.put "validation_passed" (passed found) context)

sql-judged : (found c : Dict Value) → Dict.get "sql" (judged found c) ≡ Dict.get "sql" c
sql-judged found c =
    get-put "sql" "validation_report" (otherwise (Dict.get "report" found) null)
      (Dict.put "validation_passed" (passed found) c)
    ∙ get-put "sql" "validation_passed" (passed found) c

passed-judged :
    (found c : Dict Value) → Dict.get "validation_passed" (judged found c) ≡ some (passed found)
passed-judged found c =
    get-put "validation_passed" "validation_report" (otherwise (Dict.get "report" found) null)
      (Dict.put "validation_passed" (passed found) c)
    ∙ get-put_self "validation_passed" (passed found) c

module _ {S A B C : Type 0} (f : A → B) (g : B → C) where
  proceed-proceed :
      (r : Result A) (s : S)
      → proceed
          (proceed r (λ a. pure (f a)) s).0
          (λ b. pure (g b))
          (proceed r (λ a. pure (f a)) s).1
        ≡ proceed r (λ a. pure (g (f a))) s
  unfolding answer
  proceed-proceed (ok a) s = refl
  proceed-proceed (raised e) s = refl

module _ {W : Type 0} (show : Value → String) (registry : AgentRegistry W) where
  abbrev With_own : With (Dict Value) W → Dict Value → With (Dict Value) W
  With_own s c = record s { own = c }

  store_verdict-judged :
      (verdict : AgentResult) (found c : Dict Value)
      → verdict.status ≡ done
      → as_dict verdict.data_ ≡ some found
      → store_verdict show verdict c ≡ judged found c
  store_verdict-judged verdict found c d e = rw (d, e) refl

  validate-judged :
      (validator : BaseAgent W) (verdict : AgentResult) (found : Dict Value)
      (s t : With (Dict Value) W)
      → get_agent "sql_validator" registry ≡ some validator
      → validator.execute (otherwise (Dict.get "sql" s.own) (str "")) s ≡ (ok verdict, t)
      → verdict.status ≡ done
      → as_dict verdict.data_ ≡ some found
      → validate show registry s ≡ (ok (verdict ∷ []), With_own t (judged found t.own))
  unfolding validate run_step ◌>>=◌ answer modify
  validate-judged validator verdict found s t e run d h =
      rw (e, run)
        (ap (λ c. (ok (verdict ∷ []), With_own t c)) (store_verdict-judged verdict found t.own d h))

  execute_tool-sql :
      (tool : BaseAgent W) (sql : Value) (s : With (Dict Value) W)
      → get_agent "tool_executor" registry ≡ some tool
      → Dict.get "sql" s.own ≡ some sql
      → truthy sql ≡ true
      → execute_tool show registry s
        ≡ (tool.execute (dict (field "sql" sql end)) >>= λ r. pure (r ∷ [])) s
  unfolding execute_tool run_tool ◌>>=◌ answer
  execute_tool-sql tool sql s e here t = rw (here, e, t) refl

  -- Whatever the agents are and do: if the first three steps return, the validator returns a report
  -- that does not say that the SQL has passed, and the context has some SQL that is not empty, then
  -- `run_pipeline` runs the tool on that SQL, in a context that says that it has not passed.
  pub run_pipeline-Unchecked :
      (query_text : String) (s s1 s2 s3 s4 : With (Dict Value) W) (r1 r2 r3 : List AgentResult)
      (validator tool : BaseAgent W) (verdict : AgentResult) (found : Dict Value) (sql : Value)
      → understand show (missing_agent "nl_understander" ∷ []) registry query_text s ≡ (ok r1, s1)
      → retrieve show registry query_text s1 ≡ (ok r2, s2)
      → generate show registry s2 ≡ (ok r3, s3)
      → get_agent "sql_validator" registry ≡ some validator
      → validator.execute (otherwise (Dict.get "sql" s3.own) (str "")) s3 ≡ (ok verdict, s4)
      → verdict.status ≡ done
      → as_dict verdict.data_ ≡ some found
      → truthy (passed found) ≡ false
      → get_agent "tool_executor" registry ≡ some tool
      → Dict.get "sql" s4.own ≡ some sql
      → truthy sql ≡ true
      → (c : Dict Value) × (v : Value) × (Dict.get "validation_passed" c ≡ some v)
        × (truthy v ≡ false)
        × (Dict.get "sql" c ≡ some sql)
        × (run_pipeline show registry query_text s
            ≡ (tool.execute (dict (field "sql" sql end)) >>= λ r.
                  pure (r1 ++ r2 ++ r3 ++ (verdict ∷ []) ++ (r ∷ [])))
                (record s4 { own = c }))
  unfolding run_pipeline ◌>>=◌ answer
  run_pipeline-Unchecked query_text s s1 s2 s3 s4 r1 r2 r3 validator tool verdict found sql e1 e2 e3
        validator_there run d h refused tool_there here t =
      let c = judged found s4.own in
      let sql_there : Dict.get "sql" c ≡ some sql = sql-judged found s4.own ∙ here in
      (
        c,
        passed found,
        passed-judged found s4.own,
        refused,
        sql_there,
        rw
            (
              e1,
              e2,
              e3,
              validate-judged validator verdict found s3 s4 validator_there run d h,
              execute_tool-sql tool sql (With_own s4 c) tool_there sql_there t,
            )
            (proceed-proceed (λ r. r ∷ []) (λ r5. r1 ++ r2 ++ r3 ++ (verdict ∷ []) ++ r5)
              (tool.execute (dict (field "sql" sql end)) (With_own s4 c)).0
              (tool.execute (dict (field "sql" sql end)) (With_own s4 c)).1),
      )
