-- ===== src/Agents/MultiStep/Steps.antt =====
-- app/agents/collaboration.py: what the results of `run_multi_step` are.
use data_engineer.Prelude.{
  ℕ, ◌+◌, ◌≤◌, String, false, Option, none, some, List, [], ◌∷◌, ◌++◌, ◌≡◌, refl, arith, length,
  length-append, length-map, map, All,
}
use data_engineer.Prelude.Dict
use data_engineer.Prelude.Dict.{Dict, get-put_self}
use data_engineer.Prelude.Value.{Value, int, pos, truthy}
use data_engineer.Prelude.Exec.{Result, ok, raised, Keeps, Keeps-answer, Keeps-bind}
use data_engineer.Prelude.Returned.{
  Yields, Returns, Returns-any, Returns-bind, Returns-pure, Returns-branch,
}
use data_engineer.Prelude.World.{With}
use data_engineer.Agents.Base.{AgentResult, BaseAgent, AgentRegistry}
use data_engineer.Agents.Pipeline.{
  run_step, understand, retrieve, generate, validate, run_tool, execute_tool, run_pipeline,
}
use data_engineer.Agents.MultiStep.{
  Splitter, is_short, split_sub_queries, tag_step, on_copy, sub_step, sub_steps, decomposed, beside,
  run_sub_queries, run_multi_step,
}

-- Four steps have one result each, and the last one or none.
abbrev pub Steps : List AgentResult → Type 0
Steps rs = (4 ≤ length rs) × (length rs ≤ 5)

five-Steps :
    (r1 r2 r3 r4 r5 : List AgentResult)
    → length r1 ≡ 1
    → length r2 ≡ 1
    → length r3 ≡ 1
    → length r4 ≡ 1
    → length r5 ≤ 1
    → Steps (r1 ++ r2 ++ r3 ++ r4 ++ r5)
five-Steps r1 r2 r3 r4 r5 e1 e2 e3 e4 e5 =
    (omega (arith, l1, l2, l3, l4), omega (arith, l1, l2, l3, l4))
  where
    l1 : length (r1 ++ r2 ++ r3 ++ r4 ++ r5) ≡ length (r1 ++ r2 ++ r3 ++ r4) + length r5
    l1 = length-append (r1 ++ r2 ++ r3 ++ r4) r5

    l2 : length (r1 ++ r2 ++ r3 ++ r4) ≡ length (r1 ++ r2 ++ r3) + length r4
    l2 = length-append (r1 ++ r2 ++ r3) r4

    l3 : length (r1 ++ r2 ++ r3) ≡ length (r1 ++ r2) + length r3
    l3 = length-append (r1 ++ r2) r3

    l4 : length (r1 ++ r2) ≡ length r1 + length r2
    l4 = length-append r1 r2

-- What the agents may have written into the metadata is overwritten by the number of the step.
abbrev pub HasStep : ℕ → AgentResult → Type 0
HasStep i r = Dict.get "sub_step" r.metadata ≡ some (int (pos i))

-- The results of the sub-queries from number `i` on: for each of them those of one pipeline, with
-- its number.
pub data Blocks : ℕ → List String → List AgentResult → Type 0 where
  no_block : (i : ℕ) → Blocks i [] []
  block :
      (i : ℕ) (sub_q : String) (sub_queries : List String) (rs more : List AgentResult)
      → Steps rs
      → All (HasStep i) rs
      → Blocks (i + 1) sub_queries more
      → Blocks i (sub_q ∷ sub_queries) (rs ++ more)

-- The announcement, and the blocks of the sub-queries.
abbrev pub InBlocks : List String → List AgentResult → Type 0
InBlocks sub_queries rs =
    (more : List AgentResult) × (rs ≡ decomposed (length sub_queries) ∷ more)
    × Blocks 1 sub_queries more

map-tag_step : (i : ℕ) (rs : List AgentResult) → All (HasStep i) (map (tag_step i) rs)
unfolding tag_step
map-tag_step i [] = tt
map-tag_step i (r ∷ rs) = (get-put_self "sub_step" (int (pos i)) r.metadata, map-tag_step i rs)

beside-Yields :
    (Q : List AgentResult → Type 0) (r : Result (List AgentResult)) (context : Dict Value)
    → Yields Q r
    → Yields (λ found. Q found.0) (beside r context)
beside-Yields Q (ok rs) context h = h
beside-Yields Q (raised e) context h = tt

module _ {W : Type 0} where
  run_step_one :
      (show : Value → String) (absent : List AgentResult)
      (store : AgentResult → Dict Value → Dict Value) (agent : Option (BaseAgent W)) (input : Value)
      → length absent ≡ 1
      → Returns (λ rs. length rs ≡ 1) (run_step show absent store agent input)
  unfolding run_step
  run_step_one show absent store none input h = Returns-pure _ h
  run_step_one show absent store (some agent) input h =
      Returns-bind _ _ (Returns-any _)
        (λ r known. Returns-bind _ _ (Returns-any _) (λ done known'. Returns-pure _ refl))

  run_tool-length :
      (show : Value → String) (agent : Option (BaseAgent W)) (sql : Value)
      → Returns (λ rs. length rs ≤ 1) (run_tool show agent sql)
  unfolding run_tool
  run_tool-length show none sql = Returns-pure _ (omega arith)
  run_tool-length show (some agent) sql =
      Returns-branch (truthy sql) _ _
        (λ h. Returns-bind _ _ (Returns-any _) (λ r known. Returns-pure _ (omega arith)))
        (λ h. Returns-pure _ (omega arith))

  run_pipeline-Steps :
      (show : Value → String) (registry : AgentRegistry W) (query_text : String)
      → Returns Steps (run_pipeline show registry query_text)
  unfolding run_pipeline understand retrieve generate validate execute_tool
  run_pipeline-Steps show registry query_text =
      Returns-bind _ _ (run_step_one show _ _ _ _ refl) (λ r1 e1.
        Returns-bind _ _ (run_step_one show _ _ _ _ refl) (λ r2 e2.
          Returns-bind _ _
            (Returns-bind _ _ (Returns-any _) (λ context known. run_step_one show _ _ _ _ refl))
            (λ r3 e3.
              Returns-bind _ _
                (Returns-bind _ _ (Returns-any _) (λ sql known. run_step_one show _ _ _ _ refl))
                (λ r4 e4.
                  Returns-bind _ _
                    (Returns-bind _ _ (Returns-any _) (λ sql known. run_tool-length show _ sql))
                    (λ r5 e5. Returns-pure _ (five-Steps r1 r2 r3 r4 r5 e1 e2 e3 e4 e5))))))

  module _ (splitter : Splitter) (registry : AgentRegistry W) where
    sub_step-Block :
        (i : ℕ) (sub_q : String) (accumulated : Dict Value)
        → Returns
            (λ found. Steps found.0 × All (HasStep i) found.0)
            (sub_step splitter registry i sub_q accumulated)
    unfolding sub_step on_copy
    sub_step-Block i sub_q accumulated =
        Returns-bind {R = λ found. Steps found.0} _ _
          (record {
            at = λ s.
                beside-Yields Steps _ _
                  ((run_pipeline-Steps splitter.show registry (splitter.strip sub_q)).at _);
          })
          (λ found h.
            Returns-pure _ (rw (length-map (tag_step i) found.0) h, map-tag_step i found.0))

    sub_steps-Blocks :
        (i : ℕ) (sub_queries : List String) (accumulated : Dict Value)
        → Returns (Blocks i sub_queries) (sub_steps splitter registry i sub_queries accumulated)
    unfolding sub_steps
    sub_steps-Blocks i [] accumulated = Returns-pure _ (no_block i)
    sub_steps-Blocks i (sub_q ∷ sub_queries) accumulated =
        Returns-bind _ _ (sub_step-Block i sub_q accumulated) (λ found h.
          Returns-bind _ _ (sub_steps-Blocks (i + 1) sub_queries found.1)
            (λ more b. Returns-pure _ (block i sub_q sub_queries found.0 more h.0 h.1 b)))

    sub_steps-Keeps :
        (c : Dict Value) (i : ℕ) (sub_queries : List String) (accumulated : Dict Value)
        → Keeps (λ s. s.own ≡ c) (sub_steps splitter registry i sub_queries accumulated)
    unfolding sub_steps sub_step on_copy
    sub_steps-Keeps c i [] accumulated = Keeps-answer _
    sub_steps-Keeps c i (sub_q ∷ sub_queries) accumulated =
        Keeps-bind _ _ (Keeps-bind _ _ (record { at = λ s h. h }) (λ found. Keeps-answer _))
          (λ found.
            Keeps-bind _ _ (sub_steps-Keeps c (i + 1) sub_queries found.1) (λ more. Keeps-answer _))

    run_sub_queries-InBlocks :
        (sub_queries : List String)
        → Returns (InBlocks sub_queries) (run_sub_queries splitter registry sub_queries)
    unfolding run_sub_queries
    run_sub_queries-InBlocks sub_queries = Returns-bind _ _ (Returns-any _) (λ context known.
        Returns-bind _ _ (sub_steps-Blocks 1 sub_queries context)
          (λ more b. Returns-pure _ (more, refl, b)))

    run_sub_queries-Keeps :
        (c : Dict Value) (sub_queries : List String)
        → Keeps (λ s. s.own ≡ c) (run_sub_queries splitter registry sub_queries)
    unfolding run_sub_queries
    run_sub_queries-Keeps c sub_queries = Keeps-bind _ _ (Keeps-answer _) (λ context.
        Keeps-bind _ _ (sub_steps-Keeps c 1 sub_queries context) (λ more. Keeps-answer _))

    -- Whatever the agents do, a query with several sub-queries leaves the context as it was, even
    -- if an agent raises. What `run_multi_step` returns is the announcement of their number, and
    -- then, in their order, four or five results for each of them, marked with its number.
    pub run_multi_step-InBlocks :
        (query_text : String) (s : With (Dict Value) W)
        → is_short (split_sub_queries splitter query_text) ≡ false
        → Yields
            (InBlocks (split_sub_queries splitter query_text))
            (run_multi_step splitter registry query_text s).0
          × ((run_multi_step splitter registry query_text s).1.own ≡ s.own)
    unfolding run_multi_step
    run_multi_step-InBlocks query_text s h = rw h (
      (run_sub_queries-InBlocks (split_sub_queries splitter query_text)).at s,
      (run_sub_queries-Keeps s.own (split_sub_queries splitter query_text)).at s refl,
    )
