-- ===== src/Agents/Retry/Rounds.antt =====
-- app/agents/collaboration.py: what the results of `run_retry_correction` are.
use data_engineer.Prelude.{
  ℕ, ◌+◌, ◌≤◌, ◌==◌, zero, suc, String, true, false, Option, none, some, List, [], ◌∷◌, ◌++◌, ◌≡◌,
  refl, arith, length, length-append, if◌then◌else◌, if-branch,
}
use data_engineer.Prelude.Value.{Value}
use data_engineer.Prelude.Dict.{Dict}
use data_engineer.Prelude.Returned.{
  Yields, Returns, Returns-any, Returns-bind, Returns-pure, Returns-branch,
}
use data_engineer.Prelude.World.{With}
use data_engineer.Agents.Base.{
  AgentResult, BaseAgent, AgentRegistry, Act, get_agent, as_dict, missing_agent,
}
use data_engineer.Agents.Pipeline.{run_step, understand}
use data_engineer.Agents.Retry.{
  Texts, is_passed, generated, gave_up, reject, judge_report, check_sql, correct_sql,
  correction_round, correction_rounds, corrections, run_retry_correction,
}

module _ {W : Type 0} (texts : Texts) (max_rounds : ℕ) (validator : Option (BaseAgent W)) where
  -- The results of the rounds from `round` on: the last one failed to generate, has no validator,
  -- passed, or was the last of the `max_rounds`; every one before it was rejected.
  pub data Rounds : ℕ → List AgentResult → Type 0 where
    not_generated : (round : ℕ) (r : AgentResult) → generated r ≡ none → Rounds round (r ∷ [])
    not_judged : (round : ℕ) (r : AgentResult) → validator ≡ none → Rounds round (r ∷ [])
    accepted :
        (round : ℕ) (r vr : AgentResult)
        → is_passed (as_dict vr.data_) ≡ true
        → Rounds round (r ∷ vr ∷ [])
    rejected :
        (round : ℕ) (r vr : AgentResult) (more : List AgentResult)
        → is_passed (as_dict vr.data_) ≡ false
        → round + 1 ≤ max_rounds
        → Rounds (round + 1) more
        → Rounds round (r ∷ vr ∷ more)
    exhausted :
        (r vr : AgentResult) (error_text : String)
        → is_passed (as_dict vr.data_) ≡ false
        → Rounds max_rounds (r ∷ vr ∷ gave_up texts max_rounds error_text ∷ [])

  -- The same with `n` rounds left, which may be none.
  abbrev pub Left : ℕ → ℕ → List AgentResult → Type 0
  Left zero round rs = rs ≡ []
  Left (suc n) round rs = Rounds round rs

  -- What follows the results of a round that was rejected.
  abbrev Rejected : ℕ → ℕ → List AgentResult → Type 0
  Rejected zero round more =
      (error_text : String) × (more ≡ gave_up texts max_rounds error_text ∷ [])
  Rejected (suc n) round more = Rounds (round + 1) more

  closing-Rejected :
      (n round : ℕ) (error_text : String) (more : List AgentResult)
      → round + suc n ≡ max_rounds + 1
      → Left n (round + 1) more
      → Rejected n round
          ((if round == max_rounds then gave_up texts max_rounds error_text ∷ [] else []) ++ more)
  closing-Rejected zero round error_text more e h = (error_text, ground (arith, h))
  closing-Rejected (suc n) round error_text more e h =
      if-branch (λ rs. Rounds (round + 1) (rs ++ more)) (round == max_rounds) _ _
        (λ last. absurd (ground arith)) (λ early. h)

  module _ (n round : ℕ) (bound : round + suc n ≡ max_rounds + 1) where
    abbrev Later : Act W (List AgentResult) → Type 0
    Later rest = Returns (Left n (round + 1)) rest

    reject-Rejected :
        (vr : AgentResult) (rest : Act W (List AgentResult))
        → Later rest
        → Returns (Rejected n round) (reject texts max_rounds round vr rest)
    unfolding reject
    reject-Rejected vr rest later = Returns-bind _ _ (Returns-any _) (λ error_text known.
        Returns-bind _ _ (Returns-any _) (λ done known'.
          Returns-bind _ _ later
            (λ more h. Returns-pure _ (closing-Rejected n round error_text more bound h))))

  Rejected-Rounds :
      (n round : ℕ) (r vr : AgentResult) (more : List AgentResult)
      → round + suc n ≡ max_rounds + 1
      → is_passed (as_dict vr.data_) ≡ false
      → Rejected n round more
      → Rounds round (r ∷ vr ∷ more)
  Rejected-Rounds zero round r vr more e f (error_text, h) =
      let last : round ≡ max_rounds = omega arith in rw (last, h) (exhausted r vr error_text f)
  Rejected-Rounds (suc n) round r vr more e f h = rejected round r vr more f (omega arith) h

  module _ (n round : ℕ) (bound : round + suc n ≡ max_rounds + 1) (r : AgentResult) where
    judge_report-Rounds :
        (vr : AgentResult) (rest : Act W (List AgentResult))
        → Returns (Left n (round + 1)) rest
        → Returns (λ rs. Rounds round (r ∷ rs)) (judge_report texts max_rounds round vr rest)
    unfolding judge_report
    judge_report-Rounds vr rest later =
        Returns-branch (is_passed (as_dict vr.data_)) _ _
          (λ good. Returns-pure _ (accepted round r vr good))
          (λ bad.
            Returns-bind _ _ (reject-Rejected n round bound vr rest later)
              (λ more h. Returns-pure _ (Rejected-Rounds n round r vr more bound bad h)))

    check_sql-Rounds :
        (checker : Option (BaseAgent W)) (sql : Value) (rest : Act W (List AgentResult))
        → validator ≡ checker
        → Returns (Left n (round + 1)) rest
        → Returns (λ rs. Rounds round (r ∷ rs)) (check_sql texts max_rounds checker round sql rest)
    unfolding check_sql
    check_sql-Rounds none sql rest e later = Returns-pure _ (not_judged round r e)
    check_sql-Rounds (some checker) sql rest e later =
        Returns-bind _ _ (Returns-any _) (λ vr known. judge_report-Rounds vr rest later)

    correct_sql-Rounds :
        (candidate : Option Value) (rest : Act W (List AgentResult))
        → generated r ≡ candidate
        → Returns (Left n (round + 1)) rest
        → Returns
            (λ rs. Rounds round (r ∷ rs))
            (correct_sql texts max_rounds validator round candidate rest)
    unfolding correct_sql
    correct_sql-Rounds none rest e later = Returns-pure _ (not_generated round r e)
    correct_sql-Rounds (some candidate) rest e later =
        Returns-bind _ _ (Returns-any _)
          (λ done known. check_sql-Rounds validator _ rest refl later)

  correction_rounds-Left :
      (n round : ℕ) (generator : BaseAgent W)
      → round + n ≡ max_rounds + 1
      → Returns (Left n round) (correction_rounds texts max_rounds n generator validator round)
  unfolding correction_rounds correction_round
  correction_rounds-Left zero round generator e = Returns-pure _ refl
  correction_rounds-Left (suc n) round generator e =
      Returns-bind _ _ (Returns-any _) (λ context known.
        Returns-bind _ _ (Returns-any _) (λ r known'.
          Returns-bind _ _
            (correct_sql-Rounds n round e r (generated r) _ refl
              (correction_rounds-Left n (round + 1) generator (omega arith)))
            (λ more h. Returns-pure _ h)))

module _ {W : Type 0} where
  -- A step has one result, or those of the agent that is missing.
  pub run_step-length :
      (show : Value → String) (absent : List AgentResult)
      (store : AgentResult → Dict Value → Dict Value) (agent : Option (BaseAgent W)) (input : Value)
      → length absent ≤ 1
      → Returns (λ rs. length rs ≤ 1) (run_step show absent store agent input)
  unfolding run_step
  run_step-length show absent store none input h = Returns-pure _ h
  run_step-length show absent store (some agent) input h =
      Returns-bind _ _ (Returns-any _)
        (λ r known. Returns-bind _ _ (Returns-any _) (λ done known'. Returns-pure _ (omega arith)))

  module _ (texts : Texts) (max_rounds : ℕ) (registry : AgentRegistry W) where
    abbrev EndsWith : Option (BaseAgent W) → Option (BaseAgent W) → List AgentResult → Type 0
    EndsWith none validator after = after ≡ missing_agent "sql_generator" ∷ []
    EndsWith (some generator) validator after = Left texts max_rounds validator max_rounds 1 after

    -- At most two results of the first steps, and then those of the rounds.
    abbrev pub Corrected : List AgentResult → Type 0
    Corrected rs =
        (before : List AgentResult) × (after : List AgentResult) × (rs ≡ before ++ after)
        × (length before ≤ 2)
        × EndsWith (get_agent "sql_generator" registry) (get_agent "sql_validator" registry) after

    corrections-EndsWith :
        (generator validator : Option (BaseAgent W))
        → Returns (EndsWith generator validator) (corrections texts max_rounds generator validator)
    unfolding corrections
    corrections-EndsWith none validator = Returns-pure _ refl
    corrections-EndsWith (some generator) validator =
        correction_rounds-Left texts max_rounds validator max_rounds 1 generator (omega arith)

    -- Whatever the agents do, what `run_retry_correction` returns are at most two results of the
    -- first steps, and then the missing generator, or the rounds: every round but the last was
    -- rejected, and the last one could not generate, had no validator, passed, or was the one
    -- numbered `max_rounds`, after which the failure is reported.
    pub run_retry_correction-Corrected :
        (query_text : String) (s : With (Dict Value) W)
        → Yields Corrected (run_retry_correction texts max_rounds registry query_text s).0
    unfolding run_retry_correction understand
    run_retry_correction-Corrected query_text s =
        (Returns-bind _ _ (run_step-length texts.show [] _ _ _ (omega arith)) (λ r1 one.
            Returns-bind _ _ (run_step-length texts.show [] _ _ _ (omega arith)) (λ r2 two.
              Returns-bind _ _ (corrections-EndsWith _ _) (λ r3 h.
                Returns-pure _ (r1 ++ r2, r3, refl, omega (arith, length-append r1 r2), h))))).at
          s
