-- ===== src/Core/SelfHeal/Rounds.antt =====
-- app/core/self_heal.py: how the loop ends, and what its history says.
use data_engineer.Prelude.{
  ℕ, ◌+◌, ◌≤◌, zero, suc, String, Bool, true, false, Option, none, some, List, [], ◌∷◌, ◌++◌, ◌≡◌,
  refl, arith, length, length-append, if-branch,
}
use data_engineer.Prelude.Exec.{
  Exec, Result, Gives, Gives-bind, Gives-modify, Holds, answer, modify, ◌>>=◌, ◌>>◌, pure, raised,
  ok,
}
use data_engineer.Prelude.World.{With, Returned, Gives-outside}
use data_engineer.Core.SelfHeal.{
  Outcome, no_candidates, no_generator, passed, accepted_no_validator, still_failing, HistoryEntry,
  SqlCandidate, ValidationReport, ErrorAnalysis, Platform, Rest, push, healed, accepted, judge,
  validate, correct, heal_round, heal_rounds, retry_until_valid, build_error_context,
  analyse_errors,
}

abbrev has_failed : Outcome → Bool
has_failed passed = false
has_failed accepted_no_validator = false
has_failed _ = true

-- Rounds that failed, numbered from `n` on.
abbrev pub Trail : ℕ → List HistoryEntry → Type 0
Trail n [] = Unit
Trail n (e ∷ history) = (e.round ≡ n) × (has_failed e.result ≡ true) × Trail (n + 1) history

Trail-append :
    (n : ℕ) (history : List HistoryEntry) (e : HistoryEntry)
    → Trail n history
    → e.round ≡ n + length history
    → has_failed e.result ≡ true
    → Trail n (history ++ e ∷ [])
Trail-append n [] e h r f = (omega arith, f, tt)
Trail-append n (d ∷ history) e h r f =
    (h.0, h.1, Trail-append (n + 1) history e h.2 (omega arith) f)

-- The history before a round.
abbrev Open : ℕ → List HistoryEntry → Type 0
Open round history = Trail 1 history × (length history + 1 ≡ round)

-- The validator, if there is one, passed the SQL.
abbrev pub Vouched : {W : Type 0} → Option (String → Exec W ValidationReport) → String → Type 0
Vouched none sql = Unit
Vouched (some validator) sql =
    (report : ValidationReport) × Returned (validator sql) report × (report.passed ≡ true)

-- How a loop that returns ends: with rounds that all failed, or with a candidate that was vouched
-- for in the last one, the others having failed.
abbrev pub Ended :
    {F X W : Type 0}
    → Option (String → Exec W ValidationReport)
    → Option (SqlCandidate F X)
    → List HistoryEntry
    → Type 0
Ended validator none history = Trail 1 history × (length history ≤ 3)
Ended validator (some c) history =
    (older : List HistoryEntry) × (last : HistoryEntry) × (history ≡ older ++ last ∷ [])
    × Trail 1 older
    × (length older ≤ 2)
    × (last.round ≡ length older + 1)
    × (last.sql ≡ c.sql_text)
    × (c.generation_mode ≡ "self_heal")
    × Vouched validator c.sql_text

-- The same of a result, which may be an exception.
abbrev pub EndsAs :
    {F X W : Type 0}
    → Option (String → Exec W ValidationReport)
    → Result (Option (SqlCandidate F X))
    → List HistoryEntry
    → Type 0
EndsAs validator (ok o) history = Ended validator o history
EndsAs validator (raised e) history = Unit

module _ {W : Type 0} where
  Gives-push :
      (round : ℕ) (sql : String) (errors : List String) (result : Outcome)
      → has_failed result ≡ true
      → Gives {S = With (List HistoryEntry) W}
          (λ s. Open round s.own)
          (push round sql errors result)
          (λ done s. Open (round + 1) s.own)
  Gives-push round sql errors result f = Gives-modify _ (λ s h.
      (Trail-append 1 s.own _ h.0 (omega arith) f, omega (arith, length-append s.own (entry ∷ []))))
    where
      entry : HistoryEntry
      entry = record { round = round; sql = sql; errors = errors; result = result }

module _ {F X W : Type 0} (p : Platform F X W) (round : ℕ) (bound : round ≤ 3) where
  abbrev Start : With (List HistoryEntry) W → Type 0
  Start s = Open round s.own

  abbrev End :
      Option (String → Exec W ValidationReport)
      → Option (SqlCandidate F X)
      → With (List HistoryEntry) W
      → Type 0
  End validator o s = Ended validator o s.own

  -- The rounds that are left.
  abbrev Later : Rest F X W → Type 0
  Later rest =
      (sql : String) (errors : List String) (analysis : ErrorAnalysis)
      → Gives (λ s. Open (round + 1) s.own) (rest sql errors analysis) (End p.validator)

  -- The last round: its entry, and the candidate that it returns.
  succeed :
      (validator : Option (String → Exec W ValidationReport)) (sql : String) (result : Outcome)
      (c : SqlCandidate F X)
      → sql ≡ c.sql_text
      → c.generation_mode ≡ "self_heal"
      → Vouched validator c.sql_text
      → Gives Start (push round sql [] result >> pure (some c)) (End validator)
  unfolding ◌>>=◌ modify answer
  succeed validator sql result c e mode vouched = record {
    at = λ s h. (
      s.own,
      record { round = round; sql = sql; errors = []; result = result },
      refl,
      h.0,
      omega (arith, h.1),
      omega (arith, h.1),
      e,
      mode,
      vouched,
    );
  }

  judge-Ended :
      (validator : String → Exec W ValidationReport) (c : SqlCandidate F X)
      (report : ValidationReport) (rest : Rest F X W)
      → p.validator ≡ some validator
      → Returned (validator c.sql_text) report
      → Later rest
      → Gives Start (judge p round c report rest) (End p.validator)
  unfolding judge healed
  judge-Ended validator c report rest e answered later =
      if-branch (λ m. Gives Start m (End p.validator)) report.passed _ _
        (λ good.
          succeed p.validator c.sql_text passed (healed p round c) refl refl
            (rw e (report, answered, good)))
        (λ bad.
          Gives-bind _ _ (Gives-push round c.sql_text _ still_failing refl)
            (λ done. later c.sql_text _ _))

  validate-Ended :
      (validator : Option (String → Exec W ValidationReport)) (c : SqlCandidate F X)
      (rest : Rest F X W)
      → p.validator ≡ validator
      → Later rest
      → Gives Start (validate p validator round c rest) (End p.validator)
  unfolding validate accepted
  validate-Ended none c rest e later =
      succeed p.validator c.sql_text accepted_no_validator (accepted p round c) refl refl (rw e tt)
  validate-Ended (some validator) c rest e later =
      Gives-bind _ _ (Gives-outside (Open round) (validator c.sql_text)) (λ report. record {
        at = λ s h. (judge-Ended validator c report rest e h.1 later).at s h.0;
      })

  correct-Ended :
      (sql : String) (errors : List String) (analysis : ErrorAnalysis)
      (candidates : List (SqlCandidate F X)) (rest : Rest F X W)
      → Later rest
      → Gives Start (correct p round sql errors analysis candidates rest) (End p.validator)
  unfolding correct
  correct-Ended sql errors analysis [] rest later =
      Gives-bind _ _ (Gives-push round sql errors no_candidates refl)
        (λ done. later sql errors analysis)
  correct-Ended sql errors analysis (c ∷ candidates) rest later =
      validate-Ended p.validator c rest refl later

  no_generator-Ended : Gives (λ s. Open (round + 1) s.own) (pure none) (End p.validator)
  unfolding answer
  no_generator-Ended = record { at = λ s h. (h.0, omega (arith, h.1)) }

  heal_round-Ended :
      (generator : Option (String → Exec W (List (SqlCandidate F X)))) (rest : Rest F X W)
      (sql : String) (errors : List String) (analysis : ErrorAnalysis)
      → Later rest
      → Gives Start (heal_round p generator round rest sql errors analysis) (End p.validator)
  unfolding heal_round
  heal_round-Ended none rest sql errors analysis later =
      Gives-bind _ _ (Gives-push round sql errors no_generator refl) (λ done. no_generator-Ended)
  heal_round-Ended (some generator) rest sql errors analysis later =
      Gives-bind _ _
        (Gives-outside (Open round) (generator (build_error_context sql errors analysis)))
        (λ candidates. record {
          at = λ s h. (correct-Ended sql errors analysis candidates rest later).at s h.0;
        })

module _ {F X W : Type 0} (p : Platform F X W) where
  heal_rounds-Ended :
      (n round : ℕ) (sql : String) (errors : List String) (analysis : ErrorAnalysis)
      → round + n ≤ 4
      → Gives
          (λ s. Open round s.own)
          (heal_rounds p n round sql errors analysis)
          (λ o s. Ended p.validator o s.own)
  unfolding heal_rounds answer
  heal_rounds-Ended zero round sql errors analysis bound = record {
    at = λ s h. (h.0, omega (arith, h.1));
  }
  heal_rounds-Ended (suc n) round sql errors analysis bound =
      heal_round-Ended p round (omega arith) p.generator (heal_rounds p n (round + 1)) sql errors
        analysis
        (λ sql' errors' analysis'.
          heal_rounds-Ended n (round + 1) sql' errors' analysis' (omega arith))

  EndsAs-Holds :
      (r : Result (Option (SqlCandidate F X))) (s : With (List HistoryEntry) W)
      → Holds (λ o t. Ended p.validator o t.own) (r, s)
      → EndsAs p.validator r s.own
  EndsAs-Holds (ok o) s h = h
  EndsAs-Holds (raised e) s h = tt

  -- Retries that return stop after at most three rounds. The history tells them in order; a
  -- candidate comes back only from the last of them, with the SQL that the validator passed, and
  -- without one every round failed.
  pub retry_until_valid-EndsAs :
      (failed_sql : String) (errors : List String) (s : With (List HistoryEntry) W)
      → EndsAs p.validator
          (retry_until_valid p failed_sql errors s).0
          (retry_until_valid p failed_sql errors s).1.own
  unfolding retry_until_valid ◌>>=◌ modify
  retry_until_valid-EndsAs failed_sql errors s = EndsAs-Holds _ _ (
      (heal_rounds-Ended 3 1 failed_sql errors (analyse_errors p.to_upper errors) (omega arith)).at
        (record s { own = [] }) (tt, omega arith))
