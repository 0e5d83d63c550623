-- ===== src/Subagent/Manager/Statistics.antt =====
-- app/subagent/manager.py: the statistics, over any sequence of recorded uses.
use data_engineer.Prelude.{
  ℕ, ◌+◌, ◌≤◌, min, String, Bool, List, [], ◌∷◌, ◌++◌, ◌≡◌, arith, length, length-append,
  length-last_n, ◌==◌, str_eq, eq_iff, if◌then◌else◌,
}
use data_engineer.Prelude.Dict.{get-put}
use data_engineer.Subagent.Manager.{
  SubagentManager, no_usage, add_latency, count_usage, usage_of, track_usage,
  get_effectiveness_score,
}

-- One recorded use: the subagent, whether it succeeded, and the latency.
abbrev pub Use : Type 0
Use = String × Bool × ℕ

module _ {W : Type 0} where
  unfoldable pub track_all : List Use → SubagentManager W → SubagentManager W
  unfolding track_usage
  track_all [] m = m
  track_all ((name, success, latency_ms) ∷ uses) m =
      track_all uses (track_usage name success latency_ms m)

-- How many of the uses are of a subagent, and how many of them succeeded.
abbrev pub calls : String → List Use → ℕ
calls name [] = 0
calls name ((n, success, latency_ms) ∷ uses) = (if str_eq n name then 1 else 0) + calls name uses

abbrev pub successes : String → List Use → ℕ
successes name [] = 0
successes name ((n, success, latency_ms) ∷ uses) =
    (if str_eq n name then (if success then 1 else 0) else 0) + successes name uses

successes-le-calls : (name : String) (uses : List Use) → successes name uses ≤ calls name uses
successes-le-calls name [] = omega arith
successes-le-calls name ((n, success, latency_ms) ∷ uses) =
    ground (arith, successes-le-calls name uses)

length-add_latency :
    (latency_ms : ℕ) (latencies : List ℕ)
    → length latencies ≤ 100
    → length (add_latency latency_ms latencies) ≤ 100
unfolding add_latency
length-add_latency latency_ms latencies h = ground (
  arith,
  length-append latencies (latency_ms ∷ []),
  length-last_n 100 (latencies ++ latency_ms ∷ []),
  h,
)

module _ {W : Type 0} where
  usage_of-track_usage :
      (name n : String) (success : Bool) (latency_ms : ℕ) (m : SubagentManager W)
      → usage_of name (track_usage n success latency_ms m).usage_stats ≡ (
          if str_eq n name
          then count_usage success latency_ms (usage_of name m.usage_stats)
          else usage_of name m.usage_stats)
  unfolding usage_of track_usage
  usage_of-track_usage name n success latency_ms m = ground (
    arith,
    eq_iff n name,
    get-put name n (count_usage success latency_ms (usage_of n m.usage_stats)) m.usage_stats,
  )

  -- The totals count the uses of each subagent alone, and at most 100 latencies are kept.
  pub track_all-usage_of :
      (uses : List Use) (name : String) (m : SubagentManager W)
      → length (usage_of name m.usage_stats).latencies ≤ 100
      → ((usage_of name (track_all uses m).usage_stats).total
          ≡ (usage_of name m.usage_stats).total + calls name uses)
        × ((usage_of name (track_all uses m).usage_stats).success
            ≡ (usage_of name m.usage_stats).success + successes name uses)
        × (length (usage_of name (track_all uses m).usage_stats).latencies ≤ 100)
  unfolding track_all count_usage
  track_all-usage_of [] name m h = ground (arith, h)
  track_all-usage_of ((n, success, latency_ms) ∷ uses) name m h =
      let m' = track_usage n success latency_ms m in
      let moved = usage_of-track_usage name n success latency_ms m in
      let bounded = length-add_latency latency_ms (usage_of name m.usage_stats).latencies h in
      ground (arith, moved, bounded, h, track_all-usage_of uses name m')

  -- A subagent with no earlier statistics, after any sequence of uses: up to 100 uses of it the
  -- score is its rate of success, and from then on 100 successes ever make it the full score,
  -- however many failures came last.
  pub get_effectiveness_score-track_all :
      {F : Type 0} (one : F) (ratio : ℕ → ℕ → F) (uses : List Use) (name : String)
      (m : SubagentManager W)
      → usage_of name m.usage_stats ≡ no_usage
      → get_effectiveness_score one ratio name (track_all uses m) ≡ (
          if calls name uses == 0
          then one
          else ratio
              (min (successes name uses) (min (calls name uses) 100))
              (min (calls name uses) 100))
  unfolding get_effectiveness_score
  get_effectiveness_score-track_all one ratio uses name m fresh =
      let u = usage_of name (track_all uses m).usage_stats in
      let bounded : length (usage_of name m.usage_stats).latencies ≤ 100 = ground (arith, fresh) in
      let counted = track_all-usage_of uses name m bounded in
      ground (arith, fresh, counted, successes-le-calls name uses)
