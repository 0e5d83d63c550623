-- ===== src/Tests/Subagent.antt =====
-- Examples of app/subagent: an instance whose orchestrator echoes, and one whose agents do not load.
use data_engineer.Prelude.{
  arith, ℕ, ◌+◌, ◌≤◌, min, String, true, false, some, List, [], ◌∷◌, ◌≡◌, ◌≢◌, refl, length,
  if◌then◌else◌, ◌==◌,
}
use data_engineer.Prelude.Dict
use data_engineer.Prelude.Value.{str, null, nil}
use data_engineer.Prelude.Exec.{ok}
use data_engineer.Subagent.Instance.{SubagentConfig, Platform, active, create, query}
use data_engineer.Subagent.Manager.{
  SubagentManager, usage_of, activate, deactivate_all, list_active, get_effectiveness_score,
}
use data_engineer.Subagent.Manager.Life.{
  Activated, activate-Activated, Deactivated, deactivate_all-Deactivated,
}
use data_engineer.Subagent.Manager.Statistics.{
  Use, calls, successes, track_all, track_all-usage_of, get_effectiveness_score-track_all,
}

abbrev config : SubagentConfig
config = record {
  name = "shop";
  domain = "ecommerce";
  databases = some nil;
  capabilities = "nl_query" ∷ [];
  llm_config = some (record { model = "m"; temperature = null });
}

abbrev platform : Platform ℕ
platform = record {
  load_orchestrator = λ n. (ok tt, n + 1);
  load_agents = λ n. (ok tt, n + 1);
  run = λ agents text context n. (
    ok (record {
      status = "completed";
      final_output = str text;
      conflict_resolutions = [];
      trace_id = "t";
    }),
    n + 1,
  );
}

abbrev manager : SubagentManager ℕ
manager = record {
  instances = ("shop", create config) ∷ ("other", record (create config) { status = active }) ∷ [];
  usage_stats = [];
  world = 0;
}

activate-Activated_example :
    Activated "shop" config (activate platform "shop" manager)
    × ((j : String)
        → j ≢ "shop"
        → Dict.get j (activate platform "shop" manager).1.instances ≡ Dict.get j manager.instances)
unfolding Dict.get
activate-Activated_example = activate-Activated platform "shop" (create config) manager refl

deactivate_all-Deactivated_example :
    (list_active (deactivate_all manager) ≡ [])
    × ((j : String)
        → Deactivated
            (Dict.get j manager.instances)
            (Dict.get j (deactivate_all manager).instances))
deactivate_all-Deactivated_example = deactivate_all-Deactivated manager

abbrev uses : List Use
uses = ("shop", true, 12) ∷ ("other", false, 0) ∷ ("shop", false, 40) ∷ []

track_all-usage_of_example :
    ((usage_of "shop" (track_all uses manager).usage_stats).total
      ≡ (usage_of "shop" manager.usage_stats).total + calls "shop" uses)
    × ((usage_of "shop" (track_all uses manager).usage_stats).success
        ≡ (usage_of "shop" manager.usage_stats).success + successes "shop" uses)
    × (length (usage_of "shop" (track_all uses manager).usage_stats).latencies ≤ 100)
unfolding usage_of Dict.get
track_all-usage_of_example = track_all-usage_of uses "shop" manager (omega arith)

get_effectiveness_score-track_all_example :
    get_effectiveness_score 100 (λ a b. a + b) "shop" (track_all uses manager) ≡ (
      if calls "shop" uses == 0
      then 100
      else min (successes "shop" uses) (min (calls "shop" uses) 100) + min (calls "shop" uses) 100)
unfolding usage_of Dict.get
get_effectiveness_score-track_all_example =
    get_effectiveness_score-track_all 100 (λ a b. a + b) uses "shop" manager refl

-- A query before the activation is rejected, and one after it is answered.
rejected_before :
    (query platform "down" "q" [] (record { instance_ = create config; world = 0 })).1.world ≡ 0
unfolding query
rejected_before = refl
