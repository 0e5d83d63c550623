-- ===== src/Workflow/PlanSelector/Answer.antt =====
-- app/workflow/plan_selector.py: the plan that an answer of the model names.
use data_engineer.Prelude.{
  ℕ, ◌+◌, ltb, ◌==◌, String, Bool, true, false, Option, none, some, List, [], ◌∷◌, ◌&&◌, ◌||◌,
  length, if◌then◌else◌,
}
use data_engineer.Prelude.Dict
use data_engineer.Prelude.Dict.{Dict, otherwise}
use data_engineer.Prelude.Text.{codes, is_prefix}
use data_engineer.Prelude.Value.{Value, null, dict, obj, list, cons, entries, truthy}
use data_engineer.Prelude.Sorted.{sorted_set}

-- `v.get(key)` of a dictionary, `getattr(v, key, None)` of anything else.
unfoldable pub part : String → Value → Value
part key (dict fs) = otherwise (Dict.get key (entries fs)) null
part key (obj fs) = otherwise (Dict.get key (entries fs)) null
part key _ = null

abbrev first_choice : Value → Value
first_choice (list (cons v vs)) = part "message" v
first_choice _ = null

-- `show` is `str`. Choices that are no list raise in the code or give no text; here they give none,
-- and the layer passes in either case.
unfoldable pub extract_response_text : (Value → String) → Value → String
unfolding part
extract_response_text show response =
    let content = part "content" (first_choice (part "choices" response)) in
    if truthy content then show content else ""

-- `text.find(word)`, counted from `at`.
unfoldable pub find_from : List ℕ → List ℕ → ℕ → Option ℕ
find_from word [] at = if is_prefix word [] then some at else none
find_from word (c ∷ cs) at =
    let later = find_from word cs (at + 1) in if is_prefix word (c ∷ cs) then some at else later

pub record Hit : Type 0 where
  pub at : ℕ
  pub size : ℕ
  pub pid : String

-- The order of the hits: earlier ones first, then longer ones; the identifiers come in ascending
-- order, so that of two equal hits the first stands.
abbrev pub is_better : Hit → Hit → Bool
is_better new old = ltb new.at old.at || (new.at == old.at && ltb old.size new.size)

unfoldable pub better : Option Hit → Hit → Hit
better none new = new
better (some old) new = if is_better new old then new else old

abbrev pub hit_at : String → Option ℕ → Option Hit
hit_at pid none = none
hit_at pid (some at) = some (record { at = at; size = length (codes pid); pid = pid })

abbrev pub choose_hit : Option Hit → Option Hit → Option Hit
choose_hit best none = best
choose_hit best (some new) = some (better best new)

abbrev pub pid_of : Option Hit → Option String
pid_of none = none
pid_of (some hit) = some hit.pid

abbrev pub is_empty : String → Bool
is_empty String.[] = true
is_empty _ = false

module _ (to_lower : String → List ℕ) where
  unfoldable pub best_hit : List ℕ → Option Hit → List String → Option Hit
  unfolding better find_from
  best_hit lowered best [] = best
  best_hit lowered best (pid ∷ pids) =
      best_hit lowered (choose_hit best (hit_at pid (find_from (to_lower pid) lowered 0))) pids

  unfoldable pub parse_plan_id : String → List String → Option String
  unfolding best_hit sorted_set
  parse_plan_id text available =
      if is_empty text then none else pid_of (best_hit (to_lower text) none (sorted_set available))
