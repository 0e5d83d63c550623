-- ===== src/Workflow/PlanSelector/Prompt.antt =====
-- app/workflow/plan_selector.py: the plans that the loader has, and the prompt that lists them.
use Prim.Native.String.{◌++◌ as concat}
use data_engineer.Prelude.{String, Option, none, some, List, [], ◌∷◌}
use data_engineer.Prelude.Dict.{otherwise}
use data_engineer.Prelude.Text.{join_texts}
use data_engineer.Prelude.Exec.{Exec, pure, ◌>>=◌}
use data_engineer.Prelude.World.{attempted}
use data_engineer.Prelude.Sorted.{sorted_set}
use data_engineer.Workflow.PlanSelector.Rules.{default_plan}

-- What the prompt says of a plan.
pub record PlanText : Type 0 where
  pub name : String
  pub description : String

pub record PlanLoader (W : Type 0) : Type 0 where
  pub list_available : Exec W (List String)
  pub load : String → Exec W PlanText

-- `try … except Exception`, which gives nothing then.
unfoldable pub tried : {W A : Type 0} → Exec W A → Exec W (Option A)
tried m w = let (r, w') = m w in (attempted r, w')

abbrev or_text : String → String → String
or_text String.[] b = b
or_text a b = a

unfoldable pub available_from : {W : Type 0} → Option (PlanLoader W) → Exec W (List String)
unfolding tried
available_from none = pure (default_plan ∷ [])
available_from (some loader) = do
  found ← tried loader.list_available
  pure (otherwise found (default_plan ∷ []))

abbrev described : String → Option PlanText → String
described pid none = pid
described pid (some plan) = or_text plan.description (or_text plan.name pid)

abbrev domain_line : Option String → String
domain_line none = ""
domain_line (some String.[]) = ""
domain_line (some domain) = concat "Domain: " (concat domain "\n")

unfoldable pub describe : {W : Type 0} → Option (PlanLoader W) → String → Exec W String
unfolding tried
describe none pid = pure pid
describe (some loader) pid = do plan ← tried (loader.load pid); pure (described pid plan)

module _ {W : Type 0} (loader : Option (PlanLoader W)) where
  unfoldable pub describe_all : List String → Exec W (List String)
  unfolding describe
  describe_all [] = pure []
  describe_all (pid ∷ pids) = do
    desc ← describe loader pid
    lines ← describe_all pids
    pure (concat "- " (concat pid (concat ": " desc)) ∷ lines)

  unfoldable pub build_llm_prompt : String → List String → Option String → Exec W String
  unfolding describe_all sorted_set join_texts
  build_llm_prompt query_text available domain = do
    lines ← describe_all (sorted_set available)
    pure (
        concat "You are a workflow plan router for an NL2SQL agent.\n" (
          concat "Pick exactly ONE plan ID from the list below that best fits the query.\n\n" (
            concat "Available plans:\n" (
              concat (join_texts "\n" lines) (
                concat "\n\n" (
                  concat (domain_line domain) (
                    concat "Query: "
                      (concat query_text "\n\nReply with the plan ID only — no explanation."))))))))
