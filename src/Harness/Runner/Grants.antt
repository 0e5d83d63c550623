-- ===== src/Harness/Runner/Grants.antt =====
-- app/harness/runner.py: a node runs only with the permissions that it needs, and only as often as
-- its retries allow.
use Prim.Native.String.{◌++◌ as concat}
use data_engineer.Prelude.{
  ◌≡◌, ◌⊎◌, inl, inr, refl, ◌∙◌, String, true, false, ◌||◌, List, [], ◌∷◌, ◌++◌, arith, Bool-cases,
  eq_iff, if◌then◌else◌,
}
use data_engineer.Prelude.Dict.{mem}
use data_engineer.Prelude.Sorted.{sorted_set, mem-sorted_set}
use data_engineer.Prelude.Exec.{answer, Result, ok, raised, failure, lift, pure, proceed, ◌>>=◌}
use data_engineer.Harness.Permission.{PermissionManager, is_allowed}
use data_engineer.Harness.Runner.Attempt.{config, guarded, produce}
use data_engineer.Harness.Runner.Config.{enabled, config_tools, manager_for, check_tools, skipped}
use data_engineer.Harness.Runner.State.{Setting, RunState, outside}
use data_engineer.Models.Workflow.{NodeDef}
use data_engineer.Nodes.Base.{BaseNode, NodeInput}

mem-append : (x : String) (xs ys : List String) → mem x (xs ++ ys) ≡ mem x xs || mem x ys
mem-append x [] ys = refl
mem-append x (y ∷ xs) ys = ground (arith, mem-append x xs ys)

-- An action that raised, and left the world as it found it.
abbrev pub Stopped : {W A : Type 0} → W → Result A × RunState W → Type 0
Stopped w (ok a, s) = ⊥
Stopped w (raised e, s) = s.world ≡ w

check_tools-denied :
    (manager : PermissionManager) (tools : List String) (tool : String)
    → mem tool tools ≡ true
    → is_allowed manager tool ≡ false
    → (message : String) × (check_tools manager tools ≡ raised (failure message))
unfolding check_tools
check_tools-denied manager [] tool m d = absurd (ground arith)
check_tools-denied manager (t ∷ ts) tool m d = elim (Bool-cases (is_allowed manager t)) [
  | inl yes' ↦
      let (message, e) = check_tools-denied manager ts tool (ground (arith, eq_iff t tool)) d in
      (message, rw yes' e)
  | inr no' ↦ (concat "Tool permission not granted: " t, rw no')
]

module _ {W : Type 0} (setting : Setting W) (definition : NodeDef) (node : BaseNode W) where
  -- The tools that the configuration lists, or that the node itself requires.
  abbrev pub Needs : String → Type 0
  Needs tool =
      (mem tool node.required_tools ≡ true)
      ⊎ ((ts : List String) × (config_tools (config setting definition node) ≡ ok ts)
          × (mem tool ts ≡ true))

  tools_denied :
      (manager : PermissionManager) (tool : String) (tools : List String)
      → Needs tool
      → config_tools (config setting definition node) ≡ ok tools
      → is_allowed manager tool ≡ false
      → (message : String) × (check_tools manager (sorted_set (tools ++ node.required_tools))
          ≡ raised (failure message))
  tools_denied manager tool tools needs eq denied =
      check_tools-denied manager (sorted_set (tools ++ node.required_tools)) tool
        (mem-sorted_set tool _ ∙ mem-append tool tools node.required_tools ∙ listed needs) denied
    where
      listed : Needs tool → mem tool tools || mem tool node.required_tools ≡ true
      listed (inl required) = ground arith
      listed (inr (ts, e, m)) = ground arith

  guarded-Stopped :
      (manager : PermissionManager) (prepared : NodeInput) (tool : String) (s : RunState W)
      → Needs tool
      → is_allowed manager tool ≡ false
      → Stopped s.world (guarded setting definition node manager prepared s)
  unfolding guarded answer ◌>>=◌
  guarded-Stopped manager prepared tool s needs denied =
      by_tools (config_tools (config setting definition node)) refl
    where
      by_tools :
          (r : Result (List String))
          → config_tools (config setting definition node) ≡ r
          → Stopped s.world (
              proceed r
                (λ tools.
                  lift (check_tools manager (sorted_set (tools ++ node.required_tools))) >>= λ _.
                  outside (node.execute prepared))
                s)
      by_tools (raised e) eq = refl
      by_tools (ok tools) eq =
          let (message, e) = tools_denied manager tool tools needs eq denied in rw e refl

  -- What `setup_input` is called with.
  abbrev pub input_of : RunState W → NodeInput
  input_of s = record {
    query_text = setting.query_text;
    context = s.context;
    config = config setting definition node;
  }

  -- A node that is enabled and needs a tool which its permissions do not allow does not run: the
  -- attempt raises, and the world is as `setup_input` left it.
  pub produce-denied :
      (manager : PermissionManager) (tool : String) (s : RunState W)
      → manager_for node (config setting definition node) ≡ ok manager
      → enabled (config setting definition node) ≡ true
      → Needs tool
      → is_allowed manager tool ≡ false
      → Stopped (node.setup_input (input_of s) s.world).1 (produce setting definition node s)
  unfolding produce answer outside ◌>>=◌
  produce-denied manager tool s resolved on needs denied =
      let (r, w) = node.setup_input (input_of s) s.world in by_input r w
    where
      by_input :
          (r : Result NodeInput) (w : W)
          → Stopped w (
              proceed r
                (λ prepared. lift (manager_for node (config setting definition node)) >>= λ m.
                  if enabled (config setting definition node)
                  then guarded setting definition node m prepared
                  else pure skipped)
                (record s { world = w }))
      by_input (raised e) w = refl
      by_input (ok prepared) w =
          rw (resolved, on)
            (guarded-Stopped manager prepared tool (record s { world = w }) needs denied)
