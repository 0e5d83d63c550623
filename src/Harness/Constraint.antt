-- ===== src/Harness/Constraint.antt =====
-- app/harness/constraint.py: the limits of one query, and the enforcer that counts against them.
use data_engineer.Prelude.{
  ℕ, ◌+◌, ◌-◌, min, max, String, ◌≡◌, Bool, none, some, [], arith, ltb, eq_iff, str_eq,
  if◌then◌else◌,
}
use data_engineer.Prelude.Dict
use data_engineer.Prelude.Dict.{Dict, or_else}

pub data OnExhausted : Type 0 where
  force_output abort : OnExhausted

pub record ConstraintLimits : Type 0 where
  pub max_llm_calls_per_query : ℕ
  pub max_node_retries : ℕ
  pub reflection_max_rounds : ℕ
  pub reflection_on_exhausted : OnExhausted
  pub session_ttl_seconds : ℕ
  pub read_only : Bool
  pub max_result_rows : ℕ
  pub statement_timeout_ms : ℕ

pub record ConstraintEnforcer : Type 0 where
  pub limits : ConstraintLimits
  pub llm_call_count : ℕ
  pub node_retry_count : Dict ℕ

abbrev pub create : ConstraintLimits → ConstraintEnforcer
create limits = record { limits = limits; llm_call_count = 0; node_retry_count = [] }

unfoldable pub record_llm_call : ConstraintEnforcer → ConstraintEnforcer
record_llm_call c = record c { llm_call_count = c.llm_call_count + 1 }

unfoldable pub can_call_llm : ConstraintEnforcer → Bool
can_call_llm c = ltb c.llm_call_count c.limits.max_llm_calls_per_query

-- `max(0, limit - count)`; the subtraction on ℕ stops at 0 by itself.
unfoldable pub llm_calls_remaining : ConstraintEnforcer → ℕ
llm_calls_remaining c = max 0 (c.limits.max_llm_calls_per_query - c.llm_call_count)

-- `self._node_retry_count.get(node_id, 0)`
abbrev pub retries : ConstraintEnforcer → String → ℕ
retries c node_id = elim (Dict.get node_id c.node_retry_count) [ none ↦ 0 | some n ↦ n ]

unfoldable pub record_retry : String → ConstraintEnforcer → ConstraintEnforcer
record_retry node_id c = record c {
  node_retry_count = Dict.put node_id (retries c node_id + 1) c.node_retry_count;
}

unfoldable pub can_retry : ConstraintEnforcer → String → Bool
can_retry c node_id = ltb (retries c node_id) c.limits.max_node_retries

unfoldable pub clamp_rows : ConstraintEnforcer → ℕ → ℕ
clamp_rows c requested = min requested c.limits.max_result_rows

unfoldable pub reset : ConstraintEnforcer → ConstraintEnforcer
reset c = record c { llm_call_count = 0; node_retry_count = [] }

-- A recorded retry counts for its own node and for no other.
pub retries-record_retry :
    (c : ConstraintEnforcer) (node_id j : String)
    → retries (record_retry node_id c) j
      ≡ (if str_eq node_id j then retries c j + 1 else retries c j)
unfolding record_retry
retries-record_retry c node_id j =
    ground
      (arith, Dict.get-put j node_id (retries c node_id + 1) c.node_retry_count, eq_iff node_id j)
