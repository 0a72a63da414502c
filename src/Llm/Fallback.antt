-- ===== src/Llm/Fallback.antt =====
-- The chain of fallback models and endpoints: crates/vectorless-llm/src/fallback.rs, with the
-- behaviors of crates/vectorless-config/src/llm_pool.rs.
pub mod Chain
use mathlib.Core.Option
use vectorless.Base.{
  All, Bool, List, Option, String, [], all, ap, false, get_elem?, if◌then◌else◌, length, ltb, map,
  none, not, pos, some, str_eq, suc, true, ℕ, ◌++◌, ◌+◌, ◌-◌, ◌∷◌,
}
use vectorless.Llm.Error.{LlmError, rate_limit, retry_exhausted, timeout}

pub data FallbackBehavior : Type 0 where
  retry fallback retry_then_fallback fail : FallbackBehavior

pub data OnAllFailedBehavior : Type 0 where
  return_error return_cache : OnAllFailedBehavior

pub record FallbackStep : Type 0 where
  pub from_model : String
  pub to_model : Option String
  pub from_endpoint : String
  pub to_endpoint : Option String
  pub reason : String

pub record FallbackConfig : Type 0 where
  pub enabled : Bool
  pub models : List String
  pub endpoints : List String
  pub on_rate_limit : FallbackBehavior
  pub on_timeout : FallbackBehavior
  pub on_all_failed : OnAllFailedBehavior

abbrev pub default_fallback : FallbackConfig
default_fallback = record {
  enabled = true;
  models = "gpt-4o-mini" ∷ "glm-4-flash" ∷ [];
  endpoints = [];
  on_rate_limit = retry_then_fallback;
  on_timeout = retry_then_fallback;
  on_all_failed = return_error;
}

abbrev pub disabled : FallbackConfig
disabled = record default_fallback { enabled = false }

unfoldable pub behavior_for_error : FallbackConfig → LlmError → FallbackBehavior
behavior_for_error c (LlmError.rate_limit msg) = c.on_rate_limit
behavior_for_error c (LlmError.timeout msg) = c.on_timeout
behavior_for_error c (LlmError.api msg) = fail
behavior_for_error c (LlmError.request msg) = fail
behavior_for_error c (LlmError.config msg) = fail
behavior_for_error c (LlmError.parse msg) = fail
behavior_for_error c LlmError.no_content = fail
behavior_for_error c (LlmError.retry_exhausted attempts last_error) = fail

abbrev pub falls_back : FallbackBehavior → Bool
falls_back fallback = true
falls_back retry_then_fallback = true
falls_back retry = false
falls_back fail = false

abbrev pub retries : FallbackBehavior → Bool
retries retry = true
retries retry_then_fallback = true
retries fallback = false
retries fail = false

unfoldable pub should_fallback : FallbackConfig → LlmError → Bool
unfolding behavior_for_error
should_fallback c e = if not c.enabled then false else falls_back (behavior_for_error c e)

-- `FallbackChain::should_retry`
unfoldable pub chain_should_retry : FallbackConfig → LlmError → Bool
unfolding behavior_for_error
chain_should_retry c e = if not c.enabled then false else retries (behavior_for_error c e)

-- `Iterator::position`
unfoldable pub position : String → List String → Option ℕ
position current [] = none
position current (m ∷ models) =
    let rest = Option.map suc (position current models) in if str_eq m current then some 0 else rest

-- The match on the position, shared by models and endpoints.
unfoldable pub next_at : List String → String → Option ℕ → Option String
next_at names current (some idx) =
    if ltb (idx + 1) (length names) then get_elem? names (idx + 1) else none
next_at [] current none = none
next_at (first ∷ names) current none = if not (str_eq first current) then some first else none

unfoldable pub next_model : FallbackConfig → String → Option String
unfolding position next_at
next_model c current = next_at c.models current (position current c.models)

unfoldable pub next_endpoint : FallbackConfig → String → Option String
unfolding position next_at
next_endpoint c current = next_at c.endpoints current (position current c.endpoints)

abbrev pub record_fallback :
    List FallbackStep → String → Option String → String → Option String → String → List FallbackStep
record_fallback history from to from_ep to_ep why =
    history
    ++ record {
      from_model = from;
      to_model = to;
      from_endpoint = from_ep;
      to_endpoint = to_ep;
      reason = why;
    }
      ∷ []
