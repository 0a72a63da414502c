-- ===== src/Llm/Executor.antt =====
-- One completion with retries and fallback: `execute_with_context`, `should_retry` and the choice
-- of timeouts of crates/vectorless-llm/src/executor.rs.
--
-- A request of the API client is a parameter that also tells how many seconds it took; the throttle
-- permit and the sleeping between attempts are not modelled. The loop has no fuel of its own: it is
-- recursion on what is left of MAX_TOTAL_ATTEMPTS.
pub mod Steps
pub mod Rank
use mathlib.Core.Option
use vectorless.Base.{
  Bool, List, Option, Result, String, [], all, any, ap, err, false, if◌then◌else◌, leb, ltb, map,
  none, not, ok, some, suc, true, zero, ℕ, ◌&&◌, ◌++◌, ◌+◌, ◌-◌, ◌∷◌,
}
use vectorless.Llm.Error.{LlmError, is_retryable, rate_limit, retry_exhausted, timeout}
use vectorless.Llm.Fallback.{
  FallbackConfig, FallbackStep, next_model, record_fallback, retries, should_fallback,
}

abbrev pub max_total_attempts : ℕ
max_total_attempts = 20

pub record LlmConfig : Type 0 where
  pub model : String
  pub endpoint : String
  pub max_attempts : ℕ
  pub retry_on_rate_limit : Bool
  pub request_timeout_secs : ℕ

-- What is counted on the metrics hub.
pub data Event : Type 0 where
  llm_timeout llm_rate_limit llm_fallback : Event

-- The client library, the texts of errors, and the test of messages for words.
pub record Client (W : Type 0) : Type 0 where
  pub do_request : W → String → W × ℕ × Result String LlmError
  pub timeout_text : ℕ → String
  pub to_string : LlmError → String
  pub mentions : String → String → Bool

-- The variables of the loop, with the world and the recorded events.
pub record Attempts (W : Type 0) : Type 0 where
  pub attempts : ℕ
  pub total : ℕ
  pub current_model : String
  pub history : List FallbackStep
  pub world : W
  pub events : List Event

abbrev pub matches_rate_limit : LlmError → Bool
matches_rate_limit (rate_limit msg) = true
matches_rate_limit _ = false

-- The events of an error.
abbrev pub error_events : LlmError → List Event
error_events (rate_limit msg) = llm_rate_limit ∷ []
error_events (timeout msg) = llm_timeout ∷ []
error_events _ = []

module _ {W : Type 0} (client : Client W) (c : LlmConfig) (chain : Option FallbackConfig) where
  unfoldable pub should_retry : LlmError → ℕ → Bool
  unfolding is_retryable
  should_retry error attempts =
      if leb c.max_attempts attempts
      then false
      else if matches_rate_limit error
      then c.retry_on_rate_limit
      else is_retryable client.mentions error

  -- The request, cut off where a timeout is set and it takes longer.
  unfoldable pub run_request : Attempts W → Attempts W × Result String LlmError
  run_request s =
      let (w, took, reply) = client.do_request s.world s.current_model in
      let t : Attempts W = record s { world = w } in
      if ltb 0 c.request_timeout_secs && ltb c.request_timeout_secs took
      then (
        record t { events = s.events ++ llm_timeout ∷ [] },
        err (timeout (client.timeout_text c.request_timeout_secs)),
      )
      else (t, reply)

  -- The model to fall back to.
  unfoldable pub fallback_model : LlmError → String → Option String
  unfolding should_fallback next_model
  fallback_model error current = elim chain [
    | none ↦ none
    | some f ↦ if should_fallback f error then next_model f current else none
  ]

  -- The state of the next round, with the new model.
  abbrev pub fall_back : Attempts W → LlmError → String → Attempts W
  fall_back s error next = record s {
    attempts = 0;
    current_model = next;
    history =
        record_fallback s.history s.current_model (some next) c.endpoint none
          (client.to_string error);
    events = s.events ++ llm_fallback ∷ [];
  }

  -- What an error leads to: another round, or none.
  unfoldable pub after_error : Attempts W → LlmError → Option (Attempts W)
  unfolding should_retry fallback_model
  after_error s error =
      let t : Attempts W = record s { events = s.events ++ error_events error } in
      if should_retry error s.attempts
      then some t
      else Option.map (fall_back t error) (fallback_model error s.current_model)

  abbrev pub counted : Attempts W → Attempts W
  counted s = record s { attempts = s.attempts + 1; total = s.total + 1 }

  abbrev pub exhausted : ℕ → LlmError
  exhausted total = retry_exhausted total "Exceeded maximum total attempts including fallbacks"

  -- The end of a round, with the rest of the loop.
  abbrev pub finish_round :
      (Attempts W → Attempts W × Result String LlmError)
      → Attempts W
      → LlmError
      → Option (Attempts W)
      → Attempts W × Result String LlmError
  finish_round rest s error (some t) = rest t
  finish_round rest s error none = (s, err error)

  abbrev pub round :
      (Attempts W → Attempts W × Result String LlmError)
      → Attempts W × Result String LlmError
      → Attempts W × Result String LlmError
  round rest (s, ok response) = (s, ok response)
  round rest (s, err error) = finish_round rest s error (after_error s error)

  -- `left` rounds may still make a request.
  unfoldable pub request_loop : ℕ → Attempts W → Attempts W × Result String LlmError
  unfolding run_request after_error
  request_loop zero s = (counted s, err (exhausted (s.total + 1)))
  request_loop (suc left) s = round (request_loop left) (run_request (counted s))

  abbrev pub first_round : W → Attempts W
  first_round w = record {
    attempts = 0;
    total = 0;
    current_model = c.model;
    history = [];
    world = w;
    events = [];
  }

  unfoldable pub execute_with_context : W → Attempts W × Result String LlmError
  unfolding request_loop
  execute_with_context w = request_loop max_total_attempts (first_round w)
