-- ===== src/Llm/Tests.antt =====
-- Runs of the executor against a client whose first model is always limited.
use vectorless.Llm.Fallback.Chain.{next_model-rank}
use vectorless.Llm.Executor.Steps.{execute_with_context-IsEnded, IsEnded}
use vectorless.Llm.Executor.Rank.{execute_with_context-fallbacks_le}
use vectorless.Base.{
  if◌then◌else◌, [], err, false, ok, refl, some, some_eq, str_eq, subst, suc, true, zero, ℕ, ◌∷◌,
  ◌≡◌, length, ◌≤◌,
}
use vectorless.Llm.Error.{LlmError, is_retryable, rate_limit}
use vectorless.Llm.Fallback.{
  FallbackConfig, behavior_for_error, default_fallback, next_at, next_model, position,
  should_fallback,
}
use vectorless.Llm.Fallback.Chain.{Distinct, rank}
use vectorless.Llm.Executor.{
  Client, LlmConfig, after_error, execute_with_context, fallback_model, request_loop, run_request,
  should_retry,
}
use vectorless.Llm.Executor.Steps.{IsEnded}

abbrev busy : LlmError
busy = rate_limit "busy"

-- The world counts the requests; only the second model answers.
abbrev client : Client ℕ
client = record {
  do_request = λ w model. (suc w, 1, (if str_eq model "small" then ok "answer" else err busy));
  timeout_text = λ secs. "too slow";
  to_string = λ error. "error";
  mentions = λ msg word. false;
}

abbrev settings : LlmConfig
settings = record {
  model = "large";
  endpoint = "local";
  max_attempts = 3;
  retry_on_rate_limit = true;
  request_timeout_secs = 30;
}

abbrev fallbacks : FallbackConfig
fallbacks = record default_fallback { models = "large" ∷ "small" ∷ [] }

program : Unit {0}
unfolding execute_with_context request_loop run_request after_error should_retry fallback_model
    should_fallback behavior_for_error next_model next_at position is_retryable
program = tt

-- Three requests to the first model, one to the second.
answered : (execute_with_context client settings (some fallbacks) 0).1 ≡ ok "answer"
unfolding program
answered = refl

requests : (execute_with_context client settings (some fallbacks) 0).0.world ≡ 4
unfolding program
requests = refl

execute_with_context-IsEnded_example :
    IsEnded client settings
      (some fallbacks)
      0
      (execute_with_context client settings (some fallbacks) 0)
execute_with_context-IsEnded_example =
    execute_with_context-IsEnded client settings (some fallbacks) 0

fallbacks-Distinct : Distinct fallbacks.models
unfolding program
fallbacks-Distinct zero m h = subst (λ n. position n fallbacks.models ≡ some 0) (some_eq h) refl
fallbacks-Distinct (suc zero) m h =
    subst (λ n. position n fallbacks.models ≡ some 1) (some_eq h) refl
fallbacks-Distinct (suc (suc i)) m h = cc

next_model-rank_example :
    rank ("large" ∷ "small" ∷ []) "small" ≡ suc (rank ("large" ∷ "small" ∷ []) "large")
unfolding program
next_model-rank_example = next_model-rank fallbacks "large" "small" fallbacks-Distinct refl

execute_with_context-fallbacks_le_example :
    length (execute_with_context client settings (some fallbacks) 0).0.history ≤ 2
execute_with_context-fallbacks_le_example =
    execute_with_context-fallbacks_le client settings fallbacks fallbacks-Distinct 0
