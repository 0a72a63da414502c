-- ===== src/Llm/Error.antt =====
-- Errors of language model calls: crates/vectorless-llm/src/error.rs.
pub mod Retry
use vectorless.Base.{Bool, String, false, if◌then◌else◌, true, ℕ, ◌||◌}

pub data LlmError : Type 0 where
  api request config parse rate_limit timeout : String → LlmError
  no_content : LlmError
  retry_exhausted : ℕ → String → LlmError

-- `mentions msg word` is `msg.to_lowercase().contains(word)`.
module _ (mentions : String → String → Bool) where
  unfoldable pub is_retryable : LlmError → Bool
  is_retryable (api msg) =
      mentions msg "rate limit"
      || mentions msg "429"
      || mentions msg "503"
      || mentions msg "502"
      || mentions msg "timeout"
      || mentions msg "overloaded"
  is_retryable (timeout msg) = true
  is_retryable (rate_limit msg) = true
  is_retryable (request msg) = false
  is_retryable (config msg) = false
  is_retryable (parse msg) = false
  is_retryable no_content = false
  is_retryable (retry_exhausted attempts last_error) = false

  unfoldable pub from_api_message : String → LlmError
  from_api_message msg =
      if mentions msg "rate limit" || mentions msg "429"
      then rate_limit msg
      else if mentions msg "timeout"
      then timeout msg
      else api msg
