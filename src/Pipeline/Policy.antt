-- ===== src/Pipeline/Policy.antt =====
-- Failure policies of compile passes: crates/vectorless-compiler/src/pipeline/policy.rs.
-- Delays are whole milliseconds. The exponential backoff is floating-point and only says how long
-- a retry sleeps; it is not modelled, nor is the field `multiplier` that it reads.
use vectorless.Base.{ℕ, max, Bool, true, false}

pub record StageRetryConfig : Type 0 where
  pub max_attempts : ℕ
  pub initial_delay : ℕ
  pub max_delay : ℕ

abbrev pub default_retry : StageRetryConfig
default_retry = record { max_attempts = 3; initial_delay = 100; max_delay = 10000 }

abbrev pub with_max_attempts : StageRetryConfig → ℕ → StageRetryConfig
with_max_attempts c n = record c { max_attempts = max n 1 }

abbrev pub with_initial_delay : StageRetryConfig → ℕ → StageRetryConfig
with_initial_delay c delay = record c { initial_delay = delay }

abbrev pub with_max_delay : StageRetryConfig → ℕ → StageRetryConfig
with_max_delay c delay = record c { max_delay = delay }

pub data FailurePolicy : Type 0 where
  fail skip : FailurePolicy
  retry : StageRetryConfig → FailurePolicy

abbrev pub allows_continuation : FailurePolicy → Bool
allows_continuation skip = true
allows_continuation fail = false
allows_continuation (retry c) = false
