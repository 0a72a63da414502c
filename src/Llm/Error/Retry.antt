-- ===== src/Llm/Error/Retry.antt =====
-- Classification of API errors and retrying.
use vectorless.Base.{if◌then◌else◌, String, Bool, true, false, ◌||◌, ◌≡◌, sym, refl}
use vectorless.Llm.Error.{api, rate_limit, timeout, is_retryable, from_api_message}

-- An API error classified by its message is retryable exactly when it would be as a plain API
-- error with that message, however messages are tested for words.
pub from_api_message-is_retryable :
    (mentions : String → String → Bool) (msg : String)
    → is_retryable mentions (from_api_message mentions msg) ≡ is_retryable mentions (api msg)
unfolding from_api_message is_retryable
from_api_message-is_retryable mentions msg =
    go (mentions msg "rate limit") (mentions msg "429") (mentions msg "503") (mentions msg "502")
      (mentions msg "timeout") (mentions msg "overloaded") refl
  where
    go :
        (a b c d e f : Bool)
        → is_retryable mentions (api msg) ≡ (a || b || c || d || e || f)
        → is_retryable mentions
            (if a || b then rate_limit msg else if e then timeout msg else api msg)
          ≡ is_retryable mentions (api msg)
    go true b c d e f h = sym h
    go false true c d e f h = sym h
    go false false true d true f h = sym h
    go false false false true true f h = sym h
    go false false false false true f h = sym h
    go false false c d false f h = refl
