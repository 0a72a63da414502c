-- ===== src/Llm/Executor/Steps.antt =====
-- What a completion has done when it ends: how often it tried, which models, and why it gave up.
use mathlib.Core.Option
use vectorless.Base.{
  if_true, if_false, max, if◌then◌else◌, ◌≢◌, Bool-cases, List, Option, Option-cases, Result,
  String, [], ap, arith, err, false, if◌then◌else◌, inl, inr, leb, ltb, none, ok, refl, some, subst,
  suc, sym, true, zero, ℕ, ◌&&◌, ◌++◌, ◌+◌, ◌<◌, ◌∙◌, ◌∷◌, ◌≡◌, ◌≢◌, ◌≤◌, ◌⊎◌,
}
use vectorless.Llm.Error.{LlmError, is_retryable, timeout}
use vectorless.Llm.Fallback.{FallbackConfig, FallbackStep, record_fallback}
use vectorless.Llm.Executor.{
  Attempts, Client, LlmConfig, after_error, counted, error_events, execute_with_context, exhausted,
  fall_back, fallback_model, finish_round, first_round, llm_timeout, matches_rate_limit,
  max_total_attempts, request_loop, round, run_request, should_retry,
}
use mathlib.Core.Option

err_eq : {a b : LlmError} → Path (Result String LlmError) (err a) (err b) → a ≡ b
err_eq p = cc

ok≢err : {x : String} {e : LlmError} → Path (Result String LlmError) (ok x) (err e) → ⊥
ok≢err p = cc

module _ {W : Type 0} (client : Client W) (c : LlmConfig) (chain : Option FallbackConfig) where
  -- A history that leads from the configured model to the current one by fallback.
  pub data Linked : List FallbackStep → String → Type 0 where
    no_step : Linked [] c.model
    one_step :
        {history : List FallbackStep} {m : String} (next : String) (error : LlmError)
        → Linked history m
        → fallback_model client c chain error m ≡ some next
        → Linked
            (record_fallback history m (some next) c.endpoint none (client.to_string error))
            next

  -- The requests that lead from a first world to another one, and the fallbacks among them: how
  -- many in all, how many of them to the current model since the last fallback, the history of
  -- fallbacks, and the current model.
  pub data Requested (first : W) : ℕ → ℕ → List FallbackStep → String → W → Type 0 where
    no_request : Requested first 0 0 [] c.model first
    one_request :
        {n k : ℕ} {history : List FallbackStep} {m : String} {w : W} (v : W)
        → Requested first n k history m w
        → (client.do_request w m).0 ≡ v
        → Requested first (n + 1) (k + 1) history m v
    fell_back :
        {n k : ℕ} {history : List FallbackStep} {m : String} {w : W} (next : String)
        (error : LlmError)
        → Requested first n k history m w
        → fallback_model client c chain error m ≡ some next
        → Requested first n 0
            (record_fallback history m (some next) c.endpoint none (client.to_string error))
            next
            w

  -- The reasons to return an error, after n requests, k of them to the last model.
  abbrev pub GivesUp : ℕ → ℕ → String → LlmError → Type 0
  GivesUp n k model e =
      ((n ≡ max_total_attempts) × (e ≡ exhausted client c chain (max_total_attempts + 1)))
      ⊎ ((should_retry client c chain e k ≡ false) × (fallback_model client c chain e model ≡ none))

  pub record IsEnded (first : W) (r : Attempts W × Result String LlmError) : Type 0 where
    pub linked : Linked r.0.history r.0.current_model
    pub requests : ℕ
    pub last_requests : ℕ
    pub requested : Requested first requests last_requests r.0.history r.0.current_model r.0.world
    pub bounded : requests ≤ max_total_attempts
    pub tries : last_requests ≤ max c.max_attempts 1
    pub reason : (e : LlmError) → r.1 ≡ err e → GivesUp requests last_requests r.0.current_model e

  -- A state in which another round may start.
  record IsReady (first : W) (s : Attempts W) (left : ℕ) : Type 0 where
    linked : Linked s.history s.current_model
    requested : Requested first s.total s.attempts s.history s.current_model s.world
    total : s.total + left ≡ max_total_attempts
    tries : s.attempts < max c.max_attempts 1

  -- A state in which a round has made its request.
  record IsTried (first : W) (s : Attempts W) (left : ℕ) : Type 0 where
    linked : Linked s.history s.current_model
    requested : Requested first s.total s.attempts s.history s.current_model s.world
    total : s.total + left ≡ max_total_attempts
    tries : s.attempts ≤ max c.max_attempts 1

  run_request-IsTried :
      (first : W) (s : Attempts W) (left : ℕ)
      → IsReady first s (suc left)
      → IsTried first (run_request client c chain (counted client c chain s)).0 left
  unfolding run_request
  run_request-IsTried first s left h =
      let a : Attempts W = counted client c chain s in
      let r = client.do_request s.world s.current_model in
      let t : Attempts W = record a { world = r.0 } in
      let cut : Attempts W × Result String LlmError = (
        record t { events = s.events ++ llm_timeout ∷ [] },
        err (timeout (client.timeout_text c.request_timeout_secs)),
      ) in
      let whole : Attempts W × Result String LlmError = (t, r.2) in
      let made = one_request r.0 h.requested refl in
      let P = λ (p : Attempts W × Result String LlmError). IsTried first p.0 left in
      elim (Bool-cases (ltb 0 c.request_timeout_secs && ltb c.request_timeout_secs r.1)) [
        | inl yes_ ↦ subst P (sym (if_true cut whole yes_)) (record {
          linked = h.linked;
          requested = made;
          total = omega (arith, h.total);
          tries = omega (arith, h.tries);
        })
        | inr no_ ↦ subst P (sym (if_false cut whole no_)) (record {
          linked = h.linked;
          requested = made;
          total = omega (arith, h.total);
          tries = omega (arith, h.tries);
        })
      ]

  should_retry-below :
      (e : LlmError) (attempts : ℕ)
      → should_retry client c chain e attempts ≡ true
      → attempts < c.max_attempts
  unfolding should_retry
  should_retry-below e attempts h = elim (Bool-cases (leb c.max_attempts attempts)) [
    | inl t ↦ absurd (
        false≢true (
          sym (
            if_true false
              (if matches_rate_limit e
                then c.retry_on_rate_limit
                else is_retryable client.mentions e)
              t)
          ∙ h))
    | inr f ↦ ground (arith, f)
  ]
    where
      false≢true : false ≢ true
      false≢true p = cc

  after_error-cases :
      (first : W) (s : Attempts W) (left : ℕ) (e : LlmError)
      → IsTried first s left
      → ((t : Attempts W) × (after_error client c chain s e ≡ some t) × IsReady first t left)
        ⊎ ((after_error client c chain s e ≡ none)
            × (should_retry client c chain e s.attempts ≡ false)
            × (fallback_model client c chain e s.current_model ≡ none))
  unfolding after_error
  after_error-cases first s left e h =
      let t : Attempts W = record s { events = s.events ++ error_events e } in
      let model = fallback_model client c chain e s.current_model in
      let other = Option.map (fall_back client c chain t e) model in
      elim (Bool-cases (should_retry client c chain e s.attempts)) [
        | inl again ↦ inl (
          t,
          if_true (some t) other again,
          record {
            linked = h.linked;
            requested = h.requested;
            total = h.total;
            tries = omega (arith, should_retry-below e s.attempts again);
          },
        )
        | inr over ↦
            let eq = if_false (some t) other over in
            elim (Option-cases model) [
              | inl n ↦ inr (eq ∙ ap (Option.map (fall_back client c chain t e)) n, over, n)
              | inr m ↦ inl (
                fall_back client c chain t e m.0,
                eq ∙ ap (Option.map (fall_back client c chain t e)) m.1,
                record {
                  linked = one_step m.0 e h.linked m.1;
                  requested = fell_back m.0 e h.requested m.1;
                  total = h.total;
                  tries = omega arith;
                },
              )
            ]
      ]

  request_loop-IsEnded :
      (first : W) (left : ℕ) (s : Attempts W)
      → IsReady first s left
      → IsEnded first (request_loop client c chain left s)
  unfolding request_loop
  request_loop-IsEnded first zero s h = record {
    linked = h.linked;
    requests = s.total;
    last_requests = s.attempts;
    requested = h.requested;
    bounded = omega (arith, h.total);
    tries = omega (arith, h.tries);
    reason = λ e p. inl (
      omega (arith, h.total),
      sym (err_eq p) ∙ ap (exhausted client c chain) (omega (arith, h.total)),
    );
  }
  request_loop-IsEnded first (suc left) s h =
      go (λ u k. request_loop-IsEnded first left u k)
        (run_request client c chain (counted client c chain s)) (run_request-IsTried first s left h)
    where
      go :
          ((u : Attempts W)
            → IsReady first u left
            → IsEnded first (request_loop client c chain left u))
          → (r : Attempts W × Result String LlmError) → IsTried first r.0 left
          → IsEnded first (round client c chain (request_loop client c chain left) r)
      go rest (u, ok response) k = record {
        linked = k.linked;
        requests = u.total;
        last_requests = u.attempts;
        requested = k.requested;
        bounded = omega (arith, k.total);
        tries = k.tries;
        reason = λ e p. absurd (ok≢err p);
      }
      go rest (u, err e) k = elim (after_error-cases first u left e k) [
        | inl v ↦
            subst
              (λ o.
                IsEnded first
                  (finish_round client c chain (request_loop client c chain left) u e o))
              (sym v.1) (rest v.0 v.2)
        | inr v ↦
            subst
              (λ o.
                IsEnded first
                  (finish_round client c chain (request_loop client c chain left) u e o))
              (sym v.0)
              (record {
                linked = k.linked;
                requests = u.total;
                last_requests = u.attempts;
                requested = k.requested;
                bounded = omega (arith, k.total);
                tries = k.tries;
                reason = λ e' p. inr (
                    subst
                      (λ x.
                        (should_retry client c chain x u.attempts ≡ false)
                        × (fallback_model client c chain x u.current_model ≡ none))
                      (err_eq p) (v.1, v.2));
              })
      ]

  -- A completion always ends: the history of fallbacks leads from the configured model to the last
  -- one, the world is the one that at most 20 requests in all lead to, of which at most
  -- `max_attempts` (or one) went to the last model since the last fallback, and an error is
  -- returned only when 20 requests were made, or when the error is not to be retried and there is
  -- no model left to fall back to.
  pub execute_with_context-IsEnded : (w : W) → IsEnded w (execute_with_context client c chain w)
  unfolding execute_with_context
  execute_with_context-IsEnded w =
      request_loop-IsEnded w max_total_attempts (first_round client c chain w)
        (record { linked = no_step; requested = no_request; total = refl; tries = omega arith })
