-- ===== src/Llm/Executor/Rank.antt =====
-- How many models a completion can fall back to.
use vectorless.Llm.Executor.Steps.{execute_with_context-IsEnded, Linked, no_step, one_step}
use vectorless.Base.{
  if_true, if_false, length-append, Bool-cases, List, String, [], arith, inl, inr, length, none,
  some, sym, ◌+◌, ◌∙◌, ◌∷◌, ◌≡◌, ◌≢◌, ◌≤◌,
}
use vectorless.Llm.Error.{LlmError}
use vectorless.Llm.Fallback.{FallbackConfig, FallbackStep, next_model, should_fallback}
use vectorless.Llm.Fallback.Chain.{Distinct, rank, next_model-rank, rank_le}
use vectorless.Llm.Executor.{Client, LlmConfig, execute_with_context, fallback_model}
use vectorless.Llm.Executor.Steps.{Linked}

module _ {W : Type 0} (client : Client W) (c : LlmConfig) (f : FallbackConfig) where
  fallback_model-next :
      (e : LlmError) (m next : String)
      → fallback_model client c (some f) e m ≡ some next
      → next_model f m ≡ some next
  unfolding fallback_model
  fallback_model-next e m next h = elim (Bool-cases (should_fallback f e)) [
    | inl t ↦ sym (if_true (next_model f m) none t) ∙ h
    | inr no_ ↦ absurd (none≢some (sym (if_false (next_model f m) none no_) ∙ h))
  ]
    where
      none≢some : none ≢ some next
      none≢some p = cc

  Linked-rank :
      (history : List FallbackStep) (m : String)
      → Distinct f.models
      → Linked client c (some f) history m
      → rank f.models m ≡ rank f.models c.model + length history
  Linked-rank _ _ distinct no_step = omega arith
  Linked-rank _ _ distinct (one_step {history = history} {m = m} next e before h) =
      let one = next_model-rank f m next distinct (fallback_model-next e m next h) in
      let rest = Linked-rank history m distinct before in
      let more = length-append history (
        record {
          from_model = m;
          to_model = some next;
          from_endpoint = c.endpoint;
          to_endpoint = none;
          reason = client.to_string e;
        }
        ∷ []) in
      omega (arith, one, rest, more)

  -- A completion falls back at most as often as the chain has models: where no model stands twice
  -- in the chain, each fallback uses up one more of its models.
  pub execute_with_context-fallbacks_le :
      Distinct f.models
      → (w : W) → length (execute_with_context client c (some f) w).0.history ≤ length f.models
  execute_with_context-fallbacks_le distinct w =
      let s = (execute_with_context client c (some f) w).0 in
      let ended = execute_with_context-IsEnded client c (some f) w in
      omega (
        arith,
        Linked-rank s.history s.current_model distinct ended.linked,
        rank_le f.models s.current_model,
      )
