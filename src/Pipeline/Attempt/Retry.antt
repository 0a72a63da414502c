-- ===== src/Pipeline/Attempt/Retry.antt =====
-- What a stage's failure policy makes of its runs.
use vectorless.Base.{
  ℕ, zero, suc, ◌-◌, ◌<◌, ◌≡◌, refl, ◌⊎◌, inl, inr, String, arith, ap, subst, ◌∙◌, sym,
}
use vectorless.Pipeline.Policy.{StageRetryConfig, retry}
use vectorless.Pipeline.Stage.{CompilePass}
use vectorless.Pipeline.Order.{Result, ok, err}
use vectorless.Pipeline.Context.{Kind, CompileContext, PassResult}
use vectorless.Pipeline.Attempt.{
  Ran, Execute, retry_loop, execute_stage_with_policy, apply_policy, retry_after,
}

Result-cases :
    (r : Result PassResult String) → ((p : PassResult) × (r ≡ ok p)) ⊎ ((e : String) × (r ≡ err e))
Result-cases (ok p) = inl (p, refl)
Result-cases (err e) = inr (e, refl)

module _ {W : Type 0} {Part : Kind → Type 0} where
  -- `Fails run n w ctx w' ctx'`: n runs in a row fail and lead from one state to the other.
  pub data Fails (run : Execute W Part) (w' : W) (ctx' : CompileContext Part)
      : ℕ → W → CompileContext Part → Type 0 where
    none_failed : Fails run w' ctx' 0 w' ctx'
    first_failed :
        {n : ℕ} (w : W) (ctx : CompileContext Part) (e : String)
        → (run w ctx).result ≡ err e
        → Fails run w' ctx' n (run w ctx).world (run w ctx).context
        → Fails run w' ctx' (suc n) w ctx

  -- An attempt that ends the loop: the number of failures before it, and the state it starts in.
  pub record IsLast (run : Execute W Part) (attempts : ℕ) (w : W) (ctx : CompileContext Part)
      (ran : Ran W Part) : Type 0 where
    pub failures : ℕ
    pub world : W
    pub context : CompileContext Part
    pub failed : Fails run world context failures w ctx
    pub bounded : failures < attempts
    pub result : ran ≡ run world context
    pub ended : ((r : PassResult) × (ran.result ≡ ok r)) ⊎ (suc failures ≡ attempts)

  retry_loop_lem :
      (run : Execute W Part) (left : ℕ) (w : W) (ctx : CompileContext Part)
      → IsLast run (suc left) w ctx (retry_loop run left w ctx)
  unfolding retry_loop retry_after
  retry_loop_lem run zero w ctx = record {
    failures = 0;
    world = w;
    context = ctx;
    failed = none_failed;
    bounded = omega arith;
    result = refl;
    ended = inr refl;
  }
  retry_loop_lem run (suc left) w ctx =
      let ran = run w ctx in
      let next = retry_loop run left ran.world ran.context in
      elim (Result-cases ran.result) [
        | inl p ↦
            let same : retry_loop run (suc left) w ctx ≡ ran = ap (retry_after next ran) p.1 in
            record {
              failures = 0;
              world = w;
              context = ctx;
              failed = none_failed;
              bounded = omega arith;
              result = same;
              ended = inl (p.0, ap (λ r. r.result) same ∙ p.1);
            }
        | inr e ↦
            let same : retry_loop run (suc left) w ctx ≡ next = ap (retry_after next ran) e.1 in
            let rest = retry_loop_lem run left ran.world ran.context in
            record {
              failures = suc rest.failures;
              world = rest.world;
              context = rest.context;
              failed = first_failed w ctx e.0 e.1 rest.failed;
              bounded = omega (arith, rest.bounded);
              result = same ∙ rest.result;
              ended = elim (rest.ended) [
                | inl p ↦ inl (p.0, ap (λ r. r.result) same ∙ p.1)
                | inr q ↦ inr (ap suc q)
              ];
            }
      ]

  -- A stage whose policy is `Retry` with at least one attempt ends with one of its attempts: it
  -- failed on every attempt before, at most `max_attempts` attempts are made, and the last one
  -- succeeded unless all `max_attempts` are used up. The result, the context and the world are
  -- those of that attempt.
  pub execute_stage_with_policy-retry :
      (stage : CompilePass (Execute W Part)) (config : StageRetryConfig)
      → stage.failure_policy ≡ retry config
      → 0 < config.max_attempts
      → (w : W) (ctx : CompileContext Part)
      → IsLast stage.execute config.max_attempts w ctx (execute_stage_with_policy stage w ctx)
  unfolding apply_policy
  execute_stage_with_policy-retry stage config policy positive w ctx =
      let enough : suc (config.max_attempts - 1) ≡ config.max_attempts = omega (arith, positive) in
      let loop = retry_loop_lem stage.execute (config.max_attempts - 1) w ctx in
      let same = ap (λ p. apply_policy p stage.name stage.execute w ctx) policy in
      subst (IsLast stage.execute config.max_attempts w ctx) (sym same) (
        subst
          (λ n.
            IsLast stage.execute n w ctx (retry_loop stage.execute (config.max_attempts - 1) w ctx))
          enough loop)
