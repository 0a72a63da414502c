-- ===== src/Pipeline/Attempt.antt =====
-- Running one stage under its failure policy, and recording its result:
-- `execute_stage_with_policy` and `handle_stage_result` of
-- crates/vectorless-compiler/src/pipeline/orchestrator.rs.
--
-- A pass may change the context also when it fails. All else that it reads or changes (its own
-- state, the LLM, the disk) is a state of type `W` that is threaded through. Sleeping between
-- attempts and logging are not modelled. Errors are their texts.
pub mod Retry
use vectorless.Base.{ℕ, zero, suc, ◌-◌, String, if◌then◌else◌}
use vectorless.Pipeline.Policy.{FailurePolicy, fail, skip, retry, allows_continuation}
use vectorless.Pipeline.Stage.{CompilePass}
use vectorless.Pipeline.Order.{Result, ok, err}
use vectorless.Pipeline.Context.{Kind, CompileContext, PassResult, pass_failure, record_stage}

module _ (W : Type 0) (Part : Kind → Type 0) where
  -- The state after a run, and its result.
  pub record Ran : Type 0 where
    pub world : W
    pub context : CompileContext Part
    pub result : Result PassResult String

  -- `CompilePass::execute`
  abbrev pub Execute : Type 0
  Execute = W → CompileContext Part → Ran

module _ {W : Type 0} {Part : Kind → Type 0} where
  -- The match on the result of one attempt: a success is returned, a failure goes on with `next`.
  unfoldable pub retry_after : Ran W Part → Ran W Part → Result PassResult String → Ran W Part
  retry_after next ran (ok result) = ran
  retry_after next ran (err e) = next

  -- The loop of `FailurePolicy::Retry`: `left` attempts may follow this one, so the test
  -- `attempts >= max_attempts` after a failure is that none is left.
  unfoldable pub retry_loop : Execute W Part → ℕ → W → CompileContext Part → Ran W Part
  unfolding retry_after
  retry_loop run zero w ctx = run w ctx
  retry_loop run (suc left) w ctx =
      let ran = run w ctx in retry_after (retry_loop run left ran.world ran.context) ran ran.result

  -- The match of `FailurePolicy::Skip`.
  unfoldable pub skip_failure : String → Ran W Part → Result PassResult String → Ran W Part
  skip_failure name ran (ok result) = ran
  skip_failure name ran (err e) = record ran { result = ok (pass_failure name e) }

  unfoldable pub apply_policy : FailurePolicy → String → Execute W Part → Execute W Part
  unfolding retry_loop skip_failure
  apply_policy fail name run w ctx = run w ctx
  apply_policy skip name run w ctx = let ran = run w ctx in skip_failure name ran ran.result
  apply_policy (retry config) name run w ctx = retry_loop run (config.max_attempts - 1) w ctx

  abbrev pub execute_stage_with_policy : CompilePass (Execute W Part) → Execute W Part
  execute_stage_with_policy stage = apply_policy stage.failure_policy stage.name stage.execute

module _ {Part : Kind → Type 0} where
  -- The context after the result is recorded, or the error that stops the pipeline.
  unfoldable pub handle_stage_result :
      Result PassResult String
      → String
      → FailurePolicy
      → CompileContext Part
      → Result (CompileContext Part) String
  unfolding record_stage
  handle_stage_result (ok result) name policy ctx = ok (record_stage name result ctx)
  handle_stage_result (err e) name policy ctx =
      if allows_continuation policy then ok (record_stage name (pass_failure name e) ctx) else err e
