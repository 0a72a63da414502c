-- ===== src/Pipeline/Sequential.antt =====
-- Groups that run one stage after another, of `execute` of
-- crates/vectorless-compiler/src/pipeline/orchestrator.rs.
pub mod Sound
pub mod Recorded
use vectorless.Base.{List, String, [], all, if◌then◌else◌, not, ℕ, ◌-◌, ◌∷◌}
use vectorless.Pipeline.Policy.{allows_continuation}
use vectorless.Pipeline.Stage.{CompilePass}
use vectorless.Pipeline.Order.{Result, err, ok}
use vectorless.Pipeline.Context.{Kind, PassResult, contains_key, pass_failure, record_stage}
use vectorless.Pipeline.Attempt.{Execute, execute_stage_with_policy}
use vectorless.Pipeline.State.{
  Run, Services, Status, and_then, done, failed, save_checkpoint, saved, stage_at,
}

module _ {W : Type 0} {Part : Kind → Type 0} where
  -- A stage that ran: its result is recorded, or the checkpoint is saved and the error returned.
  unfoldable pub sequential_result :
      Services W Part
      → Run W Part
      → CompilePass (Execute W Part)
      → Result PassResult String
      → Run W Part × Status
  unfolding record_stage save_checkpoint
  sequential_result services s stage (ok result) =
      (record s { context = record_stage stage.name result s.context }, done)
  sequential_result services s stage (err e) =
      if allows_continuation stage.failure_policy
      then (
        record s { context = record_stage stage.name (pass_failure stage.name e) s.context },
        done,
      )
      else (saved services s, failed e)

  -- One stage, skipped where the context has its result already.
  unfoldable pub sequential_stage : Services W Part → ℕ → Run W Part → Run W Part × Status
  unfolding sequential_result stage_at contains_key
  sequential_stage services idx s =
      let stage = stage_at s.stages idx in
      if contains_key s.context.stage_results stage.name
      then (s, done)
      else let ran = execute_stage_with_policy stage s.world s.context in
        sequential_result services (record s { world = ran.world; context = ran.context }) stage
          ran.result

  unfoldable pub run_sequential : Services W Part → List ℕ → Run W Part → Run W Part × Status
  unfolding sequential_stage
  run_sequential services [] s = (s, done)
  run_sequential services (idx ∷ indices) s =
      and_then (sequential_stage services idx s) (run_sequential services indices)
