-- ===== src/Pipeline/Run.antt =====
-- Running all groups: `execute` of crates/vectorless-compiler/src/pipeline/orchestrator.rs.
pub mod Resume
use vectorless.Base.{
  List, Option, String, [], if◌then◌else◌, inl, inr, length, ltb, none, some, ◌&&◌, ◌∷◌, ◌⊎◌,
}
use vectorless.Pipeline.Stage.{Stages}
use vectorless.Pipeline.Order.{ConfigError, Result, err, ok, resolve_order}
use vectorless.Pipeline.Groups.{ExecutionGroup, compute_execution_groups}
use vectorless.Pipeline.Context.{
  CompileContext, CompileResult, CompilerInput, Kind, PipelineCheckpoint, PipelineOptions, finalize,
  is_valid_for_resume, new_context, pass_success, record_stage, with_existing_tree, with_llm_client,
}
use vectorless.Pipeline.Attempt.{Execute}
use vectorless.Pipeline.State.{
  Run, Services, Status, and_then, done, failed, save_checkpoint, saved,
}
use vectorless.Pipeline.Sequential.{run_sequential}
use vectorless.Pipeline.Parallel.{all_completed, run_parallel}

module _ {Part : Kind → Type 0} where
  -- `PassResult::success` for every completed stage.
  unfoldable pub mark_completed : List String → CompileContext Part → CompileContext Part
  unfolding record_stage
  mark_completed [] ctx = ctx
  mark_completed (name ∷ names) ctx =
      mark_completed names (record_stage name (pass_success name) ctx)

  unfoldable pub restore : PipelineCheckpoint Part → CompileContext Part → CompileContext Part
  unfolding mark_completed
  restore checkpoint ctx =
      let data_ = checkpoint.context_data in
      mark_completed checkpoint.completed_stages (record ctx {
        raw_nodes = data_.raw_nodes;
        tree = elim (data_.tree) [ some t ↦ some t | none ↦ ctx.tree ];
        metrics = data_.metrics;
        page_count = data_.page_count;
        line_count = data_.line_count;
        description = data_.description;
      })

module _ {W : Type 0} {Part : Kind → Type 0} where
  -- A group whose stages all have results is passed over without a checkpoint.
  unfoldable pub run_group : Services W Part → ExecutionGroup → Run W Part → Run W Part × Status
  unfolding all_completed run_parallel run_sequential save_checkpoint
  run_group services group s =
      if group.parallel && ltb 0 (length group.stage_indices)
      then if all_completed s group.stage_indices
        then (s, done)
        else and_then (run_parallel services group.stage_indices s) (λ t. (saved services t, done))
      else and_then (run_sequential services group.stage_indices s) (λ t. (saved services t, done))

  unfoldable pub run_groups :
      Services W Part → List ExecutionGroup → Run W Part → Run W Part × Status
  unfolding run_group
  run_groups services [] s = (s, done)
  run_groups services (group ∷ groups) s =
      and_then (run_group services group s) (run_groups services groups)

  -- The matches on the loaded checkpoint and on `checkpoint_dir`.
  unfoldable pub resume_with :
      Services W Part → CompileContext Part → Option (PipelineCheckpoint Part) → CompileContext Part
  unfolding restore
  resume_with services ctx none = ctx
  resume_with services ctx (some checkpoint) =
      if is_valid_for_resume checkpoint ctx.source_hash ctx.options.processing_version
        (services.logic_fingerprint ctx.options)
      then restore checkpoint ctx
      else ctx

  unfoldable pub resume_from :
      Services W Part → W → CompileContext Part → Option String → CompileContext Part
  unfolding resume_with
  resume_from services w ctx none = ctx
  resume_from services w ctx (some dir) =
      resume_with services ctx (services.manager.load w dir ctx.doc_id)

  unfoldable pub resume : Services W Part → W → CompileContext Part → CompileContext Part
  unfolding resume_from
  resume services w ctx = resume_from services w ctx ctx.options.checkpoint_dir

  -- The context before the first group.
  unfoldable pub initial_context :
      Services W Part
      → Option (Part Kind.llm)
      → CompilerInput Part
      → PipelineOptions Part
      → CompileContext Part
  initial_context services client input options =
      let ctx =
        new_context services.fresh_id (services.compute_source_hash input) input
          (record options { existing_tree = none }) in
      let ctx1 : CompileContext Part = elim client [
        | some c ↦ with_llm_client ctx c
        | none ↦ ctx
      ] in
      elim (options.existing_tree) [ some t ↦ with_existing_tree ctx1 t | none ↦ ctx1 ]

  unfoldable pub clear_checkpoint : Services W Part → W → CompileContext Part → W
  clear_checkpoint services w ctx = elim (ctx.options.checkpoint_dir) [
    | none ↦ w
    | some dir ↦ services.manager.clear w dir ctx.doc_id
  ]

  -- The end of `execute`.
  unfoldable pub finish :
      Services W Part
      → Run W Part × Status
      → (W × Stages (Execute W Part)) × Result (CompileResult Part) (ConfigError ⊎ String)
  unfolding clear_checkpoint
  finish services (s, done) =
      ((clear_checkpoint services s.world s.context, s.stages), ok (finalize s.context))
  finish services (s, failed e) = ((s.world, s.stages), err (inr e))

  unfoldable pub execute :
      Services W Part
      → Option (Part Kind.llm)
      → CompilerInput Part
      → PipelineOptions Part
      → W
      → Stages (Execute W Part)
      → (W × Stages (Execute W Part)) × Result (CompileResult Part) (ConfigError ⊎ String)
  unfolding resolve_order run_groups resume initial_context finish
  execute services client input options w stages = elim (resolve_order stages) [
    | err e ↦ ((w, stages), err (inl e))
    | ok order ↦
        let ctx = resume services w (initial_context services client input options) in
        finish services (
          run_groups services (compute_execution_groups stages order)
            (record { world = w; stages = stages; context = ctx }))
  ]
