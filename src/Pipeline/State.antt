-- ===== src/Pipeline/State.antt =====
-- What `execute` of crates/vectorless-compiler/src/pipeline/orchestrator.rs works on: the world, the
-- registered stages and the main context; and `save_checkpoint`.
--
-- A checkpoint manager (crates/vectorless-compiler/src/pipeline/checkpoint.rs over the file system
-- and serde) is the interface `CheckpointManager`: its failures to save or clear are only logged.
use vectorless.Base.{Option, String, [], map, none, some, suc, zero, ℕ, ◌∷◌}
use vectorless.Pipeline.Policy.{FailurePolicy, fail}
use vectorless.Pipeline.Stage.{AccessPattern, CompilePass, Stages, no_access}
use vectorless.Pipeline.Order.{Result, err, ok}
use vectorless.Pipeline.Context.{
  CompileContext, CompilerInput, Kind, PipelineCheckpoint, PipelineOptions, pass_success,
}
use vectorless.Pipeline.Attempt.{Execute}

-- `Result<()>`
pub data Status : Type 0 where
  done : Status
  failed : String → Status

module _ (W : Type 0) (Part : Kind → Type 0) where
  -- Files by directory and document.
  pub record CheckpointManager : Type 0 where
    pub save : W → String → String → PipelineCheckpoint Part → W
    pub load : W → String → String → Option (PipelineCheckpoint Part)
    pub clear : W → String → String → W

  -- What `execute` changes: the world, the registered stages, the main context.
  pub record Run : Type 0 where
    pub world : W
    pub stages : Stages (Execute W Part)
    pub context : CompileContext Part

  pub record ParallelEntry : Type 0 where
    pub idx : ℕ
    pub stage : CompilePass (Execute W Part)
    pub ctx : Option (CompileContext Part)
    pub name : String
    pub policy : FailurePolicy
    pub access : AccessPattern

  -- What the run takes from outside: the manager, the digests, a fresh identifier.
  pub record Services : Type 0 where
    pub manager : CheckpointManager
    pub compute_source_hash : CompilerInput Part → String
    pub logic_fingerprint : PipelineOptions Part → String
    pub fresh_id : String

module _ {W : Type 0} {Part : Kind → Type 0} where
  -- `NopStage`
  abbrev pub nop_stage : CompilePass (Execute W Part)
  nop_stage = record {
    name = "_nop";
    depends_on = [];
    failure_policy = fail;
    access_pattern = no_access;
    execute = λ w ctx. record { world = w; context = ctx; result = ok (pass_success "_nop") };
  }

  -- `self.stages[idx].stage = stage`
  unfoldable pub set_stage :
      Stages (Execute W Part) → ℕ → CompilePass (Execute W Part) → Stages (Execute W Part)
  set_stage [] idx stage = []
  set_stage (e ∷ stages) zero stage = record e { stage = stage } ∷ stages
  set_stage (e ∷ stages) (suc idx) stage = e ∷ set_stage stages idx stage

  -- `self.stages[idx].stage`; an index outside, which an order never holds, has the empty stage.
  unfoldable pub stage_at : Stages (Execute W Part) → ℕ → CompilePass (Execute W Part)
  stage_at [] idx = nop_stage
  stage_at (e ∷ stages) zero = e.stage
  stage_at (e ∷ stages) (suc idx) = stage_at stages idx

  unfoldable pub checkpoint_of : Services W Part → CompileContext Part → PipelineCheckpoint Part
  checkpoint_of services ctx = record {
    doc_id = ctx.doc_id;
    source_hash = ctx.source_hash;
    processing_version = ctx.options.processing_version;
    config_fingerprint = services.logic_fingerprint ctx.options;
    completed_stages = map (λ e. e.0) ctx.stage_results;
    context_data = record {
      raw_nodes = ctx.raw_nodes;
      tree = ctx.tree;
      metrics = ctx.metrics;
      page_count = ctx.page_count;
      line_count = ctx.line_count;
      description = ctx.description;
    };
  }

  -- The match on `checkpoint_dir`.
  unfoldable pub save_to : Services W Part → W → CompileContext Part → Option String → W
  unfolding checkpoint_of
  save_to services w ctx none = w
  save_to services w ctx (some dir) =
      services.manager.save w dir ctx.doc_id (checkpoint_of services ctx)

  unfoldable pub save_checkpoint : Services W Part → W → CompileContext Part → W
  unfolding save_to
  save_checkpoint services w ctx = save_to services w ctx ctx.options.checkpoint_dir

  abbrev pub saved : Services W Part → Run W Part → Run W Part
  saved services s = record s { world = save_checkpoint services s.world s.context }

  -- The rest of a loop, unless the step before it returned an error.
  abbrev pub and_then :
      Run W Part × Status → (Run W Part → Run W Part × Status) → Run W Part × Status
  and_then (s, done) next = next s
  and_then (s, failed e) next = (s, failed e)

  -- A handled result: the context changes, or the error is returned (`?`).
  abbrev pub with_context : Run W Part → Result (CompileContext Part) String → Run W Part × Status
  with_context s (ok ctx) = (record s { context = ctx }, done)
  with_context s (err e) = (s, failed e)
