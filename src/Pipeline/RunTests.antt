-- ===== src/Pipeline/RunTests.antt =====
-- Runs of groups with two small passes, and the theorems at them.
use vectorless.Base.{
  Option, String, [], arith, if◌then◌else◌, ltb, none, pos, refl, some, suc, true, zero, ℕ, ◌∷◌,
  str_eq,
}
use vectorless.Pipeline.Policy.{FailurePolicy, StageRetryConfig, default_retry, fail, retry, skip}
use vectorless.Pipeline.Run.{initial_context, run_group}
use vectorless.Pipeline.Attempt.Retry.{IsLast, execute_stage_with_policy-retry}
use vectorless.Pipeline.Sequential.Sound.{StoppedAt, run_sequential-stopped}
use vectorless.Pipeline.Sequential.Recorded.{AllKeepResults, GroupRecorded, run_sequential-recorded}
use vectorless.Pipeline.Parallel.Kept.{SameOutputs, run_parallel-same}
use vectorless.Pipeline.Stage.{PassEntry, Stages, no_access}
use vectorless.Pipeline.Order.{err, ok}
use vectorless.Pipeline.Context.{
  CompileContext, DocumentFormat, Kind, PipelineOptions, SummaryStrategy, contains_key, content,
  pass_success, record_stage, PipelineCheckpoint,
}
use vectorless.Pipeline.Attempt.{
  Execute, apply_policy, execute_stage_with_policy, handle_stage_result, retry_after, retry_loop,
  skip_failure,
}
use vectorless.Pipeline.Merge.{merge_outputs}
use vectorless.Pipeline.State.{Run, Services, save_checkpoint, set_stage, stage_at}
use vectorless.Pipeline.Sequential.{run_sequential, sequential_result, sequential_stage}
use vectorless.Pipeline.Parallel.{
  clone_context, entry_of, finish_reader, finish_readers, run_entries, run_parallel, run_readers,
  split_entries, take_entries, tree_writer,
}

-- The world counts the runs of passes and the saved checkpoints.
abbrev Part : Kind → Type 0
Part kind = ℕ

abbrev services : Services ℕ Part
services = record {
  manager = record {
    save = λ w dir id checkpoint. suc w;
    load = λ w dir id. none;
    clear = λ w dir id. w;
  };
  compute_source_hash = λ input. "hash";
  logic_fingerprint = λ options. "fingerprint";
  fresh_id = "fresh";
}

abbrev options : PipelineOptions Part
options = record {
  summary_strategy = SummaryStrategy.no_summary;
  existing_tree = none;
  processing_version = 1;
  checkpoint_dir = some "checkpoints";
  config = 0;
}

abbrev ctx : CompileContext Part
ctx = initial_context services none (content "text" "doc" DocumentFormat.markdown) options

-- A pass that fails in the first two runs.
abbrev flaky : Execute ℕ Part
flaky w c = record {
  world = suc w;
  context = c;
  result = if ltb w 2 then err "busy" else ok (pass_success "flaky");
}

-- A pass that writes concepts.
abbrev concepts : Execute ℕ Part
concepts w c = record {
  world = suc w;
  context = record c { concepts = 7 ∷ [] };
  result = ok (pass_success "concepts");
}

abbrev entry_for : String → FailurePolicy → Execute ℕ Part → PassEntry (Execute ℕ Part)
entry_for name policy run = record {
  stage = record {
    name = name;
    depends_on = [];
    failure_policy = policy;
    access_pattern = record no_access { writes_concepts = true };
    execute = run;
  };
  priority = pos 10;
  depends_on = [];
}

abbrev config : StageRetryConfig
config = default_retry

abbrev stages : Stages (Execute ℕ Part)
stages = entry_for "flaky" (retry config) flaky ∷ entry_for "concepts" skip concepts ∷ []

abbrev failing : Stages (Execute ℕ Part)
failing = entry_for "concepts" skip concepts ∷ entry_for "flaky" fail flaky ∷ []

abbrev begun : Stages (Execute ℕ Part) → Run ℕ Part
begun list = record { world = 0; stages = list; context = ctx }

program : Unit {0}
unfolding run_parallel run_sequential run_group initial_context apply_policy retry_loop retry_after
    skip_failure sequential_stage sequential_result stage_at contains_key record_stage
    save_checkpoint tree_writer take_entries entry_of clone_context split_entries run_entries
    run_readers finish_readers finish_reader handle_stage_result set_stage merge_outputs
program = tt

keeps : AllKeepResults stages
unfolding program
keeps zero w c name h = h
keeps (suc zero) w c name h = h
keeps (suc (suc idx)) w c name h = h

-- The third attempt succeeds, after two failures.
execute_stage_with_policy-retry_example :
    IsLast flaky 3 0 ctx
      (execute_stage_with_policy (entry_for "flaky" (retry config) flaky).stage 0 ctx)
execute_stage_with_policy-retry_example =
    execute_stage_with_policy-retry (entry_for "flaky" (retry config) flaky).stage config refl
      (omega arith) 0 ctx

run_sequential-recorded_example :
    GroupRecorded
      (0 ∷ 1 ∷ [])
      (begun stages)
      (run_sequential services (0 ∷ 1 ∷ []) (begun stages)).0
unfolding program
run_sequential-recorded_example =
    run_sequential-recorded services (0 ∷ 1 ∷ []) (begun stages) keeps refl

run_sequential-stopped_example : StoppedAt services (0 ∷ 1 ∷ []) (begun failing) "busy"
unfolding program
run_sequential-stopped_example =
    run_sequential-stopped services (0 ∷ 1 ∷ []) (begun failing) "busy" refl

-- The concepts that the second pass of a parallel group writes do not reach the main context.
run_parallel-same_example :
    SameOutputs ctx (run_parallel services (0 ∷ 1 ∷ []) (begun stages)).0.context
unfolding program
run_parallel-same_example = run_parallel-same services (0 ∷ 1 ∷ []) (begun stages) refl

-- A world that holds the last checkpoint of each document.
abbrev Files : Type 0
Files = String → Option (PipelineCheckpoint Part)

abbrev files : Services Files Part
files = record {
  manager = record {
    save = λ w dir id checkpoint name. if str_eq name id then some checkpoint else w name;
    load = λ w dir id. w id;
    clear = λ w dir id name. if str_eq name id then none else w name;
  };
  compute_source_hash = λ input. "hash";
  logic_fingerprint = λ options. "fingerprint";
  fresh_id = "fresh";
}

-- A run of the same input that was interrupted.
abbrev interrupted : CompileContext Part
interrupted = record ctx {
  doc_id = "earlier";
  stage_results = ("parse", pass_success "parse") ∷ [];
  raw_nodes = 1 ∷ 2 ∷ [];
  tree = some 5;
}
