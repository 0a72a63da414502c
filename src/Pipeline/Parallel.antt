-- ===== src/Pipeline/Parallel.antt =====
-- Groups that run in parallel, of `execute` of
-- crates/vectorless-compiler/src/pipeline/orchestrator.rs.
--
-- The stages of a parallel group run concurrently, each on its own context; here the writer runs
-- first and the readers follow in the order of the group, so `W` is what they share besides.
pub mod Kept
use vectorless.Base.{Bool, List, Option, [], all, false, if◌then◌else◌, none, some, ℕ, ◌==◌, ◌∷◌}
use vectorless.Pipeline.Stage.{Stages}
use vectorless.Pipeline.Context.{
  CompileContext, DocumentFormat, Kind, contains_key, content, new_context,
}
use vectorless.Pipeline.Attempt.{Execute, Ran, execute_stage_with_policy, handle_stage_result}
use vectorless.Pipeline.Merge.{merge_outputs}
use vectorless.Pipeline.State.{
  ParallelEntry, Run, Services, Status, and_then, done, nop_stage, set_stage, stage_at,
  with_context,
}

-- Whether an index is the tree writer's.
abbrev pub is_writer : Option ℕ → ℕ → Bool
is_writer none idx = false
is_writer (some writer) idx = writer == idx

module _ {W : Type 0} {Part : Kind → Type 0} where
  unfoldable pub all_completed : Run W Part → List ℕ → Bool
  unfolding contains_key stage_at
  all_completed s indices =
      all (λ idx. contains_key s.context.stage_results (stage_at s.stages idx).name) indices

  -- The first stage of the group that writes the tree.
  unfoldable pub tree_writer : Stages (Execute W Part) → List ℕ → Option ℕ
  unfolding stage_at
  tree_writer stages [] = none
  tree_writer stages (idx ∷ indices) =
      let rest = tree_writer stages indices in
      if (stage_at stages idx).access_pattern.writes_tree then some idx else rest

  -- The context that a reader gets.
  unfoldable pub clone_context : Services W Part → CompileContext Part → CompileContext Part
  clone_context services ctx =
      let input = content "" "" DocumentFormat.markdown in
      record (new_context ctx.doc_id (services.compute_source_hash input) input ctx.options) {
        tree = ctx.tree;
        existing_tree = ctx.existing_tree;
        name = ctx.name;
        format = ctx.format;
        source_path = ctx.source_path;
        llm_client = ctx.llm_client;
      }

  unfoldable pub entry_of : Services W Part → Run W Part → Option ℕ → ℕ → ParallelEntry W Part
  unfolding stage_at clone_context
  entry_of services s writer idx =
      let stage = stage_at s.stages idx in
      record {
        idx = idx;
        stage = stage;
        ctx = if is_writer writer idx then none else some (clone_context services s.context);
        name = stage.name;
        policy = stage.failure_policy;
        access = stage.access_pattern;
      }

  -- The loop that swaps every stage of the group out.
  unfoldable pub take_entries :
      Services W Part → Option ℕ → List ℕ → Run W Part → Run W Part × List (ParallelEntry W Part)
  unfolding entry_of set_stage
  take_entries services writer [] s = (s, [])
  take_entries services writer (idx ∷ indices) s =
      let rest =
        take_entries services writer indices
          (record s { stages = set_stage s.stages idx nop_stage }) in
      (rest.0, entry_of services s writer idx ∷ rest.1)

  -- The last entry without a context of its own, and the other entries with theirs.
  unfoldable pub split_entries :
      List (ParallelEntry W Part)
      → Option (ParallelEntry W Part) × List (ParallelEntry W Part × CompileContext Part)
  split_entries [] = (none, [])
  split_entries (e ∷ entries) =
      let rest = split_entries entries in
      elim (e.ctx) [
        | some ctx ↦ (rest.0, (e, ctx) ∷ rest.1)
        | none ↦ (elim (rest.0) [ some later ↦ some later | none ↦ some e ], rest.1)
      ]

  -- `join_all`: every reader runs on its context.
  unfoldable pub run_readers :
      W
      → List (ParallelEntry W Part × CompileContext Part)
      → W × List (ParallelEntry W Part × Ran W Part)
  run_readers w [] = (w, [])
  run_readers w ((e, ctx) ∷ readers) =
      let ran = execute_stage_with_policy e.stage w ctx in
      let rest = run_readers ran.world readers in (rest.0, (e, ran) ∷ rest.1)

  -- A reader's outputs are merged, its stage is put back, its result is handled.
  unfoldable pub finish_reader :
      ParallelEntry W Part → Ran W Part → Run W Part → Run W Part × Status
  unfolding merge_outputs set_stage handle_stage_result
  finish_reader e ran s =
      let ctx = merge_outputs e.access s.context ran.context in
      with_context (record s { stages = set_stage s.stages e.idx e.stage; context = ctx })
        (handle_stage_result ran.result e.name e.policy ctx)

  unfoldable pub finish_readers :
      List (ParallelEntry W Part × Ran W Part) → Run W Part → Run W Part × Status
  unfolding finish_reader
  finish_readers [] s = (s, done)
  finish_readers ((e, ran) ∷ readers) s = and_then (finish_reader e ran s) (finish_readers readers)

  -- The writer, where there is one, runs on the main context.
  unfoldable pub run_entries :
      Option (ParallelEntry W Part)
      → List (ParallelEntry W Part × CompileContext Part)
      → Run W Part
      → Run W Part × Status
  unfolding run_readers finish_readers set_stage handle_stage_result
  run_entries none readers s =
      let (w, completed) = run_readers s.world readers in
      finish_readers completed (record s { world = w })
  run_entries (some e) readers s =
      let ran = execute_stage_with_policy e.stage s.world s.context in
      let (w, completed) = run_readers ran.world readers in
      let stages = set_stage s.stages e.idx e.stage in
      and_then
        (with_context (record s { world = w; stages = stages; context = ran.context })
          (handle_stage_result ran.result e.name e.policy ran.context))
        (finish_readers completed)

  unfoldable pub run_parallel : Services W Part → List ℕ → Run W Part → Run W Part × Status
  unfolding tree_writer take_entries split_entries run_entries
  run_parallel services indices s =
      let (taken, entries) = take_entries services (tree_writer s.stages indices) indices s in
      let (writer, readers) = split_entries entries in run_entries writer readers taken
