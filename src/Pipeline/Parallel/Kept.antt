-- ===== src/Pipeline/Parallel/Kept.antt =====
-- What a parallel group without a tree writer leaves as it was.
use vectorless.Base.{List, Option, String, [], ap, none, refl, subst, sym, ℕ, ◌∙◌, ◌∷◌, ◌≡◌}
use vectorless.Pipeline.Policy.{FailurePolicy, FailurePolicy, fail, retry, skip}
use vectorless.Pipeline.Stage.{AccessPattern}
use vectorless.Pipeline.Order.{Result, err, ok}
use vectorless.Pipeline.Context.{CompileContext, Kind, PassResult, pass_failure, record_stage}
use vectorless.Pipeline.Attempt.{Ran, handle_stage_result}
use vectorless.Pipeline.Merge.{merge_outputs}
use vectorless.Pipeline.State.{
  ParallelEntry, Run, Services, Status, and_then, done, failed, nop_stage, set_stage, with_context,
}
use vectorless.Pipeline.Parallel.{
  entry_of, finish_reader, finish_readers, run_entries, run_parallel, run_readers, split_entries,
  take_entries, tree_writer,
}

module _ {Part : Kind → Type 0} where
  -- The outputs of two contexts that no reader can change.
  pub record SameOutputs (a b : CompileContext Part) : Type 0 where
    pub tree : a.tree ≡ b.tree
    pub concepts : a.concepts ≡ b.concepts
    pub query_routes : a.query_routes ≡ b.query_routes
    pub chain_index : a.chain_index ≡ b.chain_index
    pub content_overlap : a.content_overlap ≡ b.content_overlap
    pub evidence_scores : a.evidence_scores ≡ b.evidence_scores

  same : (a : CompileContext Part) → SameOutputs a a
  same a = record {
    tree = refl;
    concepts = refl;
    query_routes = refl;
    chain_index = refl;
    content_overlap = refl;
    evidence_scores = refl;
  }

  recorded :
      (name : String) (r : PassResult) (ctx : CompileContext Part)
      → SameOutputs ctx (record_stage name r ctx)
  unfolding record_stage
  recorded name r ctx = record {
    tree = refl;
    concepts = refl;
    query_routes = refl;
    chain_index = refl;
    content_overlap = refl;
    evidence_scores = refl;
  }

  merged :
      (access : AccessPattern) (ctx rctx : CompileContext Part)
      → SameOutputs ctx (merge_outputs access ctx rctx)
  unfolding merge_outputs
  merged access ctx rctx = record {
    tree = refl;
    concepts = refl;
    query_routes = refl;
    chain_index = refl;
    content_overlap = refl;
    evidence_scores = refl;
  }

  SameOutputs-trans :
      {a b c : CompileContext Part} → SameOutputs a b → SameOutputs b c → SameOutputs a c
  SameOutputs-trans h k = record {
    tree = h.tree ∙ k.tree;
    concepts = h.concepts ∙ k.concepts;
    query_routes = h.query_routes ∙ k.query_routes;
    chain_index = h.chain_index ∙ k.chain_index;
    content_overlap = h.content_overlap ∙ k.content_overlap;
    evidence_scores = h.evidence_scores ∙ k.evidence_scores;
  }

module _ {W : Type 0} {Part : Kind → Type 0} where
  handled-same :
      (s : Run W Part) (r : Result PassResult String) (name : String) (policy : FailurePolicy)
      (base ctx : CompileContext Part)
      → SameOutputs base ctx
      → SameOutputs base s.context
      → SameOutputs base (with_context s (handle_stage_result r name policy ctx)).0.context
  unfolding handle_stage_result record_stage
  handled-same s (ok p) name policy base ctx h k = SameOutputs-trans h (recorded name p ctx)
  handled-same s (err e) name skip base ctx h k =
      SameOutputs-trans h (recorded name (pass_failure name e) ctx)
  handled-same s (err e) name fail base ctx h k = k
  handled-same s (err e) name (retry c) base ctx h k = k

  finish_reader-same :
      (e : ParallelEntry W Part) (ran : Ran W Part) (s : Run W Part)
      → SameOutputs s.context (finish_reader e ran s).0.context
  unfolding finish_reader
  finish_reader-same e ran s =
      let ctx = merge_outputs e.access s.context ran.context in
      let unchanged : SameOutputs s.context ctx = merged e.access s.context ran.context in
      handled-same (record s { stages = set_stage s.stages e.idx e.stage; context = ctx })
        ran.result e.name e.policy s.context ctx unchanged unchanged

  and_then-same :
      (base : CompileContext Part) (r : Run W Part × Status)
      (next : Run W Part → Run W Part × Status)
      → SameOutputs base r.0.context
      → ((s : Run W Part) → SameOutputs s.context (next s).0.context)
      → SameOutputs base (and_then r next).0.context
  and_then-same base (s, done) next h k = SameOutputs-trans h (k s)
  and_then-same base (s, failed e) next h k = h

  finish_readers-same :
      (readers : List (ParallelEntry W Part × Ran W Part)) (s : Run W Part)
      → SameOutputs s.context (finish_readers readers s).0.context
  unfolding finish_readers
  finish_readers-same [] s = same s.context
  finish_readers-same ((e, ran) ∷ readers) s =
      and_then-same s.context (finish_reader e ran s) (finish_readers readers)
        (finish_reader-same e ran s) (finish_readers-same readers)

  take_entries-readers :
      (services : Services W Part) (indices : List ℕ) (s : Run W Part)
      → (split_entries (take_entries services none indices s).1).0 ≡ none
  unfolding take_entries split_entries entry_of
  take_entries-readers services [] s = refl
  take_entries-readers services (idx ∷ indices) s =
      take_entries-readers services indices (record s { stages = set_stage s.stages idx nop_stage })

  take_entries-context :
      (services : Services W Part) (writer : Option ℕ) (indices : List ℕ) (s : Run W Part)
      → (take_entries services writer indices s).0.context ≡ s.context
  unfolding take_entries
  take_entries-context services writer [] s = refl
  take_entries-context services writer (idx ∷ indices) s =
      take_entries-context services writer indices
        (record s { stages = set_stage s.stages idx nop_stage })

  -- A parallel group in which no stage declares that it writes the tree leaves the main context's
  -- tree, concepts, query routes, chain index, content overlap and evidence scores as they were,
  -- whatever its passes do and whatever else they declare, whether or not the group fails.
  pub run_parallel-same :
      (services : Services W Part) (indices : List ℕ) (s : Run W Part)
      → tree_writer s.stages indices ≡ none
      → SameOutputs s.context (run_parallel services indices s).0.context
  unfolding run_parallel run_entries
  run_parallel-same services indices s h =
      let taken = take_entries services none indices s in
      let readers = split_entries taken.1 in
      let ran = run_readers taken.0.world readers.1 in
      let t : Run W Part = record taken.0 { world = ran.0 } in
      let begun : SameOutputs s.context t.context =
        subst (SameOutputs s.context) (sym (take_entries-context services none indices s))
          (same s.context) in
      let ended = SameOutputs-trans begun (finish_readers-same ran.1 t) in
      let as_written : run_parallel services indices s ≡ run_entries readers.0 readers.1 taken.0 =
        ap
          (λ writer.
            let took = take_entries services writer indices s in
            let parts = split_entries took.1 in run_entries parts.0 parts.1 took.0)
          h in
      let no_writer : run_entries readers.0 readers.1 taken.0 ≡ finish_readers ran.1 t =
        ap (λ writer. run_entries writer readers.1 taken.0)
          (take_entries-readers services indices s) in
      subst (λ r. SameOutputs s.context r.0.context) (sym (as_written ∙ no_writer)) ended
