-- ===== src/Pipeline/Executor.antt =====
-- The default pipelines of `PipelineExecutor` (crates/vectorless-compiler/src/pipeline/executor.rs),
-- with what each pass of crates/vectorless-compiler/src/passes says of itself: its name, its
-- dependencies, its failure policy and its access pattern. What a pass executes is a parameter.
use vectorless.Base.{Bool, true, false, ℕ, String, List, [], ◌∷◌, pos}
use vectorless.Pipeline.Policy.{retry, default_retry, with_max_attempts, with_initial_delay}
use vectorless.Pipeline.Stage.{
  AccessPattern, no_access, default_policy, CompilePass, Stages, stage_with_priority,
}

abbrev pub reads : AccessPattern
reads = record no_access { reads_tree = true }

-- `execute_of` gives the body of the pass with a name.
module _ {ℓ} {E : Type ℓ} (execute_of : String → E) where
  abbrev pass : String → List String → Bool → AccessPattern → CompilePass E
  pass name deps is_optional access = record {
    name = name;
    depends_on = deps;
    failure_policy = default_policy is_optional;
    access_pattern = access;
    execute = execute_of name;
  }

  abbrev pub parse_pass : CompilePass E
  parse_pass = pass "parse" [] false no_access

  abbrev pub build_pass : CompilePass E
  build_pass = pass "build" ("parse" ∷ []) false no_access

  abbrev pub validate_pass : CompilePass E
  validate_pass = pass "validate" ("build" ∷ []) true reads

  abbrev pub split_pass : CompilePass E
  split_pass = pass "split" ("build" ∷ []) true (record reads { writes_tree = true })

  abbrev pub enhance_pass : CompilePass E
  enhance_pass = record (pass "enhance" ("build" ∷ []) true no_access) {
    failure_policy = retry (with_initial_delay (with_max_attempts default_retry 2) 500);
  }

  abbrev pub enrich_pass : CompilePass E
  enrich_pass =
      pass "enrich" ("build" ∷ []) false
        (record reads { writes_tree = true; writes_description = true })

  abbrev pub reasoning_pass : CompilePass E
  reasoning_pass =
      pass "reasoning_index" ("enrich" ∷ []) true (record reads { writes_reasoning_index = true })

  abbrev pub concept_pass : CompilePass E
  concept_pass =
      pass "concept_extraction" ("reasoning_index" ∷ []) true
        (record reads { writes_concepts = true })

  abbrev pub navigation_pass : CompilePass E
  navigation_pass =
      pass "navigation_index" ("enrich" ∷ []) true (record reads { writes_navigation_index = true })

  abbrev pub route_pass : CompilePass E
  route_pass =
      pass "route" ("navigation_index" ∷ []) true (record reads { writes_query_routes = true })

  abbrev pub chain_pass : CompilePass E
  chain_pass = pass "chain" ("enrich" ∷ []) true (record reads { writes_chain_index = true })

  abbrev pub overlap_pass : CompilePass E
  overlap_pass = pass "overlap" ("build" ∷ []) true (record reads { writes_content_overlap = true })

  abbrev pub score_pass : CompilePass E
  score_pass = pass "score" ("enrich" ∷ []) true (record reads { writes_evidence_scores = true })

  abbrev pub verify_pass : CompilePass E
  verify_pass = pass "verify" ("concept_extraction" ∷ []) false reads

  abbrev pub optimize_pass : CompilePass E
  optimize_pass =
      pass "optimize" ("enrich" ∷ "navigation_index" ∷ []) true
        (record reads { writes_tree = true })

  abbrev add : ℕ → CompilePass E → Stages E → Stages E
  add priority p stages = stage_with_priority stages p (pos priority)

  -- What follows the enhance pass in every default pipeline.
  abbrev backend : Stages E → Stages E
  backend s = add 60 optimize_pass (
      add 55 verify_pass (
        add 58 score_pass (
          add 56 overlap_pass (
            add 54 chain_pass (
              add 52 route_pass (
                add 50 navigation_pass
                  (add 47 concept_pass (add 45 reasoning_pass (add 40 enrich_pass s)))))))))

  abbrev frontend : Stages E
  frontend = add 25 split_pass (add 22 validate_pass (add 20 build_pass (add 10 parse_pass [])))

  -- `PipelineExecutor::new`, and `with_registry` with another parse pass.
  abbrev pub new : Stages E
  new = backend frontend

  -- `PipelineExecutor::with_llm`
  abbrev pub with_llm : Stages E
  with_llm = backend (add 30 enhance_pass frontend)
