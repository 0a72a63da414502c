-- ===== src/Pipeline/Stage.antt =====
-- Passes and their registration: the trait `CompilePass` of
-- crates/vectorless-compiler/src/passes/mod.rs, and `PassEntry` with the builder methods of
-- `PipelineOrchestrator` of crates/vectorless-compiler/src/pipeline/orchestrator.rs.
pub mod Remove
pub mod Deps
use vectorless.Base.{
  ℕ, Bool, false, not, String, List, [], ◌∷◌, ◌++◌, ℤ, pos, str_eq, filter, any, length,
  if◌then◌else◌,
}
use vectorless.Pipeline.Policy.{FailurePolicy, fail, skip}

pub record AccessPattern : Type 0 where
  pub reads_tree : Bool
  pub writes_tree : Bool
  pub writes_reasoning_index : Bool
  pub writes_navigation_index : Bool
  pub writes_description : Bool
  pub writes_concepts : Bool
  pub writes_query_routes : Bool
  pub writes_chain_index : Bool
  pub writes_content_overlap : Bool
  pub writes_evidence_scores : Bool

-- `AccessPattern::default()`
abbrev pub no_access : AccessPattern
no_access = record {
  reads_tree = false;
  writes_tree = false;
  writes_reasoning_index = false;
  writes_navigation_index = false;
  writes_description = false;
  writes_concepts = false;
  writes_query_routes = false;
  writes_chain_index = false;
  writes_content_overlap = false;
  writes_evidence_scores = false;
}

-- A value of the trait: what its methods return. `E` is the type of `execute`.
pub record CompilePass {ℓ} (E : Type ℓ) : Type ℓ where
  pub name : String
  pub depends_on : List String
  pub failure_policy : FailurePolicy
  pub access_pattern : AccessPattern
  pub execute : E

-- The trait's default method.
abbrev pub default_policy : Bool → FailurePolicy
default_policy is_optional = if is_optional then skip else fail

pub record PassEntry {ℓ} (E : Type ℓ) : Type ℓ where
  pub stage : CompilePass E
  pub priority : ℤ
  pub depends_on : List String

-- The field `stages` of the orchestrator.
abbrev pub Stages {ℓ} : Type ℓ → Type ℓ
Stages E = List (PassEntry E)

-- The loop that adds the explicit dependencies that are not there yet.
unfoldable pub merge_deps : List String → List String → List String
merge_deps deps [] = deps
merge_deps deps (d ∷ explicit) =
    merge_deps (if any (λ x. str_eq x d) deps then deps else deps ++ d ∷ []) explicit

module _ {ℓ} {E : Type ℓ} where
  abbrev pub stage_name : PassEntry E → String
  stage_name e = e.stage.name

  abbrev pub stage_with_priority : Stages E → CompilePass E → ℤ → Stages E
  stage_with_priority stages s priority =
      stages ++ record { stage = s; priority = priority; depends_on = s.depends_on } ∷ []

  abbrev pub add_stage : Stages E → CompilePass E → Stages E
  add_stage stages s = stage_with_priority stages s (pos 100)

  unfoldable pub stage_with_deps : Stages E → CompilePass E → ℤ → List String → Stages E
  unfolding merge_deps
  stage_with_deps stages s priority explicit =
      stages
      ++ record { stage = s; priority = priority; depends_on = merge_deps s.depends_on explicit }
        ∷ []

  unfoldable pub remove_stage : Stages E → String → Stages E
  remove_stage stages name = filter (λ e. not (str_eq (stage_name e) name)) stages

  unfoldable pub has_stage : Stages E → String → Bool
  has_stage stages name = any (λ e. str_eq (stage_name e) name) stages

  abbrev pub stage_count : Stages E → ℕ
  stage_count = length
