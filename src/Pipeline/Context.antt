-- ===== src/Pipeline/Context.antt =====
-- The compile context that passes share, its result and its checkpoint:
-- crates/vectorless-compiler/src/pipeline/context.rs and pipeline/checkpoint.rs.
--
-- What passes only hand on (trees, indexes, clients, the configuration that no code here reads) is
-- a family `Part` of types. A map is an association list with one entry for each key. Paths, errors
-- and metadata values are texts. Digests (`compute_source_hash`, `logic_fingerprint`) and the fresh
-- identifier of a context are parameters, as their algorithms are third-party code.
pub mod Results
use vectorless.Base.{
  ℕ, Bool, true, false, ◌&&◌, ◌==◌, String, List, [], ◌∷◌, Option, none, some, str_eq, any,
  if◌then◌else◌,
}
use vectorless.Pipeline.Metrics.{CompileMetrics, default_metrics}

-- `HashMap::insert` and `HashMap::contains_key` for string keys.
unfoldable pub insert {ℓ} : {V : Type ℓ} → String → V → List (String × V) → List (String × V)
insert key v [] = (key, v) ∷ []
insert key v ((k, w) ∷ entries) =
    let rest = insert key v entries in if str_eq k key then (key, v) ∷ entries else (k, w) ∷ rest

unfoldable pub contains_key {ℓ} : {V : Type ℓ} → List (String × V) → String → Bool
contains_key entries key = any (λ e. str_eq e.0 key) entries

unfoldable pub lookup {ℓ} : {V : Type ℓ} → List (String × V) → String → Option V
lookup [] key = none
lookup ((k, w) ∷ entries) key =
    let rest = lookup entries key in if str_eq k key then some w else rest

pub record PassResult : Type 0 where
  pub success : Bool
  pub duration_ms : ℕ
  pub metadata : List (String × String)

-- `PassResult::success`
abbrev pub pass_success : String → PassResult
pass_success name = record { success = true; duration_ms = 0; metadata = [] }

-- `PassResult::failure`
abbrev pub pass_failure : String → String → PassResult
pass_failure name error = record {
  success = false;
  duration_ms = 0;
  metadata = ("error", error) ∷ [];
}

abbrev pub with_duration : PassResult → ℕ → PassResult
with_duration r ms = record r { duration_ms = ms }

unfoldable pub with_metadata : PassResult → String → String → PassResult
unfolding insert
with_metadata r key value = record r { metadata = insert key value r.metadata }

pub data DocumentFormat : Type 0 where
  markdown pdf : DocumentFormat
  custom : String → DocumentFormat

-- The types of what passes hand on.
pub data Kind : Type 0 where
  path bytes node_id raw_node : Kind
  document_tree summary_config pipeline_config llm : Kind
  reasoning navigation concept routing chains overlaps scores : Kind

module _ (Part : Kind → Type 0) where
  pub data SummaryStrategy : Type 0 where
    no_summary : SummaryStrategy
    full : Part Kind.summary_config → SummaryStrategy
    selective : ℕ → Bool → Part Kind.summary_config → SummaryStrategy
    lazy : Bool → Part Kind.summary_config → SummaryStrategy

  -- `config` stands for the fields that only passes and the fingerprint read.
  pub record PipelineOptions : Type 0 where
    pub summary_strategy : SummaryStrategy
    pub existing_tree : Option (Part Kind.document_tree)
    pub processing_version : ℕ
    pub checkpoint_dir : Option String
    pub config : Part Kind.pipeline_config

  pub data CompilerInput : Type 0 where
    file : Part Kind.path → CompilerInput
    content : String → String → DocumentFormat → CompilerInput
    bytes : Part Kind.bytes → String → DocumentFormat → CompilerInput
    pre_parsed : List (Part Kind.raw_node) → String → CompilerInput

  pub record SummaryCache : Type 0 where
    pub summaries : Part Kind.node_id → Option String
    pub persist : Bool

  pub record CompileContext : Type 0 where
    pub doc_id : String
    pub input : CompilerInput
    pub format : DocumentFormat
    pub name : String
    pub source_path : Option (Part Kind.path)
    pub source_hash : String
    pub raw_nodes : List (Part Kind.raw_node)
    pub tree : Option (Part Kind.document_tree)
    pub options : PipelineOptions
    pub llm_client : Option (Part Kind.llm)
    pub summary_cache : SummaryCache
    pub reasoning_index : Option (Part Kind.reasoning)
    pub navigation_index : Option (Part Kind.navigation)
    pub concepts : List (Part Kind.concept)
    pub query_routes : Option (Part Kind.routing)
    pub chain_index : Option (Part Kind.chains)
    pub content_overlap : Option (Part Kind.overlaps)
    pub evidence_scores : Option (Part Kind.scores)
    pub existing_tree : Option (Part Kind.document_tree)
    pub stage_results : List (String × PassResult)
    pub metrics : CompileMetrics
    pub description : Option String
    pub page_count : Option ℕ
    pub line_count : Option ℕ

  pub record CompileResult : Type 0 where
    pub doc_id : String
    pub name : String
    pub format : DocumentFormat
    pub source_path : Option (Part Kind.path)
    pub tree : Option (Part Kind.document_tree)
    pub description : Option String
    pub page_count : Option ℕ
    pub line_count : Option ℕ
    pub metrics : CompileMetrics
    pub summary_cache : SummaryCache
    pub reasoning_index : Option (Part Kind.reasoning)
    pub navigation_index : Option (Part Kind.navigation)
    pub concepts : List (Part Kind.concept)
    pub query_routes : Option (Part Kind.routing)
    pub chain_index : Option (Part Kind.chains)
    pub content_overlap : Option (Part Kind.overlaps)
    pub evidence_scores : Option (Part Kind.scores)

  pub record CheckpointContextData : Type 0 where
    pub raw_nodes : List (Part Kind.raw_node)
    pub tree : Option (Part Kind.document_tree)
    pub metrics : CompileMetrics
    pub page_count : Option ℕ
    pub line_count : Option ℕ
    pub description : Option String

  -- The field `timestamp`, which nothing reads, is left out.
  pub record PipelineCheckpoint : Type 0 where
    pub doc_id : String
    pub source_hash : String
    pub processing_version : ℕ
    pub config_fingerprint : String
    pub completed_stages : List String
    pub context_data : CheckpointContextData

module _ {Part : Kind → Type 0} where
  abbrev pub summary_cache_new : Bool → SummaryCache Part
  summary_cache_new persist = record { summaries = λ id. none; persist = persist }

  -- `CompileContext::new`, with the fresh identifier and the hash of the input.
  abbrev pub new_context :
      String → String → CompilerInput Part → PipelineOptions Part → CompileContext Part
  new_context fresh hash input options = record {
    doc_id = fresh;
    input = input;
    format = DocumentFormat.markdown;
    name = "";
    source_path = none;
    source_hash = hash;
    raw_nodes = [];
    tree = none;
    options = options;
    llm_client = none;
    summary_cache = summary_cache_new false;
    reasoning_index = none;
    navigation_index = none;
    concepts = [];
    query_routes = none;
    chain_index = none;
    content_overlap = none;
    evidence_scores = none;
    existing_tree = none;
    stage_results = [];
    metrics = default_metrics;
    description = none;
    page_count = none;
    line_count = none;
  }

  abbrev pub with_llm_client : CompileContext Part → Part Kind.llm → CompileContext Part
  with_llm_client ctx client = record ctx { llm_client = some client }

  abbrev pub with_existing_tree :
      CompileContext Part → Part Kind.document_tree → CompileContext Part
  with_existing_tree ctx t = record ctx { existing_tree = some t }

  unfoldable pub init_summary_cache : CompileContext Part → CompileContext Part
  init_summary_cache ctx = elim (ctx.options.summary_strategy) [
    | lazy persist config ↦ record ctx { summary_cache = summary_cache_new persist }
    | _ ↦ ctx
  ]

  unfoldable pub record_stage : String → PassResult → CompileContext Part → CompileContext Part
  unfolding insert
  record_stage name result ctx = record ctx { stage_results = insert name result ctx.stage_results }

  abbrev pub finalize : CompileContext Part → CompileResult Part
  finalize ctx = record {
    doc_id = ctx.doc_id;
    name = ctx.name;
    format = ctx.format;
    source_path = ctx.source_path;
    tree = ctx.tree;
    description = ctx.description;
    page_count = ctx.page_count;
    line_count = ctx.line_count;
    metrics = ctx.metrics;
    summary_cache = ctx.summary_cache;
    reasoning_index = ctx.reasoning_index;
    navigation_index = ctx.navigation_index;
    concepts = ctx.concepts;
    query_routes = ctx.query_routes;
    chain_index = ctx.chain_index;
    content_overlap = ctx.content_overlap;
    evidence_scores = ctx.evidence_scores;
  }

  -- `CheckpointManager::is_valid_for_resume`
  abbrev pub is_valid_for_resume : PipelineCheckpoint Part → String → ℕ → String → Bool
  is_valid_for_resume checkpoint hash version fingerprint =
      str_eq checkpoint.source_hash hash
      && (checkpoint.processing_version == version)
      && str_eq checkpoint.config_fingerprint fingerprint
