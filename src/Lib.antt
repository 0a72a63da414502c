-- ===== src/Lib.antt =====
-- Verification of vectorless, a document compiler for retrieval (crates/).
--
-- The program turns a document into a navigable tree with indexes. A pipeline of passes does it
-- (crates/vectorless-compiler/src/pipeline, passes): the orchestrator registers passes, resolves
-- their order from their dependencies and priorities, cuts the order into groups that may run in
-- parallel, and runs the groups on a shared compile context.
--
-- Base: shared names, lists and sums over the native numbers, tests, signed
--   priorities, texts as bytes and maps with texts as keys.
-- Pipeline.Policy: FailurePolicy and StageRetryConfig of pipeline/policy.rs.
-- Pipeline.Stage: the trait CompilePass of passes/mod.rs, PassEntry and the builder methods of
--   PipelineOrchestrator (pipeline/orchestrator.rs): stage, stage_with_priority, stage_with_deps,
--   remove_stage, has_stage, stage_count.
-- Pipeline.Order: resolve_order of pipeline/orchestrator.rs; name_to_idx is the map from names to
--   indices, add_stages fills adjacency and in_degree, search_loop is the work-list loop with
--   relax for the neighbors. The maps and vectors over stage indices are functions on ℕ. The loop
--   runs on fuel, one round for each registered stage: a stage becomes ready at most once.
-- Pipeline.Groups: compute_execution_groups and get_execution_groups of the same file.
-- Pipeline.Executor: the default pipelines of pipeline/executor.rs with the names, dependencies,
--   policies and access patterns of the passes in passes/.
--
-- The text of an error is kept as its parts (names), not as the formatted message. Logging is not
-- modelled. The binary search that inserts into the ready list is read by the documented contract
-- of the standard library: it finds the place that keeps the list sorted.
--
-- Pipeline.Metrics: CompileMetrics (crates/vectorless-metrics/src/index.rs).
-- Pipeline.Context: PassResult, CompileContext, CompileResult and PipelineCheckpoint
--   (pipeline/context.rs, pipeline/checkpoint.rs). Trees, indexes and clients are a family of
--   types; a hash map is an association list.
-- Pipeline.Attempt: execute_stage_with_policy and handle_stage_result. A pass is a function from
--   a world and a context to a world, a context and a result; the retry loop is recursion on the
--   attempts left.
-- Pipeline.Merge: merge_reader_outputs. Pipeline.State: what execute works on, save_checkpoint.
-- Pipeline.Sequential, Pipeline.Parallel: the two kinds of groups in execute.
-- Pipeline.Run: resuming, the loop over the groups, execute.
-- The stages of a parallel group run one after another in the model, the tree writer first: each
-- has its own context, so only the world could show another order. Reading and writing checkpoint
-- files is an interface. Digests and fresh identifiers are parameters.
--
-- Llm.Error, Llm.Fallback, Llm.Executor: error.rs, fallback.rs and executor.rs of
-- crates/vectorless-llm/src. The loop of execute_with_context is recursion on what is left of its
-- 20 attempts. Whether a message contains a word, the request and the texts of errors are
-- parameters.
--
-- Incremental: resolve_action of crates/vectorless-compiler/src/incremental/resolver.rs, with
-- fingerprints as parameters.
--
-- Frontend.Nodes, Frontend.Tokens, Frontend.Thinning, Frontend.Tree: RawNode of parse/types.rs, and
-- calculate_total_tokens, apply_thinning, ensure_min_children and build_tree of
-- passes/frontend/build.rs. Loops over indices are recursions on the list of nodes; the one of
-- ensure_min_children has one round of fuel for each node. The tree is an interface.
--
-- Storage.Migration: Migrator of crates/vectorless-storage/src/migration.rs. The hash map of
-- migrations is a list, in any order; the search has one round of fuel for each migration and two
-- more, which is enough since every round takes a version from the queue that was visited once.
--
-- Incremental.Fingerprint, Incremental.Subtree: Fingerprinter and NodeFingerprint of
-- crates/vectorless-utils/src/fingerprint.rs as the bytes that are hashed, with BLAKE2b as a
-- parameter, and the fingerprints of a tree of incremental/detector.rs. A tree is an inductive
-- value; the stack loop of DocumentTree::traverse has one round of fuel for each node and one more.
-- Incremental.Detector: ChangeSet and ChangeDetector of incremental/detector.rs. Hash maps are
-- lists with one entry for a key; the file system's answers are arguments.
--
-- Navigator: DocumentNavigator of crates/vectorless-primitives/src/navigator.rs, a state machine
-- over an interface of the document. Navigator.Moves has its operations, Navigator.Steps the
-- relation of the navigators that they lead to.
--
-- Toc: TocProcessor of crates/vectorless-compiler/src/parse/toc (Toc, Toc.Degrade), the pages that
-- PageAssigner has the model locate (Toc.Assign) and IndexRepairer (Toc.Repairer). The degradation
-- has three rounds of fuel, one for each mode. The calls of the model are arguments.
--
-- Storage.Cache: DocumentCache of crates/vectorless-storage/src/cache.rs over an interface of the
-- crate lru. Its counters are 64-bit numbers that wrap around.
--
-- Not modelled: prompts and the calls of language models, which are parameters; the parsers of
-- Markdown and PDF, thin layers over other crates; files, locks and serialization; the Python
-- bindings; metrics and event hubs, which only count and forward; configuration, plain data. The
-- document tree with its arena, the navigation and reasoning indexes, the engine and the memo
-- store are left out as well.
pub mod Base
pub mod Frontend
pub mod Incremental
pub mod Llm
pub mod Navigator
pub mod Pipeline
pub mod Storage
pub mod Toc
