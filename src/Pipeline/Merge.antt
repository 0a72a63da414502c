-- ===== src/Pipeline/Merge.antt =====
-- Copying a reader's outputs into the main context: `merge_reader_outputs` of
-- crates/vectorless-compiler/src/pipeline/orchestrator.rs.
pub mod Order
use vectorless.Base.{ltb, if◌then◌else◌}
use vectorless.Pipeline.Metrics.{
  add_u64, CompileMetrics, record_reasoning_index, record_optimize, record_navigation_index,
  record_enhance, record_enrich,
}
use vectorless.Pipeline.Stage.{AccessPattern}
use vectorless.Pipeline.Context.{Kind, CompileContext}

-- The additive counters.
unfoldable pub add_counters : CompileMetrics → CompileMetrics → CompileMetrics
unfolding add_u64
add_counters m r = record m {
  llm_calls = add_u64 m.llm_calls r.llm_calls;
  summaries_generated = add_u64 m.summaries_generated r.summaries_generated;
  total_tokens_generated = add_u64 m.total_tokens_generated r.total_tokens_generated;
  nodes_processed = add_u64 m.nodes_processed r.nodes_processed;
  nodes_merged = add_u64 m.nodes_merged r.nodes_merged;
  nodes_skipped = add_u64 m.nodes_skipped r.nodes_skipped;
}

-- The durations, each where the reader recorded one.
unfoldable pub copy_times : CompileMetrics → CompileMetrics → CompileMetrics
copy_times m r =
    let m1 =
      if ltb 0 r.reasoning_index_time_ms
      then record_reasoning_index m r.reasoning_index_time_ms r.topics_indexed r.keywords_indexed
      else m in
    let m2 = if ltb 0 r.optimize_time_ms then record_optimize m1 r.optimize_time_ms else m1 in
    let m3 =
      if ltb 0 r.navigation_index_time_ms
      then record_navigation_index m2 r.navigation_index_time_ms r.nav_entries_indexed
          r.child_routes_indexed
      else m2 in
    let m4 = if ltb 0 r.enhance_time_ms then record_enhance m3 r.enhance_time_ms else m3 in
    if ltb 0 r.enrich_time_ms then record_enrich m4 r.enrich_time_ms else m4

unfoldable pub merge_metrics : CompileMetrics → CompileMetrics → CompileMetrics
unfolding add_counters copy_times
merge_metrics m r = copy_times (add_counters m r) r

module _ {Part : Kind → Type 0} where
  -- The outputs that the access pattern names, then the metrics.
  unfoldable pub merge_outputs :
      AccessPattern → CompileContext Part → CompileContext Part → CompileContext Part
  unfolding merge_metrics
  merge_outputs access ctx rctx = record ctx {
    reasoning_index =
        if access.writes_reasoning_index then rctx.reasoning_index else ctx.reasoning_index;
    navigation_index =
        if access.writes_navigation_index then rctx.navigation_index else ctx.navigation_index;
    description = if access.writes_description then rctx.description else ctx.description;
    metrics = merge_metrics ctx.metrics rctx.metrics;
  }
