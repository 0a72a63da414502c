-- ===== src/Pipeline/Metrics.antt =====
-- Metrics of one compilation: crates/vectorless-metrics/src/index.rs. Durations are `u64`, counts
-- are `usize` (64 bits); additions wrap as they do in a release build.
use vectorless.Base.{ℕ, ◌+◌, ◌%◌, ◌^◌}

unfoldable pub add_u64 : ℕ → ℕ → ℕ
add_u64 a b = (a + b) % 2 ^ 64

pub record CompileMetrics : Type 0 where
  pub parse_time_ms : ℕ
  pub build_time_ms : ℕ
  pub enhance_time_ms : ℕ
  pub enrich_time_ms : ℕ
  pub optimize_time_ms : ℕ
  pub validate_time_ms : ℕ
  pub split_time_ms : ℕ
  pub reasoning_index_time_ms : ℕ
  pub navigation_index_time_ms : ℕ
  pub nav_entries_indexed : ℕ
  pub child_routes_indexed : ℕ
  pub topics_indexed : ℕ
  pub keywords_indexed : ℕ
  pub total_tokens_generated : ℕ
  pub llm_calls : ℕ
  pub nodes_processed : ℕ
  pub summaries_generated : ℕ
  pub summaries_failed : ℕ
  pub nodes_skipped : ℕ
  pub nodes_merged : ℕ
  pub route_time_ms : ℕ
  pub intent_routes : ℕ
  pub concept_routes : ℕ
  pub chain_time_ms : ℕ
  pub chains_indexed : ℕ
  pub overlap_time_ms : ℕ
  pub overlaps_detected : ℕ
  pub score_time_ms : ℕ
  pub nodes_scored : ℕ

-- `CompileMetrics::default()`, which `new` returns.
abbrev pub default_metrics : CompileMetrics
default_metrics = record {
  parse_time_ms = 0;
  build_time_ms = 0;
  enhance_time_ms = 0;
  enrich_time_ms = 0;
  optimize_time_ms = 0;
  validate_time_ms = 0;
  split_time_ms = 0;
  reasoning_index_time_ms = 0;
  navigation_index_time_ms = 0;
  nav_entries_indexed = 0;
  child_routes_indexed = 0;
  topics_indexed = 0;
  keywords_indexed = 0;
  total_tokens_generated = 0;
  llm_calls = 0;
  nodes_processed = 0;
  summaries_generated = 0;
  summaries_failed = 0;
  nodes_skipped = 0;
  nodes_merged = 0;
  route_time_ms = 0;
  intent_routes = 0;
  concept_routes = 0;
  chain_time_ms = 0;
  chains_indexed = 0;
  overlap_time_ms = 0;
  overlaps_detected = 0;
  score_time_ms = 0;
  nodes_scored = 0;
}

abbrev pub record_parse : CompileMetrics → ℕ → CompileMetrics
record_parse m duration_ms = record m { parse_time_ms = duration_ms }

abbrev pub record_build : CompileMetrics → ℕ → CompileMetrics
record_build m duration_ms = record m { build_time_ms = duration_ms }

abbrev pub record_enhance : CompileMetrics → ℕ → CompileMetrics
record_enhance m duration_ms = record m { enhance_time_ms = duration_ms }

abbrev pub record_enrich : CompileMetrics → ℕ → CompileMetrics
record_enrich m duration_ms = record m { enrich_time_ms = duration_ms }

abbrev pub record_optimize : CompileMetrics → ℕ → CompileMetrics
record_optimize m duration_ms = record m { optimize_time_ms = duration_ms }

abbrev pub record_validate : CompileMetrics → ℕ → CompileMetrics
record_validate m duration_ms = record m { validate_time_ms = duration_ms }

abbrev pub record_split : CompileMetrics → ℕ → CompileMetrics
record_split m duration_ms = record m { split_time_ms = duration_ms }

abbrev pub record_reasoning_index : CompileMetrics → ℕ → ℕ → ℕ → CompileMetrics
record_reasoning_index m duration_ms n0 n1 = record m {
  reasoning_index_time_ms = duration_ms;
  topics_indexed = n0;
  keywords_indexed = n1;
}

abbrev pub record_navigation_index : CompileMetrics → ℕ → ℕ → ℕ → CompileMetrics
record_navigation_index m duration_ms n0 n1 = record m {
  navigation_index_time_ms = duration_ms;
  nav_entries_indexed = n0;
  child_routes_indexed = n1;
}

abbrev pub record_route : CompileMetrics → ℕ → ℕ → ℕ → CompileMetrics
record_route m duration_ms n0 n1 = record m {
  route_time_ms = duration_ms;
  intent_routes = n0;
  concept_routes = n1;
}

abbrev pub record_chain : CompileMetrics → ℕ → ℕ → CompileMetrics
record_chain m duration_ms n0 = record m { chain_time_ms = duration_ms; chains_indexed = n0 }

abbrev pub record_overlap : CompileMetrics → ℕ → ℕ → CompileMetrics
record_overlap m duration_ms n0 = record m { overlap_time_ms = duration_ms; overlaps_detected = n0 }

abbrev pub record_score : CompileMetrics → ℕ → ℕ → CompileMetrics
record_score m duration_ms n0 = record m { score_time_ms = duration_ms; nodes_scored = n0 }

abbrev pub increment_llm_calls : CompileMetrics → CompileMetrics
increment_llm_calls m = record m { llm_calls = add_u64 m.llm_calls 1 }

abbrev pub increment_summaries : CompileMetrics → CompileMetrics
increment_summaries m = record m { summaries_generated = add_u64 m.summaries_generated 1 }

abbrev pub increment_nodes_skipped : CompileMetrics → CompileMetrics
increment_nodes_skipped m = record m { nodes_skipped = add_u64 m.nodes_skipped 1 }

abbrev pub increment_nodes_merged : CompileMetrics → CompileMetrics
increment_nodes_merged m = record m { nodes_merged = add_u64 m.nodes_merged 1 }

abbrev pub add_tokens_generated : CompileMetrics → ℕ → CompileMetrics
add_tokens_generated m count = record m {
  total_tokens_generated = add_u64 m.total_tokens_generated count;
}

abbrev pub add_summaries_failed : CompileMetrics → ℕ → CompileMetrics
add_summaries_failed m count = record m { summaries_failed = add_u64 m.summaries_failed count }

abbrev pub set_nodes_processed : CompileMetrics → ℕ → CompileMetrics
set_nodes_processed m count = record m { nodes_processed = count }

unfoldable pub total_time_ms : CompileMetrics → ℕ
unfolding add_u64
total_time_ms m =
    add_u64
      (add_u64
        (add_u64
          (add_u64
            (add_u64
              (add_u64
                (add_u64
                  (add_u64
                    (add_u64
                      (add_u64
                        (add_u64 (add_u64 m.parse_time_ms m.build_time_ms) m.validate_time_ms)
                        m.split_time_ms)
                      m.enhance_time_ms)
                    m.enrich_time_ms)
                  m.reasoning_index_time_ms)
                m.navigation_index_time_ms)
              m.route_time_ms)
            m.chain_time_ms)
          m.overlap_time_ms)
        m.score_time_ms)
      m.optimize_time_ms
