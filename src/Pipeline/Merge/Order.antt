-- ===== src/Pipeline/Merge/Order.antt =====
-- Merging the counters of several readers.
use vectorless.Base.{ℕ, ◌≡◌, arith}
use vectorless.Pipeline.Metrics.{CompileMetrics, add_u64}
use vectorless.Pipeline.Merge.{add_counters}

add_u64_swap : (a b c : ℕ) → add_u64 (add_u64 a b) c ≡ add_u64 (add_u64 a c) b
unfolding add_u64
add_u64_swap a b c = omega arith

-- Merging the counters of two readers gives the same sums in either order, with the wrap-around of
-- 64 bits included, so the order in which a parallel group's readers are merged does not matter for
-- them.
pub add_counters_swap :
    (m r q : CompileMetrics) → add_counters (add_counters m r) q ≡ add_counters (add_counters m q) r
unfolding add_counters
add_counters_swap m r q = λ i. record m {
  llm_calls = add_u64_swap m.llm_calls r.llm_calls q.llm_calls i;
  summaries_generated =
      add_u64_swap m.summaries_generated r.summaries_generated q.summaries_generated i;
  total_tokens_generated =
      add_u64_swap m.total_tokens_generated r.total_tokens_generated q.total_tokens_generated i;
  nodes_processed = add_u64_swap m.nodes_processed r.nodes_processed q.nodes_processed i;
  nodes_merged = add_u64_swap m.nodes_merged r.nodes_merged q.nodes_merged i;
  nodes_skipped = add_u64_swap m.nodes_skipped r.nodes_skipped q.nodes_skipped i;
}
