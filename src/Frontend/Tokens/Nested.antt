-- ===== src/Frontend/Tokens/Nested.antt =====
-- The totals of headings nested three deep.
use vectorless.Base.{ℕ, String, List, [], ◌∷◌, ◌+◌, ◌*◌, ◌<◌, ◌^◌, ◌≡◌, arith}
use vectorless.Pipeline.Metrics.{add_u64}
use vectorless.Frontend.Nodes.{RawNode}
use vectorless.Frontend.Tokens.{
  all_children, sum_u64, own_tokens, total_of, count_node, calculate_total_tokens,
}

-- The total of the first node of a list, 0 where there is none.
abbrev pub first_total : List RawNode → ℕ
first_total [] = 0
first_total (n ∷ nodes) = total_of n

-- Of a node with a child that has a child, each at a deeper level, the total counts the innermost
-- node's tokens twice, while no sum overflows.
pub calculate_total_tokens-nested :
    (estimate : String → ℕ) (a b c : RawNode)
    → a.level < b.level
    → b.level < c.level
    → own_tokens estimate a + own_tokens estimate b + 2 * own_tokens estimate c < 2 ^ 64
    → first_total (calculate_total_tokens estimate (a ∷ b ∷ c ∷ []))
      ≡ own_tokens estimate a + own_tokens estimate b + 2 * own_tokens estimate c
unfolding calculate_total_tokens count_node all_children sum_u64 add_u64
calculate_total_tokens-nested estimate a b c h k small = ground arith
