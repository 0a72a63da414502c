-- ===== src/Frontend/Tokens.antt =====
-- Token totals of raw nodes: `calculate_total_tokens` and `find_all_children_indices` of
-- crates/vectorless-compiler/src/passes/frontend/build.rs.
--
-- A loop over the indices from the last to the first is recursion on the list that handles the rest
-- before the head: at its turn a node sees the later nodes as they are by then. The indices that
-- `find_all_children_indices` returns are those of a run of nodes right after the parent, so the
-- run itself is returned. The tokenizer is a parameter.
pub mod Nested
use vectorless.Base.{ℕ, String, List, [], ◌∷◌, Option, none, some, leb, map, if◌then◌else◌}
use vectorless.Pipeline.Metrics.{add_u64}
use vectorless.Frontend.Nodes.{RawNode, or_zero}

-- The nodes after a parent up to the first whose level is not deeper.
unfoldable pub all_children : ℕ → List RawNode → List RawNode
all_children parent_level [] = []
all_children parent_level (n ∷ nodes) =
    let rest = all_children parent_level nodes in if leb n.level parent_level then [] else n ∷ rest

-- `Iterator::sum` on usize.
unfoldable pub sum_u64 : List ℕ → ℕ
unfolding add_u64
sum_u64 [] = 0
sum_u64 (n ∷ ns) = add_u64 n (sum_u64 ns)

abbrev pub own_tokens : (String → ℕ) → RawNode → ℕ
own_tokens estimate n = elim (n.token_count) [ some t ↦ t | none ↦ estimate n.content ]

abbrev pub total_of : RawNode → ℕ
total_of n = or_zero n.total_token_count

-- A node with its totals, given the later nodes with theirs.
unfoldable pub count_node : (String → ℕ) → RawNode → List RawNode → RawNode
unfolding all_children sum_u64
count_node estimate n later = record n {
  token_count = some (own_tokens estimate n);
  total_token_count =
      some (add_u64 (own_tokens estimate n) (sum_u64 (map total_of (all_children n.level later))));
}

unfoldable pub calculate_total_tokens : (String → ℕ) → List RawNode → List RawNode
unfolding count_node
calculate_total_tokens estimate [] = []
calculate_total_tokens estimate (n ∷ nodes) =
    let later = calculate_total_tokens estimate nodes in count_node estimate n later ∷ later
