-- ===== src/Frontend/Thinning.antt =====
-- Thinning of raw nodes: `apply_thinning`, `ensure_min_children` and `find_direct_children_indices`
-- of crates/vectorless-compiler/src/passes/frontend/build.rs.
--
-- A node stands beside its flag of `keep`. The loop from the last index to the first is recursion
-- that handles the later nodes before the head; the loop from the first to the last runs on fuel,
-- one round for each node. Whether a trimmed text is empty and how texts are joined with a blank
-- line are parameters.
pub mod Kept
pub mod Merged
use vectorless.Base.{
  ℕ, zero, suc, ◌+◌, Bool, true, false, not, ◌&&◌, String, List, [], ◌∷◌, Option, none, some, leb,
  ltb, ◌==◌, length, map, any, if◌then◌else◌,
}
use vectorless.Frontend.Nodes.{RawNode, ThinningConfig}
use vectorless.Frontend.Tokens.{total_of}

-- A node, and whether it is kept.
abbrev pub Flagged : Type 0
Flagged = RawNode × Bool

-- A node from the later ones, up to the first whose level is not deeper.
unfoldable pub run_of : ℕ → List Flagged → List Flagged
run_of parent_level [] = []
run_of parent_level ((n, k) ∷ nodes) =
    let rest = run_of parent_level nodes in if leb n.level parent_level then [] else (n, k) ∷ rest

-- The loop that clears the flags of all children.
unfoldable pub drop_children : ℕ → List Flagged → List Flagged
drop_children parent_level [] = []
drop_children parent_level ((n, k) ∷ nodes) =
    let rest = drop_children parent_level nodes in
    if leb n.level parent_level then (n, k) ∷ nodes else (n, false) ∷ rest

module _ (is_blank : String → Bool) (join : String → String → String) where
  -- The loop that collects the children's contents. `join a b` is a, a blank line where a is not
  -- empty, and b.
  unfoldable pub merged_content : String → List Flagged → String
  merged_content content [] = content
  merged_content content ((n, k) ∷ children) =
      merged_content (if not (is_blank n.content) then join content n.content else content) children

  -- A node below the threshold takes its children's contents, and they are dropped.
  unfoldable pub thin_node : ThinningConfig → Flagged → List Flagged → List Flagged
  unfolding run_of drop_children merged_content
  thin_node c (n, k) later =
      if not k
      then (n, k) ∷ later
      else if ltb (total_of n) c.threshold
      then (
        (if ltb 0 (length (run_of n.level later)) && c.merge_content
            then record n {
              content = merged_content n.content (run_of n.level later);
              token_count = some (elim (n.token_count) [ some t ↦ t | none ↦ 0 ]);
            }
            else n),
        k,
      )
        ∷ drop_children n.level later
      else (n, k) ∷ later

  unfoldable pub thin_nodes : ThinningConfig → List Flagged → List Flagged
  unfolding thin_node
  thin_nodes c [] = []
  thin_nodes c (f ∷ nodes) = thin_node c f (thin_nodes c nodes)

-- Whether a node has a direct child among the later ones, and whether it has a kept one.
unfoldable pub has_child : ℕ → List Flagged → Bool
has_child parent_level [] = false
has_child parent_level ((n, k) ∷ nodes) =
    if leb n.level parent_level
    then false
    else if n.level == parent_level + 1
    then true
    else has_child parent_level nodes

unfoldable pub has_kept_child : ℕ → List Flagged → Bool
has_kept_child parent_level [] = false
has_kept_child parent_level ((n, k) ∷ nodes) =
    if leb n.level parent_level
    then false
    else if (n.level == parent_level + 1) && k
    then true
    else has_kept_child parent_level nodes

-- `max_by_key`: of direct children with the same total the last one is taken.
abbrev pub pick : ℕ → Option (ℕ × ℕ) → Option (ℕ × ℕ)
pick total none = some (0, total)
pick total (some (i, best)) = if leb total best then some (suc i, best) else some (0, total)

abbrev pub shift : Option (ℕ × ℕ) → Option (ℕ × ℕ)
shift none = none
shift (some (i, best)) = some (suc i, best)

-- The place and the total of the direct child with the most tokens.
unfoldable pub best_child : ℕ → List Flagged → Option (ℕ × ℕ)
best_child parent_level [] = none
best_child parent_level ((n, k) ∷ nodes) =
    let rest = best_child parent_level nodes in
    if leb n.level parent_level
    then none
    else if n.level == parent_level + 1
    then pick (total_of n) rest
    else shift rest

-- `keep[idx] = true`
unfoldable pub keep_at : ℕ → List Flagged → List Flagged
keep_at i [] = []
keep_at zero ((n, k) ∷ nodes) = (n, true) ∷ nodes
keep_at (suc i) (f ∷ nodes) = f ∷ keep_at i nodes

abbrev pub keep_best : Option (ℕ × ℕ) → List Flagged → List Flagged
keep_best none nodes = nodes
keep_best (some (i, best)) nodes = keep_at i nodes

-- One round of `ensure_min_children`, on the nodes after the parent.
unfoldable pub ensure_child : ℕ → List Flagged → List Flagged
unfolding has_child has_kept_child best_child keep_at
ensure_child parent_level nodes =
    if has_child parent_level nodes && not (has_kept_child parent_level nodes)
    then keep_best (best_child parent_level nodes) nodes
    else nodes

unfoldable pub ensure_loop : ℕ → List Flagged → List Flagged
unfolding ensure_child
ensure_loop zero nodes = nodes
ensure_loop (suc fuel) [] = []
ensure_loop (suc fuel) ((n, k) ∷ nodes) = (n, k) ∷ ensure_loop fuel (ensure_child n.level nodes)

unfoldable pub ensure_min_children : List Flagged → List Flagged
unfolding ensure_loop
ensure_min_children nodes = ensure_loop (length nodes) nodes

abbrev pub all_kept : List RawNode → List Flagged
all_kept nodes = map (λ n. (n, true)) nodes

unfoldable pub apply_thinning :
    (String → Bool) → (String → String → String) → List RawNode → ThinningConfig → List Flagged
unfolding thin_nodes ensure_min_children
apply_thinning is_blank join [] c = []
apply_thinning is_blank join (n ∷ nodes) c =
    if not c.enabled
    then all_kept (n ∷ nodes)
    else ensure_min_children (thin_nodes is_blank join c (all_kept (n ∷ nodes)))

-- The nodes that `execute` goes on with.
unfoldable pub kept_nodes : List Flagged → List RawNode
kept_nodes [] = []
kept_nodes ((n, k) ∷ nodes) = let rest = kept_nodes nodes in if k then n ∷ rest else rest
