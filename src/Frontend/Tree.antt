-- ===== src/Frontend/Tree.antt =====
-- Building the tree: `build_tree` of crates/vectorless-compiler/src/passes/frontend/build.rs.
--
-- The tree is an interface: crates/vectorless-document/src/tree.rs keeps it in an arena of the
-- indextree crate. `level_stack` is a list of slots, one for each level.
pub mod Nearest
use vectorless.Base.{
  ℕ, zero, suc, ◌+◌, ◌-◌, Bool, true, false, String, List, [], ◌∷◌, ◌++◌, Option, none, some, leb,
  ltb, ◌==◌, length, get_elem?, if◌then◌else◌,
}
use vectorless.Frontend.Nodes.{RawNode}

-- `DocumentTree`, as far as the builder calls it.
pub record TreeOps (Tree NodeId : Type 0) : Type 0 where
  pub new : String → String → Tree
  pub root : Tree → NodeId
  pub add_child : Tree → NodeId → String → String → Tree × NodeId
  pub set_line_indices : Tree → NodeId → ℕ → ℕ → Tree
  pub set_page_boundaries : Tree → NodeId → ℕ → ℕ → Tree
  pub set_token_count : Tree → NodeId → ℕ → Tree

module _ {NodeId : Type 0} where
  -- `level_stack.get(l).copied().flatten()`
  unfoldable pub slot : List (Option NodeId) → ℕ → Option NodeId
  slot [] l = none
  slot (o ∷ stack) zero = o
  slot (o ∷ stack) (suc l) = slot stack l

  -- The search from the level below the node's down to level 0.
  unfoldable pub find_parent : List (Option NodeId) → ℕ → Option NodeId
  unfolding slot
  find_parent stack zero = none
  find_parent stack (suc l) = elim (slot stack l) [ some id ↦ some id | none ↦ find_parent stack l ]

  -- Slots are added up to the node's level, the node stands in its slot, deeper slots are cleared.
  unfoldable pub clear_slots : List (Option NodeId) → List (Option NodeId)
  clear_slots [] = []
  clear_slots (o ∷ stack) = none ∷ clear_slots stack

  unfoldable pub push_level : List (Option NodeId) → ℕ → NodeId → List (Option NodeId)
  unfolding clear_slots
  push_level [] zero id = some id ∷ []
  push_level (o ∷ stack) zero id = some id ∷ clear_slots stack
  push_level [] (suc level) id = none ∷ push_level [] level id
  push_level (o ∷ stack) (suc level) id = o ∷ push_level stack level id

module _ {Tree NodeId : Type 0} (ops : TreeOps Tree NodeId) where
  -- A node is added below its parent, with its lines, page and token count.
  unfoldable pub add_node : Tree → NodeId → RawNode → Tree × NodeId
  add_node tree parent raw =
      let (t, id) = ops.add_child tree parent raw.title raw.content in
      let t1 = ops.set_line_indices t id raw.line_start raw.line_end in
      let t2 : Tree = elim (raw.page) [
        | some page ↦ ops.set_page_boundaries t1 id page page
        | none ↦ t1
      ] in
      let t3 : Tree = elim (raw.token_count) [
        | some n ↦ if ltb 0 n then ops.set_token_count t2 id n else t2
        | none ↦ t2
      ] in
      (t3, id)

  -- `unwrap_or(tree.root())`
  abbrev pub or_root : Tree → Option NodeId → NodeId
  or_root tree (some id) = id
  or_root tree none = ops.root tree

  unfoldable pub build_loop : List RawNode → List (Option NodeId) → Tree → Tree
  unfolding find_parent add_node push_level
  build_loop [] stack tree = tree
  build_loop (raw ∷ nodes) stack tree =
      let (t, id) = add_node tree (or_root tree (find_parent stack raw.level)) raw in
      build_loop nodes (push_level stack raw.level id) t

  unfoldable pub build_tree : List RawNode → String → Tree
  unfolding build_loop
  build_tree raw_nodes name =
      let tree = ops.new name "" in build_loop raw_nodes (some (ops.root tree) ∷ []) tree
