-- ===== src/Incremental/Subtree.antt =====
-- Fingerprints of a document tree: `compute_node_fingerprint`, `compute_tree_fingerprint` and
-- `compute_all_node_fingerprints` of crates/vectorless-compiler/src/incremental/detector.rs, and
-- `DocumentTree::traverse` of crates/vectorless-document/src/tree.rs.
--
-- A tree is the value that its arena holds: a node stands with the trees below it. `digest` is
-- BLAKE2b-128, and `show_id` writes the number of a node (`format!("node_{:?}", node_id.0)`).
pub mod Order
pub mod Collision
pub mod Keys
pub mod Short
use vectorless.Base.{
  ℕ, zero, suc, ◌+◌, Bool, true, false, List, [], ◌∷◌, ◌++◌, Option, none, some, Text, insert,
  if◌then◌else◌,
}
use vectorless.Incremental.Fingerprint.{
  Fingerprint, Fingerprinter, NodeFingerprint, leaf_fingerprint, write_str, write_option_str,
  write_fingerprint,
}

-- The fields of a `TreeNode` that fingerprints and change detection read, and its `NodeId`.
pub record TreeNode : Type 0 where
  pub id : ℕ
  pub title : Text
  pub content : Text
  pub node_id : Option Text

mutual
  pub data Tree : Type 0 where
    node : TreeNode → Forest → Tree

  pub data Forest : Type 0 where
    leaf : Forest
    child : Tree → Forest → Forest

abbrev pub get : Tree → TreeNode
get (node n children) = n

abbrev pub children_of : Tree → Forest
children_of (node n children) = children

abbrev pub append : Forest → Forest → Forest
append leaf us = us
append (child t ts) us = child t (append ts us)

abbrev mutual
  pub size : Tree → ℕ
  size (node n children) = suc (forest_size children)

  pub forest_size : Forest → ℕ
  forest_size leaf = 0
  forest_size (child t ts) = size t + forest_size ts

-- The loop of `traverse`. The stack is written from its top, so that `children.reverse()` and
-- `stack.extend` put the children in order in front.
unfoldable pub traverse_loop : ℕ → Forest → List Tree
traverse_loop zero stack = []
traverse_loop (suc fuel) leaf = []
traverse_loop (suc fuel) (child t stack) = t ∷ traverse_loop fuel (append (children_of t) stack)

-- `DocumentTree::traverse`, with one round for each node and one that finds the stack empty.
unfoldable pub traverse : Tree → List Tree
unfolding traverse_loop
traverse t = traverse_loop (suc (size t)) (child t leaf)

-- `node.node_id.clone().unwrap_or_else(…)`
abbrev pub key_of : (ℕ → Text) → TreeNode → Text
key_of show_id n = elim (n.node_id) [ none ↦ show_id n.id | some key ↦ key ]

module _ (digest : List ℕ → Fingerprint) where
  -- The fingerprint of a node's own texts.
  unfoldable pub content_fingerprint : TreeNode → Fingerprint
  unfolding write_str write_option_str
  content_fingerprint n =
      digest (write_option_str (write_str (write_str [] n.title) n.content) n.node_id)

  unfoldable mutual
    unfolding content_fingerprint write_fingerprint

    pub compute_node_fingerprint : Tree → NodeFingerprint
    compute_node_fingerprint (node n leaf) = leaf_fingerprint (content_fingerprint n)
    compute_node_fingerprint (node n (child t ts)) = record {
      content = content_fingerprint n;
      subtree = digest (write_children (write_fingerprint [] (content_fingerprint n)) (child t ts));
    }

    pub write_children : Fingerprinter → Forest → Fingerprinter
    write_children h leaf = h
    write_children h (child t ts) =
        write_children (write_fingerprint h (compute_node_fingerprint t).subtree) ts

  unfoldable pub compute_tree_fingerprint : Tree → Fingerprint
  unfolding compute_node_fingerprint
  compute_tree_fingerprint t = (compute_node_fingerprint t).subtree

  module _ (show_id : ℕ → Text) where
    unfoldable pub insert_all :
        List Tree → List (Text × NodeFingerprint) → List (Text × NodeFingerprint)
    unfolding insert compute_node_fingerprint
    insert_all [] fingerprints = fingerprints
    insert_all (t ∷ ts) fingerprints =
        insert_all ts (insert (key_of show_id (get t)) (compute_node_fingerprint t) fingerprints)

    unfoldable pub compute_all_node_fingerprints : Tree → List (Text × NodeFingerprint)
    unfolding insert_all traverse
    compute_all_node_fingerprints t = insert_all (traverse t) []
