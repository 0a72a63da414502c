-- ===== src/Incremental/DetectorTests.antt =====
-- A heading with two sections that is recorded, and versions of it.
use vectorless.Base.{
  ℕ, ◌+◌, ◌≡◌, ◌⊎◌, refl, true, false, List, [], ◌∷◌, none, some, length, Text, text_eq, lookup,
  insert, arith,
}
use vectorless.Incremental.Fingerprint.{
  Fingerprint, content_changed, subtree_changed, write_str, write_option_str, write_fingerprint,
}
use vectorless.Incremental.Subtree.{
  Tree, node, leaf, get, key_of, traverse, traverse_loop, insert_all, content_fingerprint,
  compute_node_fingerprint, compute_all_node_fingerprints, TreeNode, child,
}
use vectorless.Incremental.Subtree.Order.{preorder, traverse-preorder}
use vectorless.Incremental.Subtree.Keys.{Among, later, now}
use vectorless.Incremental.Subtree.Collision.{
  Collision, SameTree, compute_node_fingerprint-SameTree,
}
use vectorless.Incremental.Detector.{
  ChangeDetector, new_detector, needs_recompile_by_fingerprint, needs_recompile_by_mtime,
  needs_recompile_by_version, from_state, to_state, empty_changes,
}
use vectorless.Incremental.Detector.Changes.{
  record_with_tree, get_nodes_needing_reprocess, needs_recompile_by_hash, detect_changes,
  stale_keys,
}
use vectorless.Incremental.Detector.Recorded.{record_with_tree-unchanged, from_state-to_state}
use vectorless.Incremental.Detector.Reprocess.{
  get_nodes_needing_reprocess-record_with_tree, get_nodes_needing_reprocess-SameTree,
}
use vectorless.Incremental.Detector.Same.{detect_changes_same}

abbrev section : ℕ → Text → Text → TreeNode
section id title content = record {
  id = id;
  title = title;
  content = content;
  node_id = some (id ∷ []);
}

-- A heading with two sections of one title.
abbrev twins : Text → Text → Tree
twins first second = node (section 0 (b'h' ∷ []) []) (
    child (node (section 1 (b's' ∷ []) first) leaf)
      (child (node (section 2 (b's' ∷ []) second) leaf) leaf))

abbrev sum : List ℕ → ℕ
sum [] = 0
sum (x ∷ xs) = x + sum xs

-- A digest of 16 numbers.
abbrev digest : List ℕ → Fingerprint
digest xs = length xs ∷ sum xs ∷ 0 ∷ 0 ∷ 0 ∷ 0 ∷ 0 ∷ 0 ∷ 0 ∷ 0 ∷ 0 ∷ 0 ∷ 0 ∷ 0 ∷ 0 ∷ 0 ∷ []

abbrev show_id : ℕ → Text
show_id n = b'n' ∷ n ∷ []

abbrev doc : Text
doc = b'd' ∷ []

abbrev recorded : ChangeDetector
unfolding record_with_tree
recorded = record_with_tree digest show_id new_detector doc (1 ∷ []) (some (twins [] [])) (some 7)

abbrev new_tree : Tree
new_tree = twins (9 ∷ []) []

test_report :
    get_nodes_needing_reprocess digest show_id recorded doc new_tree
    ≡ some ((0 ∷ []) ∷ (1 ∷ []) ∷ [])
unfolding get_nodes_needing_reprocess recorded insert compute_all_node_fingerprints insert_all
    traverse traverse_loop lookup text_eq stale_keys content_changed subtree_changed
    needs_recompile_by_version compute_node_fingerprint content_fingerprint write_str
    write_option_str write_fingerprint
test_report = refl

compute_node_fingerprint-SameTree_example : SameTree (twins [] []) (twins [] []) ⊎ Collision digest
compute_node_fingerprint-SameTree_example =
    compute_node_fingerprint-SameTree digest (λ xs. refl) (twins [] []) (twins [] []) (omega arith)
      (omega arith) refl

abbrev last_section : Tree
last_section =
    node (record { id = 2; title = b's' ∷ []; content = []; node_id = some (2 ∷ []) }) leaf

last_section-alone :
    (v : Tree) → Among v (traverse new_tree) → key_of show_id (get v) ≡ 2 ∷ [] → v ≡ last_section
unfolding traverse traverse_loop
last_section-alone _ now h = absurd (ground (arith, h))
last_section-alone _ (later x now) h = absurd (ground (arith, h))
last_section-alone _ (later x (later y now)) h = refl
last_section-alone _ (later x (later y (later z a))) h = elim a [ ]

get_nodes_needing_reprocess-SameTree_example :
    ((t : Tree) × Among t (traverse (twins [] []))
      × (key_of show_id (get t) ≡ 2 ∷ [])
      × SameTree t last_section)
    ⊎ Collision digest
unfolding get_nodes_needing_reprocess recorded stale_keys content_changed subtree_changed
    needs_recompile_by_version record_with_tree insert compute_all_node_fingerprints insert_all
    traverse traverse_loop lookup text_eq compute_node_fingerprint content_fingerprint write_str
    write_option_str write_fingerprint
get_nodes_needing_reprocess-SameTree_example =
    get_nodes_needing_reprocess-SameTree digest show_id new_detector doc (1 ∷ []) (twins [] [])
      new_tree (some 7) ((0 ∷ []) ∷ (1 ∷ []) ∷ []) last_section (λ xs. refl) (omega arith)
      (omega arith) refl (later _ (later _ now)) last_section-alone refl

get_nodes_needing_reprocess-record_with_tree_example :
    get_nodes_needing_reprocess digest show_id
      (record_with_tree digest show_id new_detector doc (1 ∷ []) (some new_tree) (some 7))
      doc
      new_tree
    ≡ some []
get_nodes_needing_reprocess-record_with_tree_example =
    get_nodes_needing_reprocess-record_with_tree digest show_id new_detector doc (1 ∷ []) new_tree
      (some 7)

record_with_tree-unchanged_example :
    (needs_recompile_by_hash digest
        (record_with_tree digest show_id new_detector doc (1 ∷ []) none none)
        doc
        (1 ∷ [])
      ≡ false)
    × (needs_recompile_by_hash digest
            (record_with_tree digest show_id new_detector doc (1 ∷ []) none none)
            doc
            (2 ∷ [])
          ≡ false
        → (◌≡◌ {A = Text} (1 ∷ []) (2 ∷ [])) ⊎ Collision digest)
record_with_tree-unchanged_example =
    record_with_tree-unchanged digest show_id new_detector doc (1 ∷ []) none none (2 ∷ [])

from_state-to_state_example :
    let e = from_state (to_state recorded) in
    (needs_recompile_by_fingerprint e doc [] ≡ needs_recompile_by_fingerprint recorded doc [])
    × (needs_recompile_by_mtime e doc (some 7) ≡ true)
    × (needs_recompile_by_version e doc ≡ false)
unfolding recorded record_with_tree insert lookup text_eq
from_state-to_state_example = from_state-to_state recorded doc (some 7) [] 1 refl (omega arith)

detect_changes_same_example : detect_changes digest show_id new_tree new_tree ≡ empty_changes
detect_changes_same_example = detect_changes_same digest show_id new_tree

traverse-preorder_example : traverse new_tree ≡ preorder new_tree
traverse-preorder_example = traverse-preorder new_tree
