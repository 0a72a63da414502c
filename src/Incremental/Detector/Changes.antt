-- ===== src/Incremental/Detector/Changes.antt =====
-- The operations of the change detector that read a text or a tree.
use vectorless.Base.{
  ℕ, Bool, true, false, ◌||◌, List, [], ◌∷◌, ◌++◌, Option, none, some, map, Text, lookup, insert,
  if◌then◌else◌,
}
use vectorless.Incremental.Fingerprint.{
  Fingerprint, NodeFingerprint, content_changed, subtree_changed,
}
use vectorless.Incremental.Subtree.{
  Tree, get, traverse, key_of, compute_all_node_fingerprints, compute_tree_fingerprint,
}
use vectorless.Incremental.Detector.{
  ChangeDetector, ChangeSet, NodeChange, ChangeType, DocumentChangeInfo, new_change,
  with_fingerprint, empty_changes, record_mtime, needs_recompile_by_fingerprint,
  needs_recompile_by_version,
}

-- The key and the fingerprint of a node.
pub record Keyed : Type 0 where
  pub key : Text
  pub fingerprint : NodeFingerprint

-- A map from titles.
abbrev pub Titles : Type 0
Titles = List (Text × Keyed)

-- `HashMap::contains_key`
abbrev pub found_in {ℓ} : {A : Type ℓ} → Option A → Bool
found_in none = false
found_in (some a) = true

abbrev pub change_at : ChangeType → Text → Keyed → NodeChange
change_at kind title n = with_fingerprint (new_change (some n.key) title kind) n.fingerprint

-- The loops over one map that keep what the other does not have.
unfoldable pub missing_from : ChangeType → Titles → Titles → List NodeChange
unfolding lookup
missing_from kind other [] = []
missing_from kind other ((title, n) ∷ entries) =
    let rest = missing_from kind other entries in
    if found_in (lookup title other) then rest else change_at kind title n ∷ rest

-- The body of the loop that finds modified nodes.
unfoldable pub compare_entry : Text → Keyed → Option Keyed → ChangeSet → ChangeSet
unfolding content_changed subtree_changed
compare_entry title n none changes = changes
compare_entry title n (some old) changes =
    if content_changed n.fingerprint old.fingerprint
    then record changes {
      modified = changes.modified ++ change_at ChangeType.modified title n ∷ [];
    }
    else if subtree_changed n.fingerprint old.fingerprint
    then record changes {
      restructured = changes.restructured ++ change_at ChangeType.restructured title n ∷ [];
    }
    else changes

unfoldable pub compare_entries : Titles → Titles → ChangeSet → ChangeSet
unfolding compare_entry lookup
compare_entries old [] changes = changes
compare_entries old ((title, n) ∷ entries) changes =
    compare_entries old entries (compare_entry title n (lookup title old) changes)

-- The body of `detect_changes`, from the maps by title.
unfoldable pub compare_titles : Titles → Titles → ChangeSet
unfolding missing_from compare_entries
compare_titles old new = compare_entries old new (record empty_changes {
  added = missing_from ChangeType.added old new;
  removed = missing_from ChangeType.removed new old;
})

-- Whether the node of a key must be processed again.
abbrev pub stale : NodeFingerprint → Option NodeFingerprint → Bool
stale fp none = true
stale fp (some old_fp) = content_changed fp old_fp || subtree_changed fp old_fp

unfoldable pub stale_keys :
    List (Text × NodeFingerprint) → List (Text × NodeFingerprint) → List Text
unfolding lookup content_changed subtree_changed
stale_keys old_fps [] = []
stale_keys old_fps ((key, fp) ∷ new_fps) =
    let rest = stale_keys old_fps new_fps in
    if stale fp (lookup key old_fps) then key ∷ rest else rest

-- The body of `get_nodes_needing_reprocess`, from the fingerprints that are recorded.
abbrev pub nodes_from :
    Bool
    → List (Text × NodeFingerprint)
    → Option (List (Text × NodeFingerprint))
    → Option (List Text)
nodes_from version_changed new_fps none = none
nodes_from version_changed new_fps (some old_fps) =
    if version_changed then some (map (λ e. e.0) new_fps) else some (stale_keys old_fps new_fps)

module _ (digest : List ℕ → Fingerprint) where
  -- `needs_recompile_by_hash`
  unfoldable pub needs_recompile_by_hash : ChangeDetector → Text → Text → Bool
  unfolding needs_recompile_by_fingerprint
  needs_recompile_by_hash d doc_id content =
      needs_recompile_by_fingerprint d doc_id (digest content)

  module _ (show_id : ℕ → Text) where
    -- `DocumentChangeInfo::update_from_tree`
    unfoldable pub update_from_tree : DocumentChangeInfo → Tree → DocumentChangeInfo
    unfolding compute_all_node_fingerprints compute_tree_fingerprint
    update_from_tree info tree = record info {
      content_fp = compute_tree_fingerprint digest tree;
      node_fingerprints = compute_all_node_fingerprints digest show_id tree;
    }

    abbrev pub record_nodes :
        Text
        → Option Tree
        → List (Text × List (Text × NodeFingerprint))
        → List (Text × List (Text × NodeFingerprint))
    record_nodes doc_id none node_fps = node_fps
    record_nodes doc_id (some tree) node_fps =
        insert doc_id (compute_all_node_fingerprints digest show_id tree) node_fps

    unfoldable pub record_with_tree :
        ChangeDetector → Text → Text → Option Tree → Option ℕ → ChangeDetector
    unfolding insert compute_all_node_fingerprints
    record_with_tree d doc_id content tree mtime = record d {
      content_fps = insert doc_id (digest content) d.content_fps;
      node_fps = record_nodes doc_id tree d.node_fps;
      mtimes = record_mtime doc_id mtime d.mtimes;
      processing_versions = insert doc_id d.current_processing_version d.processing_versions;
    }

    -- `ChangeDetector::record`
    unfoldable pub record_content : ChangeDetector → Text → Text → Option ℕ → ChangeDetector
    unfolding record_with_tree
    record_content d doc_id content mtime = record_with_tree d doc_id content none mtime

    unfoldable pub titled : List Tree → List (Text × NodeFingerprint) → Titles → Titles
    unfolding lookup insert
    titled [] fps by_title = by_title
    titled (t ∷ ts) fps by_title =
        let n = get t in
        let key = key_of show_id n in
        titled ts fps (elim (lookup key fps) [
          | none ↦ by_title
          | some fp ↦ insert n.title (record { key = key; fingerprint = fp }) by_title
        ])

    -- The map from titles to keys and fingerprints of a tree.
    unfoldable pub titles_of : Tree → Titles
    unfolding titled traverse compute_all_node_fingerprints
    titles_of tree = titled (traverse tree) (compute_all_node_fingerprints digest show_id tree) []

    unfoldable pub detect_changes : Tree → Tree → ChangeSet
    unfolding titles_of compare_titles
    detect_changes old_tree new_tree = compare_titles (titles_of old_tree) (titles_of new_tree)

    unfoldable pub get_nodes_needing_reprocess : ChangeDetector → Text → Tree → Option (List Text)
    unfolding lookup compute_all_node_fingerprints needs_recompile_by_version
    get_nodes_needing_reprocess d doc_id new_tree =
        nodes_from (needs_recompile_by_version d doc_id)
          (compute_all_node_fingerprints digest show_id new_tree) (lookup doc_id d.node_fps)
