-- ===== src/Incremental/Detector.antt =====
-- What changed between two versions of a document: the change sets and the `ChangeDetector` of
-- crates/vectorless-compiler/src/incremental/detector.rs.
--
-- Hash maps are lists with one entry for a key, iterated in the order of the list. A modification
-- time is a number; where the code asks the file system for one, the operations take the outcome,
-- `none` where the metadata or the time cannot be read. The clock of `DocumentChangeInfo` is left
-- out, and `digest` and `show_id` are as in Incremental.Subtree.
pub mod Changes
pub mod Recorded
pub mod Reprocess
pub mod Titles
pub mod Same
use vectorless.Base.{
  ℕ, suc, ◌+◌, Bool, true, false, not, ◌&&◌, ◌||◌, List, [], ◌∷◌, ◌++◌, Option, none, some, ltb,
  length, map, Text, text_eq, lookup, insert, remove, if◌then◌else◌,
}
use vectorless.Incremental.Fingerprint.{
  Fingerprint, NodeFingerprint, content_changed, subtree_changed,
}
use vectorless.Incremental.Subtree.{
  Tree, TreeNode, get, traverse, key_of, compute_all_node_fingerprints,
}

pub data ChangeType : Type 0 where
  added : ChangeType
  removed : ChangeType
  modified : ChangeType
  restructured : ChangeType

pub record NodeChange : Type 0 where
  pub node_id : Option Text
  pub title : Text
  pub change_type : ChangeType
  pub fingerprint : Option NodeFingerprint

-- `NodeChange::new`
abbrev pub new_change : Option Text → Text → ChangeType → NodeChange
new_change node_id title change_type = record {
  node_id = node_id;
  title = title;
  change_type = change_type;
  fingerprint = none;
}

-- `NodeChange::with_fingerprint`
abbrev pub with_fingerprint : NodeChange → NodeFingerprint → NodeChange
with_fingerprint c fp = record c { fingerprint = some fp }

pub record ChangeSet : Type 0 where
  pub added : List NodeChange
  pub removed : List NodeChange
  pub modified : List NodeChange
  pub restructured : List NodeChange

-- `ChangeSet::new`
abbrev pub empty_changes : ChangeSet
empty_changes = record { added = []; removed = []; modified = []; restructured = [] }

abbrev pub is_nil : List NodeChange → Bool
is_nil [] = true
is_nil (c ∷ cs) = false

unfoldable pub is_empty : ChangeSet → Bool
is_empty c = is_nil c.added && (is_nil c.removed && (is_nil c.modified && is_nil c.restructured))

unfoldable pub total_changes : ChangeSet → ℕ
total_changes c = length c.added + length c.removed + length c.modified + length c.restructured

-- `ChangeSet::merge`
unfoldable pub merge : ChangeSet → ChangeSet → ChangeSet
merge c other = record {
  added = c.added ++ other.added;
  removed = c.removed ++ other.removed;
  modified = c.modified ++ other.modified;
  restructured = c.restructured ++ other.restructured;
}

unfoldable pub push_ids : List NodeChange → List Text
push_ids [] = []
push_ids (c ∷ cs) = let rest = push_ids cs in elim (c.node_id) [ none ↦ rest | some id ↦ id ∷ rest ]

unfoldable pub changed_node_ids : ChangeSet → List Text
unfolding push_ids
changed_node_ids c = push_ids c.added ++ (push_ids c.modified ++ push_ids c.restructured)

pub record DocumentChangeInfo : Type 0 where
  pub doc_id : Text
  pub content_fp : Fingerprint
  pub node_fingerprints : List (Text × NodeFingerprint)
  pub processing_version : ℕ

-- `DocumentChangeInfo::new`, with the zero fingerprint
abbrev pub new_change_info : Text → DocumentChangeInfo
new_change_info doc_id = record {
  doc_id = doc_id;
  content_fp = 0 ∷ 0 ∷ 0 ∷ 0 ∷ 0 ∷ 0 ∷ 0 ∷ 0 ∷ 0 ∷ 0 ∷ 0 ∷ 0 ∷ 0 ∷ 0 ∷ 0 ∷ 0 ∷ [];
  node_fingerprints = [];
  processing_version = 1;
}

pub record ChangeDetector : Type 0 where
  pub content_fps : List (Text × Fingerprint)
  pub node_fps : List (Text × List (Text × NodeFingerprint))
  pub mtimes : List (Text × ℕ)
  pub processing_versions : List (Text × ℕ)
  pub current_processing_version : ℕ

pub record ChangeDetectorState : Type 0 where
  pub content_fps : List (Text × Fingerprint)
  pub node_fps : List (Text × List (Text × NodeFingerprint))
  pub processing_versions : List (Text × ℕ)

-- `ChangeDetector::new`
abbrev pub new_detector : ChangeDetector
new_detector = record {
  content_fps = [];
  node_fps = [];
  mtimes = [];
  processing_versions = [];
  current_processing_version = 1;
}

abbrev pub with_processing_version : ChangeDetector → ℕ → ChangeDetector
with_processing_version d version = record d { current_processing_version = version }

abbrev pub older : Option ℕ → Option ℕ → Bool
older none current = true
older (some recorded) none = true
older (some recorded) (some current) = ltb recorded current

unfoldable pub needs_recompile_by_mtime : ChangeDetector → Text → Option ℕ → Bool
unfolding lookup
needs_recompile_by_mtime d doc_id current = older (lookup doc_id d.mtimes) current

abbrev pub differs : Option Fingerprint → Fingerprint → Bool
differs none fp = true
differs (some recorded) fp = not (text_eq recorded fp)

unfoldable pub needs_recompile_by_fingerprint : ChangeDetector → Text → Fingerprint → Bool
unfolding lookup
needs_recompile_by_fingerprint d doc_id fp = differs (lookup doc_id d.content_fps) fp

abbrev pub outdated : Option ℕ → ℕ → Bool
outdated none current = true
outdated (some recorded) current = ltb recorded current

unfoldable pub needs_recompile_by_version : ChangeDetector → Text → Bool
unfolding lookup
needs_recompile_by_version d doc_id =
    outdated (lookup doc_id d.processing_versions) d.current_processing_version

-- The two `if let` on the path: an mtime that can be read is recorded.
abbrev pub record_mtime : Text → Option ℕ → List (Text × ℕ) → List (Text × ℕ)
record_mtime doc_id none mtimes = mtimes
record_mtime doc_id (some mtime) mtimes = insert doc_id mtime mtimes

unfoldable pub record_change_info : ChangeDetector → DocumentChangeInfo → Option ℕ → ChangeDetector
unfolding insert
record_change_info d info mtime = record d {
  content_fps = insert info.doc_id info.content_fp d.content_fps;
  node_fps = insert info.doc_id info.node_fingerprints d.node_fps;
  processing_versions = insert info.doc_id info.processing_version d.processing_versions;
  mtimes = record_mtime info.doc_id mtime d.mtimes;
}

unfoldable pub clear : ChangeDetector → Text → ChangeDetector
unfolding remove
clear d doc_id = record d {
  content_fps = remove doc_id d.content_fps;
  node_fps = remove doc_id d.node_fps;
  mtimes = remove doc_id d.mtimes;
  processing_versions = remove doc_id d.processing_versions;
}

-- `get_content_fingerprint`
abbrev pub get_content_fingerprint : ChangeDetector → Text → Option Fingerprint
get_content_fingerprint d doc_id = lookup doc_id d.content_fps

-- `get_node_fingerprints`
abbrev pub get_node_fingerprints : ChangeDetector → Text → Option (List (Text × NodeFingerprint))
get_node_fingerprints d doc_id = lookup doc_id d.node_fps

unfoldable pub to_state : ChangeDetector → ChangeDetectorState
to_state d = record {
  content_fps = d.content_fps;
  node_fps = d.node_fps;
  processing_versions = d.processing_versions;
}

unfoldable pub from_state : ChangeDetectorState → ChangeDetector
from_state s = record {
  content_fps = s.content_fps;
  node_fps = s.node_fps;
  mtimes = [];
  processing_versions = s.processing_versions;
  current_processing_version = 1;
}
