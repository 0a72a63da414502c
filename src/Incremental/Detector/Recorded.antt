-- ===== src/Incremental/Detector/Recorded.antt =====
-- What the detector answers after a document is recorded, cleared or restored.
use vectorless.Base.{
  ℕ, ◌≤◌, ◌≡◌, ◌⊎◌, refl, sym, ap, ◌∙◌, true, false, not, List, Option, none, some, Text, text_eq,
  text_eq_sound, text_eq_refl, lookup, lookup-insert, lookup-remove, if◌then◌else◌, if_true, arith,
}
use vectorless.Incremental.Fingerprint.{Fingerprint}
use vectorless.Incremental.Subtree.{Tree, compute_all_node_fingerprints}
use vectorless.Incremental.Subtree.Collision.{Collision, digest_cancel}
use vectorless.Incremental.Detector.{
  ChangeDetector, needs_recompile_by_mtime, needs_recompile_by_fingerprint,
  needs_recompile_by_version, outdated, differs, older, clear, to_state, from_state,
}
use vectorless.Incremental.Detector.Changes.{
  needs_recompile_by_hash, record_with_tree, get_nodes_needing_reprocess, nodes_from,
}

module _ (digest : List ℕ → Fingerprint) (show_id : ℕ → Text) where
  -- After a document is recorded its content asks for a recompilation exactly when the digest of
  -- the content is another one, and its processing version asks for none; what is answered for
  -- every other document is as before.
  pub record_with_tree-needs :
      (d : ChangeDetector) (doc_id content : Text) (tree : Option Tree) (mtime : Option ℕ)
      (other current : Text)
      → let e = record_with_tree digest show_id d doc_id content tree mtime in
        (needs_recompile_by_hash digest e other current ≡ (
          if text_eq doc_id other
          then not (text_eq (digest content) (digest current))
          else needs_recompile_by_hash digest d other current))
        × (needs_recompile_by_version e other
            ≡ (if text_eq doc_id other then false else needs_recompile_by_version d other))
  unfolding record_with_tree needs_recompile_by_hash needs_recompile_by_version
  record_with_tree-needs d doc_id content tree mtime other current = (
    ap (λ o. differs o (digest current)) (lookup-insert doc_id (digest content) d.content_fps other)
        ∙ ground arith,
    ap (λ o. outdated o d.current_processing_version)
          (lookup-insert doc_id d.current_processing_version d.processing_versions other)
        ∙ ground arith,
  )

  -- A recorded document needs no recompilation for a content exactly when that is the recorded
  -- content: the same content never asks for one, and where another content asks for none there
  -- are two inputs with one digest.
  pub record_with_tree-unchanged :
      (d : ChangeDetector) (doc_id content : Text) (tree : Option Tree) (mtime : Option ℕ)
      (current : Text)
      → let e = record_with_tree digest show_id d doc_id content tree mtime in
        (needs_recompile_by_hash digest e doc_id content ≡ false)
        × (needs_recompile_by_hash digest e doc_id current ≡ false
            → (content ≡ current) ⊎ Collision digest)
  record_with_tree-unchanged d doc_id content tree mtime current =
      let step = λ (x : Text).
        (record_with_tree-needs d doc_id content tree mtime doc_id x).0
        ∙ if_true (not (text_eq (digest content) (digest x)))
            (needs_recompile_by_hash digest d doc_id x) (text_eq_refl doc_id) in
      (
        step content ∙ ap not (text_eq_refl (digest content)),
        λ h. digest_cancel digest content current (
            text_eq_sound (digest content) (digest current)
              (ground (arith, sym (step current) ∙ h))),
      )

  -- After a document is cleared every test asks for a recompilation of it and none of its nodes
  -- is known; for every other document each test answers as before.
  pub clear-needs :
      (d : ChangeDetector) (doc_id other : Text) (mtime : Option ℕ) (fp : Fingerprint) (tree : Tree)
      → let e = clear d doc_id in
        (needs_recompile_by_mtime e other mtime
          ≡ (if text_eq doc_id other then true else needs_recompile_by_mtime d other mtime))
        × (needs_recompile_by_fingerprint e other fp
            ≡ (if text_eq doc_id other then true else needs_recompile_by_fingerprint d other fp))
        × (needs_recompile_by_version e other
            ≡ (if text_eq doc_id other then true else needs_recompile_by_version d other))
        × (get_nodes_needing_reprocess digest show_id e doc_id tree ≡ none)
  unfolding clear needs_recompile_by_mtime needs_recompile_by_fingerprint needs_recompile_by_version
      get_nodes_needing_reprocess
  clear-needs d doc_id other mtime fp tree = (
    ap (λ o. older o mtime) (lookup-remove doc_id d.mtimes other) ∙ ground arith,
    ap (λ o. differs o fp) (lookup-remove doc_id d.content_fps other) ∙ ground arith,
    ap (λ o. outdated o d.current_processing_version)
          (lookup-remove doc_id d.processing_versions other)
        ∙ ground arith,
    ap
        (nodes_from (needs_recompile_by_version (clear d doc_id) doc_id)
          (compute_all_node_fingerprints digest show_id tree))
        (lookup-remove doc_id d.node_fps doc_id ∙ if_true none _ (text_eq_refl doc_id)),
  )

-- A detector that is restored from its saved state answers by content as before, but it forgets
-- modification times, so that every file asks for a recompilation, and it forgets the current
-- processing version: a document recorded with version 1 or later never asks for a recompilation
-- by version, whatever the version of the saved detector was.
pub from_state-to_state :
    (d : ChangeDetector) (doc_id : Text) (mtime : Option ℕ) (fp : Fingerprint) (version : ℕ)
    → lookup doc_id d.processing_versions ≡ some version
    → 1 ≤ version
    → let e = from_state (to_state d) in
      (needs_recompile_by_fingerprint e doc_id fp ≡ needs_recompile_by_fingerprint d doc_id fp)
      × (needs_recompile_by_mtime e doc_id mtime ≡ true)
      × (needs_recompile_by_version e doc_id ≡ false)
unfolding from_state to_state needs_recompile_by_mtime needs_recompile_by_fingerprint
    needs_recompile_by_version lookup
from_state-to_state d doc_id mtime fp version h le =
    (refl, refl, ap (λ o. outdated o 1) h ∙ ground (arith, le))
