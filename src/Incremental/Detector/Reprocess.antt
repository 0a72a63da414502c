-- ===== src/Incremental/Detector/Reprocess.antt =====
-- Which nodes the detector wants processed again.
use vectorless.Base.{
  ℕ, ◌≡◌, ◌⊎◌, inl, inr, refl, sym, ap, ◌∙◌, Bool, true, false, ◌||◌, List, [], ◌∷◌, Option, none,
  some, some_eq, any, length, Text, text_eq, text_eq_sound, text_eq_refl, lookup, insert,
  lookup-insert, Unique, Found, Unique-Found, Bool-cases, if◌then◌else◌, if_true, if_false, arith,
  subst,
}
use vectorless.Incremental.Fingerprint.{
  Fingerprint, NodeFingerprint, content_changed, subtree_changed,
}
use vectorless.Incremental.Subtree.{Tree, get, key_of, traverse, compute_all_node_fingerprints}
use vectorless.Incremental.Subtree.Keys.{
  Among, compute_all_node_fingerprints-Unique, compute_all_node_fingerprints-Holds,
  compute_all_node_fingerprints-Among,
}
use vectorless.Incremental.Subtree.Short.{traverse-ShortTree}
use vectorless.Incremental.Subtree.Collision.{
  Collision, SameTree, ShortTree, compute_node_fingerprint-SameTree,
}
use vectorless.Incremental.Detector.{ChangeDetector, needs_recompile_by_version}
use vectorless.Incremental.Detector.Changes.{
  record_with_tree, get_nodes_needing_reprocess, nodes_from, stale, stale_keys,
}
use vectorless.Incremental.Detector.Recorded.{record_with_tree-needs}

abbrev pub listed : List Text → Text → Bool
listed keys key = any (λ k. text_eq k key) keys

stale_refl : (fp : NodeFingerprint) → stale fp (some fp) ≡ false
unfolding content_changed subtree_changed
stale_refl fp = ground (arith, text_eq_refl fp.content, text_eq_refl fp.subtree)

stale_keys-Found :
    (old new : List (Text × NodeFingerprint)) → Found new old → stale_keys old new ≡ []
unfolding stale_keys
stale_keys-Found old [] f = refl
stale_keys-Found old ((k, fp) ∷ new) (h, f) =
    if_false _ _ (ap (stale fp) h ∙ stale_refl fp) ∙ stale_keys-Found old new f

listed_if :
    (b : Bool) (k key : Text) (rest : List Text)
    → listed (if b then k ∷ rest else rest) key
      ≡ (if text_eq k key then b || listed rest key else listed rest key)
listed_if true k key rest = ground arith
listed_if false k key rest = ground arith

or_false : (b : Bool) → (b || false) ≡ b
or_false b = ground arith

stale_keys-none :
    (old new : List (Text × NodeFingerprint)) (key : Text)
    → lookup key new ≡ none
    → listed (stale_keys old new) key ≡ false
unfolding stale_keys lookup
stale_keys-none old [] key h = refl
stale_keys-none old ((k, v) ∷ new) key h =
    listed_if (stale v (lookup k old)) k key (stale_keys old new)
    ∙ (elim (Bool-cases (text_eq k key)) [
      | inl same ↦ absurd (cc (sym h ∙ if_true (some v) (lookup key new) same))
      | inr other ↦
          if_false _ _ other
          ∙ stale_keys-none old new key (sym (if_false (some v) (lookup key new) other) ∙ h)
    ])

-- A key with a fingerprint is listed when that is stale.
pub listed-stale_keys :
    (old new : List (Text × NodeFingerprint)) (key : Text) (fp : NodeFingerprint)
    → Unique new
    → lookup key new ≡ some fp
    → listed (stale_keys old new) key ≡ stale fp (lookup key old)
unfolding stale_keys lookup
listed-stale_keys old [] key fp u h = absurd (cc h)
listed-stale_keys old ((k, v) ∷ new) key fp (fresh, u) h =
    listed_if (stale v (lookup k old)) k key (stale_keys old new)
    ∙ (elim (Bool-cases (text_eq k key)) [
      | inl same ↦
          let e : k ≡ key = text_eq_sound k key same in
          let f : v ≡ fp = some_eq (sym (if_true (some v) (lookup key new) same) ∙ h) in
          if_true _ _ same
          ∙ ap (λ l. stale v (lookup k old) || l)
              (stale_keys-none old new key (ap (λ t. lookup t new) (sym e) ∙ fresh))
          ∙ or_false (stale v (lookup k old))
          ∙ (λ i. stale (f i) (lookup (e i) old))
      | inr other ↦
          if_false _ _ other
          ∙ listed-stale_keys old new key fp u (sym (if_false (some v) (lookup key new) other) ∙ h)
    ])

module _ (digest : List ℕ → Fingerprint) (show_id : ℕ → Text) where
  -- Once a document is recorded with its tree, none of its nodes needs to be processed again for
  -- the same tree.
  pub get_nodes_needing_reprocess-record_with_tree :
      (d : ChangeDetector) (doc_id content : Text) (tree : Tree) (mtime : Option ℕ)
      → get_nodes_needing_reprocess digest show_id
          (record_with_tree digest show_id d doc_id content (some tree) mtime)
          doc_id
          tree
        ≡ some []
  unfolding get_nodes_needing_reprocess record_with_tree
  get_nodes_needing_reprocess-record_with_tree d doc_id content tree mtime =
      let fps = compute_all_node_fingerprints digest show_id tree in
      ap (λ b. nodes_from b fps (lookup doc_id (insert doc_id fps d.node_fps)))
        ((record_with_tree-needs digest show_id d doc_id content (some tree) mtime doc_id []).1
          ∙ if_true false (needs_recompile_by_version d doc_id) (text_eq_refl doc_id))
      ∙ ap (nodes_from false fps) (
          lookup-insert doc_id fps d.node_fps doc_id
          ∙ if_true (some fps) (lookup doc_id d.node_fps) (text_eq_refl doc_id))
      ∙ ap some (
          stale_keys-Found fps fps
            (Unique-Found fps (compute_all_node_fingerprints-Unique digest show_id tree)))

  -- Where the processing version did not change, a node of the new tree that has the fingerprint
  -- of its key is reported exactly when the recorded version had no node with that key or one
  -- whose content or subtree had another fingerprint.
  pub get_nodes_needing_reprocess-stale :
      (d : ChangeDetector) (doc_id : Text) (tree : Tree) (keys : List Text)
      (old : List (Text × NodeFingerprint)) (key : Text) (fp : NodeFingerprint)
      → needs_recompile_by_version d doc_id ≡ false
      → lookup doc_id d.node_fps ≡ some old
      → get_nodes_needing_reprocess digest show_id d doc_id tree ≡ some keys
      → lookup key (compute_all_node_fingerprints digest show_id tree) ≡ some fp
      → listed keys key ≡ stale fp (lookup key old)
  unfolding get_nodes_needing_reprocess
  get_nodes_needing_reprocess-stale d doc_id tree keys old key fp version known report h =
      let new = compute_all_node_fingerprints digest show_id tree in
      let e : some (stale_keys old new) ≡ some keys =
        sym (
          ap (λ o. nodes_from (needs_recompile_by_version d doc_id) new o) known
          ∙ if_false _ _ version)
        ∙ report in
      ap (λ l. listed l key) (sym (some_eq e))
      ∙ listed-stale_keys old new key fp (compute_all_node_fingerprints-Unique digest show_id tree)
          h

  -- The fingerprint of a key that is not reported is that of a node of either tree.
  unreported-SameTree :
      (d : ChangeDetector) (doc_id content : Text) (tree new_tree : Tree) (mtime : Option ℕ)
      (keys : List Text) (key : Text) (fp : NodeFingerprint)
      → ((xs : List ℕ) → length (digest xs) ≡ 16)
      → ShortTree tree
      → ShortTree new_tree
      → get_nodes_needing_reprocess digest show_id
          (record_with_tree digest show_id d doc_id content (some tree) mtime)
          doc_id
          new_tree
        ≡ some keys
      → lookup key (compute_all_node_fingerprints digest show_id new_tree) ≡ some fp
      → listed keys key ≡ false
      → (((t u : Tree) × Among t (traverse tree)
            × Among u (traverse new_tree)
            × (key_of show_id (get t) ≡ key)
            × (key_of show_id (get u) ≡ key)
            × SameTree t u)
          ⊎ Collision digest)
  unfolding record_with_tree subtree_changed content_changed
  unreported-SameTree d doc_id content tree new_tree mtime keys key fp len short short_new report h
        quiet =
      let fps = compute_all_node_fingerprints digest show_id tree in
      let version =
        (record_with_tree-needs digest show_id d doc_id content (some tree) mtime doc_id []).1
        ∙ if_true false (needs_recompile_by_version d doc_id) (text_eq_refl doc_id) in
      let known =
        lookup-insert doc_id fps d.node_fps doc_id
        ∙ if_true (some fps) (lookup doc_id d.node_fps) (text_eq_refl doc_id) in
      let fresh : stale fp (lookup key fps) ≡ false =
        sym (
          get_nodes_needing_reprocess-stale
            (record_with_tree digest show_id d doc_id content (some tree) mtime) doc_id new_tree
            keys fps key fp version known report h)
        ∙ quiet in
      go (lookup key fps) refl fresh
    where
      go :
          (o : Option NodeFingerprint)
          → lookup key (compute_all_node_fingerprints digest show_id tree) ≡ o
          → stale fp o ≡ false
          → (((t u : Tree) × Among t (traverse tree)
                × Among u (traverse new_tree)
                × (key_of show_id (get t) ≡ key)
                × (key_of show_id (get u) ≡ key)
                × SameTree t u)
              ⊎ Collision digest)
      go none e f = absurd (cc f)
      go (some old) e f =
          let (t, a, kt, ft) = compute_all_node_fingerprints-Holds digest show_id tree key old e in
          let (u, b, ku, fu) =
            compute_all_node_fingerprints-Holds digest show_id new_tree key fp h in
          let same : fp.subtree ≡ old.subtree =
            text_eq_sound fp.subtree old.subtree (ground (arith, f)) in
          elim (compute_node_fingerprint-SameTree digest len t u (traverse-ShortTree t tree short a)
            (traverse-ShortTree u new_tree short_new b) (cc (ft, fu, same))) [
              | inl s ↦ inl (t, u, a, b, kt, ku, s)
              | inr c ↦ inr c
            ]

  -- Each node of a new tree that shares its key with no other node of that tree, and is not
  -- reported after a document was recorded with a tree, has the same texts and the same subtree as
  -- a node of the recorded tree with its key, or two inputs with one digest are at hand. This
  -- supposes digests of 16 bytes and texts shorter than 4 GiB.
  pub get_nodes_needing_reprocess-SameTree :
      (d : ChangeDetector) (doc_id content : Text) (tree new_tree : Tree) (mtime : Option ℕ)
      (keys : List Text) (u : Tree)
      → ((xs : List ℕ) → length (digest xs) ≡ 16)
      → ShortTree tree
      → ShortTree new_tree
      → get_nodes_needing_reprocess digest show_id
          (record_with_tree digest show_id d doc_id content (some tree) mtime)
          doc_id
          new_tree
        ≡ some keys
      → Among u (traverse new_tree)
      → ((v : Tree)
          → Among v (traverse new_tree)
          → key_of show_id (get v) ≡ key_of show_id (get u)
          → v ≡ u)
      → listed keys (key_of show_id (get u)) ≡ false
      → (((t : Tree) × Among t (traverse tree)
            × (key_of show_id (get t) ≡ key_of show_id (get u))
            × SameTree t u)
          ⊎ Collision digest)
  get_nodes_needing_reprocess-SameTree d doc_id content tree new_tree mtime keys u len short
        short_new report among alone quiet =
      let (fp, h) = compute_all_node_fingerprints-Among digest show_id new_tree u among in
      elim (unreported-SameTree d doc_id content tree new_tree mtime keys (key_of show_id (get u))
        fp len short short_new report h quiet) [
          | inl (t, v, a, b, kt, kv, s) ↦ inl (t, a, kt, subst (SameTree t) (alone v b kv) s)
          | inr c ↦ inr c
        ]
