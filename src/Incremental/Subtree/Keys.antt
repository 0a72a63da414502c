-- ===== src/Incremental/Subtree/Keys.antt =====
-- The map of fingerprints by key: it has every key once, and each entry is the fingerprint of a
-- node with that key.
use vectorless.Base.{
  ℕ, ◌≡◌, sym, ◌∙◌, List, [], ◌∷◌, some, some_eq, Text, text_eq, text_eq_sound, lookup, insert,
  lookup-insert, Unique, insert-Unique, Bool-cases, inl, inr, ◌⊎◌, if_true, if_false, arith,
  text_eq_refl,
}
use vectorless.Incremental.Fingerprint.{Fingerprint, NodeFingerprint}
use vectorless.Incremental.Subtree.{
  Tree, get, traverse, key_of, compute_node_fingerprint, insert_all, compute_all_node_fingerprints,
}

-- A node of a list of nodes.
pub data Among (t : Tree) : List Tree → Type 0 where
  now : {ts : List Tree} → Among t (t ∷ ts)
  later : {ts : List Tree} (x : Tree) → Among t ts → Among t (x ∷ ts)

module _ (digest : List ℕ → Fingerprint) (show_id : ℕ → Text) where
  insert_all-Unique :
      (ts : List Tree) (m : List (Text × NodeFingerprint))
      → Unique m
      → Unique (insert_all digest show_id ts m)
  unfolding insert_all
  insert_all-Unique [] m u = u
  insert_all-Unique (t ∷ ts) m u =
      insert_all-Unique ts (insert (key_of show_id (get t)) (compute_node_fingerprint digest t) m)
        (insert-Unique (key_of show_id (get t)) (compute_node_fingerprint digest t) m u)

  pub compute_all_node_fingerprints-Unique :
      (t : Tree) → Unique (compute_all_node_fingerprints digest show_id t)
  unfolding compute_all_node_fingerprints
  compute_all_node_fingerprints-Unique t = insert_all-Unique (traverse t) [] (omega arith)

  -- A node of a list with a key and a fingerprint.
  abbrev pub Holds : List Tree → Text → NodeFingerprint → Type 0
  Holds ts key fp =
      (t : Tree) × Among t ts
      × (key_of show_id (get t) ≡ key)
      × (compute_node_fingerprint digest t ≡ fp)

  insert_all-Holds :
      (ts : List Tree) (m : List (Text × NodeFingerprint)) (key : Text) (fp : NodeFingerprint)
      → lookup key (insert_all digest show_id ts m) ≡ some fp
      → (lookup key m ≡ some fp) ⊎ Holds ts key fp
  unfolding insert_all
  insert_all-Holds [] m key fp h = inl h
  insert_all-Holds (t ∷ ts) m key fp h =
      let k = key_of show_id (get t) in
      let v = compute_node_fingerprint digest t in
      elim (insert_all-Holds ts (insert k v m) key fp h) [
        | inr (u, a, e, f) ↦ inr (u, later t a, e, f)
        | inl old ↦ elim (Bool-cases (text_eq k key)) [
          | inl same ↦ inr (
            t,
            now,
            text_eq_sound k key same,
            some_eq
                (sym (if_true (some v) (lookup key m) same) ∙ sym (lookup-insert k v m key) ∙ old),
          )
          | inr other ↦
              inl
                (sym (if_false (some v) (lookup key m) other) ∙ sym (lookup-insert k v m key) ∙ old)
        ]
      ]

  pub compute_all_node_fingerprints-Holds :
      (t : Tree) (key : Text) (fp : NodeFingerprint)
      → lookup key (compute_all_node_fingerprints digest show_id t) ≡ some fp
      → Holds (traverse t) key fp
  unfolding compute_all_node_fingerprints lookup
  compute_all_node_fingerprints-Holds t key fp h =
      elim (insert_all-Holds (traverse t) [] key fp h) [
        | inl impossible ↦ absurd (cc impossible)
        | inr holds ↦ holds
      ]

  insert_all-kept :
      (ts : List Tree) (m : List (Text × NodeFingerprint)) (key : Text) (fp : NodeFingerprint)
      → lookup key m ≡ some fp
      → (v : NodeFingerprint) × (lookup key (insert_all digest show_id ts m) ≡ some v)
  unfolding insert_all
  insert_all-kept [] m key fp h = (fp, h)
  insert_all-kept (t ∷ ts) m key fp h =
      let k = key_of show_id (get t) in
      let v = compute_node_fingerprint digest t in
      elim (Bool-cases (text_eq k key)) [
        | inl same ↦
            insert_all-kept ts (insert k v m) key v
              (lookup-insert k v m key ∙ if_true (some v) (lookup key m) same)
        | inr other ↦
            insert_all-kept ts (insert k v m) key fp
              (lookup-insert k v m key ∙ if_false (some v) (lookup key m) other ∙ h)
      ]

  insert_all-Among :
      (t : Tree) (ts : List Tree) (m : List (Text × NodeFingerprint))
      → Among t ts
      → (v : NodeFingerprint) × (lookup (key_of show_id (get t)) (insert_all digest show_id ts m)
          ≡ some v)
  unfolding insert_all
  insert_all-Among t _ m (now {ts}) =
      let k = key_of show_id (get t) in
      let v = compute_node_fingerprint digest t in
      insert_all-kept ts (insert k v m) k v
        (lookup-insert k v m k ∙ if_true (some v) (lookup k m) (text_eq_refl k))
  insert_all-Among t _ m (later {ts} x a) =
      insert_all-Among t ts (insert (key_of show_id (get x)) (compute_node_fingerprint digest x) m)
        a

  -- Every node that is visited has an entry under its key.
  pub compute_all_node_fingerprints-Among :
      (tree t : Tree)
      → Among t (traverse tree)
      → (v : NodeFingerprint) × (lookup
            (key_of show_id (get t))
            (compute_all_node_fingerprints digest show_id tree)
          ≡ some v)
  unfolding compute_all_node_fingerprints
  compute_all_node_fingerprints-Among tree t a = insert_all-Among t (traverse tree) [] a
