-- ===== src/Incremental/Detector/Titles.antt =====
-- Changes between two trees, which are found by the titles of the nodes.
use vectorless.Base.{
  ◌≢◌, All, ℕ, ◌≡◌, List, [], ◌∷◌, Option, none, some, Text, lookup, insert, Unique, insert-Unique,
}
use vectorless.Incremental.Fingerprint.{Fingerprint, NodeFingerprint}
use vectorless.Incremental.Subtree.{Tree, get, key_of, traverse}
use vectorless.Incremental.Detector.{ChangeSet, NodeChange}
use vectorless.Incremental.Detector.Changes.{Titles, titled}

-- Nodes without a title.
abbrev pub Untitled : Text → List Tree → Type 0
Untitled title ts = All (λ t. (get t).title ≢ title) ts

-- The last node of a list that has a title.
pub data LastTitled (title : Text) (u : Tree) : List Tree → Type 0 where
  last : {ts : List Tree} → (get u).title ≡ title → Untitled title ts → LastTitled title u (u ∷ ts)
  earlier : {ts : List Tree} (x : Tree) → LastTitled title u ts → LastTitled title u (x ∷ ts)

module _ (digest : List ℕ → Fingerprint) (show_id : ℕ → Text) where
  -- A node's entry in the map by title.
  abbrev add : Tree → Titles → Option NodeFingerprint → Titles
  add t m o = elim o [
    | none ↦ m
    | some fp ↦ insert (get t).title (record { key = key_of show_id (get t); fingerprint = fp }) m
  ]

  pub titled-Unique :
      (ts : List Tree) (fps : List (Text × NodeFingerprint)) (m : Titles)
      → Unique m
      → Unique (titled digest show_id ts fps m)
  unfolding titled
  titled-Unique [] fps m u = u
  titled-Unique (t ∷ ts) fps m u = titled-Unique ts fps _ (go (lookup (key_of show_id (get t)) fps))
    where
      go :
          (o : Option NodeFingerprint)
          → Unique (elim o [
            | none ↦ m
            | some fp ↦
                insert (get t).title (record { key = key_of show_id (get t); fingerprint = fp }) m
          ])
      go none = u
      go (some fp) =
          insert-Unique (get t).title (record { key = key_of show_id (get t); fingerprint = fp }) m
            u

  -- The last node of a list that has a title, with its key.
  abbrev Source : List Tree → Text → Text → Type 0
  Source ts title key = (u : Tree) × LastTitled title u ts × (key_of show_id (get u) ≡ key)

  -- The entries of a map by title are those of last nodes.
  abbrev Sourced : Tree → Titles → Type 0
  Sourced tree entries = All (λ e. Source (traverse tree) e.0 e.1.key) entries

  -- A change is about the last node of a tree that has its title.
  abbrev pub IsOfLast : Tree → NodeChange → Type 0
  IsOfLast tree change =
      (u : Tree) × LastTitled change.title u (traverse tree)
      × (change.node_id ≡ some (key_of show_id (get u)))

  abbrev pub AllOfLast : Tree → Tree → ChangeSet → Type 0
  AllOfLast old_tree new_tree c =
      All (IsOfLast new_tree) c.added
      × All (IsOfLast old_tree) c.removed
      × All (IsOfLast new_tree) c.modified
      × All (IsOfLast new_tree) c.restructured
