-- ===== src/Incremental/Detector/Same.antt =====
-- What is found between a tree and itself.
use vectorless.Base.{
  ℕ, ◌≡◌, refl, ap, ◌∙◌, not, List, [], ◌∷◌, some, Text, text_eq_refl, Found, Unique-Found, if_true,
  if_false, arith,
}
use vectorless.Incremental.Fingerprint.{Fingerprint, content_changed, subtree_changed}
use vectorless.Incremental.Subtree.{Tree, traverse, compute_all_node_fingerprints}
use vectorless.Incremental.Detector.{ChangeSet, ChangeType, empty_changes}
use vectorless.Incremental.Detector.Changes.{
  Titles, Keyed, missing_from, compare_entry, compare_entries, compare_titles, titles_of,
  detect_changes, found_in,
}
use vectorless.Incremental.Detector.Titles.{titled-Unique}

missing_from-Found :
    (kind : ChangeType) (other entries : Titles)
    → Found entries other
    → missing_from kind other entries ≡ []
unfolding missing_from
missing_from-Found kind other [] f = refl
missing_from-Found kind other ((title, n) ∷ entries) (h, f) =
    if_true _ _ (ap found_in h) ∙ missing_from-Found kind other entries f

compare_entry_same :
    (title : Text) (n : Keyed) (changes : ChangeSet)
    → compare_entry title n (some n) changes ≡ changes
unfolding compare_entry content_changed subtree_changed
compare_entry_same title n changes =
    if_false _ _ (ap not (text_eq_refl n.fingerprint.content))
    ∙ if_false _ _ (ap not (text_eq_refl n.fingerprint.subtree))

compare_entries-Found :
    (old entries : Titles) (changes : ChangeSet)
    → Found entries old
    → compare_entries old entries changes ≡ changes
unfolding compare_entries
compare_entries-Found old [] changes f = refl
compare_entries-Found old ((title, n) ∷ entries) changes (h, f) =
    ap (compare_entries old entries)
      (ap (λ o. compare_entry title n o changes) h ∙ compare_entry_same title n changes)
    ∙ compare_entries-Found old entries changes f

module _ (digest : List ℕ → Fingerprint) (show_id : ℕ → Text) where
  -- No change is found between a tree and itself, whatever titles and keys its nodes share.
  pub detect_changes_same : (tree : Tree) → detect_changes digest show_id tree tree ≡ empty_changes
  unfolding detect_changes compare_titles titles_of
  detect_changes_same tree =
      let m = titles_of digest show_id tree in
      let f : Found m m = Unique-Found m (
        titled-Unique digest show_id (traverse tree)
          (compute_all_node_fingerprints digest show_id tree) [] (omega arith)) in
      compare_entries-Found m m
        (record empty_changes {
          added = missing_from ChangeType.added m m;
          removed = missing_from ChangeType.removed m m;
        })
        f
      ∙ (λ i. record empty_changes {
        added = missing_from-Found ChangeType.added m m f i;
        removed = missing_from-Found ChangeType.removed m m f i;
      })
