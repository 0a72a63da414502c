-- ===== src/Toc/Assign.antt =====
-- Pages located by the model: `PageAssigner::assign_with_llm` of
-- crates/vectorless-compiler/src/parse/toc/assigner.rs.
--
-- Each title is located by a call of its own, up to five at a time. `locate` is what the call for a
-- title answers, and `completed` puts the results into the order in which the calls completed
-- (`buffer_unordered`).
use vectorless.Base.{
  ℕ, ◌≡◌, refl, ap, List, [], ◌∷◌, Option, none, some, Result, ok, err, map, Text,
}
use vectorless.Toc.{TocEntry}

abbrev pub confidence_of : Option ℕ → ℕ
confidence_of none = 30
confidence_of (some p) = 80

-- `entry.physical_page = physical; entry.confidence = …`
abbrev pub placed : TocEntry → Option ℕ → TocEntry
placed entry physical = record entry {
  physical_page = physical;
  confidence = confidence_of physical;
}

-- The first two calls completed in the other order.
abbrev pub second_first {ℓ} : {A : Type ℓ} → List A → List A
second_first [] = []
second_first (x ∷ []) = x ∷ []
second_first (x ∷ y ∷ xs) = y ∷ x ∷ xs

module _ {E : Type 0} where
  abbrev pub place_rest : TocEntry → Option ℕ → Result (List TocEntry) E → Result (List TocEntry) E
  place_rest entry physical (err x) = err x
  place_rest entry physical (ok entries) = ok (placed entry physical ∷ entries)

  -- The loop that writes the results back, over `entries.iter_mut().zip(results)`.
  unfoldable pub write_back : List TocEntry → List (Result (Option ℕ) E) → Result (List TocEntry) E
  write_back [] results = ok []
  write_back (entry ∷ entries) [] = ok (entry ∷ entries)
  write_back (entry ∷ entries) (err x ∷ results) = err x
  write_back (entry ∷ entries) (ok physical ∷ results) =
      place_rest entry physical (write_back entries results)

  unfoldable pub assign_with_llm :
      (List (Result (Option ℕ) E) → List (Result (Option ℕ) E))
      → (Text → Result (Option ℕ) E)
      → List TocEntry
      → Result (List TocEntry) E
  unfolding write_back
  assign_with_llm completed locate entries =
      write_back entries (completed (map (λ entry. locate entry.title) entries))

  write_back_own :
      (page : Text → Option ℕ) (entries : List TocEntry)
      → write_back entries (map (λ entry. ok (page entry.title)) entries)
        ≡ ok (map (λ entry. placed entry (page entry.title)) entries)
  unfolding write_back
  write_back_own page [] = refl
  write_back_own page (entry ∷ entries) =
      ap (place_rest entry (page entry.title)) (write_back_own page entries)

  -- When every title is located and the calls complete in the order of the entries, each entry
  -- gets its own page; when the call for the second entry completes before that for the first,
  -- each of these two gets the page of the other.
  pub assign_with_llm-second_first :
      (page : Text → Option ℕ) (a b : TocEntry) (entries : List TocEntry)
      → (assign_with_llm (λ results. results) (λ title. ok (page title)) (a ∷ b ∷ entries)
          ≡ ok (map (λ entry. placed entry (page entry.title)) (a ∷ b ∷ entries)))
        × (assign_with_llm second_first (λ title. ok (page title)) (a ∷ b ∷ entries)
            ≡ ok (
                placed a (page b.title)
                ∷ placed b (page a.title)
                ∷ map (λ entry. placed entry (page entry.title)) entries))
  unfolding assign_with_llm
  assign_with_llm-second_first page a b entries = (
    write_back_own page (a ∷ b ∷ entries),
    ap (λ r. place_rest a (page b.title) (place_rest b (page a.title) r))
        (write_back_own page entries),
  )
