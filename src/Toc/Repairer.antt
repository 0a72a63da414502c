-- ===== src/Toc/Repairer.antt =====
-- The repair of entries: `IndexRepairer::repair` of
-- crates/vectorless-compiler/src/parse/toc/repairer.rs.
--
-- `locate` is what the call for a title near an expected page answers, and `completed` puts the
-- results into the order in which the calls completed.
use vectorless.Base.{
  ℕ, zero, suc, ◌+◌, List, [], ◌∷◌, Option, none, some, Result, ok, err, map, filter, ltb, length,
  get_elem?, Text, text_eq, if◌then◌else◌,
}
use vectorless.Toc.{TocEntry, VerificationError}

-- `errors.iter().find(|e| e.title == title)`
unfoldable pub find_error : List VerificationError → Text → Option VerificationError
find_error [] title = none
find_error (e ∷ errors) title =
    let rest = find_error errors title in if text_eq e.title title then some e else rest

-- The entry at an index gets its page.
unfoldable pub correct_at : List TocEntry → ℕ → ℕ → List TocEntry
correct_at [] index page = []
correct_at (e ∷ entries) zero page =
    record e { physical_page = some page; confidence = 90 } ∷ entries
correct_at (e ∷ entries) (suc index) page = e ∷ correct_at entries index page

-- A title with what was found for it.
abbrev pub Located : Type 0 → Type 0
Located E = Text × Result (Option ℕ) E

abbrev pub correct_error : ℕ → Option VerificationError → List TocEntry × ℕ → List TocEntry × ℕ
correct_error page none state = state
correct_error page (some error) (entries, count) =
    if ltb error.index (length entries)
    then (correct_at entries error.index page, count + 1)
    else (entries, count)

-- The title of the entry of an error.
abbrev pub title_at : Option TocEntry → Text
title_at none = []
title_at (some e) = e.title

module _ {E : Type 0} where
  -- The body of the loop that applies repairs.
  unfoldable pub apply_one :
      List VerificationError → Located E → List TocEntry × ℕ → List TocEntry × ℕ
  unfolding find_error correct_at
  apply_one errors (title, ok (some page)) state =
      correct_error page (find_error errors title) state
  apply_one errors (title, ok none) state = state
  apply_one errors (title, err x) state = state

  unfoldable pub apply_repairs :
      List VerificationError → List (Located E) → List TocEntry × ℕ → List TocEntry × ℕ
  unfolding apply_one
  apply_repairs errors [] state = state
  apply_repairs errors (r ∷ results) state = apply_repairs errors results (apply_one errors r state)

  unfoldable pub repair :
      (List (Located E) → List (Located E))
      → (Text → ℕ → Result (Option ℕ) E)
      → List TocEntry
      → List VerificationError
      → List TocEntry × ℕ
  unfolding apply_repairs
  repair completed locate entries [] = (entries, 0)
  repair completed locate entries (e ∷ errors) =
      apply_repairs (e ∷ errors)
        (completed (
          map
            (λ (error : VerificationError).
              let title = title_at (get_elem? entries error.index) in
              (title, locate title error.expected_page))
            (filter (λ (error : VerificationError). ltb error.index (length entries))
              (e ∷ errors))))
        (entries, 0)
