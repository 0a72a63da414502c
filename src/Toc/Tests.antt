-- ===== src/Toc/Tests.antt =====
-- A table of contents that is found but stays inaccurate.
use vectorless.Base.{
  ℕ, suc, ◌≡◌, false, [], ◌∷◌, Option, none, some, ok, Text, get_elem?, length, List, text_eq,
}
use vectorless.Toc.{
  TocEntry, ErrorType, VerificationError, new_entry, verify_and_repair, Services,
  toc_with_page_numbers,
}
use vectorless.Toc.Degrade.{
  Outcome, process_with_degradation, Tried, process_with_degradation-Tried,
}
use vectorless.Toc.Repairer.{repair, find_error}
use vectorless.Toc.Repaired.{reported, repair-kept}
use vectorless.Toc.Counted.{repair-last_page}
use vectorless.Toc.Repair.{Reported, verify_and_repair-Reported}
use vectorless.Toc.Assign.{assign_with_llm, second_first, placed, assign_with_llm-second_first}

abbrev first : TocEntry
first = new_entry (b'a' ∷ []) 1

abbrev second : TocEntry
second = new_entry (b'b' ∷ []) 1

-- An error about an entry.
abbrev error_at : ℕ → TocEntry → ℕ → ErrorType → VerificationError
error_at index entry page kind = record {
  index = index;
  title = entry.title;
  expected_page = page;
  error_type = kind;
}

-- The world counts the calls.
abbrev services : Services ℕ Text
services = record {
  is_blank = λ text. false;
  parse = λ text w. (ok (first ∷ second ∷ []), suc w);
  assign = λ entries w. (ok entries, suc w);
  verify = λ entries w. (ok (record { total = 2; correct = 0; errors = [] }), suc w);
  repair = λ entries errors w. (ok (entries, 0), suc w);
  extract = λ w. (ok (first ∷ []), suc w);
  accurate = λ report. false;
}

process_with_degradation-Tried_example :
    (r : Outcome services) × (process_with_degradation services 3 [] toc_with_page_numbers 0
      ≡ some r)
    × Tried services 3 [] toc_with_page_numbers 0 r
process_with_degradation-Tried_example =
    process_with_degradation-Tried services 3 [] toc_with_page_numbers 0

verify_and_repair-Reported_example :
    Reported services (verify_and_repair services 3 (first ∷ second ∷ []) 0)
verify_and_repair-Reported_example =
    verify_and_repair-Reported services 3 (first ∷ second ∷ []) 0 (λ es out errors v v1 h. cc h)

abbrev page : Text → Option ℕ
page [] = none
page (c ∷ text) = some c

assign_with_llm-second_first_example :
    (assign_with_llm {E = Text}
        (λ results. results)
        (λ title. ok (page title))
        (first ∷ second ∷ [])
      ≡ ok (placed first (some b'a') ∷ placed second (some b'b') ∷ []))
    × (assign_with_llm {E = Text} second_first (λ title. ok (page title)) (first ∷ second ∷ [])
        ≡ ok (placed first (some b'b') ∷ placed second (some b'a') ∷ []))
assign_with_llm-second_first_example = assign_with_llm-second_first page first second []

repair-kept_example :
    let r =
      repair {E = Text}
        (λ results. results)
        (λ title expected. ok (some expected))
        (first ∷ second ∷ [])
        (error_at 1 second 5 ErrorType.title_not_found ∷ []) in
    (r.1 ≡ 0 → r.0 ≡ first ∷ second ∷ [])
    × (length r.0 ≡ 2)
    × ((i : ℕ)
        → reported (error_at 1 second 5 ErrorType.title_not_found ∷ []) i ≡ false
        → get_elem? r.0 i ≡ get_elem? (first ∷ second ∷ []) i)
repair-kept_example =
    repair-kept (λ results. results) (λ title expected. ok (some expected)) (first ∷ second ∷ [])
      (error_at 1 second 5 ErrorType.title_not_found ∷ [])

-- Of two entries with one title the first gets both pages, one after the other, and both count.
abbrev twins : List VerificationError
twins =
    error_at 0 first 5 ErrorType.title_not_found ∷ error_at 1 first 7 ErrorType.title_not_found ∷ []

repair-last_page_example :
    let r =
      repair {E = Text}
        (λ results. results)
        (λ title expected. ok (some expected))
        (first ∷ first ∷ [])
        twins in
    (get_elem? r.0 0 ≡ some (record first { physical_page = some 7; confidence = 90 })) × (r.1 ≡ 2)
unfolding find_error text_eq
repair-last_page_example =
    repair-last_page (λ results. results) (λ title expected. ok (some expected))
      (first ∷ first ∷ []) twins 0
