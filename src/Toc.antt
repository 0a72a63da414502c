-- ===== src/Toc.antt =====
-- The table of contents of a PDF: crates/vectorless-compiler/src/parse/toc, of which the modes and
-- their degradation, verification with repair, and the assignment of pages are here.
--
-- Texts are bytes, and a confidence is a number of hundredths. The model, the detector, the parser,
-- the verifier, the repairer and the extraction of structure are the interface `Services`, with the
-- state of the world passed through; errors are values of a type `E`. The comparison of the
-- accuracy with the threshold is a test of a report.
pub mod Degrade
pub mod Repair
pub mod Repairer
pub mod Repaired
pub mod Pages
pub mod Counted
pub mod Assign
mod Tests
use vectorless.Base.{
  ℕ, zero, suc, ◌-◌, Bool, true, false, not, List, [], ◌∷◌, ◌++◌, Option, none, some, Result, ok,
  err, ◌==◌, get_elem?, Text, if◌then◌else◌,
}

pub record TocEntry : Type 0 where
  pub title : Text
  pub level : ℕ
  pub toc_page : Option ℕ
  pub physical_page : Option ℕ
  pub confidence : ℕ
  pub start_index : Option ℕ
  pub end_index : Option ℕ
  pub content : Text

-- `TocEntry::new`
abbrev pub new_entry : Text → ℕ → TocEntry
new_entry title level = record {
  title = title;
  level = level;
  toc_page = none;
  physical_page = none;
  confidence = 100;
  start_index = none;
  end_index = none;
  content = [];
}

-- The pages on which the contents were found, and whether they have page numbers.
pub record TocDetection : Type 0 where
  pub found : Bool
  pub pages : List ℕ
  pub has_page_numbers : Bool

pub record PdfPage : Type 0 where
  pub number : ℕ
  pub text : Text

pub data ErrorType : Type 0 where
  title_not_found : ErrorType
  not_at_page_start : ErrorType
  page_out_of_range : ErrorType

pub record VerificationError : Type 0 where
  pub index : ℕ
  pub title : Text
  pub expected_page : ℕ
  pub error_type : ErrorType

-- The accuracy is the quotient of `correct` and `total`.
pub record VerificationReport : Type 0 where
  pub total : ℕ
  pub correct : ℕ
  pub errors : List VerificationError

pub data ProcessingMode : Type 0 where
  toc_with_page_numbers : ProcessingMode
  toc_without_page_numbers : ProcessingMode
  no_toc : ProcessingMode

unfoldable pub degrade : ProcessingMode → Option ProcessingMode
degrade toc_with_page_numbers = some toc_without_page_numbers
degrade toc_without_page_numbers = some no_toc
degrade no_toc = none

pub record Services (W E : Type 0) : Type 0 where
  pub is_blank : Text → Bool
  pub parse : Text → W → Result (List TocEntry) E × W
  pub assign : List TocEntry → W → Result (List TocEntry) E × W
  pub verify : List TocEntry → W → Result VerificationReport E × W
  -- The entries after the repair and how many were repaired.
  pub repair : List TocEntry → List VerificationError → W → Result (List TocEntry × ℕ) E × W
  pub extract : W → Result (List TocEntry) E × W
  -- `report.accuracy >= config.accuracy_threshold`
  pub accurate : VerificationReport → Bool

abbrev pub page_at : List PdfPage → ℕ → Option PdfPage
page_at pages page_num = if page_num == 0 then none else get_elem? pages (page_num - 1)

abbrev pub texts_of : List PdfPage → List ℕ → List Text
texts_of pages [] = []
texts_of pages (n ∷ ns) =
    let rest = texts_of pages ns in elim (page_at pages n) [ none ↦ rest | some p ↦ p.text ∷ rest ]

abbrev pub join_lines : List Text → Text
join_lines [] = []
join_lines (x ∷ []) = x
join_lines (x ∷ y ∷ xs) = x ++ (10 ∷ 10 ∷ join_lines (y ∷ xs))

-- `extract_toc_text`. In a release build `page_num - 1` wraps around for page 0, which is no page.
unfoldable pub extract_toc_text : List PdfPage → List ℕ → Text
extract_toc_text pages toc_pages = join_lines (texts_of pages toc_pages)

-- Any TOC page numbers are cleared.
abbrev pub clear_pages : List TocEntry → List TocEntry
clear_pages [] = []
clear_pages (e ∷ es) = record e { toc_page = none } ∷ clear_pages es

module _ {W E : Type 0} (services : Services W E) where
  -- Parsed entries, prepared, get their pages.
  abbrev pub assign_parsed :
      (List TocEntry → List TocEntry) → Result (List TocEntry) E × W → Result (List TocEntry) E × W
  assign_parsed prepare (err e, w) = (err e, w)
  assign_parsed prepare (ok [], w) = (ok [], w)
  assign_parsed prepare (ok (e ∷ es), w) = services.assign (prepare (e ∷ es)) w

  unfoldable pub process_toc_with_page_numbers : Text → W → Result (List TocEntry) E × W
  process_toc_with_page_numbers toc_text w =
      if services.is_blank toc_text
      then (ok [], w)
      else assign_parsed (λ es. es) (services.parse toc_text w)

  unfoldable pub process_toc_without_page_numbers : Text → W → Result (List TocEntry) E × W
  process_toc_without_page_numbers toc_text w =
      if services.is_blank toc_text
      then (ok [], w)
      else assign_parsed clear_pages (services.parse toc_text w)

  -- What a mode extracts.
  unfoldable pub run_mode : ProcessingMode → Text → W → Result (List TocEntry) E × W
  unfolding process_toc_with_page_numbers process_toc_without_page_numbers
  run_mode toc_with_page_numbers toc_text w = process_toc_with_page_numbers toc_text w
  run_mode toc_without_page_numbers toc_text w = process_toc_without_page_numbers toc_text w
  run_mode no_toc toc_text w = services.extract w

  -- The last verification, when no attempt is left.
  abbrev pub verified :
      List TocEntry
      → Result VerificationReport E × W
      → Result (List TocEntry × VerificationReport) E × W
  verified entries (err e, w) = (err e, w)
  verified entries (ok report, w) = (ok (entries, report), w)

  abbrev pub after_repair :
      VerificationReport
      → (List TocEntry → W → Result (List TocEntry × VerificationReport) E × W)
      → Result (List TocEntry × ℕ) E × W
      → Result (List TocEntry × VerificationReport) E × W
  after_repair report next (err e, w) = (err e, w)
  after_repair report next (ok (entries, repaired), w) =
      if repaired == 0 then (ok (entries, report), w) else next entries w

  abbrev pub after_verify :
      List TocEntry
      → (List TocEntry → W → Result (List TocEntry × VerificationReport) E × W)
      → Result VerificationReport E × W
      → Result (List TocEntry × VerificationReport) E × W
  after_verify entries next (err e, w) = (err e, w)
  after_verify entries next (ok report, w) =
      if services.accurate report then (ok (entries, report), w) else elim (report.errors) [
        | [] ↦ (ok (entries, report), w)
        | x ∷ xs ↦ after_repair report next (services.repair entries (x ∷ xs) w)
      ]

  -- `verify_and_repair`, with the attempts that are left.
  unfoldable pub verify_and_repair :
      ℕ → List TocEntry → W → Result (List TocEntry × VerificationReport) E × W
  verify_and_repair zero entries w = verified entries (services.verify entries w)
  verify_and_repair (suc attempts) entries w =
      after_verify entries (verify_and_repair attempts) (services.verify entries w)
