-- ===== src/Toc/Pages.antt =====
-- The page that an entry gets when repairs are written back.
use vectorless.Base.{
  ℕ, ◌≡◌, refl, sym, ap, ◌∙◌, false, List, [], ◌∷◌, Option, none, some, ltb, ◌==◌, suc, zero,
  length, get_elem?, if◌then◌else◌, if_true, if_false, Bool-cases, inl, inr, arith, true,
}
use vectorless.Toc.{TocEntry, VerificationError}
use vectorless.Toc.Repairer.{correct_at}
use vectorless.Toc.Repaired.{correct_at-other}

-- The page that a result has for the entry of an index: the first error with the title decides.
abbrev pub page_if : ℕ → ℕ → Option VerificationError → Option ℕ
page_if i page none = none
page_if i page (some error) = if error.index == i then some page else none

abbrev pub later_or : Option ℕ → Option ℕ → Option ℕ
later_or none p = p
later_or (some q) p = some q

-- An entry with the page that was found for it last, if one was.
abbrev pub with_page : Option ℕ → Option TocEntry → Option TocEntry
with_page none o = o
with_page (some page) none = none
with_page (some page) (some e) = some (record e { physical_page = some page; confidence = 90 })

pub with_page-with_page :
    (q p : Option ℕ) (o : Option TocEntry)
    → with_page q (with_page p o) ≡ with_page (later_or q p) o
with_page-with_page none p o = refl
with_page-with_page (some q) none o = refl
with_page-with_page (some q) (some p) none = refl
with_page-with_page (some q) (some p) (some e) = refl

with_page-none : (p : Option ℕ) → with_page p none ≡ none
with_page-none none = refl
with_page-none (some p) = refl

correct_at-same :
    (entries : List TocEntry) (page i : ℕ)
    → get_elem? (correct_at entries i page) i ≡ with_page (some page) (get_elem? entries i)
unfolding correct_at
correct_at-same [] page i = refl
correct_at-same (e ∷ entries) page zero = refl
correct_at-same (e ∷ entries) page (suc i) = correct_at-same entries page i

get_elem?_out :
    (entries : List TocEntry) (i : ℕ) → ltb i (length entries) ≡ false → get_elem? entries i ≡ none
get_elem?_out [] i h = refl
get_elem?_out (e ∷ entries) zero h = absurd (ground (arith, h))
get_elem?_out (e ∷ entries) (suc i) h = get_elem?_out entries i (ground (arith, h))

index_eq : (m n : ℕ) → (m == n) ≡ true → m ≡ n
index_eq m n h = ground (arith, h)

-- The entry that an error's page is written to, where the index is in range.
pub correct_at-page_if :
    (entries : List TocEntry) (page i : ℕ) (error : VerificationError)
    → get_elem? (correct_at entries error.index page) i
      ≡ with_page (page_if i page (some error)) (get_elem? entries i)
correct_at-page_if entries page i error = elim (Bool-cases (error.index == i)) [
  | inl t ↦
      ap (λ n. get_elem? (correct_at entries n page) i) (index_eq error.index i t)
      ∙ correct_at-same entries page i
      ∙ sym (ap (λ p. with_page p (get_elem? entries i)) (if_true (some page) none t))
  | inr f ↦
      correct_at-other entries error.index page i f
      ∙ sym (ap (λ p. with_page p (get_elem? entries i)) (if_false (some page) none f))
]

-- An error whose index is out of range changes no entry.
pub page_if_out :
    (entries : List TocEntry) (page i : ℕ) (error : VerificationError)
    → ltb error.index (length entries) ≡ false
    → get_elem? entries i ≡ with_page (page_if i page (some error)) (get_elem? entries i)
page_if_out entries page i error out = elim (Bool-cases (error.index == i)) [
  | inl t ↦
      let gone =
        get_elem?_out entries i
          (ap (λ n. ltb n (length entries)) (sym (index_eq error.index i t)) ∙ out) in
      gone
      ∙ sym (with_page-none (page_if i page (some error)))
      ∙ ap (with_page (page_if i page (some error))) (sym gone)
  | inr f ↦ sym (ap (λ p. with_page p (get_elem? entries i)) (if_false (some page) none f))
]
