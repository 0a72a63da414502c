-- ===== src/Toc/Counted.antt =====
-- Which entry a repair changes, and what it counts.
use vectorless.Base.{
  ℕ, ◌+◌, ◌≡◌, refl, sym, ap, ◌∙◌, subst, Bool, false, List, [], ◌∷◌, Option, none, some, Result,
  ok, err, map, filter, ltb, length, get_elem?, Text, if_true, if_false, Bool-cases, inl, inr,
  arith,
}
use vectorless.Toc.{TocEntry, VerificationError}
use vectorless.Toc.Repairer.{
  find_error, Located, correct_error, apply_one, apply_repairs, title_at, repair,
}
use vectorless.Toc.Repaired.{length-correct_at}
use vectorless.Toc.Pages.{
  page_if, later_or, with_page, with_page-with_page, correct_at-page_if, page_if_out,
}

-- Whether a result counts as a repair: a page was found, and the first error with its title is
-- about an index in range.
abbrev in_range : ℕ → Option VerificationError → Bool
in_range n none = false
in_range n (some error) = ltb error.index n

module _ {E : Type 0} where
  abbrev pub is_located : List VerificationError → ℕ → Located E → Bool
  is_located errors n (title, ok (some page)) = in_range n (find_error errors title)
  is_located errors n (title, ok none) = false
  is_located errors n (title, err x) = false

  abbrev page_for : List VerificationError → ℕ → Located E → Option ℕ
  page_for errors i (title, ok (some page)) = page_if i page (find_error errors title)
  page_for errors i (title, ok none) = none
  page_for errors i (title, err x) = none

  -- The page of the last result that has one for the entry of an index.
  abbrev pub last_page : List VerificationError → ℕ → List (Located E) → Option ℕ
  last_page errors i [] = none
  last_page errors i (r ∷ results) = later_or (last_page errors i results) (page_for errors i r)

  -- The results of the calls, in the order in which they complete.
  abbrev pub results_of :
      (List (Located E) → List (Located E))
      → (Text → ℕ → Result (Option ℕ) E)
      → List TocEntry
      → List VerificationError
      → List (Located E)
  results_of completed locate entries errors = completed (
      map
        (λ (error : VerificationError).
          let title = title_at (get_elem? entries error.index) in
          (title, locate title error.expected_page))
        (filter (λ (error : VerificationError). ltb error.index (length entries)) errors))

  -- What one step or several do to the entry of an index and to the count.
  record Counted (errors : List VerificationError) (i : ℕ) (results : List (Located E))
      (s t : List TocEntry × ℕ) : Type 0 where
    pub same_length : length t.0 ≡ length s.0
    pub entry : get_elem? t.0 i ≡ with_page (last_page errors i results) (get_elem? s.0 i)
    pub count : t.1 ≡ s.1 + length (filter (is_located errors (length s.0)) results)

  correct_error-Counted :
      (errors : List VerificationError) (i page : ℕ) (title : Text) (o : Option VerificationError)
      → find_error errors title ≡ o
      → (s : List TocEntry × ℕ)
      → Counted errors i ((title, ok (some page)) ∷ []) s (correct_error page o s)
  correct_error-Counted errors i page title none h (entries, n) =
      let no : in_range (length entries) (find_error errors title) ≡ false =
        ap (in_range (length entries)) h in
      record {
        same_length = refl;
        entry = sym (ap (λ q. with_page (page_if i page q) (get_elem? entries i)) h);
        count = ground (arith, no);
      }
  correct_error-Counted errors i page title (some error) h (entries, n) =
      let known = ap (in_range (length entries)) h in
      let shown = ap (λ q. with_page (page_if i page q) (get_elem? entries i)) h in
      elim (Bool-cases (ltb error.index (length entries))) [
        | inr f ↦
            subst (Counted errors i ((title, ok (some page)) ∷ []) (entries, n))
              (sym (if_false _ _ f))
              (record {
                same_length = refl;
                entry = page_if_out entries page i error f ∙ sym shown;
                count = ground (arith, known, f);
              })
        | inl t ↦
            subst (Counted errors i ((title, ok (some page)) ∷ []) (entries, n))
              (sym (if_true _ _ t))
              (record {
                same_length = length-correct_at entries error.index page;
                entry = correct_at-page_if entries page i error ∙ sym shown;
                count = ground (arith, known, t);
              })
      ]

  apply_one-Counted :
      (errors : List VerificationError) (i : ℕ) (r : Located E)
      → (s : List TocEntry × ℕ) → Counted errors i (r ∷ []) s (apply_one errors r s)
  unfolding apply_one
  apply_one-Counted errors i (title, ok (some page)) s =
      correct_error-Counted errors i page title (find_error errors title) refl s
  apply_one-Counted errors i (title, ok none) s = record {
    same_length = refl;
    entry = refl;
    count = omega arith;
  }
  apply_one-Counted errors i (title, err x) s = record {
    same_length = refl;
    entry = refl;
    count = omega arith;
  }

  filter_cons :
      (p : Located E → Bool) (r : Located E) (rs : List (Located E))
      → length (filter p (r ∷ rs)) ≡ length (filter p (r ∷ [])) + length (filter p rs)
  filter_cons p r rs = elim (Bool-cases (p r)) [
    | inl t ↦ ground (arith, t)
    | inr f ↦ ground (arith, f)
  ]

  apply_repairs-Counted :
      (errors : List VerificationError) (i : ℕ) (results : List (Located E))
      → (s : List TocEntry × ℕ) → Counted errors i results s (apply_repairs errors results s)
  unfolding apply_repairs
  apply_repairs-Counted errors i [] s = record {
    same_length = refl;
    entry = refl;
    count = omega arith;
  }
  apply_repairs-Counted errors i (r ∷ results) s =
      let one = apply_one-Counted errors i r s in
      let rest = apply_repairs-Counted errors i results (apply_one errors r s) in
      let count =
        subst
          (λ n.
            (apply_repairs errors results (apply_one errors r s)).1
            ≡ (apply_one errors r s).1 + length (filter (is_located errors n) results))
          one.same_length rest.count in
      let both = filter_cons (is_located errors (length s.0)) r results in
      record {
        same_length = rest.same_length ∙ one.same_length;
        entry =
            rest.entry
            ∙ ap (with_page (last_page errors i results)) one.entry
            ∙ with_page-with_page (last_page errors i results) (page_for errors i r)
                (get_elem? s.0 i);
        count = omega (arith, one.count, count, both);
      }

  none_located :
      (n : ℕ) (results : List (Located E)) → length (filter (is_located [] n) results) ≡ 0
  unfolding find_error
  none_located n [] = refl
  none_located n ((title, ok (some page)) ∷ results) = none_located n results
  none_located n ((title, ok none) ∷ results) = none_located n results
  none_located n ((title, err x) ∷ results) = none_located n results

  none_last : (i : ℕ) (results : List (Located E)) → last_page [] i results ≡ none
  unfolding find_error
  none_last i [] = refl
  none_last i ((title, ok (some page)) ∷ results) = ap (λ q. later_or q none) (none_last i results)
  none_last i ((title, ok none) ∷ results) = ap (λ q. later_or q none) (none_last i results)
  none_last i ((title, err x) ∷ results) = ap (λ q. later_or q none) (none_last i results)

  -- What a repair does, whatever the model finds and in whatever order the calls complete: the
  -- first error with the title of a result decides which entry the page of the result goes to, and
  -- each entry gets the page of the last result for it, or stays as it is where there is none. The
  -- count has every result with a page whose first error is about an index in range, also those
  -- whose page is overwritten.
  pub repair-last_page :
      (completed : List (Located E) → List (Located E)) (locate : Text → ℕ → Result (Option ℕ) E)
      (entries : List TocEntry) (errors : List VerificationError) (i : ℕ)
      → let r = repair completed locate entries errors in
        let results = results_of completed locate entries errors in
        (get_elem? r.0 i ≡ with_page (last_page errors i results) (get_elem? entries i))
        × (r.1 ≡ length (filter (is_located errors (length entries)) results))
  unfolding repair
  repair-last_page completed locate entries [] i =
      let results = results_of completed locate entries [] in
      (
        sym (ap (λ p. with_page p (get_elem? entries i)) (none_last i results)),
        sym (none_located (length entries) results),
      )
  repair-last_page completed locate entries (e ∷ errors) i =
      let c =
        apply_repairs-Counted (e ∷ errors) i (results_of completed locate entries (e ∷ errors))
          (entries, 0) in
      (c.entry, omega (arith, c.count))
