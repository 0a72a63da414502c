-- ===== src/Toc/Repaired.antt =====
-- What a repair changes.
use vectorless.Base.{
  some_eq, ℕ, zero, suc, ◌≤◌, ◌≡◌, refl, sym, ap, ◌∙◌, subst, Bool, false, List, [], ◌∷◌, Option,
  none, some, Result, ok, err, map, filter, any, ltb, ◌==◌, length, get_elem?, Text, text_eq,
  if_true, if_false, Bool-cases, inl, inr, arith,
}
use vectorless.Toc.{TocEntry, VerificationError}
use vectorless.Toc.Repairer.{
  find_error, correct_at, Located, correct_error, apply_one, apply_repairs, title_at, repair,
}

-- Whether an error is about the entry of an index.
abbrev pub reported : List VerificationError → ℕ → Bool
reported errors i = any (λ (e : VerificationError). e.index == i) errors

pub correct_at-other :
    (entries : List TocEntry) (index page i : ℕ)
    → (index == i) ≡ false
    → get_elem? (correct_at entries index page) i ≡ get_elem? entries i
unfolding correct_at
correct_at-other [] index page i h = refl
correct_at-other (e ∷ entries) zero page zero h = absurd (ground (arith, h))
correct_at-other (e ∷ entries) zero page (suc i) h = refl
correct_at-other (e ∷ entries) (suc index) page zero h = refl
correct_at-other (e ∷ entries) (suc index) page (suc i) h =
    correct_at-other entries index page i (ground (arith, h))

pub length-correct_at :
    (entries : List TocEntry) (index page : ℕ)
    → length (correct_at entries index page) ≡ length entries
unfolding correct_at
length-correct_at [] index page = refl
length-correct_at (e ∷ entries) zero page = refl
length-correct_at (e ∷ entries) (suc index) page = ap suc (length-correct_at entries index page)

find_error-reported :
    (errors : List VerificationError) (title : Text) (error : VerificationError) (i : ℕ)
    → find_error errors title ≡ some error
    → reported errors i ≡ false
    → (error.index == i) ≡ false
unfolding find_error
find_error-reported [] title error i h r = absurd (cc h)
find_error-reported (e ∷ errors) title error i h r = elim (Bool-cases (text_eq e.title title)) [
  | inl t ↦
      (let e2 : e ≡ error = some_eq (sym (if_true (some e) (find_error errors title) t) ∙ h) in
        ground (arith, r, ap (λ (x : VerificationError). x.index) e2))
  | inr f ↦
      find_error-reported errors title error i
        (sym (if_false (some e) (find_error errors title) f) ∙ h) (ground (arith, r))
]

-- From one state of the loop to a later one.
pub record IsRepair (errors : List VerificationError) (s t : List TocEntry × ℕ) : Type 0 where
  pub count_le : s.1 ≤ t.1
  pub none_repaired : t.1 ≡ s.1 → t.0 ≡ s.0
  pub same_length : length t.0 ≡ length s.0
  pub others : (i : ℕ) → reported errors i ≡ false → get_elem? t.0 i ≡ get_elem? s.0 i

refl-IsRepair : (errors : List VerificationError) (s : List TocEntry × ℕ) → IsRepair errors s s
refl-IsRepair errors s = record {
  count_le = omega arith;
  none_repaired = λ h. refl;
  same_length = refl;
  others = λ i h. refl;
}

correct_error-IsRepair :
    (errors : List VerificationError) (page : ℕ) (title : Text) (o : Option VerificationError)
    → find_error errors title ≡ o
    → (s : List TocEntry × ℕ) → IsRepair errors s (correct_error page o s)
correct_error-IsRepair errors page title none h s = refl-IsRepair errors s
correct_error-IsRepair errors page title (some error) h (entries, n) =
    elim (Bool-cases (ltb error.index (length entries))) [
      | inr f ↦
          subst (IsRepair errors (entries, n)) (sym (if_false _ _ f))
            (refl-IsRepair errors (entries, n))
      | inl t ↦ subst (IsRepair errors (entries, n)) (sym (if_true _ _ t)) (record {
        count_le = omega arith;
        none_repaired = λ e. absurd (omega (arith, e));
        same_length = length-correct_at entries error.index page;
        others = λ i r.
            correct_at-other entries error.index page i
              (find_error-reported errors title error i h r);
      })
    ]

module _ {E : Type 0} where
  apply_one-IsRepair :
      (errors : List VerificationError) (r : Located E) (s : List TocEntry × ℕ)
      → IsRepair errors s (apply_one errors r s)
  unfolding apply_one
  apply_one-IsRepair errors (title, ok (some page)) s =
      correct_error-IsRepair errors page title (find_error errors title) refl s
  apply_one-IsRepair errors (title, ok none) s = refl-IsRepair errors s
  apply_one-IsRepair errors (title, err x) s = refl-IsRepair errors s

  apply_repairs-IsRepair :
      (errors : List VerificationError) (results : List (Located E)) (s : List TocEntry × ℕ)
      → IsRepair errors s (apply_repairs errors results s)
  unfolding apply_repairs
  apply_repairs-IsRepair errors [] s = refl-IsRepair errors s
  apply_repairs-IsRepair errors (r ∷ results) s =
      let i = apply_one-IsRepair errors r s in
      let j = apply_repairs-IsRepair errors results (apply_one errors r s) in
      record {
        count_le = omega (arith, i.count_le, j.count_le);
        none_repaired = λ h.
            j.none_repaired (omega (arith, h, i.count_le, j.count_le))
            ∙ i.none_repaired (omega (arith, h, i.count_le, j.count_le));
        same_length = j.same_length ∙ i.same_length;
        others = λ k h. j.others k h ∙ i.others k h;
      }

  -- A repair keeps the number of entries and changes no entry that no error is about, and where it
  -- reports that nothing was repaired every entry is as it was, in whatever order the calls
  -- complete.
  pub repair-kept :
      (completed : List (Located E) → List (Located E)) (locate : Text → ℕ → Result (Option ℕ) E)
      (entries : List TocEntry) (errors : List VerificationError)
      → let r = repair completed locate entries errors in
        (r.1 ≡ 0 → r.0 ≡ entries)
        × (length r.0 ≡ length entries)
        × ((i : ℕ) → reported errors i ≡ false → get_elem? r.0 i ≡ get_elem? entries i)
  unfolding repair
  repair-kept completed locate entries [] = (λ h. refl, refl, λ i h. refl)
  repair-kept completed locate entries (e ∷ errors) =
      let i =
        apply_repairs-IsRepair (e ∷ errors)
          (completed (
            map
              (λ (error : VerificationError).
                let title = title_at (get_elem? entries error.index) in
                (title, locate title error.expected_page))
              (filter (λ (error : VerificationError). ltb error.index (length entries))
                (e ∷ errors))))
          (entries, 0) in
      (i.none_repaired, i.same_length, i.others)
