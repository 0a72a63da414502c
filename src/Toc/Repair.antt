-- ===== src/Toc/Repair.antt =====
-- Verification and repair: the report that is returned is one of the entries that are returned.
use vectorless.Base.{
  ℕ, zero, suc, ◌≡◌, refl, sym, subst, List, [], ◌∷◌, Result, ok, err, ◌==◌, ==_iff, if_true,
  if_false, Bool-cases, inl, inr,
}
use vectorless.Toc.{
  TocEntry, VerificationReport, VerificationError, Services, verify_and_repair, verified,
  after_verify, after_repair,
}

module _ {W E : Type 0} (services : Services W E) where
  -- The verifier gave this report for these entries.
  abbrev pub IsReport : List TocEntry → VerificationReport → Type 0
  IsReport entries report = (v v1 : W) × (services.verify entries v ≡ (ok report, v1))

  abbrev pub Reported : Result (List TocEntry × VerificationReport) E × W → Type 0
  Reported (err x, w) = Unit
  Reported (ok (entries, report), w) = IsReport entries report

  -- Where a repair that repairs nothing leaves the entries as they are, entries that come with a
  -- report after verification and repair are entries for which the verifier gave that report,
  -- however many repairs were made before.
  pub verify_and_repair-Reported :
      (attempts : ℕ) (entries : List TocEntry) (w : W)
      → ((es out : List TocEntry) (errors : List VerificationError) (v v1 : W)
          → services.repair es errors v ≡ (ok (out, 0), v1)
          → out ≡ es)
      → Reported (verify_and_repair services attempts entries w)
  unfolding verify_and_repair
  verify_and_repair-Reported zero entries w keeps = go (services.verify entries w) refl
    where
      go :
          (r : Result VerificationReport E × W)
          → services.verify entries w ≡ r
          → Reported (verified services entries r)
      go (err x, w1) h = tt
      go (ok report, w1) h = (w, w1, h)
  verify_and_repair-Reported (suc attempts) entries w keeps =
      go (λ es v. verify_and_repair-Reported attempts es v keeps) (services.verify entries w) refl
    where
      repaired :
          ((es : List TocEntry) (v : W) → Reported (verify_and_repair services attempts es v))
          → (report : VerificationReport) → IsReport entries report
          → (errors : List VerificationError) (v : W) (r : Result (List TocEntry × ℕ) E × W)
          → services.repair entries errors v ≡ r
          → Reported (after_repair services report (verify_and_repair services attempts) r)
      repaired ih report known errors v (err x, w1) h = tt
      repaired ih report known errors v (ok (out, n), w1) h = elim (Bool-cases (n == 0)) [
        | inl t ↦
            let none_left : n ≡ 0 = (==_iff n 0).0 t in
            let same : out ≡ entries =
              keeps entries out errors v w1
                (subst (λ k. services.repair entries errors v ≡ (ok (out, k), w1)) none_left h) in
            subst Reported (sym (if_true _ _ t)) (subst (λ es. IsReport es report) (sym same) known)
        | inr f ↦ subst Reported (sym (if_false _ _ f)) (ih out w1)
      ]

      errors_of :
          ((es : List TocEntry) (v : W) → Reported (verify_and_repair services attempts es v))
          → (report : VerificationReport) → IsReport entries report
          → (w1 : W) (errors : List VerificationError)
          → Reported (elim errors [
            | [] ↦ (ok (entries, report), w1)
            | x ∷ xs ↦
                after_repair services report
                  (verify_and_repair services attempts)
                  (services.repair entries (x ∷ xs) w1)
          ])
      errors_of ih report known w1 [] = known
      errors_of ih report known w1 (x ∷ xs) =
          repaired ih report known (x ∷ xs) w1 (services.repair entries (x ∷ xs) w1) refl

      go :
          ((es : List TocEntry) (v : W) → Reported (verify_and_repair services attempts es v))
          → (r : Result VerificationReport E × W) → services.verify entries w ≡ r
          → Reported (after_verify services entries (verify_and_repair services attempts) r)
      go ih (err x, w1) h = tt
      go ih (ok report, w1) h = elim (Bool-cases (services.accurate report)) [
        | inl t ↦ subst Reported (sym (if_true _ _ t)) (w, w1, h)
        | inr f ↦
            subst Reported (sym (if_false _ _ f)) (errors_of ih report (w, w1, h) w1 report.errors)
      ]
