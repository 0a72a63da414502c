-- ===== src/Toc/Degrade.antt =====
-- Extraction with degradation: it ends, each mode is tried after the one before fell short, and
-- what a repair leaves was verified.
use vectorless.Base.{
  ℕ, zero, suc, ◌<◌, ◌≡◌, ◌⊎◌, inl, inr, refl, ap, ◌∙◌, true, false, List, [], ◌∷◌, Option, none,
  some, Result, ok, err, Text, if◌then◌else◌, if_true, if_false, Bool-cases, arith,
}
use vectorless.Toc.{
  TocEntry, TocDetection, VerificationReport, ProcessingMode, toc_with_page_numbers,
  toc_without_page_numbers, no_toc, degrade, Services, run_mode, verify_and_repair,
}

-- The mode that `process` starts with.
unfoldable pub initial_mode : TocDetection → ProcessingMode
initial_mode d =
    if d.found
    then if d.has_page_numbers then toc_with_page_numbers else toc_without_page_numbers
    else no_toc

-- How many modes are left.
abbrev pub rank : ProcessingMode → ℕ
rank toc_with_page_numbers = 2
rank toc_without_page_numbers = 1
rank no_toc = 0

module _ {W E : Type 0} (services : Services W E) where
  abbrev pub Outcome : Type 0
  Outcome = Result (List TocEntry) E × W

  abbrev pub degrade_to :
      (ProcessingMode → W → Option Outcome) → Outcome → Option ProcessingMode → Option Outcome
  degrade_to next (r, w) none = some (r, w)
  degrade_to next (r, w) (some mode) = next mode w

  -- What follows the verification of entries.
  abbrev pub settle :
      (ProcessingMode → W → Option Outcome)
      → ProcessingMode
      → Result (List TocEntry × VerificationReport) E × W
      → Option Outcome
  settle next mode (err e, w) = some (err e, w)
  settle next mode (ok (entries, report), w) =
      if services.accurate report
      then some (ok entries, w)
      else degrade_to next (ok entries, w) (degrade mode)

  -- The match on the result of a mode.
  abbrev pub after_mode :
      (ProcessingMode → W → Option Outcome) → ℕ → ProcessingMode → Outcome → Option Outcome
  after_mode next attempts mode (ok (e ∷ es), w) =
      settle next mode (verify_and_repair services attempts (e ∷ es) w)
  after_mode next attempts mode (ok [], w) = degrade_to next (ok [], w) (degrade mode)
  after_mode next attempts mode (err e, w) = degrade_to next (err e, w) (degrade mode)

  -- The loop of `process_with_degradation`, with fuel for its rounds.
  unfoldable pub process_loop : ℕ → ℕ → Text → ProcessingMode → W → Option Outcome
  unfolding degrade run_mode verify_and_repair
  process_loop zero attempts toc_text mode w = none
  process_loop (suc fuel) attempts toc_text no_toc w = some (run_mode services no_toc toc_text w)
  process_loop (suc fuel) attempts toc_text toc_without_page_numbers w =
      after_mode (process_loop fuel attempts toc_text) attempts toc_without_page_numbers
        (run_mode services toc_without_page_numbers toc_text w)
  process_loop (suc fuel) attempts toc_text toc_with_page_numbers w =
      after_mode (process_loop fuel attempts toc_text) attempts toc_with_page_numbers
        (run_mode services toc_with_page_numbers toc_text w)

  unfoldable pub process_with_degradation : ℕ → Text → ProcessingMode → W → Option Outcome
  unfolding process_loop
  process_with_degradation attempts toc_text mode w = process_loop 3 attempts toc_text mode w

  -- What the modes make, one after the other.
  pub data Tried (attempts : ℕ) (toc_text : Text) : ProcessingMode → W → Outcome → Type 0 where
    without_toc :
        {r : Outcome} (w : W) → services.extract w ≡ r → Tried attempts toc_text no_toc w r
    accepted :
        (mode : ProcessingMode) (w w1 w2 : W) (e : TocEntry) (es out : List TocEntry)
        (report : VerificationReport)
        → run_mode services mode toc_text w ≡ (ok (e ∷ es), w1)
        → verify_and_repair services attempts (e ∷ es) w1 ≡ (ok (out, report), w2)
        → services.accurate report ≡ true
        → Tried attempts toc_text mode w (ok out, w2)
    unverified :
        (mode : ProcessingMode) (w w1 w2 : W) (e : TocEntry) (es : List TocEntry) (x : E)
        → run_mode services mode toc_text w ≡ (ok (e ∷ es), w1)
        → verify_and_repair services attempts (e ∷ es) w1 ≡ (err x, w2)
        → Tried attempts toc_text mode w (err x, w2)
    inaccurate :
        {r : Outcome} (mode next : ProcessingMode) (w w1 w2 : W) (e : TocEntry)
        (es out : List TocEntry) (report : VerificationReport)
        → run_mode services mode toc_text w ≡ (ok (e ∷ es), w1)
        → verify_and_repair services attempts (e ∷ es) w1 ≡ (ok (out, report), w2)
        → services.accurate report ≡ false
        → degrade mode ≡ some next
        → Tried attempts toc_text next w2 r
        → Tried attempts toc_text mode w r
    fruitless :
        {r : Outcome} (mode next : ProcessingMode) (w w1 : W) (o : Result (List TocEntry) E)
        → run_mode services mode toc_text w ≡ (o, w1)
        → (o ≡ ok []) ⊎ ((x : E) × (o ≡ err x))
        → degrade mode ≡ some next
        → Tried attempts toc_text next w1 r
        → Tried attempts toc_text mode w r

  abbrev Ends : ℕ → Text → ProcessingMode → W → Option Outcome → Type 0
  Ends attempts toc_text mode w o = (r : Outcome) × (o ≡ some r) × Tried attempts toc_text mode w r

  after_mode-Ends :
      (next : ProcessingMode → W → Option Outcome) (attempts : ℕ) (toc_text : Text)
      (mode below : ProcessingMode) (w : W)
      → degrade mode ≡ some below
      → ((v : W) → Ends attempts toc_text below v (next below v))
      → Ends attempts toc_text mode w
          (after_mode next attempts mode (run_mode services mode toc_text w))
  after_mode-Ends next attempts toc_text mode below w d ih =
      ran (run_mode services mode toc_text w) refl
    where
      lower :
          (v : W) (x : Result (List TocEntry) E)
          → ((r : Outcome) → Tried attempts toc_text below v r → Tried attempts toc_text mode w r)
          → Ends attempts toc_text mode w (degrade_to next (x, v) (degrade mode))
      lower v x lift = let (r, e, t) = ih v in (r, ap (degrade_to next (x, v)) d ∙ e, lift r t)

      settled :
          (e : TocEntry) (es : List TocEntry) (w1 : W)
          → run_mode services mode toc_text w ≡ (ok (e ∷ es), w1)
          → (o : Result (List TocEntry × VerificationReport) E × W)
          → verify_and_repair services attempts (e ∷ es) w1 ≡ o
          → Ends attempts toc_text mode w (settle next mode o)
      settled e es w1 h (err x, w2) v = ((err x, w2), refl, unverified mode w w1 w2 e es x h v)
      settled e es w1 h (ok (out, report), w2) v = elim (Bool-cases (services.accurate report)) [
        | inl t ↦ ((ok out, w2), if_true _ _ t, accepted mode w w1 w2 e es out report h v t)
        | inr f ↦
            let (r, eq, t) =
              lower w2 (ok out) (λ r t. inaccurate mode below w w1 w2 e es out report h v f d t) in
            (r, if_false _ _ f ∙ eq, t)
      ]

      ran :
          (o : Outcome)
          → run_mode services mode toc_text w ≡ o
          → Ends attempts toc_text mode w (after_mode next attempts mode o)
      ran (ok (e ∷ es), w1) h =
          settled e es w1 h (verify_and_repair services attempts (e ∷ es) w1) refl
      ran (ok [], w1) h =
          lower w1 (ok []) (λ r t. fruitless mode below w w1 (ok []) h (inl refl) d t)
      ran (err x, w1) h =
          lower w1 (err x) (λ r t. fruitless mode below w w1 (err x) h (inr (x, refl)) d t)

  process_loop-Ends :
      (fuel attempts : ℕ) (toc_text : Text) (mode : ProcessingMode) (w : W)
      → rank mode < fuel
      → Ends attempts toc_text mode w (process_loop fuel attempts toc_text mode w)
  unfolding process_loop degrade run_mode
  process_loop-Ends zero attempts toc_text mode w h = absurd (omega (arith, h))
  process_loop-Ends (suc fuel) attempts toc_text no_toc w h =
      (services.extract w, refl, without_toc w refl)
  process_loop-Ends (suc fuel) attempts toc_text toc_without_page_numbers w h =
      after_mode-Ends (process_loop fuel attempts toc_text) attempts toc_text
        toc_without_page_numbers no_toc w refl
        (λ v. process_loop-Ends fuel attempts toc_text no_toc v (omega (arith, h)))
  process_loop-Ends (suc fuel) attempts toc_text toc_with_page_numbers w h =
      after_mode-Ends (process_loop fuel attempts toc_text) attempts toc_text toc_with_page_numbers
        toc_without_page_numbers w refl
        (λ v.
          process_loop-Ends fuel attempts toc_text toc_without_page_numbers v (omega (arith, h)))

  -- Extraction from any mode ends with an outcome: entries whose report is accurate, the error of
  -- a verification or repair, or what is extracted without a table of contents; a lower mode is
  -- tried only where the mode before gave no entries, an error, or entries that stayed inaccurate.
  pub process_with_degradation-Tried :
      (attempts : ℕ) (toc_text : Text) (mode : ProcessingMode) (w : W)
      → (r : Outcome) × (process_with_degradation attempts toc_text mode w ≡ some r)
        × Tried attempts toc_text mode w r
  unfolding process_with_degradation
  process_with_degradation-Tried attempts toc_text toc_with_page_numbers w =
      process_loop-Ends 3 attempts toc_text toc_with_page_numbers w (omega arith)
  process_with_degradation-Tried attempts toc_text toc_without_page_numbers w =
      process_loop-Ends 3 attempts toc_text toc_without_page_numbers w (omega arith)
  process_with_degradation-Tried attempts toc_text no_toc w =
      process_loop-Ends 3 attempts toc_text no_toc w (omega arith)
