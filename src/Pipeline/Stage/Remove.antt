-- ===== src/Pipeline/Stage/Remove.antt =====
-- What removing a stage does to the registered names.
use vectorless.Base.{
  [], ◌∷◌, String, true, false, not, str_eq, ◌≡◌, ◌≢◌, refl, sym, ap, ◌∙◌, if◌then◌else◌, if_false,
  Bool-cases, inl, inr, eq_iff,
}
use vectorless.Pipeline.Stage.{Stages, PassEntry, stage_name, remove_stage, has_stage}

module _ {ℓ} {E : Type ℓ} where
  names_other :
      (e : PassEntry E) (name other : String)
      → name ≢ other
      → str_eq (stage_name e) name ≡ true
      → str_eq (stage_name e) other ≡ false
  names_other e name other differ h = elim (Bool-cases (str_eq (stage_name e) other)) [
    | inl t ↦
        absurd (differ (sym ((eq_iff (stage_name e) name).0 h) ∙ (eq_iff (stage_name e) other).0 t))
    | inr f ↦ f
  ]

  -- After a stage is removed, no registered stage has its name, also where several had it.
  pub remove_stage-has_stage :
      (stages : Stages E) (name : String) → has_stage (remove_stage stages name) name ≡ false
  unfolding remove_stage has_stage
  remove_stage-has_stage [] name = refl
  remove_stage-has_stage (e ∷ stages) name =
      let rest = remove_stage stages name in
      elim (Bool-cases (str_eq (stage_name e) name)) [
        | inl t ↦
            ap (λ b. has_stage (if not b then e ∷ rest else rest) name) t
            ∙ remove_stage-has_stage stages name
        | inr f ↦
            ap (λ b. has_stage (if not b then e ∷ rest else rest) name) f
            ∙ if_false true (has_stage rest name) f
            ∙ remove_stage-has_stage stages name
      ]

  -- Removing a stage leaves every other name registered or unregistered as it was.
  pub remove_stage-has_stage_other :
      (stages : Stages E) (name other : String)
      → name ≢ other
      → has_stage (remove_stage stages name) other ≡ has_stage stages other
  unfolding remove_stage has_stage
  remove_stage-has_stage_other [] name other differ = refl
  remove_stage-has_stage_other (e ∷ stages) name other differ =
      let rest = remove_stage stages name in
      let same = remove_stage-has_stage_other stages name other differ in
      elim (Bool-cases (str_eq (stage_name e) name)) [
        | inl t ↦
            ap (λ b. has_stage (if not b then e ∷ rest else rest) other) t
            ∙ same
            ∙ sym (if_false true (has_stage stages other) (names_other e name other differ t))
        | inr f ↦
            ap (λ b. has_stage (if not b then e ∷ rest else rest) other) f
            ∙ ap (λ b. if str_eq (stage_name e) other then true else b) same
      ]
