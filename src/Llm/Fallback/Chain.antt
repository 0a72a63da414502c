-- ===== src/Llm/Fallback/Chain.antt =====
-- The place of each model in the chain of fallbacks.
use mathlib.Core.Option
use vectorless.Base.{
  if_true, if_false, Bool-cases, List, Option, Option-cases, String, [], ap, arith, get_elem?, inl,
  inr, length, ltb, none, not, some, some_eq, str_eq, suc, sym, ℕ, ◌+◌, ◌<◌, ◌∙◌, ◌∷◌, ◌≡◌, ◌≢◌,
  ◌≤◌,
}
use vectorless.Llm.Fallback.{FallbackConfig, next_at, next_model, position}

-- No model stands twice in a list.
abbrev pub Distinct : List String → Type 0
Distinct models = (i : ℕ) (m : String) → get_elem? models i ≡ some m → position m models ≡ some i

-- How many models of the chain are used up: all up to the current one.
abbrev rank_of : Option ℕ → ℕ
rank_of none = 0
rank_of (some i) = suc i

unfoldable pub rank : List String → String → ℕ
rank models current = rank_of (position current models)

position_lt :
    (m : String) (models : List String) (i : ℕ) → position m models ≡ some i → i < length models
unfolding position
position_lt m [] i h = cc
position_lt m (x ∷ models) i h = elim (Bool-cases (str_eq x m)) [
  | inl t ↦
      let e = some_eq (sym (if_true (some 0) (Option.map suc (position m models)) t) ∙ h) in
      omega (arith, e)
  | inr f ↦
      let e = sym (if_false (some 0) (Option.map suc (position m models)) f) ∙ h in
      elim (Option-cases (position m models)) [
        | inl n ↦ absurd (none≢some (sym (ap (Option.map suc) n) ∙ e))
        | inr j ↦
            let below = position_lt m models j.0 j.1 in
            let same = some_eq (sym (ap (Option.map suc) j.1) ∙ e) in omega (arith, below, same)
      ]
]
  where
    none≢some : {k : ℕ} → none ≢ some k
    none≢some p = cc

pub rank_le : (models : List String) (current : String) → rank models current ≤ length models
unfolding rank
rank_le models current = elim (Option-cases (position current models)) [
  | inl n ↦ omega (arith, ap rank_of n)
  | inr i ↦ omega (arith, ap rank_of i.1, position_lt current models i.0 i.1)
]

next_at-place :
    (models : List String) (current : String) (o : Option ℕ) (next : String)
    → next_at models current o ≡ some next
    → get_elem? models (rank_of o) ≡ some next
unfolding next_at
next_at-place models current (some idx) next h = elim (Bool-cases (ltb (idx + 1) (length models))) [
  | inl t ↦
      ap (get_elem? models) (suc_add idx) ∙ sym (if_true (get_elem? models (idx + 1)) none t) ∙ h
  | inr f ↦ absurd (none≢some (sym (if_false (get_elem? models (idx + 1)) none f) ∙ h))
]
  where
    none≢some : none ≢ some next
    none≢some p = cc

    suc_add : (n : ℕ) → suc n ≡ n + 1
    suc_add n = omega arith
next_at-place [] current none next h = cc
next_at-place (first ∷ models) current none next h =
    elim (Bool-cases (not (str_eq first current))) [
      | inl t ↦ sym (if_true (some first) none t) ∙ h
      | inr f ↦ absurd (none≢some (sym (if_false (some first) none f) ∙ h))
    ]
  where
    none≢some : none ≢ some next
    none≢some p = cc

-- The model that `next_model` gives is one place further in the chain than the current one, or the
-- first where the current one is not in the chain, provided that no model stands twice in it.
pub next_model-rank :
    (c : FallbackConfig) (current next : String)
    → Distinct c.models
    → next_model c current ≡ some next
    → rank c.models next ≡ suc (rank c.models current)
unfolding next_model rank
next_model-rank c current next distinct h = ap rank_of (
    distinct (rank_of (position current c.models)) next
      (next_at-place c.models current (position current c.models) next h))
