-- ===== src/Pipeline/Context/Results.antt =====
-- The map of results: what recording a result changes.
use vectorless.Base.{
  true, false, List, [], ◌∷◌, String, str_eq, any, ◌≡◌, refl, ap, sym, ◌∙◌, eq_iff, Bool-cases, inl,
  inr, if_true, if_false,
}
use vectorless.Pipeline.Context.{insert, contains_key}

str_eq_refl : (s : String) → str_eq s s ≡ true
str_eq_refl s = (eq_iff s s).1 refl

module _ {ℓ} {V : Type ℓ} where
  contains_first :
      (k key : String) (v : V) (m : List (String × V))
      → str_eq k key ≡ true
      → contains_key ((k, v) ∷ m) key ≡ true
  unfolding contains_key
  contains_first k key v m h = if_true true (any (λ e. str_eq e.0 key) m) h

  contains_rest :
      (k key : String) (v : V) (m : List (String × V))
      → contains_key m key ≡ true
      → contains_key ((k, v) ∷ m) key ≡ true
  unfolding contains_key
  contains_rest k key v m h = elim (Bool-cases (str_eq k key)) [
    | inl t ↦ if_true true (any (λ e. str_eq e.0 key) m) t
    | inr f ↦ if_false true (any (λ e. str_eq e.0 key) m) f ∙ h
  ]

  pub contains_key-insert :
      (key : String) (v : V) (m : List (String × V)) → contains_key (insert key v m) key ≡ true
  unfolding insert
  contains_key-insert key v [] = contains_first key key v [] (str_eq_refl key)
  contains_key-insert key v ((k, w) ∷ m) = elim (Bool-cases (str_eq k key)) [
    | inl t ↦
        ap (λ n. contains_key n key) (if_true ((key, v) ∷ m) ((k, w) ∷ insert key v m) t)
        ∙ contains_first key key v m (str_eq_refl key)
    | inr f ↦
        ap (λ n. contains_key n key) (if_false ((key, v) ∷ m) ((k, w) ∷ insert key v m) f)
        ∙ contains_rest k key w (insert key v m) (contains_key-insert key v m)
  ]

  pub contains_key-insert_other :
      (key other : String) (v : V) (m : List (String × V))
      → contains_key m other ≡ true
      → contains_key (insert key v m) other ≡ true
  unfolding insert contains_key
  contains_key-insert_other key other v [] h = cc
  contains_key-insert_other key other v ((k, w) ∷ m) h =
      let test = any (λ e. str_eq e.0 other) m in
      let after = λ (n : List (String × V)). contains_key n other in
      let in_rest = λ (f : str_eq k other ≡ false). sym (if_false true test f) ∙ h in
      elim (Bool-cases (str_eq k key)) [
        | inl t ↦
            let here = ap after (if_true ((key, v) ∷ m) ((k, w) ∷ insert key v m) t) in
            elim (Bool-cases (str_eq k other)) [
              | inl o ↦
                  here
                  ∙ contains_first key other v m
                      (ap (λ n. str_eq n other) (sym ((eq_iff k key).0 t)) ∙ o)
              | inr f ↦ here ∙ contains_rest key other v m (in_rest f)
            ]
        | inr n ↦
            let here = ap after (if_false ((key, v) ∷ m) ((k, w) ∷ insert key v m) n) in
            elim (Bool-cases (str_eq k other)) [
              | inl o ↦ here ∙ contains_first k other w (insert key v m) o
              | inr f ↦
                  here
                  ∙ contains_rest k other w (insert key v m)
                      (contains_key-insert_other key other v m (in_rest f))
            ]
      ]
