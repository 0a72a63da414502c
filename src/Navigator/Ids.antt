-- ===== src/Navigator/Ids.antt =====
-- What the text of an id names, and the sets of ids.
use vectorless.Base.{
  ℕ, ◌≡◌, sym, ◌∙◌, subst, true, List, [], ◌∷◌, Option, none, some, Result, ok, err, ◌==◌, Text,
  if_true, if_false, Bool-cases, inl, inr, arith,
}
use vectorless.Navigator.{
  Doc, bad_prefix, unknown_id, known_id, parse_id, parse_u64, member, set_insert,
}

pub ok_eq {ℓ κ} : {A : Type ℓ} {X : Type κ} {a b : A} → ◌≡◌ {A = Result A X} (ok a) (ok b) → a ≡ b
ok_eq h = cc

pub ok≢err {ℓ κ} :
    {A : Type ℓ} {X : Type κ} {a : A} {x : X} → ◌≡◌ {A = Result A X} (err x) (ok a) → ⊥
ok≢err h = cc

known_id-member :
    (doc : Doc) (s : Text) (o : Option ℕ) (id : ℕ)
    → known_id doc s o ≡ ok id
    → member doc.traverse id ≡ true
known_id-member doc s none id h = absurd (ok≢err h)
known_id-member doc s (some num) id h = elim (Bool-cases (member doc.traverse num)) [
  | inl known ↦
      subst (λ n. member doc.traverse n ≡ true)
        (ok_eq (sym (if_true (ok num) (err (unknown_id num)) known) ∙ h)) known
  | inr other ↦ absurd (ok≢err (sym (if_false (ok num) (err (unknown_id num)) other) ∙ h))
]

-- An id that is parsed is a node of the document.
pub parse_id-member :
    (doc : Doc) (s : Text) (id : ℕ) → parse_id doc s ≡ ok id → member doc.traverse id ≡ true
unfolding parse_id
parse_id-member doc [] id h = absurd (ok≢err h)
parse_id-member doc (c ∷ s) id h = elim (Bool-cases (c == b'n')) [
  | inl n ↦
      known_id-member doc (c ∷ s) (parse_u64 s) id
        (sym (if_true (known_id doc (c ∷ s) (parse_u64 s)) (err (bad_prefix (c ∷ s))) n) ∙ h)
  | inr other ↦ absurd (
      ok≢err
        (sym (if_false (known_id doc (c ∷ s) (parse_u64 s)) (err (bad_prefix (c ∷ s))) other) ∙ h))
]

pub member-set_insert :
    (xs : List ℕ) (x y : ℕ) → member xs y ≡ true → member (set_insert xs x) y ≡ true
member-set_insert xs x y h = elim (Bool-cases (member xs x)) [
  | inl t ↦ subst (λ l. member l y ≡ true) (sym (if_true xs (x ∷ xs) t)) h
  | inr f ↦ subst (λ l. member l y ≡ true) (sym (if_false xs (x ∷ xs) f)) (ground (arith, h))
]

pub member-set_insert_same : (xs : List ℕ) (x : ℕ) → member (set_insert xs x) x ≡ true
member-set_insert_same xs x = elim (Bool-cases (member xs x)) [
  | inl t ↦ subst (λ l. member l x ≡ true) (sym (if_true xs (x ∷ xs) t)) t
  | inr f ↦ subst (λ l. member l x ≡ true) (sym (if_false xs (x ∷ xs) f)) (ground arith)
]
