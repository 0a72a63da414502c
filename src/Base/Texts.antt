-- ===== src/Base/Texts.antt =====
-- Texts as lists of bytes: their equality test, and maps that have them as keys.
use Prim.Native.Nat.{ℕ}
use mathlib.Core.Path.{◌≡◌, refl, sym, ap, ◌∙◌, subst}
use mathlib.Core.Logic.{inl, inr}
use mathlib.Core.Bool.{Bool, true, false, ◌&&◌}
use mathlib.Core.List.{List, [], ◌∷◌, ◌++◌}
use mathlib.Core.Option.{Option, none, some}
use native.Mathlib.Omega.{arith}
use vectorless.Base.Tests.{◌==◌, if◌then◌else◌, Bool-cases, if_true, if_false}
use vectorless.Base.Lists.{length, All}

-- The bytes of a text.
abbrev pub Text : Type 0
Text = List ℕ

unfoldable pub text_eq : Text → Text → Bool
text_eq [] [] = true
text_eq [] (y ∷ ys) = false
text_eq (x ∷ xs) [] = false
text_eq (x ∷ xs) (y ∷ ys) = (x == y) && text_eq xs ys

pub text_eq_refl : (xs : Text) → text_eq xs xs ≡ true
unfolding text_eq
text_eq_refl [] = refl
text_eq_refl (x ∷ xs) = ground (arith, text_eq_refl xs)

pub text_eq_sound : (xs ys : Text) → text_eq xs ys ≡ true → xs ≡ ys
unfolding text_eq
text_eq_sound [] [] h = refl
text_eq_sound [] (y ∷ ys) h = absurd (cc h)
text_eq_sound (x ∷ xs) [] h = absurd (cc h)
text_eq_sound (x ∷ xs) (y ∷ ys) h = ground (arith, h, text_eq_sound xs ys)

-- Equal texts in front of equal rests, where the texts are equally long.
pub append_cancel :
    (xs ys : Text) {rs qs : Text}
    → length xs ≡ length ys
    → xs ++ rs ≡ ys ++ qs
    → (xs ≡ ys) × (rs ≡ qs)
append_cancel [] [] l h = (refl, h)
append_cancel [] (y ∷ ys) l h = absurd (omega (arith, l))
append_cancel (x ∷ xs) [] l h = absurd (omega (arith, l))
append_cancel (x ∷ xs) (y ∷ ys) {rs} {qs} l h =
    let (a, b) = append_cancel xs ys {rs = rs} {qs = qs} (omega (arith, l)) (cc h) in (cc (a, h), b)

same_key : (i j k : Text) → text_eq i j ≡ true → text_eq i k ≡ text_eq j k
same_key i j k h = ap (λ t. text_eq t k) (text_eq_sound i j h)

same_keys : (i j k : Text) → text_eq i j ≡ true → text_eq k j ≡ true → text_eq i k ≡ true
same_keys i j k h g =
    subst (λ t. text_eq i t ≡ true) (text_eq_sound i j h ∙ sym (text_eq_sound k j g))
      (text_eq_refl i)

module _ {ℓ} {A : Type ℓ} where
  -- `HashMap::get`
  unfoldable pub lookup : Text → List (Text × A) → Option A
  lookup k [] = none
  lookup k ((j, a) ∷ m) = let rest = lookup k m in if text_eq j k then some a else rest

  -- `HashMap::insert`: the value of a key that is there is replaced.
  unfoldable pub insert : Text → A → List (Text × A) → List (Text × A)
  insert k a [] = (k, a) ∷ []
  insert k a ((j, b) ∷ m) =
      let rest = insert k a m in if text_eq j k then (j, a) ∷ m else (j, b) ∷ rest

  -- `HashMap::remove`
  unfoldable pub remove : Text → List (Text × A) → List (Text × A)
  remove k [] = []
  remove k ((j, b) ∷ m) = let rest = remove k m in if text_eq j k then rest else (j, b) ∷ rest

  pub lookup-insert :
      (k : Text) (a : A) (m : List (Text × A)) (j : Text)
      → lookup j (insert k a m) ≡ (if text_eq k j then some a else lookup j m)
  unfolding lookup insert
  lookup-insert k a [] j = refl
  lookup-insert k a ((i, b) ∷ m) j = elim (Bool-cases (text_eq i k)) [
    | inl t ↦ ap (lookup j) (if_true _ _ t) ∙ ground (arith, same_key i k j t)
    | inr f ↦
        ap (lookup j) (if_false _ _ f) ∙ ground (arith, f, lookup-insert k a m j, same_keys i j k)
  ]

  pub lookup-remove :
      (k : Text) (m : List (Text × A)) (j : Text)
      → lookup j (remove k m) ≡ (if text_eq k j then none else lookup j m)
  unfolding lookup remove
  lookup-remove k [] j = ground arith
  lookup-remove k ((i, b) ∷ m) j = elim (Bool-cases (text_eq i k)) [
    | inl t ↦ ap (lookup j) (if_true _ _ t) ∙ ground (arith, lookup-remove k m j, same_key i k j t)
    | inr f ↦
        ap (lookup j) (if_false _ _ f) ∙ ground (arith, f, lookup-remove k m j, same_keys i j k)
  ]

  -- No key stands twice.
  abbrev pub Unique : List (Text × A) → Type ℓ
  Unique [] = Unit
  Unique ((k, a) ∷ m) = (lookup k m ≡ none) × Unique m

  pub insert-Unique : (k : Text) (a : A) (m : List (Text × A)) → Unique m → Unique (insert k a m)
  unfolding lookup insert
  insert-Unique k a [] u = (refl, u)
  insert-Unique k a ((j, b) ∷ m) u = elim (Bool-cases (text_eq j k)) [
    | inl t ↦ subst Unique (sym (if_true _ _ t)) u
    | inr f ↦ subst Unique (sym (if_false _ _ f)) (
      ground (arith, lookup-insert k a m j, u, f, text_eq_sound k j, text_eq_refl j),
      insert-Unique k a m u.1,
    )
  ]

  -- Every entry of the first list is found in the second.
  abbrev pub Found : List (Text × A) → List (Text × A) → Type ℓ
  Found es m = All (λ e. lookup e.0 m ≡ some e.1) es

  lookup_later :
      (k : Text) (a : A) (m : List (Text × A)) (j : Text) (b : A)
      → lookup k m ≡ none
      → lookup j m ≡ some b
      → lookup j ((k, a) ∷ m) ≡ some b
  unfolding lookup
  lookup_later k a m j b new h = elim (Bool-cases (text_eq k j)) [
    | inl same ↦ absurd (cc (ap (λ t. lookup t m) (text_eq_sound k j same), new, h))
    | inr other ↦ if_false (some a) (lookup j m) other ∙ h
  ]

  Found-lookup_later :
      (k : Text) (a : A) (m es : List (Text × A))
      → lookup k m ≡ none
      → Found es m
      → Found es ((k, a) ∷ m)
  Found-lookup_later k a m [] new f = f
  Found-lookup_later k a m ((j, b) ∷ es) new (h, f) =
      (lookup_later k a m j b new h, Found-lookup_later k a m es new f)

  pub Unique-Found : (m : List (Text × A)) → Unique m → Found m m
  unfolding lookup
  Unique-Found [] u = u
  Unique-Found ((k, a) ∷ m) (new, u) = (
    if_true (some a) (lookup k m) (text_eq_refl k),
    Found-lookup_later k a m m new (Unique-Found m u),
  )
