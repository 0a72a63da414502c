-- ===== src/Base/Counting.antt =====
-- How often a number stands in a list, and sums over the numbers below a bound.
use Prim.Native.Nat.{ℕ, zero, suc, ◌+◌, ◌≤◌, ◌<◌}
use mathlib.Core.Path.{subst, ◌∙◌, ◌≡◌, refl}
use mathlib.Core.Logic.{inl, inr}
use mathlib.Core.List.{List, [], ◌∷◌, ◌++◌}
use mathlib.Core.Option.{some}
use native.Mathlib.Omega.{arith}
use vectorless.Base.Tests.{Bool-cases, ◌==◌, if◌then◌else◌}
use vectorless.Base.Lists.{All, length, get_elem?}

abbrev pub indicator : ℕ → ℕ → ℕ
indicator a b = if a == b then 1 else 0

abbrev pub count : ℕ → List ℕ → ℕ
count a [] = 0
count a (x ∷ xs) = indicator a x + count a xs

pub count-append :
    (n : ℕ) (front back : List ℕ) → count n (front ++ back) ≡ count n front + count n back
count-append n [] back = omega arith
count-append n (m ∷ front) back = omega (arith, count-append n front back)

abbrev pub sum_below : ℕ → (ℕ → ℕ) → ℕ
sum_below zero f = 0
sum_below (suc n) f = sum_below n f + f n

pub sum_below-add :
    (n : ℕ) (f g : ℕ → ℕ) → sum_below n (λ j. f j + g j) ≡ sum_below n f + sum_below n g
sum_below-add zero f g = omega arith
sum_below-add (suc n) f g = omega (arith, sum_below-add n f g)

pub sum_below_zero : (n : ℕ) → sum_below n (λ j. 0) ≡ 0
sum_below_zero zero = refl
sum_below_zero (suc n) = omega (arith, sum_below_zero n)

pub sum_below_ones : (n : ℕ) → sum_below n (λ j. 1) ≡ n
sum_below_ones zero = refl
sum_below_ones (suc n) = omega (arith, sum_below_ones n)

pub sum_below_le_term : (n : ℕ) (f : ℕ → ℕ) (j : ℕ) → j < n → f j ≤ sum_below n f
sum_below_le_term zero f j h = elim h [ ]
sum_below_le_term (suc n) f j h = ground (arith, sum_below_le_term n f j)

pub sum_below_le : (n : ℕ) (f : ℕ → ℕ) → ((j : ℕ) → f j ≤ 1) → sum_below n f ≤ n
sum_below_le zero f h = omega arith
sum_below_le (suc n) f h = omega (arith, sum_below_le n f h, h n)

pub sum_below_congr :
    (n : ℕ) (f g : ℕ → ℕ) → ((j : ℕ) → j < n → f j ≡ g j) → sum_below n f ≡ sum_below n g
sum_below_congr zero f g h = refl
sum_below_congr (suc n) f g h =
    omega (arith, sum_below_congr n f g (λ j p. h j (omega arith)), h n (omega arith))

pub sum_below_off : (n j c : ℕ) → n ≤ j → sum_below n (λ k. if k == j then c else 0) ≡ 0
sum_below_off zero j c h = refl
sum_below_off (suc n) j c h = ground (arith, sum_below_off n j c)

pub sum_below_at : (n j c : ℕ) → j < n → sum_below n (λ k. if k == j then c else 0) ≡ c
sum_below_at zero j c h = elim h [ ]
sum_below_at (suc n) j c h = ground (arith, sum_below_at n j c, sum_below_off n j c)

pub count_get_elem :
    (a : ℕ) (xs : List ℕ) → 0 < count a xs → (q : ℕ) × (q < length xs) × (get_elem? xs q ≡ some a)
count_get_elem a [] h = elim h [ ]
count_get_elem a (x ∷ xs) h = elim (Bool-cases (a == x)) [
  | inl here ↦ (0, omega arith, ground arith)
  | inr later ↦ let (q, lt, at) = count_get_elem a xs (ground arith) in (suc q, omega arith, at)
]

pub get_elem_count : (a : ℕ) (xs : List ℕ) (q : ℕ) → get_elem? xs q ≡ some a → 0 < count a xs
get_elem_count a [] q h = ground arith
get_elem_count a (x ∷ xs) zero h = ground arith
get_elem_count a (x ∷ xs) (suc q) h = omega (arith, get_elem_count a xs q h)

-- A list of numbers below `n` is as long as its counts say.
pub sum_below-count :
    (n : ℕ) (xs : List ℕ)
    → ((a : ℕ) → 0 < count a xs → a < n)
    → sum_below n (λ j. count j xs) ≡ length xs
sum_below-count n [] h = sum_below_zero n
sum_below-count n (x ∷ xs) h =
    sum_below-add n (λ j. indicator j x) (λ j. count j xs)
    ∙ omega (
      arith,
      sum_below_at n x 1 (h x (ground arith)),
      sum_below-count n xs (λ a p. h a (omega arith)),
    )

-- If no term passes 1 and the sum is the number of terms, each term is 1.
pub sum_below_full :
    (n : ℕ) (f : ℕ → ℕ) → ((j : ℕ) → f j ≤ 1) → n ≤ sum_below n f → (j : ℕ) → j < n → f j ≡ 1
sum_below_full zero f le full j h = elim h [ ]
sum_below_full (suc n) f le full j h = elim (Bool-cases (j == n)) [
  | inl last ↦ ground (arith, le n, le j, sum_below_le n f le)
  | inr before ↦ sum_below_full n f le (omega (arith, le n)) j (ground arith)
]

-- The first position of a number in a list, or the length if it is not there.
abbrev pub position : ℕ → List ℕ → ℕ
position a [] = 0
position a (x ∷ xs) = if a == x then 0 else suc (position a xs)

pub get_elem?-position :
    (a : ℕ) (xs : List ℕ) → 0 < count a xs → get_elem? xs (position a xs) ≡ some a
get_elem?-position a [] h = elim h [ ]
get_elem?-position a (x ∷ xs) h = elim (Bool-cases (a == x)) [
  | inl here ↦ rw here (ground arith)
  | inr later ↦ rw later (get_elem?-position a xs (ground arith))
]

pub position-le : (a : ℕ) (xs : List ℕ) (q : ℕ) → get_elem? xs q ≡ some a → position a xs ≤ q
position-le a [] q h = omega arith
position-le a (x ∷ xs) zero h = ground arith
position-le a (x ∷ xs) (suc q) h = ground (arith, position-le a xs q h)

pub All-count {κ} : (P : ℕ → Type κ) (xs : List ℕ) (a : ℕ) → All P xs → 0 < count a xs → P a
All-count P [] a h c = elim c [ ]
All-count P (x ∷ xs) a h c = elim (Bool-cases (a == x)) [
  | inl here ↦ subst P (ground arith) h.0
  | inr later ↦ All-count P xs a h.1 (ground arith)
]
