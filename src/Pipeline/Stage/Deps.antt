-- ===== src/Pipeline/Stage/Deps.antt =====
-- The dependencies of a stage registered with explicit ones.
use vectorless.Base.{
  List, [], ◌∷◌, ◌++◌, String, Bool, true, false, ◌||◌, str_eq, any, ◌≡◌, refl, sym, ap, ◌∙◌, subst,
  if◌then◌else◌, if_true, if_false, Bool-cases, inl, inr, eq_iff,
}
use vectorless.Pipeline.Stage.{merge_deps}

-- Whether a name is listed.
abbrev pub lists : List String → String → Bool
lists names d = any (λ x. str_eq x d) names

lists-append : (xs ys : List String) (d : String) → lists (xs ++ ys) d ≡ (lists xs d || lists ys d)
lists-append [] ys d = refl
lists-append (x ∷ xs) ys d =
    ap (λ b. if str_eq x d then true else b) (lists-append xs ys d)
    ∙ go (str_eq x d) (lists xs d) (lists ys d)
  where
    go : (a b c : Bool) → (if a then true else b || c) ≡ ((if a then true else b) || c)
    go true b c = refl
    go false b c = refl

or_assoc : (a b c : Bool) → ((a || b) || c) ≡ (a || (b || c))
or_assoc true b c = refl
or_assoc false b c = refl

or_false : (b : Bool) → (b || false) ≡ b
or_false true = refl
or_false false = refl

-- A name that is listed already adds nothing.
absorb :
    (deps : List String) (x d : String)
    → lists deps x ≡ true
    → lists deps d ≡ (lists deps d || lists (x ∷ []) d)
absorb deps x d h = elim (Bool-cases (str_eq x d)) [
  | inl t ↦
      let here = subst (λ n. lists deps n ≡ true) ((eq_iff x d).0 t) h in
      here ∙ sym (ap (λ b. b || lists (x ∷ []) d) here)
  | inr f ↦
      sym (or_false (lists deps d)) ∙ ap (λ b. lists deps d || b) (sym (if_false true false f))
]

-- The dependencies of a stage registered with explicit ones are those that the stage declares and
-- the explicit ones, and no others.
pub merge_deps-lists :
    (deps explicit : List String) (d : String)
    → lists (merge_deps deps explicit) d ≡ (lists deps d || lists explicit d)
unfolding merge_deps
merge_deps-lists deps [] d = sym (or_false (lists deps d))
merge_deps-lists deps (x ∷ explicit) d =
    merge_deps-lists (if lists deps x then deps else deps ++ x ∷ []) explicit d
    ∙ ap (λ b. b || lists explicit d) one
    ∙ or_assoc (lists deps d) (lists (x ∷ []) d) (lists explicit d)
    ∙ ap (λ b. lists deps d || b) (sym (lists-append (x ∷ []) explicit d))
  where
    one :
        lists (if lists deps x then deps else deps ++ x ∷ []) d ≡ (lists deps d || lists (x ∷ []) d)
    one = elim (Bool-cases (lists deps x)) [
      | inl t ↦ ap (λ ds. lists ds d) (if_true deps (deps ++ x ∷ []) t) ∙ absorb deps x d t
      | inr f ↦
          ap (λ ds. lists ds d) (if_false deps (deps ++ x ∷ []) f) ∙ lists-append deps (x ∷ []) d
    ]
