-- ===== src/Pipeline/Groups/Levels.antt =====
-- The levels that `compute_execution_groups` assigns along an order of `resolve_order`: a stage
-- stands one level above the highest of its dependencies.
use mathlib.Core.Path.{ap₂}
use vectorless.Base.{
  ℕ, zero, suc, ◌+◌, ◌≤◌, ◌<◌, ◌≡◌, refl, sym, ◌∙◌, ap, Option, none, some, String, List, [], ◌∷◌,
  ◌++◌, ltb, ◌==◌, length, get_elem?, count, count-append, arith, Bool-cases, inl, inr,
  append_assoc, subst, max, ◌⊎◌, get_elem?-append_end, get_elem?-append_left, get_elem_count,
}
use vectorless.Pipeline.Stage.{Stages}
use vectorless.Pipeline.Order.{ok, update, name_to_idx, deps_at, resolve_order}
use vectorless.Pipeline.Order.Depends.{DependsOn, deps_at-DependsOn, deps_at_get}
use vectorless.Pipeline.Order.Sound.{resolve_order-each_once, resolve_order-dependency_first}
use vectorless.Pipeline.Groups.{
  above, max_level_of, level_of_found, max_dep_level, stage_level, assign_levels, levels_of,
}

-- Each index stands once in the list, and none of its dependencies at or behind it.
abbrev pub IsScheduled {ℓ} : {E : Type ℓ} → Stages E → List ℕ → Type ℓ
IsScheduled stages [] = Unit
IsScheduled stages (idx ∷ rest) =
    (count idx rest ≡ 0)
    × ((j : ℕ) → DependsOn stages idx j → count j (idx ∷ rest) ≡ 0)
    × IsScheduled stages rest

module _ {ℓ} {E : Type ℓ} (stages : Stages E) where
  IsScheduled-suffix :
      (order before rest : List ℕ)
      → resolve_order stages ≡ ok order
      → order ≡ before ++ rest
      → IsScheduled stages rest
  IsScheduled-suffix order before [] h e = tt
  IsScheduled-suffix order before (idx ∷ rest) h e =
      let split : (m : ℕ) → count m order ≡ count m before + count m (idx ∷ rest) =
        λ m. ap (count m) e ∙ count-append m before (idx ∷ rest) in
      let here : get_elem? order (length before) ≡ some idx =
        ap (λ (l : List ℕ). get_elem? l (length before)) e ∙ get_elem?-append_end before idx rest in
      (
        ground (arith, split idx, resolve_order-each_once stages order h idx),
        (λ j d.
            let (q, lt, at) =
              resolve_order-dependency_first stages order idx j (length before) h d here in
            let at_before : get_elem? before q ≡ some j =
              sym (get_elem?-append_left before (idx ∷ rest) q lt)
              ∙ ap (λ (l : List ℕ). get_elem? l q) (sym e)
              ∙ at in
            ground (
              arith,
              get_elem_count j before q at_before,
              split j,
              resolve_order-each_once stages order h j,
            )),
        IsScheduled-suffix order (before ++ idx ∷ []) rest h
            (e ∙ sym (append_assoc before (idx ∷ []) rest)),
      )

  pub resolve_order-IsScheduled :
      (order : List ℕ) → resolve_order stages ≡ ok order → IsScheduled stages order
  resolve_order-IsScheduled order h = IsScheduled-suffix order [] order h refl

  assign_levels_absent :
      (order : List ℕ) (levels : ℕ → Option ℕ) (k : ℕ)
      → count k order ≡ 0
      → assign_levels stages order levels k ≡ levels k
  unfolding assign_levels
  assign_levels_absent [] levels k absent = refl
  assign_levels_absent (idx ∷ order) levels k absent =
      assign_levels_absent order
        (update levels idx (some (stage_level (name_to_idx stages) levels (deps_at stages idx)))) k
        (omega arith)
      ∙ ground arith

-- The largest level reads the levels of the resolved dependencies only.
max_dep_level_congr :
    (names : String → Option ℕ) (levels levels' : ℕ → Option ℕ) (deps : List String)
    → ((place : ℕ) (d : String) (j : ℕ)
        → get_elem? deps place ≡ some d
        → names d ≡ some j
        → levels j ≡ levels' j)
    → max_dep_level names levels deps ≡ max_dep_level names levels' deps
unfolding max_dep_level
max_dep_level_congr names levels levels' [] same = refl
max_dep_level_congr names levels levels' (d ∷ deps) same =
    ap₂ max_level_of (head (names d) refl)
      (max_dep_level_congr names levels levels' deps (λ place. same (suc place)))
  where
    head : (o : Option ℕ) → names d ≡ o → level_of_found levels o ≡ level_of_found levels' o
    head none e = refl
    head (some j) e = same 0 d j refl e

stage_level_congr :
    (names : String → Option ℕ) (levels levels' : ℕ → Option ℕ) (deps : List String)
    → ((place : ℕ) (d : String) (j : ℕ)
        → get_elem? deps place ≡ some d
        → names d ≡ some j
        → levels j ≡ levels' j)
    → stage_level names levels deps ≡ stage_level names levels' deps
unfolding stage_level
stage_level_congr names levels levels' [] same = refl
stage_level_congr names levels levels' (d ∷ deps) same =
    ap above (max_dep_level_congr names levels levels' (d ∷ deps) same)

module _ {ℓ} {E : Type ℓ} (stages : Stages E) where
  abbrev level_in : (ℕ → Option ℕ) → ℕ → ℕ
  level_in levels i = stage_level (name_to_idx stages) levels (deps_at stages i)

  head_level :
      (idx : ℕ) (order : List ℕ) (levels : ℕ → Option ℕ)
      → IsScheduled stages (idx ∷ order)
      → assign_levels stages (idx ∷ order) levels idx
        ≡ some (level_in (assign_levels stages (idx ∷ order) levels) idx)
  unfolding assign_levels
  head_level idx order levels s =
      assign_levels_absent stages order (update levels idx (some (level_in levels idx))) idx s.0
      ∙ ground arith
      ∙ ap some (
          stage_level_congr (name_to_idx stages) levels _ (deps_at stages idx) (λ place d j at e.
            let absent = s.1 j (deps_at-DependsOn stages idx place d j at e) in
            sym (
              assign_levels_absent stages order (update levels idx (some (level_in levels idx))) j
                (omega arith)
              ∙ ground arith)))

  -- Along a scheduled list the level of each stage is the one its dependencies end with.
  assign_levels_level :
      (order : List ℕ) (levels : ℕ → Option ℕ) (i : ℕ)
      → IsScheduled stages order
      → 0 < count i order
      → assign_levels stages order levels i ≡ some (level_in (assign_levels stages order levels) i)
  unfolding assign_levels
  assign_levels_level [] levels i s c = elim c [ ]
  assign_levels_level (idx ∷ order) levels i s c = elim (Bool-cases (i == idx)) [
    | inl here ↦
        subst
          (λ (k : ℕ).
            assign_levels stages (idx ∷ order) levels k
            ≡ some (level_in (assign_levels stages (idx ∷ order) levels) k))
          (ground arith) (head_level idx order levels s)
    | inr later ↦
        assign_levels_level order (update levels idx (some (level_in levels idx))) i s.2
          (ground arith)
  ]

-- The largest of some levels is at least each of them, and one of them.
max_dep_level_ge :
    (names : String → Option ℕ) (levels : ℕ → Option ℕ) (deps : List String) (place : ℕ)
    (d : String) (j l : ℕ)
    → get_elem? deps place ≡ some d
    → names d ≡ some j
    → levels j ≡ some l
    → (m : ℕ) × (max_dep_level names levels deps ≡ some m) × (l ≤ m)
unfolding max_dep_level
max_dep_level_ge names levels [] place d j l at e h = ground arith
max_dep_level_ge names levels (x ∷ deps) zero d j l at e h =
    let found : level_of_found levels (names x) ≡ some l =
      ap (λ (y : String). level_of_found levels (names y)) (ground arith)
      ∙ ap (level_of_found levels) e
      ∙ h in
    rw found (with_rest (max_dep_level names levels deps))
  where
    with_rest : (o : Option ℕ) → (m : ℕ) × (max_level_of (some l) o ≡ some m) × (l ≤ m)
    with_rest none = (l, refl, omega arith)
    with_rest (some b) = (max l b, refl, omega arith)
max_dep_level_ge names levels (x ∷ deps) (suc place) d j l at e h =
    let (m, is, le) = max_dep_level_ge names levels deps place d j l at e h in
    rw is (with_head (level_of_found levels (names x)) m le)
  where
    with_head :
        (o : Option ℕ) (m : ℕ) → l ≤ m → (m' : ℕ) × (max_level_of o (some m) ≡ some m') × (l ≤ m')
    with_head none m le = (m, refl, le)
    with_head (some a) m le = (max a m, refl, omega arith)

max_level_of_inv :
    (o p : Option ℕ) (m : ℕ) → max_level_of o p ≡ some m → (o ≡ some m) ⊎ (p ≡ some m)
max_level_of_inv none p m h = inr h
max_level_of_inv (some a) none m h = inl h
max_level_of_inv (some a) (some b) m h = elim (Bool-cases (ltb a b)) [
  | inl less ↦ let e : max a b ≡ m = ground arith in inr (ap some (ground arith))
  | inr more ↦ let e : max a b ≡ m = ground arith in inl (ap some (ground arith))
]

level_of_found_inv :
    (levels : ℕ → Option ℕ) (o : Option ℕ) (m : ℕ)
    → level_of_found levels o ≡ some m
    → (j : ℕ) × (o ≡ some j) × (levels j ≡ some m)
level_of_found_inv levels none m h = ground arith
level_of_found_inv levels (some j) m h = (j, refl, h)

stage_level-ge :
    (names : String → Option ℕ) (levels : ℕ → Option ℕ) (deps : List String) (m : ℕ)
    → max_dep_level names levels deps ≡ some m
    → stage_level names levels deps ≡ m + 1
unfolding stage_level max_dep_level
stage_level-ge names levels [] m h = ground arith
stage_level-ge names levels (d ∷ deps) m h = ap above h

stage_level-suc :
    (names : String → Option ℕ) (levels : ℕ → Option ℕ) (deps : List String) (l : ℕ)
    → stage_level names levels deps ≡ suc l
    → max_dep_level names levels deps ≡ some l
unfolding stage_level
stage_level-suc names levels [] l h = ground arith
stage_level-suc names levels (d ∷ deps) l h = ground arith

max_dep_level_attained :
    (names : String → Option ℕ) (levels : ℕ → Option ℕ) (deps : List String) (m : ℕ)
    → max_dep_level names levels deps ≡ some m
    → (place : ℕ) × (d : String) × (j : ℕ) × (get_elem? deps place ≡ some d)
      × (names d ≡ some j)
      × (levels j ≡ some m)
unfolding max_dep_level
max_dep_level_attained names levels [] m h = ground arith
max_dep_level_attained names levels (x ∷ deps) m h = elim (max_level_of_inv _ _ m h) [
  | inl head ↦ let (j, e, at) = level_of_found_inv levels (names x) m head in (0, x, j, refl, e, at)
  | inr tail ↦
      let (place, d, j, at, e, l) = max_dep_level_attained names levels deps m tail in
      (suc place, d, j, at, e, l)
]

-- A stage stands above each dependency that has a level, and just above one of them.
module _ {ℓ} {E : Type ℓ} (stages : Stages E) (order : List ℕ)
    (resolved : resolve_order stages ≡ ok order) where
  abbrev levels : ℕ → Option ℕ
  levels = levels_of stages order

  pub levels_of-some : (i : ℕ) → 0 < count i order → (l : ℕ) × (levels i ≡ some l)
  levels_of-some i c = (
    _,
    assign_levels_level stages order (λ k. none) i (resolve_order-IsScheduled stages order resolved)
        c,
  )

  pub levels_of_absent : (i : ℕ) → count i order ≡ 0 → levels i ≡ none
  levels_of_absent i c = assign_levels_absent stages order (λ k. none) i c

  pub levels_of-lt :
      (i j l k : ℕ)
      → DependsOn stages i j
      → 0 < count i order
      → levels i ≡ some l
      → levels j ≡ some k
      → k < l
  levels_of-lt i j l k d c li lj =
      let (m, is, le) =
        max_dep_level_ge (name_to_idx stages) levels (deps_at stages i) d.place d.dep j k
          (ap (λ (x : List String). get_elem? x d.place) (deps_at_get stages i d.entry d.registered)
            ∙ d.listed)
          d.resolved lj in
      let own =
        assign_levels_level stages order (λ k. none) i
          (resolve_order-IsScheduled stages order resolved) c in
      let high = stage_level-ge (name_to_idx stages) levels (deps_at stages i) m is in ground arith

  pub levels_of-attained :
      (i l : ℕ)
      → 0 < count i order
      → levels i ≡ some (suc l)
      → (j : ℕ) × DependsOn stages i j × (levels j ≡ some l)
  levels_of-attained i l c li =
      let own =
        assign_levels_level stages order (λ k. none) i
          (resolve_order-IsScheduled stages order resolved) c in
      let (place, d, j, at, e, lj) =
        max_dep_level_attained (name_to_idx stages) levels (deps_at stages i) l
          (stage_level-suc (name_to_idx stages) levels (deps_at stages i) l (ground arith)) in
      (j, deps_at-DependsOn stages i place d j at e, lj)
