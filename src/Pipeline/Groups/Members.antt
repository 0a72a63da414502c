-- ===== src/Pipeline/Groups/Members.antt =====
-- What the groups of `compute_execution_groups` hold: group `l` has the stages of level `l`, in
-- the resolved order, and no level is empty.
use vectorless.Base.{
  ℕ, zero, suc, ◌+◌, ◌≤◌, ◌<◌, ◌≡◌, ◌≢◌, refl, sym, ◌∙◌, ap, true, false, ◌&&◌, Option, some, List,
  [], ◌∷◌, ◌++◌, ltb, leb, ◌==◌, length, get_elem?, count, count-append, append_assoc, append-nil,
  filter, if◌then◌else◌, arith, Bool-cases, inl, inr, ◌⊎◌,
}
use vectorless.Pipeline.Order.{update}
use vectorless.Pipeline.Groups.{
  ExecutionGroup, all_indices, level_at, push_groups, max_level, collect_groups,
}

-- The indices of one level, in order.
abbrev pub at_level : (ℕ → Option ℕ) → ℕ → List ℕ → List ℕ
at_level levels l = filter (λ idx. level_at levels idx == l)

abbrev pub group_of : List ℕ → ExecutionGroup
group_of indices = record { stage_indices = indices; parallel = ltb 1 (length indices) }

module _ (levels : ℕ → Option ℕ) where
  pub push_groups-at_level :
      (order : List ℕ) (groups : ℕ → List ℕ) (l : ℕ)
      → push_groups levels order groups l ≡ groups l ++ at_level levels l order
  unfolding push_groups
  push_groups-at_level [] groups l = sym (append-nil (groups l))
  push_groups-at_level (idx ∷ order) groups l =
      let k : ℕ = level_at levels idx in
      push_groups-at_level order (update groups k (groups k ++ idx ∷ [])) l
      ∙ pushed (Bool-cases (l == k)) (Bool-cases (k == l))
    where
      pushed :
          ((l == level_at levels idx) ≡ true) ⊎ ((l == level_at levels idx) ≡ false)
          → ((level_at levels idx == l) ≡ true) ⊎ ((level_at levels idx == l) ≡ false)
          → update groups (level_at levels idx) (groups (level_at levels idx) ++ idx ∷ []) l
              ++ at_level levels l order
            ≡ groups l ++ at_level levels l (idx ∷ order)
      pushed (inl a) (inl b) =
          let same : level_at levels idx ≡ l = ground arith in
          rw (a, b) (rw same (append_assoc (groups l) (idx ∷ []) (at_level levels l order)))
      pushed (inr a) (inr b) = rw (a, b) refl
      pushed (inl a) (inr b) = ground arith
      pushed (inr a) (inl b) = ground arith

  pub at_level-count :
      (order : List ℕ) (l i : ℕ)
      → count i (at_level levels l order) ≡ (if level_at levels i == l then count i order else 0)
  at_level-count [] l i = ground arith
  at_level-count (idx ∷ order) l i = elim (Bool-cases (i == idx)) [
    | inl here ↦
        let same : level_at levels i ≡ level_at levels idx = ap (level_at levels) (ground arith) in
        rw same (ground (arith, rw same at (at_level-count order l i)))
    | inr other ↦ ground (arith, at_level-count order l i)
  ]

  pub max_level-ge :
      (order : List ℕ) (i : ℕ) → 0 < count i order → level_at levels i ≤ max_level levels order
  unfolding max_level
  max_level-ge [] i c = elim c [ ]
  max_level-ge (idx ∷ order) i c = elim (Bool-cases (i == idx)) [
    | inl here ↦
        let same : level_at levels i ≡ level_at levels idx = ap (level_at levels) (ground arith) in
        omega arith
    | inr later ↦ omega (arith, max_level-ge order i (ground arith))
  ]

  pub max_level-attained :
      (idx : ℕ) (order : List ℕ)
      → (i : ℕ) × (0 < count i (idx ∷ order)) × (level_at levels i ≡ max_level levels (idx ∷ order))
  unfolding max_level
  max_level-attained idx [] = (idx, ground arith, omega arith)
  max_level-attained idx (idx' ∷ order) =
      let (i, c, is) = max_level-attained idx' order in
      elim (Bool-cases (ltb (level_at levels idx) (level_at levels i))) [
        | inl lower ↦ (i, omega arith, ground arith)
        | inr higher ↦ (idx, ground arith, ground arith)
      ]

-- Collecting non-empty levels leaves none out.
collect_groups-cons :
    (groups : ℕ → List ℕ) (l n : ℕ)
    → groups l ≢ []
    → collect_groups groups l (suc n) ≡ group_of (groups l) ∷ collect_groups groups (suc l) n
unfolding collect_groups
collect_groups-cons groups l n full = go (groups l) refl
  where
    go :
        (g : List ℕ)
        → groups l ≡ g
        → collect_groups groups l (suc n) ≡ group_of (groups l) ∷ collect_groups groups (suc l) n
    go [] e = absurd (full e)
    go (idx ∷ more) e = rw (e, collect_groups) refl

pub collect_groups-get :
    (groups : ℕ → List ℕ) (l n p : ℕ)
    → ((k : ℕ) → k < l + n → groups k ≢ [])
    → p < n
    → get_elem? (collect_groups groups l n) p ≡ some (group_of (groups (l + p)))
collect_groups-get groups l zero p full lt = elim lt [ ]
collect_groups-get groups l (suc n) zero full lt =
    rw (collect_groups-cons groups l n (full l (omega arith)))
      (ap (λ (k : ℕ). some (group_of (groups k))) (omega arith))
collect_groups-get groups l (suc n) (suc p) full lt =
    rw (collect_groups-cons groups l n (full l (omega arith))) (
      collect_groups-get groups (suc l) n p (λ k h. full k (omega arith)) (omega arith)
      ∙ ap (λ (k : ℕ). some (group_of (groups k))) (omega arith))

pub length-collect_groups :
    (groups : ℕ → List ℕ) (l n : ℕ)
    → ((k : ℕ) → k < l + n → groups k ≢ [])
    → length (collect_groups groups l n) ≡ n
unfolding collect_groups
length-collect_groups groups l zero full = refl
length-collect_groups groups l (suc n) full =
    ap length (collect_groups-cons groups l n (full l (omega arith)))
    ∙ ap suc (length-collect_groups groups (suc l) n (λ k h. full k (omega arith)))

pub collect_groups-count :
    (groups : ℕ → List ℕ) (l n i c k : ℕ)
    → ((m : ℕ) → count i (groups m) ≡ (if k == m then c else 0))
    → count i (all_indices (collect_groups groups l n))
      ≡ (if leb l k && ltb k (l + n) then c else 0)
unfolding collect_groups
collect_groups-count groups l zero i c k h = ground arith
collect_groups-count groups l (suc n) i c k h =
    go (groups l) refl (collect_groups-count groups (suc l) n i c k h)
  where
    go :
        (g : List ℕ)
        → groups l ≡ g
        → count i (all_indices (collect_groups groups (suc l) n))
          ≡ (if leb (suc l) k && ltb k (suc l + n) then c else 0)
        → count i (all_indices (collect_groups groups l (suc n)))
          ≡ (if leb l k && ltb k (l + suc n) then c else 0)
    go [] e ih = rw (e, collect_groups) (ground (arith, ih, h l, ap (count i) e))
    go (idx ∷ more) e ih =
        rw (e, collect_groups)
          (ground (
            arith,
            ih,
            h l,
            ap (count i) e,
            count-append i (idx ∷ more) (all_indices (collect_groups groups (suc l) n)),
          ))
