-- ===== src/Pipeline/Groups/Sound.antt =====
-- What the execution groups promise: they split the stages, a stage runs in a later group than its
-- dependencies, and in the earliest such group.
use vectorless.Base.{
  ℕ, zero, suc, ◌+◌, ◌≤◌, ◌<◌, ◌≡◌, ◌≢◌, refl, sym, ◌∙◌, ap, true, false, Option, some, List, [],
  ◌∷◌, ◌⊎◌, ◌-◌, some_eq, length_pos, ltb, ◌==◌, length, get_elem?, get_elem?_lt, get_elem_count,
  get_elem?-position, position, count, if◌then◌else◌, arith, Bool-cases, inl, inr, subst,
}
use vectorless.Pipeline.Stage.{Stages}
use vectorless.Pipeline.Order.{ok, resolve_order}
use vectorless.Pipeline.Order.Depends.{DependsOn}
use vectorless.Pipeline.Order.Sound.{resolve_order-each_once, resolve_order-dependency_first}
use vectorless.Pipeline.Groups.{
  ExecutionGroup, all_indices, level_at, levels_of, push_groups, max_level, collect_groups,
  compute_execution_groups, get_execution_groups,
}
use vectorless.Pipeline.Groups.Levels.{
  levels_of-some, levels_of-lt, levels_of-attained, levels_of_absent,
}
use vectorless.Pipeline.Groups.Members.{
  group_of, push_groups-at_level, at_level-count, max_level-ge, max_level-attained,
  collect_groups-get, length-collect_groups, collect_groups-count,
}

module _ {ℓ} {E : Type ℓ} (stages : Stages E) where
  module _ (idx : ℕ) (rest : List ℕ) (resolved : resolve_order stages ≡ ok (idx ∷ rest)) where
    abbrev levels : ℕ → Option ℕ
    levels = levels_of stages (idx ∷ rest)

    abbrev top : ℕ
    top = max_level levels (idx ∷ rest)

    abbrev pushed : ℕ → List ℕ
    pushed = push_groups levels (idx ∷ rest) (λ l. [])

    pushed-count :
        (l i : ℕ)
        → count i (pushed l) ≡ (if level_at levels i == l then count i (idx ∷ rest) else 0)
    pushed-count l i =
        ap (count i) (push_groups-at_level levels (idx ∷ rest) (λ k. []) l)
        ∙ at_level-count levels (idx ∷ rest) l i

    -- A level below a stage's level has a stage too.
    occupied_below :
        (gap l i : ℕ)
        → 0 < count i (idx ∷ rest)
        → level_at levels i ≡ l + gap
        → (j : ℕ) × (0 < count j (idx ∷ rest)) × (level_at levels j ≡ l)
    occupied_below zero l i c h = (i, c, omega arith)
    occupied_below (suc gap) l i c h =
        let (m, is) = levels_of-some stages (idx ∷ rest) resolved i c in
        let (j, d, lj) =
          levels_of-attained stages (idx ∷ rest) resolved i (l + gap) c
            (is ∙ ap some (ground arith)) in
        occupied_below gap l j (present j (Bool-cases (ltb 0 (count j (idx ∷ rest)))) lj)
          (ground arith)
      where
        present :
            (j : ℕ) {k : ℕ}
            → (ltb 0 (count j (idx ∷ rest)) ≡ true) ⊎ (ltb 0 (count j (idx ∷ rest)) ≡ false)
            → levels j ≡ some k
            → 0 < count j (idx ∷ rest)
        present j (inl here) e = ground arith
        present j (inr not_here) e =
            let gone = levels_of_absent stages (idx ∷ rest) resolved j (ground arith) in
            ground arith

    pushed_full : (l : ℕ) → l < 0 + suc top → pushed l ≢ []
    pushed_full l lt e =
        let (i, c, is) = max_level-attained levels idx rest in
        let (j, cj, lj) = occupied_below (top - l) l i c (omega arith) in
        ground (arith, pushed-count l j, ap (count j) e)

    group_at :
        (p : ℕ) (g : ExecutionGroup)
        → get_elem? (compute_execution_groups stages (idx ∷ rest)) p ≡ some g
        → (p ≤ top) × (g ≡ group_of (pushed p))
    unfolding compute_execution_groups
    group_at p g h =
        let lt : p < suc top = omega (
          arith,
          get_elem?_lt (collect_groups pushed 0 (suc top)) p h,
          length-collect_groups pushed 0 (suc top) pushed_full,
        ) in
        let there = collect_groups-get pushed 0 (suc top) p pushed_full lt in
        (omega arith, some_eq (sym h ∙ there) ∙ ap (λ (k : ℕ). group_of (pushed k)) (omega arith))

    -- The members of a group are the stages of its level.
    member_level :
        (p i : ℕ) (g : ExecutionGroup)
        → get_elem? (compute_execution_groups stages (idx ∷ rest)) p ≡ some g
        → 0 < count i g.stage_indices
        → (p ≤ top) × (0 < count i (idx ∷ rest)) × (levels i ≡ some p)
    member_level p i g h c =
        let (le, is) = group_at p g h in
        let counts = pushed-count p i in
        let here = ap (λ (x : ExecutionGroup). count i x.stage_indices) is in
        let (l, li) = levels_of-some stages (idx ∷ rest) resolved i (ground arith) in
        (le, ground arith, li ∙ ap some (ground arith))

    level_member :
        (p i : ℕ)
        → levels i ≡ some p
        → 0 < count i (idx ∷ rest)
        → (g : ExecutionGroup) × (get_elem? (compute_execution_groups stages (idx ∷ rest)) p
            ≡ some g)
          × (0 < count i g.stage_indices)
    unfolding compute_execution_groups
    level_member p i li c =
        let le = max_level-ge levels (idx ∷ rest) i c in
        (
          group_of (pushed p),
          collect_groups-get pushed 0 (suc top) p pushed_full (ground arith)
              ∙ ap (λ (k : ℕ). some (group_of (pushed k))) (omega arith),
          ground (arith, pushed-count p i),
        )

    dependency_in_order :
        (i j : ℕ) → DependsOn stages i j → 0 < count i (idx ∷ rest) → 0 < count j (idx ∷ rest)
    dependency_in_order i j d c =
        let (q, _, at) =
          resolve_order-dependency_first stages (idx ∷ rest) i j (position i (idx ∷ rest)) resolved
            d (get_elem?-position i (idx ∷ rest) c) in
        get_elem_count j (idx ∷ rest) q at

  get_execution_groups-order :
      (groups : List ExecutionGroup)
      → get_execution_groups stages ≡ ok groups
      → (order : List ℕ) × (resolve_order stages ≡ ok order)
        × (compute_execution_groups stages order ≡ groups)
  unfolding get_execution_groups
  get_execution_groups-order groups h = ground arith

  compute_nil :
      (p : ℕ) {g : ExecutionGroup} → get_elem? (compute_execution_groups stages []) p ≢ some g
  unfolding compute_execution_groups
  compute_nil p h = ground arith

  -- The execution groups hold every registered stage once, and no group is empty; a group is
  -- marked parallel exactly if it has two stages or more.
  pub get_execution_groups-each_once :
      (groups : List ExecutionGroup)
      → get_execution_groups stages ≡ ok groups
      → ((i : ℕ) → count i (all_indices groups) ≡ (if ltb i (length stages) then 1 else 0))
        × ((p : ℕ) (g : ExecutionGroup)
            → get_elem? groups p ≡ some g
            → (0 < length g.stage_indices) × (g.parallel ≡ ltb 1 (length g.stage_indices)))
  unfolding compute_execution_groups
  get_execution_groups-each_once groups h =
      let (order, resolved, is) = get_execution_groups-order groups h in
      (
        (λ i.
            ap (λ (l : List ExecutionGroup). count i (all_indices l)) (sym is)
            ∙ counts i order resolved),
        (λ p g at.
            occupied p g order resolved (ap (λ (l : List ExecutionGroup). get_elem? l p) is ∙ at)),
      )
    where
      counts :
          (i : ℕ) (order : List ℕ)
          → resolve_order stages ≡ ok order
          → count i (all_indices (compute_execution_groups stages order))
            ≡ (if ltb i (length stages) then 1 else 0)
      counts i [] resolved = resolve_order-each_once stages [] resolved i
      counts i (idx ∷ rest) resolved = ground (
        arith,
        collect_groups-count (pushed idx rest resolved) 0 (suc (top idx rest resolved)) i
            (count i (idx ∷ rest)) (level_at (levels idx rest resolved) i)
            (λ m. pushed-count idx rest resolved m i),
        max_level-ge (levels idx rest resolved) (idx ∷ rest) i,
        resolve_order-each_once stages (idx ∷ rest) resolved i,
      )

      occupied :
          (p : ℕ) (g : ExecutionGroup) (order : List ℕ)
          → resolve_order stages ≡ ok order
          → get_elem? (compute_execution_groups stages order) p ≡ some g
          → (0 < length g.stage_indices) × (g.parallel ≡ ltb 1 (length g.stage_indices))
      occupied p g [] resolved at = absurd (compute_nil p at)
      occupied p g (idx ∷ rest) resolved at =
          let (le, is) = group_at idx rest resolved p g at in
          let full = pushed_full idx rest resolved p (omega arith) in
          rw is (length_pos (pushed idx rest resolved p) full, refl)

  -- A stage that depends on another stands in a later group.
  pub get_execution_groups-dependency_earlier :
      (groups : List ExecutionGroup) (i j p : ℕ) (g : ExecutionGroup)
      → get_execution_groups stages ≡ ok groups
      → DependsOn stages i j
      → get_elem? groups p ≡ some g
      → 0 < count i g.stage_indices
      → (q : ℕ) × (f : ExecutionGroup) × (q < p)
        × (get_elem? groups q ≡ some f)
        × (0 < count j f.stage_indices)
  get_execution_groups-dependency_earlier groups i j p g h d at c =
      let (order, resolved, is) = get_execution_groups-order groups h in
      subst (Earlier p) is
        (earlier order resolved (ap (λ (l : List ExecutionGroup). get_elem? l p) is ∙ at))
    where
      Earlier : ℕ → List ExecutionGroup → Type 0
      Earlier m l =
          (q : ℕ) × (f : ExecutionGroup) × (q < m)
          × (get_elem? l q ≡ some f)
          × (0 < count j f.stage_indices)

      earlier :
          (order : List ℕ)
          → resolve_order stages ≡ ok order
          → get_elem? (compute_execution_groups stages order) p ≡ some g
          → Earlier p (compute_execution_groups stages order)
      earlier [] resolved there = absurd (compute_nil p there)
      earlier (idx ∷ rest) resolved there =
          let (_, ci, li) = member_level idx rest resolved p i g there c in
          let cj = dependency_in_order idx rest resolved i j d ci in
          let (k, lj) = levels_of-some stages (idx ∷ rest) resolved j cj in
          let (f, found, member) = level_member idx rest resolved k j lj cj in
          (k, f, levels_of-lt stages (idx ∷ rest) resolved i j p k d ci li lj, found, member)

  -- No stage could stand in an earlier group: each stage of a group but the first depends on one
  -- of the group just before.
  pub get_execution_groups-earliest :
      (groups : List ExecutionGroup) (i p : ℕ) (g : ExecutionGroup)
      → get_execution_groups stages ≡ ok groups
      → get_elem? groups (suc p) ≡ some g
      → 0 < count i g.stage_indices
      → (j : ℕ) × (f : ExecutionGroup) × DependsOn stages i j
        × (get_elem? groups p ≡ some f)
        × (0 < count j f.stage_indices)
  get_execution_groups-earliest groups i p g h at c =
      let (order, resolved, is) = get_execution_groups-order groups h in
      subst (Just p) is
        (just order resolved (ap (λ (l : List ExecutionGroup). get_elem? l (suc p)) is ∙ at))
    where
      Just : ℕ → List ExecutionGroup → Type ℓ
      Just m l =
          (j : ℕ) × (f : ExecutionGroup) × DependsOn stages i j
          × (get_elem? l m ≡ some f)
          × (0 < count j f.stage_indices)

      just :
          (order : List ℕ)
          → resolve_order stages ≡ ok order
          → get_elem? (compute_execution_groups stages order) (suc p) ≡ some g
          → Just p (compute_execution_groups stages order)
      just [] resolved there = absurd (compute_nil (suc p) there)
      just (idx ∷ rest) resolved there =
          let (_, ci, li) = member_level idx rest resolved (suc p) i g there c in
          let (j, d, lj) = levels_of-attained stages (idx ∷ rest) resolved i p ci li in
          let (f, found, member) =
            level_member idx rest resolved p j lj
              (dependency_in_order idx rest resolved i j d ci) in
          (j, f, d, found, member)
