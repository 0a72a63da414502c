-- ===== src/Pipeline/Groups.antt =====
-- `PipelineOrchestrator::compute_execution_groups` and `get_execution_groups` of
-- crates/vectorless-compiler/src/pipeline/orchestrator.rs: stages of one dependency level, which
-- may run in parallel. The maps over stage indices and levels are functions.
mod Levels
mod Members
pub mod Sound
use vectorless.Base.{
  ℕ, zero, suc, ◌+◌, Bool, Option, none, some, String, List, [], ◌∷◌, ◌++◌, ltb, ◌==◌, max, length,
  if◌then◌else◌,
}
use vectorless.Pipeline.Stage.{Stages}
use vectorless.Pipeline.Order.{
  ConfigError, Result, ok, err, update, name_to_idx, deps_at, resolve_order,
}

pub record ExecutionGroup : Type 0 where
  pub stage_indices : List ℕ
  pub parallel : Bool

-- All indices of the groups, one group after another.
abbrev pub all_indices : List ExecutionGroup → List ℕ
all_indices [] = []
all_indices (g ∷ groups) = g.stage_indices ++ all_indices groups

-- The larger of two levels, where there are two: `Iterator::max`.
abbrev pub max_level_of : Option ℕ → Option ℕ → Option ℕ
max_level_of none o = o
max_level_of (some a) none = some a
max_level_of (some a) (some b) = some (max a b)

abbrev pub level_of_found : (ℕ → Option ℕ) → Option ℕ → Option ℕ
level_of_found levels none = none
level_of_found levels (some j) = levels j

-- The largest level of the dependencies that have one.
unfoldable pub max_dep_level : (String → Option ℕ) → (ℕ → Option ℕ) → List String → Option ℕ
max_dep_level names levels [] = none
max_dep_level names levels (d ∷ deps) =
    max_level_of (level_of_found levels (names d)) (max_dep_level names levels deps)

abbrev pub above : Option ℕ → ℕ
above none = 0
above (some l) = l + 1

unfoldable pub stage_level : (String → Option ℕ) → (ℕ → Option ℕ) → List String → ℕ
unfolding max_dep_level
stage_level names levels [] = 0
stage_level names levels (d ∷ deps) = above (max_dep_level names levels (d ∷ deps))

module _ {ℓ} {E : Type ℓ} where
  -- The loop that fills `levels`, in the resolved order.
  unfoldable pub assign_levels : Stages E → List ℕ → (ℕ → Option ℕ) → ℕ → Option ℕ
  unfolding stage_level
  assign_levels stages [] levels = levels
  assign_levels stages (idx ∷ order) levels =
      assign_levels stages order
        (update levels idx (some (stage_level (name_to_idx stages) levels (deps_at stages idx))))

-- `levels[&idx]`; every index of the order has a level.
abbrev pub level_at : (ℕ → Option ℕ) → ℕ → ℕ
level_at levels idx = elim (levels idx) [ none ↦ 0 | some l ↦ l ]

-- The loop that fills `level_groups`; an empty list stands for no entry.
unfoldable pub push_groups : (ℕ → Option ℕ) → List ℕ → (ℕ → List ℕ) → ℕ → List ℕ
push_groups levels [] groups = groups
push_groups levels (idx ∷ order) groups =
    let l = level_at levels idx in push_groups levels order (update groups l (groups l ++ idx ∷ []))

-- `levels.values().max()`; the keys of `levels` are the indices of the order.
unfoldable pub max_level : (ℕ → Option ℕ) → List ℕ → ℕ
max_level levels [] = 0
max_level levels (idx ∷ order) = max (level_at levels idx) (max_level levels order)

-- `filter_map` over the `n` levels from `l` on.
unfoldable pub collect_groups : (ℕ → List ℕ) → ℕ → ℕ → List ExecutionGroup
collect_groups groups l zero = []
collect_groups groups l (suc n) =
    let rest = collect_groups groups (suc l) n in
    elim (groups l) [
      | [] ↦ rest
      | idx ∷ more ↦
          record { stage_indices = idx ∷ more; parallel = ltb 1 (length (idx ∷ more)) } ∷ rest
    ]

module _ {ℓ} {E : Type ℓ} where
  abbrev pub levels_of : Stages E → List ℕ → ℕ → Option ℕ
  levels_of stages order = assign_levels stages order (λ i. none)

  unfoldable pub compute_execution_groups : Stages E → List ℕ → List ExecutionGroup
  compute_execution_groups stages [] = []
  compute_execution_groups stages (idx ∷ order) =
      let levels = levels_of stages (idx ∷ order) in
      collect_groups (push_groups levels (idx ∷ order) (λ l. [])) 0
        (suc (max_level levels (idx ∷ order)))

  unfoldable pub get_execution_groups : Stages E → Result (List ExecutionGroup) ConfigError
  get_execution_groups stages = elim (resolve_order stages) [
    | ok order ↦ ok (compute_execution_groups stages order)
    | err e ↦ err e
  ]
