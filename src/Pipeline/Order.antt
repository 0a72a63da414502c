-- ===== src/Pipeline/Order.antt =====
-- `PipelineOrchestrator::resolve_order` of
-- crates/vectorless-compiler/src/pipeline/orchestrator.rs: a topological sort with priorities.
-- The maps and vectors over stage indices are functions on ℕ; the work list is a list.
mod Edges
mod Loop
mod Finish
pub mod Depends
pub mod Sound
pub mod Complete
pub mod Greedy
use vectorless.Base.{
  ℕ, zero, suc, ◌+◌, ◌-◌, ◌≡◌, Bool, true, false, ◌&&◌, ◌||◌, Option, none, some, String, List, [],
  ◌∷◌, ◌++◌, ltb, ltb_ℤ, eqb_ℤ, ℤ, pos, ◌==◌, str_eq, length, count, if◌then◌else◌,
}
pub use vectorless.Base.{Result, ok, err}
use vectorless.Pipeline.Stage.{PassEntry, Stages, stage_name}

pub data ConfigError : Type 0 where
  -- "Stage '{}' depends on non-existent stage '{}'"
  missing_dependency : String → String → ConfigError
  -- "Circular dependency detected involving stages: {:?}"
  circular_dependency : List String → ConfigError

abbrev pub update {ℓ} : {A : Type ℓ} → (ℕ → A) → ℕ → A → ℕ → A
update f k v i = if i == k then v else f i

-- The first dependency of an entry that names no stage.
unfoldable pub missing_dep : (String → Option ℕ) → List String → Option String
missing_dep names [] = none
missing_dep names (d ∷ deps) = elim (names d) [ some j ↦ missing_dep names deps | none ↦ some d ]

module _ {ℓ} {E : Type ℓ} where
  -- The map `name_to_idx`, collected from the stages in order: of two stages with one name the
  -- later index stays.
  unfoldable pub name_to_idx_from : ℕ → Stages E → String → Option ℕ
  name_to_idx_from i [] name = none
  name_to_idx_from i (e ∷ stages) name = elim (name_to_idx_from (suc i) stages name) [
    | some j ↦ some j
    | none ↦ if str_eq (stage_name e) name then some i else none
  ]

  unfoldable pub name_to_idx : Stages E → String → Option ℕ
  unfolding name_to_idx_from
  name_to_idx = name_to_idx_from 0

  -- The loop that validates the dependencies; `none` if it passes.
  unfoldable pub validate_deps : (String → Option ℕ) → Stages E → Option ConfigError
  unfolding missing_dep
  validate_deps names [] = none
  validate_deps names (e ∷ stages) = elim (missing_dep names e.depends_on) [
    | some d ↦ some (missing_dependency (stage_name e) d)
    | none ↦ validate_deps names stages
  ]

-- `adjacency` and `in_degree`.
pub record Graph : Type 0 where
  pub adjacency : ℕ → List ℕ
  pub in_degree : ℕ → ℕ

abbrev pub no_edges : Graph
no_edges = record { adjacency = λ j. []; in_degree = λ j. 0 }

unfoldable pub add_edge : ℕ → ℕ → Graph → Graph
add_edge j i g = record {
  adjacency = update g.adjacency j (g.adjacency j ++ i ∷ []);
  in_degree = update g.in_degree i (g.in_degree i + 1);
}

unfoldable pub add_deps : (String → Option ℕ) → ℕ → List String → Graph → Graph
unfolding add_edge
add_deps names i [] g = g
add_deps names i (d ∷ deps) g =
    add_deps names i deps (elim (names d) [ some j ↦ add_edge j i g | none ↦ g ])

module _ {ℓ} {E : Type ℓ} where
  unfoldable pub add_stages : (String → Option ℕ) → ℕ → Stages E → Graph → Graph
  unfolding add_deps
  add_stages names i [] g = g
  add_stages names i (e ∷ stages) g =
      add_stages names (suc i) stages (add_deps names i e.depends_on g)

  abbrev pub build_graph : Stages E → Graph
  build_graph stages = add_stages (name_to_idx stages) 0 stages no_edges

  -- `self.stages[i].depends_on`; the indices in use are in range.
  abbrev pub deps_at : Stages E → ℕ → List String
  deps_at [] i = []
  deps_at (e ∷ stages) zero = e.depends_on
  deps_at (e ∷ stages) (suc i) = deps_at stages i

  -- `self.stages[i].priority`; the indices in use are in range.
  unfoldable pub priority_at : Stages E → ℕ → ℤ
  priority_at [] i = pos 0
  priority_at (e ∷ stages) zero = e.priority
  priority_at (e ∷ stages) (suc i) = priority_at stages i

-- The order of the keys `(priority, index)`.
abbrev pub key_lt : (ℕ → ℤ) → ℕ → ℕ → Bool
key_lt prio a b = ltb_ℤ (prio a) (prio b) || (eqb_ℤ (prio a) (prio b) && ltb a b)

-- `ready.insert(pos, neighbor)` at the position that the binary search gives: before the first
-- index with a key that is not smaller.
unfoldable pub insert_ready : (ℕ → ℤ) → ℕ → List ℕ → List ℕ
insert_ready prio x [] = x ∷ []
insert_ready prio x (y ∷ ys) = if key_lt prio y x then y ∷ insert_ready prio x ys else x ∷ y ∷ ys

-- `(0..n).filter(|&i| in_degree[i] == 0)` and the sort by key.
unfoldable pub initial_ready : (ℕ → ℤ) → (ℕ → ℕ) → ℕ → List ℕ
unfolding insert_ready
initial_ready prio in_degree zero = []
initial_ready prio in_degree (suc n) =
    let rest = initial_ready prio in_degree n in
    if in_degree n == 0 then insert_ready prio n rest else rest

-- The loop over the neighbors of a stage that was taken.
unfoldable pub relax : (ℕ → ℤ) → List ℕ → (ℕ → ℕ) → List ℕ → (ℕ → ℕ) × List ℕ
unfolding insert_ready
relax prio [] in_degree ready = (in_degree, ready)
relax prio (m ∷ neighbors) in_degree ready =
    relax prio neighbors (update in_degree m (in_degree m - 1))
      (if in_degree m - 1 == 0 then insert_ready prio m ready else ready)

pub record Search : Type 0 where
  pub degrees : ℕ → ℕ
  pub ready : List ℕ
  pub result : List ℕ

-- The body of the `while let`, for the first ready index.
unfoldable pub take_stage : (ℕ → ℤ) → Graph → Search → ℕ → List ℕ → Search
unfolding relax
take_stage prio g s idx rest =
    let (degrees, ready) = relax prio (g.adjacency idx) s.degrees rest in
    record { degrees = degrees; ready = ready; result = s.result ++ idx ∷ [] }

-- The `while let` loop, on fuel.
unfoldable pub search_loop : (ℕ → ℤ) → Graph → ℕ → Search → Search
search_loop prio g zero s = s
search_loop prio g (suc fuel) s = elim s.ready [
  | [] ↦ s
  | idx ∷ rest ↦ search_loop prio g fuel (take_stage prio g s idx rest)
]

module _ {ℓ} {E : Type ℓ} where
  unfoldable pub start : Stages E → Search
  unfolding initial_ready
  start stages =
      let g = build_graph stages in
      record {
        degrees = g.in_degree;
        ready = initial_ready (priority_at stages) g.in_degree (length stages);
        result = [];
      }

  -- The vector `result` after the loop. Each stage is taken once at most, so as many rounds as
  -- there are stages are enough.
  unfoldable pub kahn : Stages E → Search
  unfolding start search_loop
  kahn stages = search_loop (priority_at stages) (build_graph stages) (length stages) (start stages)

  -- The names of the stages that were not taken.
  unfoldable pub remaining_from : ℕ → Stages E → List ℕ → List String
  remaining_from i [] result = []
  remaining_from i (e ∷ stages) result =
      let rest = remaining_from (suc i) stages result in
      if count i result == 0 then stage_name e ∷ rest else rest

  unfoldable pub resolve_order : Stages E → Result (List ℕ) ConfigError
  resolve_order stages = elim (validate_deps (name_to_idx stages) stages) [
    | some e ↦ err e
    | none ↦
        let order = (kahn stages).result in
        if length order == length stages
        then ok order
        else err (circular_dependency (remaining_from 0 stages order))
  ]
