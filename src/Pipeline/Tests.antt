-- ===== src/Pipeline/Tests.antt =====
-- Runs of the pipeline's definitions on the default pipelines, and the theorems at them.
use vectorless.Base.{
  ℕ, ◌<◌, ◌≡◌, refl, ◌∙◌, ap, String, List, [], ◌∷◌, some, none, true, false, get_elem?, length,
  arith, Bool, count, pos, ℤ, ◌↔◌, if◌then◌else◌, negsuc, some_eq, ltb,
}
use vectorless.Pipeline.Stage.{PassEntry, Stages, no_access}
use vectorless.Pipeline.Order.{
  ok, err, resolve_order, name_to_idx, kahn, search_loop, take_stage, relax, insert_ready,
  initial_ready, start, add_stages, add_deps, add_edge, validate_deps, missing_dep,
  name_to_idx_from, priority_at,
}
use vectorless.Pipeline.Order.{missing_dependency, key_lt}
use vectorless.Pipeline.Order.Depends.{DependsOn}
use vectorless.Pipeline.Order.Sound.{resolve_order-each_once, resolve_order-dependency_first}
use vectorless.Pipeline.Order.Greedy.{resolve_order-least_priority}
use vectorless.Pipeline.Order.Complete.{
  HasMissing, IsRanking, resolve_order-missing_iff, resolve_order-acyclic_iff,
}
use vectorless.Pipeline.Groups.{
  ExecutionGroup, all_indices, get_execution_groups, compute_execution_groups, collect_groups,
  max_level, push_groups, assign_levels, stage_level,
}
use vectorless.Pipeline.Groups.Sound.{
  get_execution_groups-each_once, get_execution_groups-dependency_earlier,
  get_execution_groups-earliest,
}
use vectorless.Pipeline.Policy.{fail}
use vectorless.Pipeline.Executor

abbrev stages : Stages String
stages = Executor.new (λ name. name)

abbrev order : List ℕ
order = 0 ∷ 1 ∷ 2 ∷ 3 ∷ 4 ∷ 5 ∷ 6 ∷ 7 ∷ 8 ∷ 9 ∷ 12 ∷ 10 ∷ 11 ∷ 13 ∷ []

program : Unit {0}
unfolding resolve_order kahn search_loop take_stage relax insert_ready initial_ready start
    add_stages add_deps add_edge validate_deps missing_dep name_to_idx name_to_idx_from priority_at
program = tt

stages-order : resolve_order stages ≡ ok order
unfolding program
stages-order = refl

-- The verify pass waits for the concept pass.
verify-concept : DependsOn stages 12 6
unfolding program
verify-concept = record {
  entry = record {
    stage = Executor.verify_pass (λ name. name);
    priority = pos 55;
    depends_on = "concept_extraction" ∷ [];
  };
  place = 0;
  dep = "concept_extraction";
  registered = refl;
  listed = refl;
  resolved = refl;
}

resolve_order-each_once_example : count 12 order ≡ 1
resolve_order-each_once_example = resolve_order-each_once stages order stages-order 12

resolve_order-dependency_first_example : (q : ℕ) × (q < 10) × (get_elem? order q ≡ some 6)
resolve_order-dependency_first_example =
    resolve_order-dependency_first stages order 12 6 10 stages-order verify-concept refl

-- Two stages with no dependencies: the later one has the lower priority number.
abbrev plain : String → ℤ → PassEntry String
plain name priority = record {
  stage = record {
    name = name;
    depends_on = [];
    failure_policy = fail;
    access_pattern = no_access;
    execute = name;
  };
  priority = priority;
  depends_on = [];
}

abbrev two : Stages String
two = plain "late" (pos 20) ∷ plain "early" (negsuc 0) ∷ []

two-order : resolve_order two ≡ ok (1 ∷ 0 ∷ [])
unfolding program
two-order = refl

free : (k : ℕ) → DependsOn two 0 k → 0 < count k []
free k d =
    let is : plain "late" (pos 20) ≡ d.entry = some_eq d.registered in
    let none_listed : none ≡ some d.dep =
      ap (λ (e : PassEntry String). get_elem? e.depends_on d.place) is ∙ d.listed in
    ground arith

resolve_order-least_priority_example : key_lt (priority_at two) 0 1 ≡ false
resolve_order-least_priority_example =
    resolve_order-least_priority two (1 ∷ 0 ∷ []) 0 1 0 two-order refl (omega arith) refl free

resolve_order-missing_iff_example :
    HasMissing two ↔ ((s d : String) × (resolve_order two ≡ err (missing_dependency s d)))
resolve_order-missing_iff_example = resolve_order-missing_iff two

none_missing : ¬ HasMissing two
none_missing m = let (s, d, e) = (resolve_order-missing_iff two).0 m in cc two-order

resolve_order-acyclic_iff_example :
    ((order : List ℕ) × (resolve_order two ≡ ok order)) ↔ ((rank : ℕ → ℕ) × IsRanking two rank)
resolve_order-acyclic_iff_example = resolve_order-acyclic_iff two none_missing

abbrev group : List ℕ → Bool → ExecutionGroup
group indices parallel = record { stage_indices = indices; parallel = parallel }

abbrev groups : List ExecutionGroup
groups =
    group (0 ∷ []) false
    ∷ group (1 ∷ []) false
    ∷ group (2 ∷ 3 ∷ 4 ∷ 10 ∷ []) true
    ∷ group (5 ∷ 7 ∷ 9 ∷ 11 ∷ []) true
    ∷ group (6 ∷ 8 ∷ 13 ∷ []) true
    ∷ group (12 ∷ []) false
    ∷ []

stages-groups : get_execution_groups stages ≡ ok groups
unfolding program get_execution_groups compute_execution_groups collect_groups max_level push_groups
    assign_levels stage_level
stages-groups = refl

get_execution_groups-each_once_example :
    ((i : ℕ) → count i (all_indices groups) ≡ (if ltb i (length stages) then 1 else 0))
    × ((p : ℕ) (g : ExecutionGroup)
        → get_elem? groups p ≡ some g
        → (0 < length g.stage_indices) × (g.parallel ≡ ltb 1 (length g.stage_indices)))
get_execution_groups-each_once_example = get_execution_groups-each_once stages groups stages-groups

get_execution_groups-dependency_earlier_example :
    (q : ℕ) × (f : ExecutionGroup) × (q < 5)
    × (get_elem? groups q ≡ some f)
    × (0 < count 6 f.stage_indices)
get_execution_groups-dependency_earlier_example =
    get_execution_groups-dependency_earlier stages groups 12 6 5 (group (12 ∷ []) false)
      stages-groups verify-concept refl (omega arith)

get_execution_groups-earliest_example :
    (j : ℕ) × (f : ExecutionGroup) × DependsOn stages 13 j
    × (get_elem? groups 3 ≡ some f)
    × (0 < count j f.stage_indices)
get_execution_groups-earliest_example =
    get_execution_groups-earliest stages groups 13 3 (group (6 ∷ 8 ∷ 13 ∷ []) true) stages-groups
      refl (omega arith)
