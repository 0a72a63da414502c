-- ===== src/Storage/Migration.antt =====
-- Migration of stored data between format versions: crates/vectorless-storage/src/migration.rs.
--
-- The registered migrations are a list with one entry for a pair of versions; a hash map iterates
-- over them in some order, so what is said holds for every order of the list. Bytes are a type
-- `Bytes`, errors are texts. The search runs on fuel, one round for each migration and one for the
-- first version; walking back over parents has one step for each visited version.
pub mod Routes
pub mod Scanning
pub mod Find
pub mod Apply
use vectorless.Base.{
  ℕ, zero, suc, ◌+◌, ◌<◌, Bool, true, false, not, ◌&&◌, ◌||◌, String, List, [], ◌∷◌, ◌++◌, Option,
  none, some, Result, ok, err, ◌==◌, ltb, length, any, filter, if◌then◌else◌, map, str_eq,
}

-- `MigrationContext`
pub record MigrationContext : Type 0 where
  pub from_version : ℕ
  pub to_version : ℕ
  pub metadata : List (String × String)

-- `MigrationContext::new`
abbrev pub context_for : ℕ → ℕ → MigrationContext
context_for from to = record { from_version = from; to_version = to; metadata = [] }

-- `MigrationContext::with_metadata`
unfoldable pub with_metadata : MigrationContext → String → String → MigrationContext
with_metadata ctx key value = record ctx {
  metadata = filter (λ (k, v). not (str_eq k key)) ctx.metadata ++ (key, value) ∷ [];
}

-- The trait `Migration`, less `can_migrate`, which nothing calls.
pub record Migration (Bytes : Type 0) : Type 0 where
  pub from_version : ℕ
  pub to_version : ℕ
  pub description : String
  pub migrate : Bytes → MigrationContext → Result Bytes String

-- Whether a version is in a set or a queue.
abbrev pub contains : List ℕ → ℕ → Bool
contains xs v = any (λ x. x == v) xs

-- The variables of the search: visited, queue, parent.
pub record Search : Type 0 where
  pub visited : List ℕ
  pub queue : List ℕ
  pub parent : ℕ → Option ℕ

-- The target was reached, or the search goes on.
pub data Scan : Type 0 where
  found : Search → Scan
  more : Search → Scan

abbrev pub visit : Search → ℕ → ℕ → Search
visit s current to = record {
  visited = to ∷ s.visited;
  queue = s.queue ++ to ∷ [];
  parent = λ v. if v == to then some current else s.parent v;
}

-- The path is built from its end: `path.push` and the final `path.reverse`.
abbrev pub walk_to : ℕ → List ℕ → (ℕ → List ℕ → List ℕ) → Option ℕ → List ℕ
walk_to from path next none = path
walk_to from path next (some p) = if p == from then p ∷ path else next p (p ∷ path)

unfoldable pub walk_back : ℕ → (ℕ → Option ℕ) → ℕ → ℕ → List ℕ → List ℕ
walk_back zero parent from v path = path
walk_back (suc fuel) parent from v path = walk_to from path (walk_back fuel parent from) (parent v)

abbrev pub path_of : ℕ → ℕ → Search → List ℕ
path_of from target s = walk_back (length s.visited) s.parent from target (target ∷ [])

abbrev pub start_search : ℕ → Search
start_search from = record { visited = from ∷ []; queue = from ∷ []; parent = λ v. none }

abbrev pub is_some {ℓ} : {A : Type ℓ} → Option A → Bool
is_some none = false
is_some (some a) = true

-- The errors of `migrate`.
pub data MigrateError : Type 0 where
  no_path : ℕ → ℕ → MigrateError
  missing_migration : ℕ → ℕ → MigrateError
  failed : String → MigrateError

module _ {Bytes : Type 0} where
  abbrev pub has_key : ℕ → ℕ → Migration Bytes → Bool
  has_key from to m = (m.from_version == from) && (m.to_version == to)

  -- `migrations.contains_key(&(from, to))`
  unfoldable pub has_migration : List (Migration Bytes) → ℕ → ℕ → Bool
  has_migration ms from to = any (has_key from to) ms

  -- `migrations.get(&(from, to))`
  unfoldable pub get_migration : List (Migration Bytes) → ℕ → ℕ → Option (Migration Bytes)
  get_migration [] from to = none
  get_migration (m ∷ ms) from to =
      let rest = get_migration ms from to in if has_key from to m then some m else rest

  -- `Migrator::register`
  unfoldable pub register : List (Migration Bytes) → Migration Bytes → List (Migration Bytes)
  register ms m = filter (λ x. not (has_key m.from_version m.to_version x)) ms ++ m ∷ []

  -- The body of the loop over all migrations.
  unfoldable pub scan_one : ℕ → ℕ → Migration Bytes → Search → Scan
  scan_one target current m s =
      if (m.from_version == current) && not (contains s.visited m.to_version)
      then if m.to_version == target
        then found (visit s current m.to_version)
        else more (visit s current m.to_version)
      else more s

  unfoldable pub scan : ℕ → ℕ → List (Migration Bytes) → Search → Scan
  unfolding scan_one
  scan target current [] s = more s
  scan target current (m ∷ ms) s = elim (scan_one target current m s) [
    | found t ↦ found t
    | more t ↦ scan target current ms t
  ]

  unfoldable pub search_loop : ℕ → List (Migration Bytes) → ℕ → ℕ → Search → Option (List ℕ)
  unfolding scan walk_back
  search_loop zero ms from target s = none
  search_loop (suc fuel) ms from target s = elim (s.queue) [
    | [] ↦ none
    | current ∷ queue ↦ elim (scan target current ms (record s { queue = queue })) [
      | found t ↦ some (path_of from target t)
      | more t ↦ search_loop fuel ms from target t
    ]
  ]

  unfoldable pub find_migration_path : List (Migration Bytes) → ℕ → ℕ → Option (List ℕ)
  unfolding search_loop
  find_migration_path ms from target =
      if from == target
      then some (from ∷ [])
      else search_loop (suc (suc (length ms))) ms from target (start_search from)

  -- `Migrator::list_migrations`
  unfoldable pub list_migrations : List (Migration Bytes) → List (ℕ × ℕ × String)
  list_migrations ms = map (λ m. (m.from_version, m.to_version, m.description)) ms

  unfoldable pub can_migrate : List (Migration Bytes) → ℕ → ℕ → Bool
  unfolding has_migration find_migration_path
  can_migrate ms from target =
      if from == target
      then true
      else if has_migration ms from target
      then true
      else is_some (find_migration_path ms from target)

  -- The loop over the versions after the first.
  unfoldable pub apply_path :
      List (Migration Bytes) → Bytes → ℕ → List ℕ → Result Bytes MigrateError
  unfolding get_migration
  apply_path ms bytes current [] = ok bytes
  apply_path ms bytes current (next ∷ path) = elim (get_migration ms current next) [
    | none ↦ err (missing_migration current next)
    | some m ↦ elim (m.migrate bytes (context_for current next)) [
      | ok out ↦ apply_path ms out next path
      | err e ↦ err (failed e)
    ]
  ]

  -- `path.iter().skip(1)`, where the path has two versions or more.
  abbrev pub apply_rest : List (Migration Bytes) → Bytes → ℕ → List ℕ → Result Bytes MigrateError
  apply_rest ms bytes from [] = ok bytes
  apply_rest ms bytes from (first ∷ path) = apply_path ms bytes from path

  unfoldable pub migrate : List (Migration Bytes) → Bytes → ℕ → ℕ → Result Bytes MigrateError
  unfolding find_migration_path apply_path
  migrate ms bytes from target =
      if from == target then ok bytes else elim (find_migration_path ms from target) [
        | none ↦ err (no_path from target)
        | some path ↦ if ltb (length path) 2 then ok bytes else apply_rest ms bytes from path
      ]
