-- ===== src/Storage/Tests.antt =====
-- Two migrations that lead from version 1 over 2 to 3.
use vectorless.Base.{ℕ, ◌≡◌, refl, List, [], ◌∷◌, some, ok, err, ◌⊎◌}
use vectorless.Storage.Migration.{Migration, register, find_migration_path, migrate, no_path}
use vectorless.Storage.Migration.Routes.{Reachable}
use vectorless.Storage.Migration.Find.{Decides, find_migration_path-Decides}
use vectorless.Storage.Migration.Apply.{Runs, migrate-Runs}

abbrev upgrade : ℕ → ℕ → Migration (List ℕ)
upgrade a b = record {
  from_version = a;
  to_version = b;
  description = "upgrade";
  migrate = λ bytes ctx. ok (ctx.to_version ∷ bytes);
}

abbrev registered : List (Migration (List ℕ))
unfolding register
registered = register (register [] (upgrade 2 3)) (upgrade 1 2)

test_path : find_migration_path registered 1 3 ≡ some (1 ∷ 2 ∷ 3 ∷ [])
unfolding find_migration_path registered
test_path = refl

test_migrate : migrate registered [] 1 3 ≡ ok (3 ∷ 2 ∷ [])
unfolding migrate registered
test_migrate = refl

test_no_path : migrate registered [] 3 1 ≡ err (no_path 3 1)
unfolding migrate registered
test_no_path = refl

find_migration_path-Decides_example : Decides registered 1 3 (find_migration_path registered 1 3)
find_migration_path-Decides_example = find_migration_path-Decides registered 1 3

migrate-Runs_example :
    (¬ Reachable registered 1 3 × (migrate registered [] 1 3 ≡ err (no_path 1 3)))
    ⊎ (Reachable registered 1 3 × Runs registered 1 [] 3 (migrate registered [] 1 3))
migrate-Runs_example = migrate-Runs registered [] 1 3
