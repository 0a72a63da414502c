-- ===== src/Storage/Migration/Apply.antt =====
-- What a migration of data does: the registered migrations of a route, one after the other.
use vectorless.Base.{
  ℕ, ◌<◌, ◌≡◌, refl, sym, ◌∙◌, subst, true, false, List, [], ◌∷◌, Option, none, some, ◌==◌, ==_iff,
  ltb, length, if◌then◌else◌, arith, Bool-cases, inl, inr, if_true, if_false, ◌⊎◌, ◌↔◌, Result, ok,
  err, String,
}
use vectorless.Storage.Migration.{
  Migration, context_for, MigrateError, no_path, missing_migration, failed, has_migration,
  get_migration, register, has_key, find_migration_path, can_migrate, is_some, apply_path,
  apply_rest, migrate,
}
use vectorless.Storage.Migration.Routes.{Route, Reachable, here, step, start, onward}
use vectorless.Storage.Migration.Find.{Decides, find_migration_path-Decides}

module _ {Bytes : Type 0} where
  -- Looking up a pair of versions after a registration: the newly registered migration stands for
  -- its own pair, and every other pair is as it was.
  pub get_migration-register :
      (ms : List (Migration Bytes)) (m : Migration Bytes) (a b : ℕ)
      → get_migration (register ms m) a b ≡ (if has_key a b m then some m else get_migration ms a b)
  unfolding get_migration register
  get_migration-register [] m a b = ground arith
  get_migration-register (x ∷ ms) m a b = ground (arith, get_migration-register ms m a b)

  has_migration-get :
      (ms : List (Migration Bytes)) (a b : ℕ)
      → has_migration ms a b ≡ true
      → (m : Migration Bytes) × (get_migration ms a b ≡ some m)
  unfolding get_migration has_migration
  has_migration-get [] a b h = absurd (cc h)
  has_migration-get (x ∷ ms) a b h = elim (Bool-cases (has_key a b x)) [
    | inl t ↦ (x, if_true _ _ t)
    | inr f ↦
        let (m, e) = has_migration-get ms a b (ground (arith, h, f)) in (m, if_false _ _ f ∙ e)
  ]

module _ {Bytes : Type 0} (ms : List (Migration Bytes)) where
  -- What the migrations of a route make of data, or the first of them that fails.
  pub data Runs : ℕ → Bytes → ℕ → Result Bytes MigrateError → Type 0 where
    finished : (v : ℕ) (bytes : Bytes) → Runs v bytes v (ok bytes)
    applied :
        {c : ℕ} {r : Result Bytes MigrateError} (a b : ℕ) (bytes out : Bytes) (m : Migration Bytes)
        → get_migration ms a b ≡ some m
        → m.migrate bytes (context_for a b) ≡ ok out
        → Runs b out c r
        → Runs a bytes c r
    stopped :
        {c : ℕ} (a b : ℕ) (bytes : Bytes) (m : Migration Bytes) (e : String)
        → get_migration ms a b ≡ some m
        → m.migrate bytes (context_for a b) ≡ err e
        → Runs a bytes c (err (failed e))

  apply_step-Runs :
      (a b c : ℕ) (bytes : Bytes) (path : List ℕ)
      → has_migration ms a b ≡ true
      → ((out : Bytes) → Runs b out c (apply_path ms out b path))
      → Runs a bytes c (apply_path ms bytes a (b ∷ path))
  unfolding apply_path
  apply_step-Runs a b c bytes path h ih =
      lookup (get_migration ms a b) refl (has_migration-get ms a b h)
    where
      result :
          (m : Migration Bytes)
          → get_migration ms a b ≡ some m
          → (r : Result Bytes String) → m.migrate bytes (context_for a b) ≡ r
          → Runs a bytes c (elim r [ ok out ↦ apply_path ms out b path | err e ↦ err (failed e) ])
      result m e (ok out) er = applied a b bytes out m e er (ih out)
      result m e (err x) er = stopped a b bytes m x e er

      lookup :
          (o : Option (Migration Bytes))
          → get_migration ms a b ≡ o
          → ((m : Migration Bytes) × (get_migration ms a b ≡ some m))
          → Runs a bytes c (elim o [
            | none ↦ err (missing_migration a b)
            | some m ↦ elim (m.migrate bytes (context_for a b)) [
              | ok out ↦ apply_path ms out b path
              | err e ↦ err (failed e)
            ]
          ])
      lookup none e (m, e2) = absurd (cc (e, e2))
      lookup (some m) e _ = result m e (m.migrate bytes (context_for a b)) refl

  apply_path-Runs :
      {b c : ℕ} {path : List ℕ} (a : ℕ) (bytes : Bytes)
      → has_migration ms a b ≡ true
      → Route ms b path c
      → Runs a bytes c (apply_path ms bytes a path)
  unfolding apply_path
  apply_path-Runs a bytes h (here v) = apply_step-Runs a v v bytes [] h (λ out. finished v out)
  apply_path-Runs a bytes h (step {b} {c} {path} b2 next r) =
      apply_step-Runs a b2 c bytes path h (λ out. apply_path-Runs b2 out next r)

  length-Route : {a c : ℕ} {path : List ℕ} → Route ms a path c → 0 < length path
  length-Route (here v) = omega arith
  length-Route (step a h r) = omega arith

  follow-Runs :
      {a c : ℕ} {path : List ℕ} (bytes : Bytes)
      → Route ms a path c
      → Runs a bytes c (if ltb (length path) 2 then ok bytes else apply_rest ms bytes a path)
  unfolding apply_path
  follow-Runs bytes (here v) = finished v bytes
  follow-Runs {c} bytes (step {b = b} {path = path} a h r) =
      subst (Runs a bytes c)
        (sym (if_false (ok bytes) (apply_path ms bytes a path) (ground (arith, length-Route r))))
        (apply_path-Runs a bytes h r)

  Route-Reachable :
      {from a c : ℕ} {path : List ℕ} → Reachable ms from a → Route ms a path c → Reachable ms from c
  Route-Reachable reach (here v) = reach
  Route-Reachable reach (step {b = b} a h r) = Route-Reachable (onward b reach h) r

  -- A migration of data between two versions refuses exactly for the versions that no sequence of
  -- registered migrations connects; between others it applies registered migrations one after the
  -- other, from the first version to the last, or stops with the error of one that fails. It never
  -- misses a migration on its path.
  pub migrate-Runs :
      (bytes : Bytes) (from target : ℕ)
      → (¬ Reachable ms from target × (migrate ms bytes from target ≡ err (no_path from target)))
        ⊎ (Reachable ms from target × Runs from bytes target (migrate ms bytes from target))
  unfolding migrate
  migrate-Runs bytes from target = elim (Bool-cases (from == target)) [
    | inl same ↦
        let e = (==_iff from target).0 same in
        inr (
          subst (Reachable ms from) e start,
          subst (λ v. Runs from bytes v (migrate ms bytes from v)) e
              (subst (Runs from bytes from) (sym (if_true _ _ ((==_iff from from).1 refl)))
                (finished from bytes)),
        )
    | inr other ↦
        search other (find_migration_path ms from target)
          (find_migration_path-Decides ms from target)
  ]
    where
      search :
          (from == target) ≡ false
          → (o : Option (List ℕ)) → Decides ms from target o
          → (¬ Reachable ms from target
              × ((if from == target then ok bytes else elim o [
                | none ↦ err (no_path from target)
                | some path ↦
                    if ltb (length path) 2 then ok bytes else apply_rest ms bytes from path
              ])
                  ≡ err (no_path from target)))
            ⊎ (Reachable ms from target
                × Runs from bytes target (
                    if from == target then ok bytes else elim o [
                      | none ↦ err (no_path from target)
                      | some path ↦
                          if ltb (length path) 2 then ok bytes else apply_rest ms bytes from path
                    ]))
      search other none d = inl (d, if_false _ _ other)
      search other (some path) r = inr (
        Route-Reachable start r,
        subst (Runs from bytes target) (sym (if_false _ _ other)) (follow-Runs bytes r),
      )

  -- `can_migrate` tells for which versions `migrate` finds a path.
  pub can_migrate_iff :
      (from target : ℕ) → (can_migrate ms from target ≡ true) ↔ Reachable ms from target
  unfolding can_migrate
  can_migrate_iff from target =
      answer (find_migration_path ms from target) (find_migration_path-Decides ms from target)
    where
      answer :
          (o : Option (List ℕ))
          → Decides ms from target o
          → ((if from == target
                then true
                else if has_migration ms from target
                then true
                else is_some o)
              ≡ true)
            ↔ Reachable ms from target
      answer none d = (
        λ h. elim (Bool-cases (from == target)) [
          | inl same ↦ subst (Reachable ms from) ((==_iff from target).0 same) start
          | inr other ↦ onward target start (ground (arith, h, other))
        ],
        λ r. absurd (d r),
      )
      answer (some path) r = (λ h. Route-Reachable start r, λ h. ground arith)
