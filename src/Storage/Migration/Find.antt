-- ===== src/Storage/Migration/Find.antt =====
-- The search for a path of migrations: it ends, it finds a path exactly when there is one, and
-- what it finds is a path of registered migrations.
use vectorless.Base.{
  ℕ, zero, suc, ◌+◌, ◌<◌, ◌≤◌, ◌≡◌, refl, sym, ap, subst, true, false, not, ◌&&◌, List, [], ◌∷◌,
  Option, none, some, ◌==◌, ==_iff, length, length-append, if◌then◌else◌, arith, Bool-cases, inl,
  inr, if_true, if_false, ◌-◌,
}
use vectorless.Storage.Migration.{
  Migration, contains, has_migration, Search, Scan, found, more, visit, scan_one, scan, search_loop,
  find_migration_path, path_of, start_search,
}
use vectorless.Storage.Migration.Routes.{Route, Reachable, here, start, onward, walk_back-Route}
use vectorless.Storage.Migration.Scanning.{
  Listed, first, later, Listed-has, unseen, unseen-le, unseen-visit, Accounted, IsScan, IsScan-skip,
  IsScan-visit, Accounted-visit_next,
}

module _ {Bytes : Type 0} (ms : List (Migration Bytes)) (from target : ℕ) where
  -- What is kept and how the bound on the rounds that are left goes on.
  abbrev Continues : List (Migration Bytes) → ℕ → ℕ → Search → Type 0
  Continues rest current k t =
      IsScan ms from target rest current t × (unseen ms t.visited + length t.queue ≤ k)

  abbrev Scanned : List (Migration Bytes) → ℕ → ℕ → Scan → Type 0
  Scanned rest current k (found t) = Accounted ms from target t target
  Scanned rest current k (more t) = Continues rest current k t

  scan_one_visit :
      (m : Migration Bytes) (rest : List (Migration Bytes)) (current k : ℕ) (s : Search)
      → Listed m ms
      → Continues (m ∷ rest) current k s
      → (m.from_version ≡ current)
      → contains s.visited m.to_version ≡ false
      → Scanned rest current k (
          if m.to_version == target
          then found (visit s current m.to_version)
          else more (visit s current m.to_version))
  scan_one_visit m rest current k s listed (i, le) e new =
      let has : has_migration ms current m.to_version ≡ true =
        subst (λ c. has_migration ms c m.to_version ≡ true) e (Listed-has m ms listed) in
      elim (Bool-cases (m.to_version == target)) [
        | inl hit ↦ subst (Scanned rest current k) (sym (if_true _ _ hit)) (
            subst (Accounted ms from target (visit s current m.to_version))
              ((==_iff m.to_version target).0 hit)
              (Accounted-visit_next ms from target s current m i.origin new has
                (i.accounted current i.scanned)))
        | inr miss ↦ subst (Scanned rest current k) (sym (if_false _ _ miss)) (
          IsScan-visit ms from target m rest current s new has miss i,
          omega (
            arith,
            le,
            unseen-visit m ms s.visited listed new,
            length-append s.queue (m.to_version ∷ []),
          ),
        )
      ]

  scan_one-Scanned :
      (m : Migration Bytes) (rest : List (Migration Bytes)) (current k : ℕ) (s : Search)
      → Listed m ms
      → Continues (m ∷ rest) current k s
      → Scanned rest current k (scan_one target current m s)
  unfolding scan_one
  scan_one-Scanned m rest current k s listed (i, le) =
      elim (Bool-cases ((m.from_version == current) && not (contains s.visited m.to_version))) [
        | inr skip ↦
            subst (Scanned rest current k) (sym (if_false _ _ skip))
              (IsScan-skip ms from target m rest current s skip i, le)
        | inl taken ↦ subst (Scanned rest current k) (sym (if_true _ _ taken)) (
            scan_one_visit m rest current k s listed (i, le) (ground (arith, taken))
              (ground (arith, taken)))
      ]

  scan-Scanned :
      (rest : List (Migration Bytes)) (current k : ℕ) (s : Search)
      → ((m : Migration Bytes) → Listed m rest → Listed m ms)
      → Continues rest current k s
      → Scanned [] current k (scan target current rest s)
  unfolding scan
  scan-Scanned [] current k s sub c = c
  scan-Scanned (m ∷ rest) current k s sub c =
      go (λ t. scan-Scanned rest current k t (λ x h. sub x (later m h)))
        (scan_one target current m s) (scan_one-Scanned m rest current k s (sub m first) c)
    where
      go :
          ((t : Search)
            → Continues rest current k t
            → Scanned [] current k (scan target current rest t))
          → (r : Scan) → Scanned rest current k r
          → Scanned [] current k
              (elim r [ found t ↦ found t | more t ↦ scan target current rest t ])
      go ih (found t) h = h
      go ih (more t) h = ih t h

  -- What the search may answer.
  abbrev pub Decides : Option (List ℕ) → Type 0
  Decides (some path) = Route ms from path target
  Decides none = ¬ Reachable ms from target

  Reachable-visited :
      (current : ℕ) (s : Search) (v : ℕ)
      → IsScan ms from target [] current s
      → s.queue ≡ []
      → Reachable ms from v
      → contains s.visited v ≡ true
  unfolding has_migration
  Reachable-visited current s v i e start = i.origin
  Reachable-visited current s v i e (onward {b} _ r h) = elim (Bool-cases (contains s.visited v)) [
    | inl seen ↦ seen
    | inr new ↦ elim (i.closed b v (Reachable-visited current s b i e r) h new) [
      | inl q ↦ ground (arith, e, q)
      | inr (_, impossible) ↦ cc impossible
    ]
  ]

  found_path :
      (t : Search)
      → ¬ (target ≡ from)
      → Accounted ms from target t target
      → Route ms from (path_of from target t) target
  found_path t other (inl e) = absurd (other e)
  found_path t other (inr (n, lt, chain)) =
      walk_back-Route ms from t.visited t.parent (length t.visited) (target ∷ []) target chain
        (omega (arith, lt)) (here target)

  IsScan-pop :
      (c current : ℕ) (queue : List ℕ) (s : Search)
      → s.queue ≡ current ∷ queue
      → IsScan ms from target [] c s
      → IsScan ms from target ms current (record s { queue = queue })
  unfolding has_migration
  IsScan-pop c current queue s e i = record {
    origin = i.origin;
    scanned = i.queued current (ground (arith, e));
    queued = λ v h. i.queued v (ground (arith, e, h));
    accounted = i.accounted;
    open_target = i.open_target;
    closed = λ u v seen has new. elim (i.closed u v seen has new) [
      | inl q ↦ elim (Bool-cases (current == u)) [
        | inl same ↦ inr (sym ((==_iff current u).0 same), has)
        | inr other ↦ inl (ground (arith, e, q, other))
      ]
      | inr (_, impossible) ↦ absurd (cc impossible)
    ];
  }

  search_loop-Decides :
      (fuel c k : ℕ) (s : Search)
      → ¬ (target ≡ from)
      → Continues [] c k s
      → k < fuel
      → Decides (search_loop fuel ms from target s)
  unfolding search_loop
  search_loop-Decides zero c k s other h lt = absurd (omega (arith, lt))
  search_loop-Decides (suc fuel) c k s other (i, le) lt =
      round (λ c2 k2 t h l. search_loop-Decides fuel c2 k2 t other h l) (s.queue) refl
    where
      next :
          (current : ℕ)
          → ((c2 k2 : ℕ) (t : Search)
              → Continues [] c2 k2 t
              → k2 < fuel
              → Decides (search_loop fuel ms from target t))
          → (r : Scan) → Scanned [] current (k - 1) r
          → k - 1 < fuel
          → Decides (elim r [
            | found t ↦ some (path_of from target t)
            | more t ↦ search_loop fuel ms from target t
          ])
      next current ih (found t) h l = found_path t other h
      next current ih (more t) h l = ih current (k - 1) t h l

      round :
          ((c2 k2 : ℕ) (t : Search)
            → Continues [] c2 k2 t
            → k2 < fuel
            → Decides (search_loop fuel ms from target t))
          → (queue : List ℕ) → s.queue ≡ queue
          → Decides (elim queue [
            | [] ↦ none
            | current ∷ queue ↦ elim (scan target current ms (record s { queue = queue })) [
              | found t ↦ some (path_of from target t)
              | more t ↦ search_loop fuel ms from target t
            ]
          ])
      round ih [] e = λ r.
          let seen : contains s.visited target ≡ true = Reachable-visited c s target i e r in
          cc (seen, i.open_target)
      round ih (current ∷ queue) e =
          next current ih (scan target current ms (record s { queue = queue }))
            (scan-Scanned ms current (k - 1) (record s { queue = queue }) (λ m h. h)
              (IsScan-pop c current queue s e i, omega (arith, le, ap length e)))
            (omega (arith, le, lt, ap length e))

  start-IsScan : ¬ (target ≡ from) → IsScan ms from target [] from (start_search from)
  start-IsScan other = record {
    origin = ground arith;
    scanned = ground arith;
    queued = λ v h. h;
    accounted = λ v h. inl (ground (arith, h));
    open_target = ground (arith, other);
    closed = λ u v seen has new. inl seen;
  }

  -- The search ends on the fuel that is given to it, and it answers right: a path that it finds is
  -- a route along registered migrations from the first version to the target, and where it finds
  -- none, no sequence of registered migrations leads there.
  pub find_migration_path-Decides : Decides (find_migration_path ms from target)
  unfolding find_migration_path
  find_migration_path-Decides = elim (Bool-cases (from == target)) [
    | inl same ↦
        subst Decides (sym (if_true _ _ same))
          (subst (Route ms from (from ∷ [])) ((==_iff from target).0 same) (here from))
    | inr other ↦ subst Decides (sym (if_false _ _ other)) (
        search_loop-Decides (suc (suc (length ms))) from (suc (length ms)) (start_search from)
          (ground (arith, other))
          (start-IsScan (ground (arith, other)), omega (arith, unseen-le ms (from ∷ [])))
          (omega arith))
  ]
