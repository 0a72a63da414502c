-- ===== src/Storage/Migration/Scanning.antt =====
-- The invariant of the search, and that one scan over the migrations keeps it.
use vectorless.Base.{
  ℕ, suc, ◌+◌, ◌<◌, ◌≤◌, ◌≡◌, refl, ap, ◌∙◌, subst, true, false, not, ◌&&◌, List, [], ◌∷◌, ◌++◌,
  some, ◌==◌, ==_iff, length, if◌then◌else◌, arith, Bool-cases, inl, inr, if_true, ◌⊎◌,
}
use vectorless.Storage.Migration.{Migration, contains, has_migration, Search, visit}
use vectorless.Storage.Migration.Routes.{Chain, last, further, Chain-visit}

pub contains-append :
    (xs : List ℕ) (x v : ℕ) → contains (xs ++ x ∷ []) v ≡ (if contains xs v then true else x == v)
contains-append [] x v = ground arith
contains-append (y ∷ xs) x v = ground (arith, contains-append xs x v)

contains-length : (xs : List ℕ) (v : ℕ) → contains xs v ≡ true → 0 < length xs
contains-length [] v h = cc h
contains-length (x ∷ xs) v h = omega arith

module _ {Bytes : Type 0} where
  -- A migration of a list.
  pub data Listed (m : Migration Bytes) : List (Migration Bytes) → Type 0 where
    first : {ms : List (Migration Bytes)} → Listed m (m ∷ ms)
    later : {ms : List (Migration Bytes)} (x : Migration Bytes) → Listed m ms → Listed m (x ∷ ms)

  pub Listed-has :
      (m : Migration Bytes) (ms : List (Migration Bytes))
      → Listed m ms
      → has_migration ms m.from_version m.to_version ≡ true
  unfolding has_migration
  Listed-has m _ (first {ms}) = ground arith
  Listed-has m _ (later {ms} x h) = ground (arith, Listed-has m ms h)

  -- How many migrations lead to a version that was not visited.
  pub unseen : List (Migration Bytes) → List ℕ → ℕ
  unseen [] visited = 0
  unseen (m ∷ ms) visited = (if contains visited m.to_version then 0 else 1) + unseen ms visited

  pub unseen-le : (ms : List (Migration Bytes)) (visited : List ℕ) → unseen ms visited ≤ length ms
  unfolding unseen
  unseen-le [] visited = omega arith
  unseen-le (m ∷ ms) visited = ground (arith, unseen-le ms visited)

  unseen_mono :
      (ms : List (Migration Bytes)) (visited : List ℕ) (x : ℕ)
      → unseen ms (x ∷ visited) ≤ unseen ms visited
  unfolding unseen
  unseen_mono [] visited x = omega arith
  unseen_mono (m ∷ ms) visited x = ground (arith, unseen_mono ms visited x)

  pub unseen-visit :
      (m : Migration Bytes) (ms : List (Migration Bytes)) (visited : List ℕ)
      → Listed m ms
      → contains visited m.to_version ≡ false
      → unseen ms (m.to_version ∷ visited) < unseen ms visited
  unfolding unseen
  unseen-visit m _ visited (first {ms}) new =
      ground (arith, new, unseen_mono ms visited m.to_version)
  unseen-visit m _ visited (later {ms} x h) new = ground (arith, unseen-visit m ms visited h new)

  has_migration-other :
      (m : Migration Bytes) (rest : List (Migration Bytes)) (u v : ℕ)
      → (m.to_version == v) ≡ false
      → has_migration (m ∷ rest) u v ≡ true
      → has_migration rest u v ≡ true
  unfolding has_migration
  has_migration-other m rest u v other h = ground (arith, other, h)

  has_migration-skip :
      (m : Migration Bytes) (rest : List (Migration Bytes)) (u v current : ℕ) (visited : List ℕ)
      → u ≡ current
      → contains visited v ≡ false
      → ((m.from_version == current) && not (contains visited m.to_version)) ≡ false
      → has_migration (m ∷ rest) u v ≡ true
      → has_migration rest u v ≡ true
  unfolding has_migration
  has_migration-skip m rest u v current visited e new skip h =
      ground (arith, e, new, skip, h, ap (contains visited))

module _ {Bytes : Type 0} (ms : List (Migration Bytes)) (from target : ℕ) where
  -- A version is accounted for: it is the first, or its parents lead back to the first.
  abbrev pub Accounted : Search → ℕ → Type 0
  Accounted s v =
      (v ≡ from) ⊎ ((n : ℕ) × (n < length s.visited) × Chain ms from s.visited s.parent v n)

  -- The invariant while `current` is scanned and the migrations of `rest` are still to come.
  pub record IsScan (rest : List (Migration Bytes)) (current : ℕ) (s : Search) : Type 0 where
    pub origin : contains s.visited from ≡ true
    pub scanned : contains s.visited current ≡ true
    pub queued : (v : ℕ) → contains s.queue v ≡ true → contains s.visited v ≡ true
    pub accounted : (v : ℕ) → contains s.visited v ≡ true → Accounted s v
    pub open_target : contains s.visited target ≡ false
    pub closed :
        (u v : ℕ)
        → contains s.visited u ≡ true
        → has_migration ms u v ≡ true
        → contains s.visited v ≡ false
        → (contains s.queue u ≡ true) ⊎ ((u ≡ current) × (has_migration rest u v ≡ true))

  Accounted-visit_first :
      (s : Search) (current : ℕ) (m : Migration Bytes)
      → contains s.visited from ≡ true
      → contains s.visited m.to_version ≡ false
      → has_migration ms current m.to_version ≡ true
      → current ≡ from
      → Accounted (visit s current m.to_version) m.to_version
  Accounted-visit_first s current m origin new has e = inr (
    1,
    omega (arith, contains-length s.visited from origin),
    last m.to_version (ground arith)
        (if_true (some current) (s.parent m.to_version) ((==_iff m.to_version m.to_version).1 refl)
          ∙ ap some e)
        (ground (arith, has, e)),
  )

  pub Accounted-visit_next :
      (s : Search) (current : ℕ) (m : Migration Bytes)
      → contains s.visited from ≡ true
      → contains s.visited m.to_version ≡ false
      → has_migration ms current m.to_version ≡ true
      → Accounted s current
      → Accounted (visit s current m.to_version) m.to_version
  Accounted-visit_next s current m origin new has (inl e) =
      Accounted-visit_first s current m origin new has e
  Accounted-visit_next s current m origin new has (inr (n, lt, chain)) =
      elim (Bool-cases (current == from)) [
        | inl same ↦ Accounted-visit_first s current m origin new has ((==_iff current from).0 same)
        | inr other ↦ inr (
          suc n,
          omega (arith, lt),
          further m.to_version current (ground arith)
              (if_true (some current) (s.parent m.to_version)
                ((==_iff m.to_version m.to_version).1 refl))
              other has (Chain-visit ms from s.visited s.parent current m.to_version new chain),
        )
      ]

  Accounted-visit :
      (s : Search) (current : ℕ) (m : Migration Bytes)
      → contains s.visited from ≡ true
      → ((v : ℕ) → contains s.visited v ≡ true → Accounted s v)
      → contains s.visited current ≡ true
      → contains s.visited m.to_version ≡ false
      → has_migration ms current m.to_version ≡ true
      → (v : ℕ) → contains (m.to_version ∷ s.visited) v ≡ true
      → Accounted (visit s current m.to_version) v
  Accounted-visit s current m origin acc here new has v h =
      elim (Bool-cases (contains s.visited v)) [
        | inl old ↦ elim (acc v old) [
          | inl e ↦ inl e
          | inr c ↦ inr (
            c.0,
            omega (arith, c.1),
            Chain-visit ms from s.visited s.parent current m.to_version new c.2,
          )
        ]
        | inr fresh ↦
            let e : m.to_version ≡ v = ground (arith, h, fresh) in
            subst (Accounted (visit s current m.to_version)) e
              (Accounted-visit_next s current m origin new has (acc current here))
      ]

  pub IsScan-skip :
      (m : Migration Bytes) (rest : List (Migration Bytes)) (current : ℕ) (s : Search)
      → ((m.from_version == current) && not (contains s.visited m.to_version)) ≡ false
      → IsScan (m ∷ rest) current s
      → IsScan rest current s
  IsScan-skip m rest current s skip i = record {
    origin = i.origin;
    scanned = i.scanned;
    queued = i.queued;
    accounted = i.accounted;
    open_target = i.open_target;
    closed = λ u v seen has new. elim (i.closed u v seen has new) [
      | inl q ↦ inl q
      | inr (e, h) ↦ inr (e, has_migration-skip m rest u v current s.visited e new skip h)
    ];
  }

  closed-visit :
      (m : Migration Bytes) (rest : List (Migration Bytes)) (current : ℕ) (s : Search)
      → IsScan (m ∷ rest) current s
      → (u v : ℕ) → contains (m.to_version ∷ s.visited) u ≡ true
      → has_migration ms u v ≡ true
      → contains (m.to_version ∷ s.visited) v ≡ false
      → (contains (s.queue ++ m.to_version ∷ []) u ≡ true)
        ⊎ ((u ≡ current) × (has_migration rest u v ≡ true))
  closed-visit m rest current s i u v seen has new = elim (Bool-cases (contains s.visited u)) [
    | inl old ↦ elim (i.closed u v old has (ground (arith, new))) [
      | inl q ↦ inl (ground (arith, q, contains-append s.queue m.to_version u))
      | inr (e, h) ↦ inr (e, has_migration-other m rest u v (ground (arith, new)) h)
    ]
    | inr fresh ↦ inl (ground (arith, fresh, seen, contains-append s.queue m.to_version u))
  ]

  pub IsScan-visit :
      (m : Migration Bytes) (rest : List (Migration Bytes)) (current : ℕ) (s : Search)
      → contains s.visited m.to_version ≡ false
      → has_migration ms current m.to_version ≡ true
      → (m.to_version == target) ≡ false
      → IsScan (m ∷ rest) current s
      → IsScan rest current (visit s current m.to_version)
  IsScan-visit m rest current s new has miss i = record {
    origin = ground (arith, i.origin);
    scanned = ground (arith, i.scanned);
    queued = λ v h. ground (arith, h, contains-append s.queue m.to_version v, i.queued v);
    accounted = Accounted-visit s current m i.origin i.accounted i.scanned new has;
    open_target = ground (arith, i.open_target, miss);
    closed = closed-visit m rest current s i;
  }
