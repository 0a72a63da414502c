-- ===== src/Storage/Migration/Routes.antt =====
-- Routes along registered migrations, and how parents lead back along one.
use vectorless.Base.{
  ℕ, zero, suc, ◌≤◌, ◌≡◌, refl, sym, ap, ◌∙◌, subst, true, false, List, [], ◌∷◌, Option, some, ◌==◌,
  ==_iff, if◌then◌else◌, arith, Bool-cases, inl, inr, if_true, if_false,
}
use vectorless.Storage.Migration.{Migration, contains, has_migration, walk_back, walk_to}

module _ {Bytes : Type 0} (ms : List (Migration Bytes)) where
  -- The versions from one to another, each led to the next by a registered migration.
  pub data Route : ℕ → List ℕ → ℕ → Type 0 where
    here : (v : ℕ) → Route v (v ∷ []) v
    step :
        {b c : ℕ} {path : List ℕ} (a : ℕ)
        → has_migration ms a b ≡ true
        → Route b path c
        → Route a (a ∷ path) c

  -- The versions that migrations can lead to.
  pub data Reachable (from : ℕ) : ℕ → Type 0 where
    start : Reachable from from
    onward : {b : ℕ} (c : ℕ) → Reachable from b → has_migration ms b c ≡ true → Reachable from c

  -- The parents of visited versions lead back to the first one in n steps.
  pub data Chain (from : ℕ) (visited : List ℕ) (parent : ℕ → Option ℕ) : ℕ → ℕ → Type 0 where
    last :
        (v : ℕ)
        → contains visited v ≡ true
        → parent v ≡ some from
        → has_migration ms from v ≡ true
        → Chain from visited parent v 1
    further :
        {n : ℕ} (v p : ℕ)
        → contains visited v ≡ true
        → parent v ≡ some p
        → (p == from) ≡ false
        → has_migration ms p v ≡ true
        → Chain from visited parent p n
        → Chain from visited parent v (suc n)

  pub walk_back-Route :
      (from : ℕ) (visited : List ℕ) (parent : ℕ → Option ℕ) (fuel : ℕ) {v n : ℕ} (path : List ℕ)
      (c : ℕ)
      → Chain from visited parent v n
      → n ≤ fuel
      → Route v path c
      → Route from (walk_back fuel parent from v path) c
  unfolding walk_back
  walk_back-Route from visited parent zero path c (last v m p h) le r = absurd (omega arith)
  walk_back-Route from visited parent zero path c (further v q m p ne h chain) le r =
      absurd (omega arith)
  walk_back-Route from visited parent (suc fuel) path c (last v m p h) le r =
      let next = walk_back fuel parent from in
      subst (λ l. Route from l c)
        (sym (
          ap (walk_to from path next) p
          ∙ if_true (from ∷ path) (next from (from ∷ path)) ((==_iff from from).1 refl)))
        (step from h r)
  walk_back-Route from visited parent (suc fuel) path c (further v q m p ne h chain) le r =
      let next = walk_back fuel parent from in
      subst (λ l. Route from l c)
        (sym (ap (walk_to from path next) p ∙ if_false (q ∷ path) (next q (q ∷ path)) ne))
        (walk_back-Route from visited parent fuel (q ∷ path) c chain (omega arith) (step q h r))

  parent-visit :
      (visited : List ℕ) (parent : ℕ → Option ℕ) (current to v q : ℕ)
      → contains visited to ≡ false
      → contains visited v ≡ true
      → parent v ≡ some q
      → (if v == to then some current else parent v) ≡ some q
  parent-visit visited parent current to v q new m p = elim (Bool-cases (v == to)) [
    | inl t ↦ cc ((==_iff v to).0 t, new, m)
    | inr f ↦ if_false (some current) (parent v) f ∙ p
  ]

  contains-visit :
      (visited : List ℕ) (to v : ℕ) → contains visited v ≡ true → contains (to ∷ visited) v ≡ true
  contains-visit visited to v m = ground (arith, m)

  -- A chain stays one when a version that was not visited gets a parent.
  pub Chain-visit :
      (from : ℕ) (visited : List ℕ) (parent : ℕ → Option ℕ) (current to : ℕ) {v n : ℕ}
      → contains visited to ≡ false
      → Chain from visited parent v n
      → Chain from (to ∷ visited) (λ x. if x == to then some current else parent x) v n
  Chain-visit from visited parent current to new (last v m p h) =
      last v (contains-visit visited to v m) (parent-visit visited parent current to v from new m p)
        h
  Chain-visit from visited parent current to new (further v q m p ne h chain) =
      further v q (contains-visit visited to v m)
        (parent-visit visited parent current to v q new m p) ne h
        (Chain-visit from visited parent current to new chain)
