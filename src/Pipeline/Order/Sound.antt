-- ===== src/Pipeline/Order/Sound.antt =====
-- What `resolve_order` promises of an order that it returns.
use vectorless.Base.{
  ℕ, ◌≤◌, ◌<◌, ◌≡◌, some, List, ltb, length, get_elem?, count, sum_below-count, sum_below_full,
  if◌then◌else◌, arith,
}
use vectorless.Pipeline.Stage.{Stages}
use vectorless.Pipeline.Order.{ok, kahn, resolve_order}
use vectorless.Pipeline.Order.Edges.{name_to_idx_lt}
use vectorless.Pipeline.Order.Depends.{DependsOn, DependsOn-edge}
use vectorless.Pipeline.Order.Finish.{kahn-IsFinished}

module _ {ℓ} {E : Type ℓ} (stages : Stages E) where
  -- The result of the loop, of which `resolve_order` returns a full one.
  pub resolve_order-kahn :
      (order : List ℕ)
      → resolve_order stages ≡ ok order
      → ((kahn stages).result ≡ order) × (length order ≡ length stages)
  unfolding resolve_order
  resolve_order-kahn order h = ground arith

  pub kahn-count-le : (m : ℕ) → count m (kahn stages).result ≤ 1
  kahn-count-le m = let (inv, _) = kahn-IsFinished stages in ground (arith, inv.settled m)

  pub kahn-lt : (m : ℕ) → 0 < count m (kahn stages).result → m < length stages
  kahn-lt m h = let (inv, _) = kahn-IsFinished stages in ground (arith, inv.settled m)

  kahn_full :
      length (kahn stages).result ≡ length stages
      → (m : ℕ) → m < length stages
      → count m (kahn stages).result ≡ 1
  kahn_full full =
      sum_below_full (length stages) (λ m. count m (kahn stages).result) kahn-count-le
        (omega (arith, sum_below-count (length stages) (kahn stages).result kahn-lt))

  -- An order that `resolve_order` returns holds the index of every registered stage once, and
  -- nothing else.
  pub resolve_order-each_once :
      (order : List ℕ)
      → resolve_order stages ≡ ok order
      → (i : ℕ) → count i order ≡ (if ltb i (length stages) then 1 else 0)
  resolve_order-each_once order h i =
      let (is, full) = resolve_order-kahn order h in
      rw (← is) (ground (arith, kahn_full (rw is full) i, kahn-count-le i, kahn-lt i))

  -- In an order that `resolve_order` returns, every dependency of a stage stands before the stage.
  pub resolve_order-dependency_first :
      (order : List ℕ) (i j p : ℕ)
      → resolve_order stages ≡ ok order
      → DependsOn stages i j
      → get_elem? order p ≡ some i
      → (q : ℕ) × (q < p) × (get_elem? order q ≡ some j)
  resolve_order-dependency_first order i j p h d at =
      let (is, _) = resolve_order-kahn order h in
      let (inv, _) = kahn-IsFinished stages in
      let before =
        inv.ordered p i j (rw is at) (name_to_idx_lt stages d.dep j d.resolved)
          (DependsOn-edge stages i j d) in
      (before.0, before.1, rw is at (before.2))
