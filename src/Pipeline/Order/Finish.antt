-- ===== src/Pipeline/Order/Finish.antt =====
-- The loop of `resolve_order` starts with the invariant of Loop, keeps it, and ends with no ready
-- stage left, within as many rounds as there are stages.
use vectorless.Base.{
  ℕ, zero, suc, ◌+◌, ◌≤◌, ◌<◌, ◌≡◌, refl, ◌∙◌, List, [], ◌∷◌, ◌++◌, ◌==◌, ℤ, length, count,
  count-append, sum_below, sum_below-add, sum_below_congr, sum_below_at, sum_below_le,
  if◌then◌else◌, arith,
}
use vectorless.Pipeline.Stage.{Stages}
use vectorless.Pipeline.Order.{
  Graph, Search, build_graph, priority_at, take_stage, search_loop, start, kahn,
}
use vectorless.Pipeline.Order.Edges.{build_graph-IsBalanced, build_graph-target_lt}
use vectorless.Pipeline.Order.Loop.{IsSearch, initial_ready-count, take_stage-IsSearch}

-- How many stages are not in the result.
abbrev pub untaken : List ℕ → ℕ → ℕ
untaken result k = if count k result == 0 then 1 else 0

abbrev pub remaining : ℕ → List ℕ → ℕ
remaining n result = sum_below n (untaken result)

remaining-take :
    (n : ℕ) (result : List ℕ) (idx : ℕ)
    → idx < n
    → count idx result ≡ 0
    → remaining n result ≡ remaining n (result ++ idx ∷ []) + 1
remaining-take n result idx lt absent =
    let taken : ℕ → ℕ = λ k. if k == idx then 1 else 0 in
    let left : ℕ → ℕ = untaken (result ++ idx ∷ []) in
    sum_below_congr n _ (λ k. left k + taken k)
      (λ k _. ground (arith, count-append k result (idx ∷ [])))
    ∙ sum_below-add n left taken
    ∙ omega (arith, sum_below_at n idx 1 lt)

take_stage-result :
    (prio : ℕ → ℤ) (g : Graph) (s : Search) (idx : ℕ) (rest : List ℕ)
    → (take_stage prio g s idx rest).result ≡ s.result ++ idx ∷ []
unfolding take_stage
take_stage-result prio g s idx rest = refl

module _ (prio : ℕ → ℤ) (n : ℕ) (g : Graph)
    (target_lt : (k m : ℕ) → 0 < count m (g.adjacency k) → m < n) where
  abbrev IsFinished : Search → Type 0
  IsFinished s = IsSearch n g s × (s.ready ≡ [])

  round-IsFinished :
      (fuel : ℕ) (s : Search)
      → ((s' : Search)
          → remaining n s'.result ≤ fuel
          → IsSearch n g s'
          → IsFinished (search_loop prio g fuel s'))
      → remaining n s.result ≤ suc fuel
      → IsSearch n g s
      → (r : List ℕ) → s.ready ≡ r
      → IsFinished (search_loop prio g (suc fuel) s)
  unfolding search_loop
  round-IsFinished fuel s ih le inv [] e = rw (e, search_loop) (inv, e)
  round-IsFinished fuel s ih le inv (idx ∷ rest) e =
      let (inv', lt, absent) = take_stage-IsSearch prio n g target_lt s idx rest e inv in
      rw (e, search_loop)
        (ih (take_stage prio g s idx rest)
          (rw take_stage-result (omega (arith, remaining-take n s.result idx lt absent))) inv')

  spent :
      (s : Search)
      → remaining n s.result ≤ 0
      → IsSearch n g s
      → (r : List ℕ) → s.ready ≡ r
      → s.ready ≡ []
  spent s le inv [] e = e
  spent s le inv (idx ∷ rest) e =
      let (_, lt, absent) = take_stage-IsSearch prio n g target_lt s idx rest e inv in
      absurd (omega (arith, remaining-take n s.result idx lt absent))

  pub search_loop-IsFinished :
      (fuel : ℕ) (s : Search)
      → remaining n s.result ≤ fuel
      → IsSearch n g s
      → IsFinished (search_loop prio g fuel s)
  unfolding search_loop
  search_loop-IsFinished zero s le inv = (inv, spent s le inv s.ready refl)
  search_loop-IsFinished (suc fuel) s le inv =
      round-IsFinished fuel s (search_loop-IsFinished fuel) le inv s.ready refl

  -- What every round keeps holds after the loop.
  module _ {κ} (P : Search → Type κ)
      (round : (s : Search) (idx : ℕ) (rest : List ℕ)
        → s.ready ≡ idx ∷ rest
        → IsSearch n g s
        → P s
        → P (take_stage prio g s idx rest)) where
    round_induction :
        (fuel : ℕ) (s : Search)
        → ((s' : Search) → IsSearch n g s' → P s' → P (search_loop prio g fuel s'))
        → IsSearch n g s
        → P s
        → (r : List ℕ) → s.ready ≡ r
        → P (search_loop prio g (suc fuel) s)
    unfolding search_loop
    round_induction fuel s ih inv h [] e = rw (e, search_loop) h
    round_induction fuel s ih inv h (idx ∷ rest) e =
        let (inv', _, _) = take_stage-IsSearch prio n g target_lt s idx rest e inv in
        rw (e, search_loop) (ih (take_stage prio g s idx rest) inv' (round s idx rest e inv h))

    pub search_loop_induction :
        (fuel : ℕ) (s : Search) → IsSearch n g s → P s → P (search_loop prio g fuel s)
    unfolding search_loop
    search_loop_induction zero s inv h = h
    search_loop_induction (suc fuel) s inv h =
        round_induction fuel s (search_loop_induction fuel) inv h s.ready refl

module _ {ℓ} {E : Type ℓ} (stages : Stages E) where
  pub start-IsSearch : IsSearch (length stages) (build_graph stages) (start stages)
  unfolding start
  start-IsSearch = record {
    degrees = build_graph-IsBalanced stages;
    settled = λ m. omega (
      arith,
      initial_ready-count (priority_at stages) (build_graph stages).in_degree (length stages) m,
    );
    ordered = λ p i k at lt edge. ground arith;
  }

  pub kahn-IsFinished :
      IsSearch (length stages) (build_graph stages) (kahn stages) × ((kahn stages).ready ≡ [])
  unfolding kahn
  kahn-IsFinished =
      search_loop-IsFinished (priority_at stages) (length stages) (build_graph stages)
        (build_graph-target_lt stages) (length stages) (start stages)
        (sum_below_le (length stages) (untaken (start stages).result) (λ k. ground arith))
        start-IsSearch
