-- ===== src/Pipeline/Order/Loop.antt =====
-- The invariant of the loop of `resolve_order`: what the degrees, the ready list and the result
-- hold after any number of rounds.
use vectorless.Base.{
  ℕ, zero, suc, ◌+◌, ◌-◌, ◌≤◌, ◌<◌, ◌≡◌, refl, sym, ◌∙◌, ◌&&◌, List, [], ◌∷◌, ◌++◌, ltb, ◌==◌, ℤ,
  count, count-append, indicator, sum_below, sum_below-add, sum_below_congr, sum_below_at,
  sum_below_le_term, if◌then◌else◌, arith, Bool-cases, inl, inr, get_elem?, get_elem?-append_left,
  get_elem?-append_inv, ap, length, some, count_get_elem,
}
use vectorless.Pipeline.Order.{
  Graph, Search, update, key_lt, insert_ready, initial_ready, relax, take_stage,
}

insert_ready-count :
    (prio : ℕ → ℤ) (x : ℕ) (ys : List ℕ) (a : ℕ)
    → count a (insert_ready prio x ys) ≡ indicator a x + count a ys
unfolding insert_ready
insert_ready-count prio x [] a = refl
insert_ready-count prio x (y ∷ ys) a = elim (Bool-cases (key_lt prio y x)) [
  | inl before ↦ rw before (omega (arith, insert_ready-count prio x ys a))
  | inr after ↦ rw after
]

pub initial_ready-count :
    (prio : ℕ → ℤ) (degrees : ℕ → ℕ) (n a : ℕ)
    → count a (initial_ready prio degrees n) ≡ (if ltb a n && (degrees a == 0) then 1 else 0)
unfolding initial_ready
initial_ready-count prio degrees zero a = ground arith
initial_ready-count prio degrees (suc n) a = ground (
  arith,
  initial_ready-count prio degrees n a,
  insert_ready-count prio n (initial_ready prio degrees n) a,
)

-- What the neighbors of one stage change: each in-degree falls by the edges into it, and what
-- reaches zero is ready.
module _ (prio : ℕ → ℤ) where
  relax-degrees :
      (ns : List ℕ) (degrees : ℕ → ℕ) (ready : List ℕ)
      → ((a : ℕ) → count a ns ≤ degrees a)
      → (a : ℕ) → (relax prio ns degrees ready).0 a + count a ns ≡ degrees a
  unfolding relax
  relax-degrees [] degrees ready h a = omega arith
  relax-degrees (m ∷ ns) degrees ready h a = ground (
    arith,
    h a,
    relax-degrees ns (update degrees m (degrees m - 1))
        (if degrees m - 1 == 0 then insert_ready prio m ready else ready) (λ b. ground (arith, h b))
        a,
  )

  relax-ready :
      (ns : List ℕ) (degrees : ℕ → ℕ) (ready : List ℕ)
      → ((a : ℕ) → count a ns ≤ degrees a)
      → (a : ℕ)
      → count a (relax prio ns degrees ready).1
        ≡ count a ready + (if ltb 0 (count a ns) && (degrees a == count a ns) then 1 else 0)
  unfolding relax
  relax-ready [] degrees ready h a = ground arith
  relax-ready (m ∷ ns) degrees ready h a = ground (
    arith,
    h a,
    h m,
    insert_ready-count prio m ready a,
    relax-ready ns (update degrees m (degrees m - 1))
        (if degrees m - 1 == 0 then insert_ready prio m ready else ready) (λ b. ground (arith, h b))
        a,
  )

-- The edges into `m` from stages that are not in the result yet.
abbrev pub waiting : Graph → List ℕ → ℕ → ℕ → ℕ
waiting g result m k = if count k result == 0 then count m (g.adjacency k) else 0

abbrev pub pending : Graph → ℕ → List ℕ → ℕ → ℕ
pending g n result m = sum_below n (waiting g result m)

-- An edge from `k` to `i` puts `k` at an earlier position than `i`.
abbrev pub IsOrdered : Graph → ℕ → List ℕ → Type 0
IsOrdered g n result =
    (p i k : ℕ)
    → get_elem? result p ≡ some i
    → k < n
    → 0 < count i (g.adjacency k)
    → (q : ℕ) × (q < p) × (get_elem? result q ≡ some k)

pub record IsSearch (n : ℕ) (g : Graph) (s : Search) : Type 0 where
  pub degrees : (m : ℕ) → s.degrees m ≡ pending g n s.result m
  pub settled :
      (m : ℕ)
      → count m s.ready + count m s.result ≡ (if ltb m n && (s.degrees m == 0) then 1 else 0)
  pub ordered : IsOrdered g n s.result

pending-take :
    (g : Graph) (n : ℕ) (result : List ℕ) (idx m : ℕ)
    → idx < n
    → count idx result ≡ 0
    → pending g n result m ≡ pending g n (result ++ idx ∷ []) m + count m (g.adjacency idx)
pending-take g n result idx m lt absent =
    let taken : ℕ → ℕ = λ k. if k == idx then count m (g.adjacency idx) else 0 in
    let left : ℕ → ℕ = waiting g (result ++ idx ∷ []) m in
    sum_below_congr n _ (λ k. left k + taken k)
      (λ k _. ground (arith, count-append k result (idx ∷ [])))
    ∙ sum_below-add n left taken
    ∙ omega (arith, sum_below_at n idx (count m (g.adjacency idx)) lt)

IsOrdered-append :
    (g : Graph) (n : ℕ) (result : List ℕ) (idx : ℕ)
    → pending g n result idx ≡ 0
    → IsOrdered g n result
    → IsOrdered g n (result ++ idx ∷ [])
IsOrdered-append g n result idx none_waits ordered p i k at lt edge =
    elim (Bool-cases (ltb p (length result))) [
      | inl old ↦
          let (q, before, there) =
            ordered p i k (sym (get_elem?-append_left result (idx ∷ []) p (ground arith)) ∙ at) lt
              edge in
          (q, before, get_elem?-append_left result (idx ∷ []) q (ground arith) ∙ there)
      | inr new ↦
          let (at_end, is_idx) = get_elem?-append_inv result idx p at (ground arith) in
          let (q, before, there) = count_get_elem k result (
            ground (
              arith,
              sum_below_le_term n (waiting g result idx) k lt,
              ap (λ (x : ℕ). count x (g.adjacency k)) is_idx,
            )) in
          (q, omega arith, get_elem?-append_left result (idx ∷ []) q before ∙ there)
    ]

module _ (prio : ℕ → ℤ) (n : ℕ) (g : Graph)
    (target_lt : (k m : ℕ) → 0 < count m (g.adjacency k) → m < n) where
  -- One round: taking the first ready stage keeps the invariant.
  pub take_stage-IsSearch :
      (s : Search) (idx : ℕ) (rest : List ℕ)
      → s.ready ≡ idx ∷ rest
      → IsSearch n g s
      → IsSearch n g (take_stage prio g s idx rest) × (idx < n) × (count idx s.result ≡ 0)
  unfolding take_stage
  take_stage-IsSearch s idx rest e inv =
      let ready_at : (m : ℕ) → count m s.ready ≡ indicator m idx + count m rest =
        λ m. ap (count m) e in
      let lt : idx < n = ground (arith, ready_at idx, inv.settled idx) in
      let absent : count idx s.result ≡ 0 = ground (arith, ready_at idx, inv.settled idx) in
      let enough : (m : ℕ) → count m (g.adjacency idx) ≤ s.degrees m =
        λ m. omega (arith, inv.degrees m, pending-take g n s.result idx m lt absent) in
      (
        record {
          degrees = λ m. omega (
            arith,
            inv.degrees m,
            pending-take g n s.result idx m lt absent,
            relax-degrees prio (g.adjacency idx) s.degrees rest enough m,
          );
          settled = λ m. ground (
            arith,
            inv.settled m,
            ready_at m,
            target_lt idx m,
            enough m,
            count-append m s.result (idx ∷ []),
            relax-degrees prio (g.adjacency idx) s.degrees rest enough m,
            relax-ready prio (g.adjacency idx) s.degrees rest enough m,
          );
          ordered =
              IsOrdered-append g n s.result idx
                (ground (arith, ready_at idx, inv.settled idx, inv.degrees idx)) inv.ordered;
        },
        lt,
        absent,
      )
