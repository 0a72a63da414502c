-- ===== src/Pipeline/Order/Edges.antt =====
-- The graph that `resolve_order` builds: its edges are the dependencies, and the in-degrees count
-- the edges.
use vectorless.Base.{
  ℕ, zero, suc, ◌+◌, ◌-◌, ◌≤◌, ◌<◌, ◌≡◌, refl, sym, ◌∙◌, Option, none, some, String, List, [], ◌∷◌,
  ltb, ◌==◌, length, count, count-append, indicator, sum_below, sum_below-add, sum_below_congr,
  sum_below_at, sum_below_zero, if◌then◌else◌, arith, Option-cases, inl, inr,
}
use vectorless.Pipeline.Stage.{Stages}
use vectorless.Pipeline.Order.{
  deps_at, name_to_idx_from, name_to_idx, Graph, no_edges, add_edge, add_deps, add_stages,
  build_graph,
}

-- How many of the names in a list stand for the stage `j`.
abbrev pub resolves_to : Option ℕ → ℕ → ℕ
resolves_to none j = 0
resolves_to (some k) j = indicator k j

abbrev pub dep_count : (String → Option ℕ) → ℕ → List String → ℕ
dep_count names j [] = 0
dep_count names j (d ∷ deps) = resolves_to (names d) j + dep_count names j deps

module _ {ℓ} {E : Type ℓ} where
  -- A name stands for an index in range, of a stage with that name.
  pub name_to_idx_from_range :
      (i : ℕ) (stages : Stages E) (name : String) (j : ℕ)
      → name_to_idx_from i stages name ≡ some j
      → (i ≤ j) × (j < i + length stages)
  unfolding name_to_idx_from
  name_to_idx_from_range i [] name j h = ground arith
  name_to_idx_from_range i (e ∷ stages) name j h =
      ground (arith, name_to_idx_from_range (suc i) stages name j)

  pub name_to_idx_lt :
      (stages : Stages E) (name : String) (j : ℕ)
      → name_to_idx stages name ≡ some j
      → j < length stages
  unfolding name_to_idx
  name_to_idx_lt stages name j h =
      let r = name_to_idx_from_range 0 stages name j h in omega (arith, r.1)

add_edge-count :
    (j i : ℕ) (g : Graph) (k m : ℕ)
    → count m ((add_edge j i g).adjacency k)
      ≡ count m (g.adjacency k) + (if k == j then indicator m i else 0)
unfolding add_edge
add_edge-count j i g k m = ground (arith, count-append m (g.adjacency j) (i ∷ []))

-- The edges that the dependencies of one stage add.
add_deps-count :
    (names : String → Option ℕ) (i : ℕ) (deps : List String) (g : Graph) (k m : ℕ)
    → count m ((add_deps names i deps g).adjacency k)
      ≡ count m (g.adjacency k) + (if m == i then dep_count names k deps else 0)
unfolding add_deps
add_deps-count names i [] g k m = ground arith
add_deps-count names i (d ∷ deps) g k m = elim (Option-cases (names d)) [
  | inl e ↦ rw e (ground (arith, add_deps-count names i deps g k m))
  | inr found ↦
      let (j, e) = found in
      rw e
        (ground (arith, add_deps-count names i deps (add_edge j i g) k m, add_edge-count j i g k m))
]

-- The edges from `k` to `m` of the whole graph are the dependencies of `m` that stand for `k`.
module _ {ℓ} {E : Type ℓ} where
  add_stages-count :
      (names : String → Option ℕ) (i : ℕ) (stages : Stages E) (g : Graph) (k m : ℕ)
      → count m ((add_stages names i stages g).adjacency k)
        ≡ count m (g.adjacency k)
          + (if ltb m i then 0 else dep_count names k (deps_at stages (m - i)))
  unfolding add_stages
  add_stages-count names i [] g k m = ground arith
  add_stages-count names i (e ∷ stages) g k m = ground (
    arith,
    add_stages-count names (suc i) stages (add_deps names i e.depends_on g) k m,
    add_deps-count names i e.depends_on g k m,
  )

  pub build_graph-count :
      (stages : Stages E) (k m : ℕ)
      → count m ((build_graph stages).adjacency k)
        ≡ dep_count (name_to_idx stages) k (deps_at stages m)
  build_graph-count stages k m =
      ground (arith, add_stages-count (name_to_idx stages) 0 stages no_edges k m)

-- The in-degree of a stage is the number of edges into it, and no edge leads out of range.
abbrev pub IsBalanced : ℕ → Graph → Type 0
IsBalanced n g = (m : ℕ) → g.in_degree m ≡ sum_below n (λ k. count m (g.adjacency k))

add_edge-in_degree :
    (j i : ℕ) (g : Graph) (m : ℕ) → (add_edge j i g).in_degree m ≡ g.in_degree m + indicator m i
unfolding add_edge
add_edge-in_degree j i g m = ground arith

add_edge-IsBalanced :
    (n j i : ℕ) (g : Graph) → j < n → IsBalanced n g → IsBalanced n (add_edge j i g)
add_edge-IsBalanced n j i g h b m =
    let old : ℕ → ℕ = λ k. count m (g.adjacency k) in
    let new : ℕ → ℕ = λ k. if k == j then indicator m i else 0 in
    add_edge-in_degree j i g m
    ∙ sym (
        sum_below_congr n _ (λ k. old k + new k) (λ k _. add_edge-count j i g k m)
        ∙ sum_below-add n old new
        ∙ omega (arith, sum_below_at n j (indicator m i) h, b m))

add_found-IsBalanced :
    (n i : ℕ) (g : Graph) (found : Option ℕ)
    → ((j : ℕ) → found ≡ some j → j < n)
    → IsBalanced n g
    → IsBalanced n (elim found [ some j ↦ add_edge j i g | none ↦ g ])
add_found-IsBalanced n i g none range b = b
add_found-IsBalanced n i g (some j) range b = add_edge-IsBalanced n j i g (range j refl) b

add_deps-IsBalanced :
    (n : ℕ) (names : String → Option ℕ) (i : ℕ) (deps : List String) (g : Graph)
    → ((d : String) (j : ℕ) → names d ≡ some j → j < n)
    → IsBalanced n g
    → IsBalanced n (add_deps names i deps g)
unfolding add_deps
add_deps-IsBalanced n names i [] g range b = b
add_deps-IsBalanced n names i (d ∷ deps) g range b =
    add_deps-IsBalanced n names i deps _ range (add_found-IsBalanced n i g (names d) (range d) b)

module _ {ℓ} {E : Type ℓ} where
  add_stages-IsBalanced :
      (n : ℕ) (names : String → Option ℕ) (i : ℕ) (stages : Stages E) (g : Graph)
      → ((d : String) (j : ℕ) → names d ≡ some j → j < n)
      → IsBalanced n g
      → IsBalanced n (add_stages names i stages g)
  unfolding add_stages
  add_stages-IsBalanced n names i [] g range b = b
  add_stages-IsBalanced n names i (e ∷ stages) g range b =
      add_stages-IsBalanced n names (suc i) stages (add_deps names i e.depends_on g) range
        (add_deps-IsBalanced n names i e.depends_on g range b)

  pub build_graph-IsBalanced : (stages : Stages E) → IsBalanced (length stages) (build_graph stages)
  build_graph-IsBalanced stages =
      add_stages-IsBalanced (length stages) (name_to_idx stages) 0 stages no_edges
        (name_to_idx_lt stages) (λ m. sym (sum_below_zero (length stages)))

  deps_at_off : (stages : Stages E) (m : ℕ) → length stages ≤ m → deps_at stages m ≡ []
  deps_at_off [] m h = refl
  deps_at_off (e ∷ stages) zero h = absurd (omega arith)
  deps_at_off (e ∷ stages) (suc m) h = deps_at_off stages m (omega arith)

  -- No edge leads to an index out of range.
  pub build_graph-target_lt :
      (stages : Stages E) (k m : ℕ)
      → 0 < count m ((build_graph stages).adjacency k)
      → m < length stages
  build_graph-target_lt stages k m h =
      ground (arith, build_graph-count stages k m, deps_at_off stages m)
