-- ===== src/Pipeline/Order/Greedy.antt =====
-- `resolve_order` prefers low priorities: the ready list stays sorted by (priority, index), and
-- the loop takes its first index.
use vectorless.Base.{
  ℕ, zero, suc, ◌-◌, ◌<◌, ◌≡◌, sym, ◌∙◌, ap, Bool, true, false, ◌&&◌, ◌||◌, some, List, [], ◌∷◌,
  ◌++◌, ◌==◌, ltb, ℤ, pos, negsuc, ltb_ℤ, eqb_ℤ, length, get_elem?, get_elem?-append_left,
  get_elem?-append_inv, take, take-append_left, take-length, count, sum_below_congr, sum_below_zero,
  All, All-count, if◌then◌else◌, arith, Bool-cases, inl, inr, ◌⊎◌, subst,
}
use vectorless.Pipeline.Stage.{Stages}
use vectorless.Pipeline.Order.{
  Graph, Search, ok, update, key_lt, insert_ready, initial_ready, relax, take_stage, start, kahn,
  priority_at, build_graph, resolve_order,
}
use vectorless.Pipeline.Order.Edges.{build_graph-target_lt}
use vectorless.Pipeline.Order.Loop.{IsSearch, pending, waiting}
use vectorless.Pipeline.Order.Finish.{search_loop_induction, start-IsSearch}
use vectorless.Pipeline.Order.Depends.{DependsOn, edge-DependsOn}
use vectorless.Pipeline.Order.Sound.{resolve_order-kahn}

module _ (prio : ℕ → ℤ) where
  key_lt_asymm : (a b : ℕ) → key_lt prio a b ≡ true → key_lt prio b a ≡ false
  key_lt_asymm a b h = go (prio a) (prio b) h
    where
      go :
          (x y : ℤ)
          → (ltb_ℤ x y || (eqb_ℤ x y && ltb a b)) ≡ true
          → (ltb_ℤ y x || (eqb_ℤ y x && ltb b a)) ≡ false
      go (pos x) (pos y) h = ground arith
      go (pos x) (negsuc y) h = ground arith
      go (negsuc x) (pos y) h = ground arith
      go (negsuc x) (negsuc y) h = ground arith

  key_lt_irrefl : (a : ℕ) → key_lt prio a a ≡ false
  key_lt_irrefl a = go (prio a)
    where
      go : (x : ℤ) → (ltb_ℤ x x || (eqb_ℤ x x && ltb a a)) ≡ false
      go (pos x) = ground arith
      go (negsuc x) = ground arith

  -- Not to be smaller is transitive.
  key_lt_trans :
      (a b c : ℕ) → key_lt prio a b ≡ false → key_lt prio b c ≡ false → key_lt prio a c ≡ false
  key_lt_trans a b c = go (prio a) (prio b) (prio c)
    where
      go :
          (x y z : ℤ)
          → (ltb_ℤ x y || (eqb_ℤ x y && ltb a b)) ≡ false
          → (ltb_ℤ y z || (eqb_ℤ y z && ltb b c)) ≡ false
          → (ltb_ℤ x z || (eqb_ℤ x z && ltb a c)) ≡ false
      go (pos x) (pos y) (pos z) h k = ground arith
      go (pos x) (pos y) (negsuc z) h k = ground arith
      go (pos x) (negsuc y) (pos z) h k = ground arith
      go (pos x) (negsuc y) (negsuc z) h k = ground arith
      go (negsuc x) (pos y) (pos z) h k = ground arith
      go (negsuc x) (pos y) (negsuc z) h k = ground arith
      go (negsuc x) (negsuc y) (pos z) h k = ground arith
      go (negsuc x) (negsuc y) (negsuc z) h k = ground arith

  -- No index of the list has a smaller key than `a`.
  abbrev IsLeast : ℕ → List ℕ → Type 0
  IsLeast a = All (λ b. key_lt prio b a ≡ false)

  abbrev IsSorted : List ℕ → Type 0
  IsSorted [] = Unit
  IsSorted (x ∷ xs) = IsLeast x xs × IsSorted xs

  IsLeast-trans : (a b : ℕ) (xs : List ℕ) → key_lt prio b a ≡ false → IsLeast b xs → IsLeast a xs
  IsLeast-trans a b [] h l = tt
  IsLeast-trans a b (x ∷ xs) h l = (key_lt_trans x b a l.0 h, IsLeast-trans a b xs h l.1)

  IsLeast-insert :
      (a x : ℕ) (xs : List ℕ)
      → key_lt prio x a ≡ false
      → IsLeast a xs
      → IsLeast a (insert_ready prio x xs)
  unfolding insert_ready
  IsLeast-insert a x [] h l = (h, tt)
  IsLeast-insert a x (y ∷ ys) h l = elim (Bool-cases (key_lt prio y x)) [
    | inl lt ↦ rw lt (l.0, IsLeast-insert a x ys h l.1)
    | inr ge ↦ rw ge (h, (l.0, l.1))
  ]

  IsSorted-insert : (x : ℕ) (xs : List ℕ) → IsSorted xs → IsSorted (insert_ready prio x xs)
  unfolding insert_ready
  IsSorted-insert x [] s = (tt, tt)
  IsSorted-insert x (y ∷ ys) s = elim (Bool-cases (key_lt prio y x)) [
    | inl lt ↦ rw lt (IsLeast-insert y x ys (key_lt_asymm y x lt) s.0, IsSorted-insert x ys s.1)
    | inr ge ↦ rw ge ((ge, IsLeast-trans x y ys ge s.0), s)
  ]

  IsSorted-initial : (degrees : ℕ → ℕ) (n : ℕ) → IsSorted (initial_ready prio degrees n)
  unfolding initial_ready
  IsSorted-initial degrees zero = tt
  IsSorted-initial degrees (suc n) = elim (Bool-cases (degrees n == 0)) [
    | inl free ↦ rw free (IsSorted-insert n _ (IsSorted-initial degrees n))
    | inr bound ↦ rw bound (IsSorted-initial degrees n)
  ]

  IsSorted-relax :
      (ns : List ℕ) (degrees : ℕ → ℕ) (ready : List ℕ)
      → IsSorted ready
      → IsSorted (relax prio ns degrees ready).1
  unfolding relax
  IsSorted-relax [] degrees ready s = s
  IsSorted-relax (m ∷ ns) degrees ready s =
      IsSorted-relax ns (update degrees m (degrees m - 1)) _ (kept (degrees m - 1 == 0))
    where
      kept : (b : Bool) → IsSorted (if b then insert_ready prio m ready else ready)
      kept true = IsSorted-insert m ready s
      kept false = s

  -- Each index of the result has the least key of those that could be taken then: those not taken
  -- before it, all of whose edges come from indices taken before it.
  abbrev IsGreedy : Graph → ℕ → List ℕ → Type 0
  IsGreedy g n result =
      (p x y : ℕ)
      → get_elem? result p ≡ some x
      → y < n
      → count y (take p result) ≡ 0
      → ((k : ℕ) → k < n → 0 < count y (g.adjacency k) → 0 < count k (take p result))
      → key_lt prio y x ≡ false

  record IsPrompt (n : ℕ) (g : Graph) (s : Search) : Type 0 where
    sorted : IsSorted s.ready
    greedy : IsGreedy g n s.result

  no_pending :
      (g : Graph) (n : ℕ) (result : List ℕ) (y : ℕ)
      → ((k : ℕ) → k < n → 0 < count y (g.adjacency k) → 0 < count k result)
      → pending g n result y ≡ 0
  no_pending g n result y before =
      sum_below_congr n (waiting g result y) (λ k. 0)
        (λ k lt. placed k lt (Bool-cases (ltb 0 (count y (g.adjacency k)))))
      ∙ sum_below_zero n
    where
      placed :
          (k : ℕ)
          → k < n
          → (ltb 0 (count y (g.adjacency k)) ≡ true) ⊎ (ltb 0 (count y (g.adjacency k)) ≡ false)
          → waiting g result y k ≡ 0
      placed k lt (inl edge) = let is = before k lt (ground arith) in ground arith
      placed k lt (inr no_edge) = ground arith

  take_stage-IsPrompt :
      (n : ℕ) (g : Graph) (s : Search) (idx : ℕ) (rest : List ℕ)
      → s.ready ≡ idx ∷ rest
      → IsSearch n g s
      → IsPrompt n g s
      → IsPrompt n g (take_stage prio g s idx rest)
  unfolding take_stage
  take_stage-IsPrompt n g s idx rest e inv prompt =
      let sorted : IsSorted (idx ∷ rest) = subst IsSorted e prompt.sorted in
      record {
        sorted = IsSorted-relax (g.adjacency idx) s.degrees rest sorted.1;
        greedy = λ p x y at lt absent before. elim (Bool-cases (ltb p (length s.result))) [
          | inl old ↦
              let same = take-append_left s.result (idx ∷ []) p (ground arith) in
              prompt.greedy p x y
                (sym (get_elem?-append_left s.result (idx ∷ []) p (ground arith)) ∙ at) lt
                (ap (count y) (sym same) ∙ absent)
                (λ k k_lt edge. subst (λ (l : List ℕ). 0 < count k l) same (before k k_lt edge))
          | inr new ↦
              let (at_end, is_idx) = get_elem?-append_inv s.result idx p at (ground arith) in
              let same : take p (s.result ++ idx ∷ []) ≡ s.result =
                take-append_left s.result (idx ∷ []) p (omega arith)
                ∙ ap (λ (q : ℕ). take q s.result) at_end
                ∙ take-length s.result in
              let absent' : count y s.result ≡ 0 = ap (count y) (sym same) ∙ absent in
              let free =
                no_pending g n s.result y (λ k k_lt edge.
                  subst (λ (l : List ℕ). 0 < count k l) same (before k k_lt edge)) in
              let waits : 0 < count y (idx ∷ rest) =
                subst (λ (l : List ℕ). 0 < count y l) e
                  (ground (arith, inv.settled y, inv.degrees y)) in
              subst (λ (z : ℕ). key_lt prio y z ≡ false) (sym is_idx)
                (All-count (λ z. key_lt prio z idx ≡ false) (idx ∷ rest) y
                  (key_lt_irrefl idx, sorted.0) waits)
        ];
      }

module _ {ℓ} {E : Type ℓ} (stages : Stages E) where
  start-IsPrompt : IsPrompt (priority_at stages) (length stages) (build_graph stages) (start stages)
  unfolding start
  start-IsPrompt = record {
    sorted = IsSorted-initial (priority_at stages) (build_graph stages).in_degree (length stages);
    greedy = λ p x y at lt absent before. ground arith;
  }

  kahn-IsPrompt : IsPrompt (priority_at stages) (length stages) (build_graph stages) (kahn stages)
  unfolding kahn
  kahn-IsPrompt =
      search_loop_induction (priority_at stages) (length stages) (build_graph stages)
        (build_graph-target_lt stages)
        (IsPrompt (priority_at stages) (length stages) (build_graph stages))
        (take_stage-IsPrompt (priority_at stages) (length stages) (build_graph stages))
        (length stages) (start stages) (start-IsSearch stages) start-IsPrompt

  -- At each position of an order that `resolve_order` returns, no stage has a smaller pair of
  -- priority and index than the stage there, among those that are not placed before the position
  -- and all of whose dependencies are.
  pub resolve_order-least_priority :
      (order : List ℕ) (p x y : ℕ)
      → resolve_order stages ≡ ok order
      → get_elem? order p ≡ some x
      → y < length stages
      → count y (take p order) ≡ 0
      → ((k : ℕ) → DependsOn stages y k → 0 < count k (take p order))
      → key_lt (priority_at stages) y x ≡ false
  resolve_order-least_priority order p x y h at lt absent before =
      let (is, _) = resolve_order-kahn stages order h in
      let least : IsGreedy (priority_at stages) (build_graph stages) (length stages) order =
        subst (IsGreedy (priority_at stages) (build_graph stages) (length stages)) is
          kahn-IsPrompt.greedy in
      least p x y at lt absent (λ k _ edge. before k (edge-DependsOn stages y k edge))
