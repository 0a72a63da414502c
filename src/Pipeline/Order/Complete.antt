-- ===== src/Pipeline/Order/Complete.antt =====
-- When `resolve_order` returns an order, and which error it returns otherwise.
use vectorless.Base.{
  ℕ, zero, suc, ◌<◌, ◌≡◌, ◌≢◌, refl, sym, ◌∙◌, ap, ◌↔◌, ◌⊎◌, Option, none, some, List, [], ◌∷◌, ltb,
  length, get_elem?, count, sum_below-count, arith, Bool-cases, Option-cases, inl, inr, String,
  sum_below_zero, sum_below_congr,
}
use vectorless.Base.{sum_below_ones, position, get_elem?-position, position-le, get_elem?_lt}
use vectorless.Pipeline.Stage.{PassEntry, Stages, stage_name}
use vectorless.Pipeline.Order.{
  ConfigError, missing_dependency, ok, err, name_to_idx, missing_dep, validate_deps, build_graph,
  kahn, resolve_order,
}
use vectorless.Pipeline.Order.Loop.{pending, waiting}
use vectorless.Pipeline.Order.Depends.{DependsOn, edge-DependsOn}
use vectorless.Pipeline.Order.Finish.{kahn-IsFinished}
use vectorless.Pipeline.Order.Sound.{
  kahn-lt, resolve_order-each_once, resolve_order-dependency_first,
}

-- A stage lists a name that no stage has.
pub record HasMissing {ℓ} {E : Type ℓ} (stages : Stages E) : Type ℓ where
  pub index : ℕ
  pub entry : PassEntry E
  pub place : ℕ
  pub dep : String
  pub registered : get_elem? stages index ≡ some entry
  pub listed : get_elem? entry.depends_on place ≡ some dep
  pub unknown : name_to_idx stages dep ≡ none

-- A ranking of the stages in which dependencies rank lower: there is one exactly if there is no
-- cycle.
abbrev pub IsRanking {ℓ} : {E : Type ℓ} → Stages E → (ℕ → ℕ) → Type ℓ
IsRanking stages rank = (i j : ℕ) → DependsOn stages i j → rank j < rank i

missing_dep_found :
    (names : String → Option ℕ) (deps : List String) (d : String)
    → missing_dep names deps ≡ some d
    → (place : ℕ) × (get_elem? deps place ≡ some d) × (names d ≡ none)
unfolding missing_dep
missing_dep_found names [] d h = ground arith
missing_dep_found names (x ∷ deps) d h = elim (Option-cases (names x)) [
  | inl e ↦ (0, ground arith, ground arith)
  | inr found ↦
      let (place, at, unknown) = missing_dep_found names deps d (ground (arith, found.1)) in
      (suc place, at, unknown)
]

missing_dep_listed :
    (names : String → Option ℕ) (deps : List String) (place : ℕ) (d : String)
    → get_elem? deps place ≡ some d
    → names d ≡ none
    → missing_dep names deps ≢ none
unfolding missing_dep
missing_dep_listed names [] place d h e = ground arith
missing_dep_listed names (x ∷ deps) zero d h e =
    let same : names x ≡ none = ap names (ground arith) ∙ e in ground arith
missing_dep_listed names (x ∷ deps) (suc place) d h e =
    ground (arith, missing_dep_listed names deps place d h e)

module _ {ℓ} {E : Type ℓ} (names : String → Option ℕ) where
  validate_deps_found :
      (stages : Stages E) (e : ConfigError)
      → validate_deps names stages ≡ some e
      → (i : ℕ) × (entry : PassEntry E) × (place : ℕ) × (d : String) × (get_elem? stages i
          ≡ some entry)
        × (get_elem? entry.depends_on place ≡ some d)
        × (names d ≡ none)
        × (e ≡ missing_dependency (stage_name entry) d)
  unfolding validate_deps
  validate_deps_found [] e h = ground arith
  validate_deps_found (x ∷ stages) e h = elim (Option-cases (missing_dep names x.depends_on)) [
    | inl fine ↦
        let (i, entry, place, d, there, at, unknown, is) =
          validate_deps_found stages e (ground arith) in
        (suc i, entry, place, d, there, at, unknown, is)
    | inr found ↦
        let (d, first) = found in
        let (place, at, unknown) = missing_dep_found names x.depends_on d first in
        (0, x, place, d, refl, at, unknown, ground arith)
  ]

  validate_deps_listed :
      (stages : Stages E) (i : ℕ) (entry : PassEntry E) (place : ℕ) (d : String)
      → get_elem? stages i ≡ some entry
      → get_elem? entry.depends_on place ≡ some d
      → names d ≡ none
      → validate_deps names stages ≢ none
  unfolding validate_deps
  validate_deps_listed [] i entry place d there at unknown = ground arith
  validate_deps_listed (x ∷ stages) zero entry place d there at unknown =
      let same : x ≡ entry = cc in
      let listed =
        missing_dep_listed names x.depends_on place d
          (ap (λ (e : PassEntry E). get_elem? e.depends_on place) same ∙ at) unknown in
      ground (arith, listed)
  validate_deps_listed (x ∷ stages) (suc i) entry place d there at unknown =
      ground (arith, validate_deps_listed stages i entry place d there at unknown)

module _ {ℓ} {E : Type ℓ} (stages : Stages E) where
  resolve_order_invalid :
      (e : ConfigError)
      → validate_deps (name_to_idx stages) stages ≡ some e
      → resolve_order stages ≡ err e
  unfolding resolve_order
  resolve_order_invalid e h = ground arith

  resolve_order_valid :
      validate_deps (name_to_idx stages) stages ≡ none
      → length (kahn stages).result ≡ length stages
      → resolve_order stages ≡ ok (kahn stages).result
  unfolding resolve_order
  resolve_order_valid h full = ground arith

  -- `resolve_order` fails for a missing dependency exactly if some stage lists a name that no
  -- stage has.
  pub resolve_order-missing_iff :
      HasMissing stages ↔ ((s d : String) × (resolve_order stages ≡ err (missing_dependency s d)))
  unfolding resolve_order
  resolve_order-missing_iff = (
    λ m. refused m (Option-cases (validate_deps names stages)),
    λ r. blamed r.2 (Option-cases (validate_deps names stages)),
  )
    where
      names : String → Option ℕ
      names = name_to_idx stages

      refused :
          HasMissing stages
          → (validate_deps names stages ≡ none)
            ⊎ ((e : ConfigError) × (validate_deps names stages ≡ some e))
          → (s d : String) × (resolve_order stages ≡ err (missing_dependency s d))
      refused m (inl fine) = absurd (
          validate_deps_listed names stages m.index m.entry m.place m.dep m.registered m.listed
            m.unknown fine)
      refused m (inr (e, found)) =
          let (i, entry, place, d, there, at, unknown, is) =
            validate_deps_found names stages e found in
          (stage_name entry, d, resolve_order_invalid e found ∙ ap err is)

      blamed :
          {s d : String}
          → resolve_order stages ≡ err (missing_dependency s d)
          → (validate_deps names stages ≡ none)
            ⊎ ((e : ConfigError) × (validate_deps names stages ≡ some e))
          → HasMissing stages
      blamed h (inl fine) = ground arith
      blamed h (inr (e, found)) =
          let (i, entry, place, d, there, at, unknown, is) =
            validate_deps_found names stages e found in
          record {
            index = i;
            entry = entry;
            place = place;
            dep = d;
            registered = there;
            listed = at;
            unknown = unknown;
          }

  -- If every dependency is registered and a ranking puts dependencies lower, each stage is taken.
  taken_below :
      (rank : ℕ → ℕ) (bound i : ℕ)
      → IsRanking stages rank
      → rank i < bound
      → i < length stages
      → count i (kahn stages).result ≡ 1
  taken_below rank zero i ranking lt range = elim lt [ ]
  taken_below rank (suc bound) i ranking lt range =
      let (inv, drained) = kahn-IsFinished stages in
      let nothing_waits : (k : ℕ)
          → k < length stages
          → waiting (build_graph stages) (kahn stages).result i k ≡ 0 =
        λ k k_lt. elim (Bool-cases (ltb 0 (count i ((build_graph stages).adjacency k)))) [
          | inl edge ↦
              let lower = ranking i k (edge-DependsOn stages i k (ground arith)) in
              let taken = taken_below rank bound k ranking (omega arith) k_lt in ground arith
          | inr no_edge ↦ ground arith
        ] in
      let no_pending : pending (build_graph stages) (length stages) (kahn stages).result i ≡ 0 =
        sum_below_congr (length stages) _ (λ k. 0) nothing_waits ∙ sum_below_zero (length stages) in
      ground (arith, inv.settled i, inv.degrees i, ap (count i) drained)

  kahn_complete :
      (rank : ℕ → ℕ) → IsRanking stages rank → length (kahn stages).result ≡ length stages
  kahn_complete rank ranking =
      sym (sum_below-count (length stages) (kahn stages).result (kahn-lt stages))
      ∙ sum_below_congr (length stages) _ (λ k. 1)
          (λ k lt. taken_below rank (suc (rank k)) k ranking (omega arith) lt)
      ∙ sum_below_ones (length stages)

  position-IsRanking :
      (order : List ℕ) → resolve_order stages ≡ ok order → IsRanking stages (λ i. position i order)
  position-IsRanking order h i j d =
      let there = get_elem?-position i order (
        ground
          (arith, resolve_order-each_once stages order h i, get_elem?_lt stages i d.registered)) in
      let (q, before, at) =
        resolve_order-dependency_first stages order i j (position i order) h d there in
      omega (arith, position-le j order q at)

  -- When no dependency is missing, `resolve_order` returns an order exactly if the dependencies
  -- have no cycle: if the stages can be ranked with each dependency below its dependent.
  pub resolve_order-acyclic_iff :
      ¬ HasMissing stages
      → ((order : List ℕ) × (resolve_order stages ≡ ok order))
        ↔ ((rank : ℕ → ℕ) × IsRanking stages rank)
  resolve_order-acyclic_iff found = (
    λ r. ((λ i. position i r.0), position-IsRanking r.0 r.1),
    λ r. ((kahn stages).result, resolve_order_valid validated (kahn_complete r.0 r.1)),
  )
    where
      fine :
          (validate_deps (name_to_idx stages) stages ≡ none)
            ⊎ ((e : ConfigError) × (validate_deps (name_to_idx stages) stages ≡ some e))
          → validate_deps (name_to_idx stages) stages ≡ none
      fine (inl none_missing) = none_missing
      fine (inr (e, invalid)) =
          let (i, entry, place, d, there, at, unknown, is) =
            validate_deps_found (name_to_idx stages) stages e invalid in
          absurd (
            found (
              resolve_order-missing_iff.1
                (stage_name entry, d, resolve_order_invalid e invalid ∙ ap err is)))

      validated : validate_deps (name_to_idx stages) stages ≡ none
      validated = fine (Option-cases (validate_deps (name_to_idx stages) stages))
