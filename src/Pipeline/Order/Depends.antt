-- ===== src/Pipeline/Order/Depends.antt =====
-- When one stage depends on another, said of the registered stages alone, and the edges of the
-- graph of `resolve_order`.
use vectorless.Base.{
  ℕ, zero, suc, ◌<◌, ◌≡◌, refl, sym, ◌∙◌, ap, false, Option, none, some, String, List, [], ◌∷◌,
  ◌==◌, get_elem?, count, arith, Bool-cases, inl, inr,
}
use vectorless.Pipeline.Stage.{PassEntry, Stages}
use vectorless.Pipeline.Order.{deps_at, name_to_idx, build_graph}
use vectorless.Pipeline.Order.Edges.{dep_count, resolves_to, build_graph-count}

-- The stage `i` lists a name that stands for the stage `j`.
pub record DependsOn {ℓ} {E : Type ℓ} (stages : Stages E) (i j : ℕ) : Type ℓ where
  pub entry : PassEntry E
  pub place : ℕ
  pub dep : String
  pub registered : get_elem? stages i ≡ some entry
  pub listed : get_elem? entry.depends_on place ≡ some dep
  pub resolved : name_to_idx stages dep ≡ some j

dep_count_listed :
    (names : String → Option ℕ) (j : ℕ) (deps : List String) (place : ℕ) (d : String)
    → get_elem? deps place ≡ some d
    → names d ≡ some j
    → 0 < dep_count names j deps
dep_count_listed names j [] place d h e = ground arith
dep_count_listed names j (x ∷ deps) zero d h e =
    let same : names x ≡ some j = ap names (ground arith) ∙ e in rw same (ground arith)
dep_count_listed names j (x ∷ deps) (suc place) d h e =
    omega (arith, dep_count_listed names j deps place d h e)

listed_dep_count :
    (names : String → Option ℕ) (j : ℕ) (deps : List String)
    → 0 < dep_count names j deps
    → (place : ℕ) × (d : String) × (get_elem? deps place ≡ some d) × (names d ≡ some j)
listed_dep_count names j [] h = elim h [ ]
listed_dep_count names j (x ∷ deps) h = elim (Bool-cases (resolves_to (names x) j == 0)) [
  | inl later ↦
      let (place, d, at, e) = listed_dep_count names j deps (ground arith) in (suc place, d, at, e)
  | inr here ↦ (0, x, refl, here_is (names x) here)
]
  where
    here_is : (o : Option ℕ) → (resolves_to o j == 0) ≡ false → o ≡ some j
    here_is none h = ground arith
    here_is (some k) h = ground arith

module _ {ℓ} {E : Type ℓ} where
  pub deps_at_get :
      (stages : Stages E) (i : ℕ) (e : PassEntry E)
      → get_elem? stages i ≡ some e
      → deps_at stages i ≡ e.depends_on
  deps_at_get [] i e h = ground arith
  deps_at_get (x ∷ stages) zero e h = ground arith
  deps_at_get (x ∷ stages) (suc i) e h = deps_at_get stages i e h

  deps_at_entry :
      (stages : Stages E) (i place : ℕ) (d : String)
      → get_elem? (deps_at stages i) place ≡ some d
      → (e : PassEntry E) × (get_elem? stages i ≡ some e)
  deps_at_entry [] i place d h = ground arith
  deps_at_entry (x ∷ stages) zero place d h = (x, refl)
  deps_at_entry (x ∷ stages) (suc i) place d h = deps_at_entry stages i place d h

  -- The edges of the graph are the dependencies.
  pub DependsOn-edge :
      (stages : Stages E) (i j : ℕ)
      → DependsOn stages i j
      → 0 < count i ((build_graph stages).adjacency j)
  DependsOn-edge stages i j d =
      rw (build_graph-count, deps_at_get stages i d.entry d.registered)
        (dep_count_listed (name_to_idx stages) j d.entry.depends_on d.place d.dep d.listed
          d.resolved)

  pub deps_at-DependsOn :
      (stages : Stages E) (i place : ℕ) (d : String) (j : ℕ)
      → get_elem? (deps_at stages i) place ≡ some d
      → name_to_idx stages d ≡ some j
      → DependsOn stages i j
  deps_at-DependsOn stages i place d j at e =
      let (entry, there) = deps_at_entry stages i place d at in
      record {
        entry = entry;
        place = place;
        dep = d;
        registered = there;
        listed =
            ap (λ (l : List String). get_elem? l place) (sym (deps_at_get stages i entry there))
            ∙ at;
        resolved = e;
      }

  pub edge-DependsOn :
      (stages : Stages E) (i j : ℕ)
      → 0 < count i ((build_graph stages).adjacency j)
      → DependsOn stages i j
  edge-DependsOn stages i j h =
      let (place, d, at, e) =
        listed_dep_count (name_to_idx stages) j (deps_at stages i) (rw build_graph-count at h) in
      deps_at-DependsOn stages i place d j at e
