-- ===== src/Navigator/Collecting.antt =====
-- Reading and collecting keep what holds of a navigator.
use vectorless.Base.{
  ℕ, ◌≡◌, refl, sym, ap, ◌∙◌, subst, Bool, true, false, not, ◌&&◌, List, [], ◌∷◌, ◌++◌, Option,
  none, some, Result, ok, err, ◌==◌, ==_iff, Text, if◌then◌else◌, if_true, if_false, Bool-cases,
  inl, inr, All-append_one, All-mono,
}
use vectorless.Navigator.{
  NodeText, Doc, CollectedEvidence, Navigator, NavError, member, set_insert, parse_id,
  resolve_optional_id,
}
use vectorless.Navigator.Moves.{
  is_empty_text, evidence_of, cat_node, cat_at, cat, collect_node, collect_at, collect_evidence,
}
use vectorless.Navigator.Ids.{ok_eq, ok≢err, member-set_insert, member-set_insert_same}
use vectorless.Navigator.Invariant.{IsNavigator, Fits, Distinct-append_one}

module _ (doc : Doc) where
  Fits-set_insert :
      (collected : List ℕ) (id : ℕ) (e : CollectedEvidence)
      → Fits doc collected e
      → Fits doc (set_insert collected id) e
  Fits-set_insert collected id e (m, n, g, t, c, full) =
      (member-set_insert collected id e.node_id m, n, g, t, c, full)

  -- A new piece of evidence, of a node that was not collected.
  collected-IsNavigator :
      (a : Navigator) (id : ℕ) (n : NodeText)
      → doc.get id ≡ some n
      → is_empty_text n.content ≡ false
      → member a.collected id ≡ false
      → IsNavigator doc a
      → IsNavigator doc (record a {
        evidence = a.evidence ++ evidence_of a id n ∷ [];
        collected = set_insert a.collected id;
      })
  collected-IsNavigator a id n g full new i = record {
    cursor_known = i.cursor_known;
    history_known = i.history_known;
    breadcrumb_some = i.breadcrumb_some;
    evidence_fits =
        All-append_one (Fits doc (set_insert a.collected id)) a.evidence (evidence_of a id n)
          (All-mono a.evidence (λ e f. Fits-set_insert a.collected id e f) i.evidence_fits)
          (member-set_insert_same a.collected id, n, g, refl, refl, full);
    evidence_once =
        Distinct-append_one a.evidence (evidence_of a id n) i.evidence_once
          (All-mono a.evidence (λ e f. other e f) i.evidence_fits);
  }
    where
      other : (e : CollectedEvidence) → Fits doc a.collected e → (e.node_id == id) ≡ false
      other e f = elim (Bool-cases (e.node_id == id)) [
        | inr t ↦ t
        | inl t ↦
            let same : e.node_id ≡ id = (==_iff e.node_id id).0 t in
            absurd (cc (ap (member a.collected) same, f.0, new))
      ]

  visited-IsNavigator :
      (a : Navigator) (visited : List ℕ)
      → IsNavigator doc a
      → IsNavigator doc (record a { visited = visited })
  visited-IsNavigator a visited i = record {
    cursor_known = i.cursor_known;
    history_known = i.history_known;
    breadcrumb_some = i.breadcrumb_some;
    evidence_fits = i.evidence_fits;
    evidence_once = i.evidence_once;
  }

  marked-IsNavigator :
      (a : Navigator) (id : ℕ)
      → IsNavigator doc a
      → IsNavigator doc (record a { collected = set_insert a.collected id })
  marked-IsNavigator a id i = record {
    cursor_known = i.cursor_known;
    history_known = i.history_known;
    breadcrumb_some = i.breadcrumb_some;
    evidence_fits = All-mono a.evidence (λ e f. Fits-set_insert a.collected id e f) i.evidence_fits;
    evidence_once = i.evidence_once;
  }

  pub cat-IsNavigator :
      (a b : Navigator) (o : Option Text) (content : Text)
      → cat doc a o ≡ ok (content, b)
      → IsNavigator doc a
      → IsNavigator doc b
  unfolding cat
  cat-IsNavigator a b o content h i = go (resolve_optional_id doc a o) h
    where
      end :
          (id : ℕ) (n : NodeText)
          → doc.get id ≡ some n
          → (empty known : Bool) → is_empty_text n.content ≡ empty
          → member a.collected id ≡ known
          → IsNavigator doc
              (record (if not empty && not known
                then record a {
                  evidence = a.evidence ++ evidence_of a id n ∷ [];
                  collected = set_insert a.collected id;
                }
                else a) { visited = set_insert a.visited id })
      end id n g true known e m = visited-IsNavigator a (set_insert a.visited id) i
      end id n g false true e m = visited-IsNavigator a (set_insert a.visited id) i
      end id n g false false e m =
          visited-IsNavigator
            (record a {
              evidence = a.evidence ++ evidence_of a id n ∷ [];
              collected = set_insert a.collected id;
            })
            (set_insert a.visited id) (collected-IsNavigator a id n g e m i)

      node_at :
          (id : ℕ) (n : Option NodeText)
          → doc.get id ≡ n
          → cat_node a id n ≡ ok (content, b)
          → IsNavigator doc b
      node_at id none g q = absurd (ok≢err q)
      node_at id (some n) g q =
          subst (IsNavigator doc) (ap (λ r. r.1) (ok_eq q))
            (end id n g (is_empty_text n.content) (member a.collected id) refl refl)

      go : (r : Result ℕ NavError) → cat_at doc a r ≡ ok (content, b) → IsNavigator doc b
      go (err e) q = absurd (ok≢err q)
      go (ok id) q = node_at id (doc.get id) refl q

  pub collect_evidence-IsNavigator :
      (a b : Navigator) (s : Text)
      → collect_evidence doc a s ≡ ok b
      → IsNavigator doc a
      → IsNavigator doc b
  unfolding collect_evidence
  collect_evidence-IsNavigator a b s h i = go (parse_id doc s) h
    where
      end :
          (id : ℕ) (n : NodeText)
          → doc.get id ≡ some n
          → member a.collected id ≡ false
          → (empty : Bool) → is_empty_text n.content ≡ empty
          → IsNavigator doc (record a {
            evidence = if empty then a.evidence else a.evidence ++ evidence_of a id n ∷ [];
            collected = set_insert a.collected id;
            visited = set_insert a.visited id;
          })
      end id n g m true e =
          visited-IsNavigator (record a { collected = set_insert a.collected id })
            (set_insert a.visited id) (marked-IsNavigator a id i)
      end id n g m false e =
          visited-IsNavigator
            (record a {
              evidence = a.evidence ++ evidence_of a id n ∷ [];
              collected = set_insert a.collected id;
            })
            (set_insert a.visited id) (collected-IsNavigator a id n g e m i)

      node_at :
          (id : ℕ) (n : Option NodeText)
          → doc.get id ≡ n
          → member a.collected id ≡ false
          → collect_node a id n ≡ ok b
          → IsNavigator doc b
      node_at id none g m q = absurd (ok≢err q)
      node_at id (some n) g m q =
          subst (IsNavigator doc) (ok_eq q) (end id n g m (is_empty_text n.content) refl)

      go : (r : Result ℕ NavError) → collect_at doc a r ≡ ok b → IsNavigator doc b
      go (err e) q = absurd (ok≢err q)
      go (ok id) q = elim (Bool-cases (member a.collected id)) [
        | inl t ↦ subst (IsNavigator doc) (ok_eq (sym (if_true _ _ t) ∙ q)) i
        | inr f ↦ node_at id (doc.get id) refl f (sym (if_false _ _ f) ∙ q)
      ]
