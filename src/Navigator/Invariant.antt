-- ===== src/Navigator/Invariant.antt =====
-- What holds of a navigator, and that moving keeps it.
use vectorless.Base.{
  ℕ, ◌+◌, ◌<◌, ◌≡◌, refl, sym, ◌∙◌, subst, true, false, List, [], ◌∷◌, ◌++◌, Option, none, some,
  Result, ok, err, leb, ◌==◌, length, length-append, Text, All, if_true, if_false, Bool-cases, inl,
  inr, arith, ◌⊎◌, All-append_one,
}
use vectorless.Navigator.{
  NodeText, Doc, CollectedEvidence, Navigator, NavError, member, parse_id, unknown_name,
}
use vectorless.Navigator.Moves.{
  title_or, go_to, cd_to, cd, cd_target, cd_by_title, up_to, cd_up, back_to, back, is_empty_text,
  drop_last,
}
use vectorless.Navigator.Ids.{ok_eq, ok≢err, parse_id-member}

-- No node has two pieces of evidence.
abbrev pub Distinct : List CollectedEvidence → Type 0
Distinct [] = Unit
Distinct (e ∷ es) = All (λ x. (x.node_id == e.node_id) ≡ false) es × Distinct es

pub Distinct-append_one :
    (es : List CollectedEvidence) (e : CollectedEvidence)
    → Distinct es
    → All (λ x. (x.node_id == e.node_id) ≡ false) es
    → Distinct (es ++ e ∷ [])
Distinct-append_one [] e d a = (tt, tt)
Distinct-append_one (x ∷ es) e (f, d) (p, a) = (
  All-append_one (λ y. (y.node_id == x.node_id) ≡ false) es e f (ground (arith, p)),
  Distinct-append_one es e d a,
)

module _ (doc : Doc) where
  -- What the navigator relies on: the root, parents and resolved targets are nodes of the tree.
  pub record IsDoc : Type 0 where
    pub root_known : member doc.traverse doc.root ≡ true
    pub parent_known :
        (id p : ℕ)
        → member doc.traverse id ≡ true
        → doc.parent id ≡ some p
        → member doc.traverse p ≡ true
    pub target_known :
        (title : Text) (c id : ℕ)
        → doc.resolve_target title c ≡ some id
        → member doc.traverse id ≡ true

  -- A piece of evidence is the text of a node that is marked as collected.
  abbrev pub Fits : List ℕ → CollectedEvidence → Type 0
  Fits collected e =
      (member collected e.node_id ≡ true)
      × (n : NodeText) × (doc.get e.node_id ≡ some n)
      × (e.title ≡ n.title)
      × (e.content ≡ n.content)
      × (is_empty_text n.content ≡ false)

  pub record IsNavigator (nav : Navigator) : Type 0 where
    pub cursor_known : member doc.traverse nav.cursor ≡ true
    pub history_known : All (λ id. member doc.traverse id ≡ true) nav.history
    pub breadcrumb_some : 0 < length nav.breadcrumb
    pub evidence_fits : All (Fits nav.collected) nav.evidence
    pub evidence_once : Distinct nav.evidence

  go_to-IsNavigator :
      (nav : Navigator) (id : ℕ) (title : Text)
      → member doc.traverse id ≡ true
      → IsNavigator nav
      → IsNavigator (go_to nav id title)
  go_to-IsNavigator nav id title known i = record {
    cursor_known = known;
    history_known = (i.cursor_known, i.history_known);
    breadcrumb_some = omega (arith, length-append nav.breadcrumb (title ∷ []));
    evidence_fits = i.evidence_fits;
    evidence_once = i.evidence_once;
  }

  pub cd-IsNavigator :
      (a b : Navigator) (s : Text) → cd doc a s ≡ ok b → IsNavigator a → IsNavigator b
  unfolding cd
  cd-IsNavigator a b s h i = go (parse_id doc s) refl h
    where
      go : (r : Result ℕ NavError) → parse_id doc s ≡ r → cd_to doc a r ≡ ok b → IsNavigator b
      go (err e) p q = absurd (ok≢err q)
      go (ok id) p q = subst IsNavigator (ok_eq q) (
          go_to-IsNavigator a id (title_or unknown_name (doc.get id)) (parse_id-member doc s id p)
            i)

  pub cd_by_title-IsNavigator :
      (a b : Navigator) (s : Text)
      → IsDoc
      → cd_by_title doc a s ≡ ok b
      → IsNavigator a
      → IsNavigator b
  unfolding cd_by_title
  cd_by_title-IsNavigator a b s d h i = go (doc.resolve_target s a.cursor) refl h
    where
      go :
          (o : Option ℕ)
          → doc.resolve_target s a.cursor ≡ o
          → cd_target doc a s o ≡ ok b
          → IsNavigator b
      go none p q = absurd (ok≢err q)
      go (some id) p q =
          subst IsNavigator (ok_eq q)
            (go_to-IsNavigator a id (title_or s (doc.get id)) (d.target_known s a.cursor id p) i)

  length-drop_last : (xs : List Text) → length (drop_last xs) + 1 ≡ length xs ⊎ (xs ≡ [])
  length-drop_last [] = inr refl
  length-drop_last (x ∷ []) = inl (omega arith)
  length-drop_last (x ∷ y ∷ xs) = elim (length-drop_last (y ∷ xs)) [
    | inl e ↦ inl (omega (arith, e))
    | inr e ↦ absurd (ground (arith, e))
  ]

  pub cd_up-IsNavigator :
      (a b : Navigator) → IsDoc → cd_up doc a ≡ ok b → IsNavigator a → IsNavigator b
  unfolding cd_up
  cd_up-IsNavigator a b d h i = elim (Bool-cases (leb (length a.breadcrumb) 1)) [
    | inl t ↦ absurd (ok≢err (sym (if_true _ _ t) ∙ h))
    | inr f ↦ go f (doc.parent a.cursor) refl (sym (if_false _ _ f) ∙ h)
  ]
    where
      go :
          leb (length a.breadcrumb) 1 ≡ false
          → (o : Option ℕ) → doc.parent a.cursor ≡ o
          → up_to a o ≡ ok b
          → IsNavigator b
      go f none p q = absurd (ok≢err q)
      go f (some parent) p q = subst IsNavigator (ok_eq q) (record {
        cursor_known = d.parent_known a.cursor parent i.cursor_known p;
        history_known = i.history_known;
        breadcrumb_some = elim (length-drop_last a.breadcrumb) [
          | inl e ↦ ground (arith, f, e)
          | inr e ↦ ground (arith, f, e)
        ];
        evidence_fits = i.evidence_fits;
        evidence_once = i.evidence_once;
      })

  pub back-IsNavigator : (a b : Navigator) → back doc a ≡ ok b → IsNavigator a → IsNavigator b
  unfolding back
  back-IsNavigator a b h i = go a.history h i.history_known
    where
      go :
          (l : List ℕ)
          → back_to doc a l ≡ ok b
          → All (λ id. member doc.traverse id ≡ true) l
          → IsNavigator b
      go [] q k = absurd (ok≢err q)
      go (prev ∷ history) q (k, ks) = subst IsNavigator (ok_eq q) (record {
        cursor_known = k;
        history_known = ks;
        breadcrumb_some = omega arith;
        evidence_fits = i.evidence_fits;
        evidence_once = i.evidence_once;
      })
