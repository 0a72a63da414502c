-- ===== src/Navigator/Back.antt =====
-- Going back, reading again, and going up.
use vectorless.Base.{
  ℕ, ◌≡◌, ◌⊎◌, refl, sym, ap, ◌∙◌, subst, Bool, true, false, not, ◌&&◌, [], ◌∷◌, ◌++◌, Option, none,
  some, Result, ok, err, Text, if◌then◌else◌, inl, inr,
}
use vectorless.Navigator.{
  NodeText, Doc, Navigator, NavError, at_root, member, set_insert, parse_id, resolve_optional_id,
  unknown_name,
}
use vectorless.Navigator.Moves.{
  new_navigator, title_or, go_to, cd_to, cd, cd_target, cd_by_title, up_to, cd_up, back_to, back,
  rebuild_breadcrumb, is_empty_text, evidence_of, cat_node, cat_at, cat,
}
use vectorless.Navigator.Ids.{ok_eq, ok≢err, member-set_insert_same}

module _ (doc : Doc) where
  -- Going back after `cd` or `cd_by_title` undoes the move: cursor, history and evidence are as
  -- they were, the breadcrumb is rebuilt for that cursor, and only the visited nodes are kept.
  pub back-cd :
      (a b : Navigator) (s : Text)
      → (cd doc a s ≡ ok b) ⊎ (cd_by_title doc a s ≡ ok b)
      → back doc b
        ≡ ok (record a { breadcrumb = rebuild_breadcrumb doc a.cursor; visited = b.visited })
  unfolding cd cd_by_title back
  back-cd a b s (inl h) = go (parse_id doc s) h
    where
      go :
          (r : Result ℕ NavError)
          → cd_to doc a r ≡ ok b
          → back_to doc b b.history
            ≡ ok (record a { breadcrumb = rebuild_breadcrumb doc a.cursor; visited = b.visited })
      go (err e) q = absurd (ok≢err q)
      go (ok id) q =
          subst
            (λ n.
              back_to doc n n.history
              ≡ ok (record a { breadcrumb = rebuild_breadcrumb doc a.cursor; visited = n.visited }))
            (ok_eq q) refl
  back-cd a b s (inr h) = go (doc.resolve_target s a.cursor) h
    where
      go :
          (o : Option ℕ)
          → cd_target doc a s o ≡ ok b
          → back_to doc b b.history
            ≡ ok (record a { breadcrumb = rebuild_breadcrumb doc a.cursor; visited = b.visited })
      go none q = absurd (ok≢err q)
      go (some id) q =
          subst
            (λ n.
              back_to doc n n.history
              ≡ ok (record a { breadcrumb = rebuild_breadcrumb doc a.cursor; visited = n.visited }))
            (ok_eq q) refl

  marked :
      (a : Navigator) (id : ℕ) (n : NodeText) (empty known : Bool)
      → member a.collected id ≡ known
      → (empty ≡ true)
        ⊎ (member
              (if not empty && not known
                then record a {
                  evidence = a.evidence ++ evidence_of a id n ∷ [];
                  collected = set_insert a.collected id;
                }
                else a).collected
              id
            ≡ true)
  marked a id n true known m = inl refl
  marked a id n false true m = inr m
  marked a id n false false m = inr (member-set_insert_same a.collected id)

  same_cursor :
      (a : Navigator) (id : ℕ) (n : NodeText) (take : Bool)
      → (if take
          then record a {
            evidence = a.evidence ++ evidence_of a id n ∷ [];
            collected = set_insert a.collected id;
          }
          else a).cursor
        ≡ a.cursor
  same_cursor a id n true = refl
  same_cursor a id n false = refl

  cat_node-cursor :
      (a b : Navigator) (id : ℕ) (n : Option NodeText) (content : Text)
      → cat_node a id n ≡ ok (content, b)
      → b.cursor ≡ a.cursor
  cat_node-cursor a b id none content h = absurd (ok≢err h)
  cat_node-cursor a b id (some n) content h =
      sym (ap (λ r. r.1.cursor) (ok_eq h))
      ∙ same_cursor a id n (not (is_empty_text n.content) && not (member a.collected id))

  cat_node_again :
      (a b : Navigator) (id : ℕ) (n : Option NodeText) (content : Text)
      → cat_node a id n ≡ ok (content, b)
      → (c : Navigator) × (cat_node b id n ≡ ok (content, c)) × (c.evidence ≡ b.evidence)
  cat_node_again a b id none content h = absurd (ok≢err h)
  cat_node_again a b id (some n) content h = end (is_empty_text n.content) (member b.collected id) (
      subst (λ (r : Navigator). (is_empty_text n.content ≡ true) ⊎ (member r.collected id ≡ true))
        (ap (λ r. r.1) (ok_eq h))
        (marked a id n (is_empty_text n.content) (member a.collected id) refl))
    where
      end :
          (empty known : Bool)
          → (empty ≡ true) ⊎ (known ≡ true)
          → let r =
              record (if not empty && not known
                then record b {
                  evidence = b.evidence ++ evidence_of b id n ∷ [];
                  collected = set_insert b.collected id;
                }
                else b) { visited = set_insert b.visited id } in
            (c : Navigator) × (◌≡◌ {A = Result (Text × Navigator) NavError}
              (ok (n.content, r))
              (ok (content, c)))
            × (c.evidence ≡ b.evidence)
      end true known e = (
        record b { visited = set_insert b.visited id },
        ap (λ t. ok (t, record b { visited = set_insert b.visited id })) (ap (λ r. r.0) (ok_eq h)),
        refl,
      )
      end false true e = (
        record b { visited = set_insert b.visited id },
        ap (λ t. ok (t, record b { visited = set_insert b.visited id })) (ap (λ r. r.0) (ok_eq h)),
        refl,
      )
      end false false (inl e) = absurd (cc e)
      end false false (inr e) = absurd (cc e)

  -- Reading a node again gives the same content and collects no further evidence.
  pub cat-cat :
      (a b : Navigator) (o : Option Text) (content : Text)
      → cat doc a o ≡ ok (content, b)
      → (c : Navigator) × (cat doc b o ≡ ok (content, c)) × (c.evidence ≡ b.evidence)
  unfolding cat resolve_optional_id
  cat-cat a b none content h =
      let (c, e, s) = cat_node_again a b a.cursor (doc.get a.cursor) content h in
      (
        c,
        ap (λ (i : ℕ). cat_node b i (doc.get i))
              (cat_node-cursor a b a.cursor (doc.get a.cursor) content h)
            ∙ e,
        s,
      )
  cat-cat a b (some s) content h = go (parse_id doc s) h
    where
      go :
          (r : Result ℕ NavError)
          → cat_at doc a r ≡ ok (content, b)
          → (c : Navigator) × (cat_at doc b r ≡ ok (content, c)) × (c.evidence ≡ b.evidence)
      go (err e) q = absurd (ok≢err q)
      go (ok id) q = cat_node_again a b id (doc.get id) content q

  -- Going up leads only as far as the breadcrumb is long: from a node that is reached with one
  -- `cd`, `cd_up` leads to its parent, and there a further `cd_up` reports that the navigator is
  -- at the root, wherever in the tree that parent stands.
  pub cd_up-cd :
      (s : Text) (id p : ℕ)
      → parse_id doc s ≡ ok id
      → doc.parent id ≡ some p
      → (b c : Navigator) × (cd doc (new_navigator doc) s ≡ ok b)
        × (cd_up doc b ≡ ok c)
        × (c.cursor ≡ p)
        × (cd_up doc c ≡ err at_root)
  unfolding cd cd_up
  cd_up-cd s id p h k =
      let b = go_to (new_navigator doc) id (title_or unknown_name (doc.get id)) in
      (
        b,
        record b { breadcrumb = (new_navigator doc).breadcrumb; cursor = p },
        ap (cd_to doc (new_navigator doc)) h,
        ap (up_to b) k,
        refl,
        refl,
      )
