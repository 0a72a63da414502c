-- ===== src/Navigator/Steps.antt =====
-- The navigators that can be reached by its operations, and what holds of all of them.
use vectorless.Base.{◌≡◌, subst, Option, ok, Text, arith}
use vectorless.Navigator.{Doc, Navigator}
use vectorless.Navigator.Moves.{
  new_navigator, cd, cd_by_title, cd_up, cd_root, back, cat, collect_evidence, clear_evidence,
}
use vectorless.Navigator.Invariant.{
  IsNavigator, IsDoc, cd-IsNavigator, cd_by_title-IsNavigator, cd_up-IsNavigator, back-IsNavigator,
}
use vectorless.Navigator.Collecting.{cat-IsNavigator, collect_evidence-IsNavigator}

module _ (doc : Doc) where
  -- One operation that succeeds.
  pub data Step (a b : Navigator) : Type 0 where
    by_cd : (s : Text) → cd doc a s ≡ ok b → Step a b
    by_cd_by_title : (s : Text) → cd_by_title doc a s ≡ ok b → Step a b
    by_cd_up : cd_up doc a ≡ ok b → Step a b
    by_cd_root : cd_root doc a ≡ b → Step a b
    by_back : back doc a ≡ ok b → Step a b
    by_cat : (o : Option Text) (content : Text) → cat doc a o ≡ ok (content, b) → Step a b
    by_collect : (s : Text) → collect_evidence doc a s ≡ ok b → Step a b
    by_clear : clear_evidence a ≡ b → Step a b

  pub data Reached : Navigator → Type 0 where
    created : (a : Navigator) → new_navigator doc ≡ a → Reached a
    after : {a : Navigator} (b : Navigator) → Reached a → Step a b → Reached b

  Step-IsNavigator :
      (a b : Navigator) → IsDoc doc → Step a b → IsNavigator doc a → IsNavigator doc b
  Step-IsNavigator a b d (by_cd s h) i = cd-IsNavigator doc a b s h i
  Step-IsNavigator a b d (by_cd_by_title s h) i = cd_by_title-IsNavigator doc a b s d h i
  Step-IsNavigator a b d (by_cd_up h) i = cd_up-IsNavigator doc a b d h i
  Step-IsNavigator a b d (by_cd_root h) i = subst (IsNavigator doc) h (record {
    cursor_known = d.root_known;
    history_known = i.history_known;
    breadcrumb_some = omega arith;
    evidence_fits = i.evidence_fits;
    evidence_once = i.evidence_once;
  })
  Step-IsNavigator a b d (by_back h) i = back-IsNavigator doc a b h i
  Step-IsNavigator a b d (by_cat o content h) i = cat-IsNavigator doc a b o content h i
  Step-IsNavigator a b d (by_collect s h) i = collect_evidence-IsNavigator doc a b s h i
  Step-IsNavigator a b d (by_clear h) i = subst (IsNavigator doc) h (record {
    cursor_known = i.cursor_known;
    history_known = i.history_known;
    breadcrumb_some = i.breadcrumb_some;
    evidence_fits = tt;
    evidence_once = tt;
  })

  -- In every navigator that its operations lead to, on a document whose root, parents and
  -- resolved targets are nodes of its tree, the cursor and the history are nodes of the tree, the
  -- breadcrumb is not empty, every piece of evidence is the title and the content, not empty, of a
  -- node that is marked as collected, and no node has two pieces of evidence.
  pub Reached-IsNavigator : (a : Navigator) → IsDoc doc → Reached a → IsNavigator doc a
  Reached-IsNavigator a d (created _ h) = subst (IsNavigator doc) h (record {
    cursor_known = d.root_known;
    history_known = tt;
    breadcrumb_some = omega arith;
    evidence_fits = tt;
    evidence_once = tt;
  })
  Reached-IsNavigator _ d (after {a} b r s) = Step-IsNavigator a b d s (Reached-IsNavigator a d r)
