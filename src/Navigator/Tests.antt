-- ===== src/Navigator/Tests.antt =====
-- A root, numbered 0, with a section 1 that has a section 2.
use vectorless.Base.{
  ℕ, zero, suc, ◌≡◌, inl, refl, [], ◌∷◌, Option, none, some, ok, err, Text, arith, true,
}
use vectorless.Navigator.{
  Doc, NodeText, Navigator, at_root, parse_id, parse_u64, digits, member, resolve_optional_id,
}
use vectorless.Navigator.Moves.{new_navigator, cd, cd_up, cat, back, go_to, rebuild_breadcrumb}
use vectorless.Navigator.Invariant.{IsDoc, IsNavigator}
use vectorless.Navigator.Steps.{Reached-IsNavigator, created, after, by_cd}
use vectorless.Navigator.Back.{back-cd, cat-cat, cd_up-cd}

abbrev text_of : ℕ → Option NodeText
text_of zero = some (record { title = b't' ∷ []; content = [] })
text_of (suc n) = some (record { title = b's' ∷ []; content = b'x' ∷ [] })

abbrev parent_of : ℕ → Option ℕ
parent_of zero = none
parent_of (suc zero) = some 0
parent_of (suc (suc n)) = some 1

abbrev doc : Doc
doc = record {
  root = 0;
  traverse = 0 ∷ 1 ∷ 2 ∷ [];
  get = text_of;
  parent = parent_of;
  path_from_root = λ id. [];
  depth = λ id. id;
  child_count = λ id. 1;
  child_routes = λ id. none;
  entry = λ id. none;
  resolve_target = λ title c. none;
}

abbrev section_id : Text
section_id = b'n' ∷ b'2' ∷ []

abbrev moved : Navigator
moved = go_to (new_navigator doc) 2 (b's' ∷ [])

doc-IsDoc : IsDoc doc
doc-IsDoc = record {
  root_known = refl;
  parent_known = parents;
  target_known = λ title c id h. absurd (cc h);
}
  where
    parents :
        (id p : ℕ)
        → member doc.traverse id ≡ true
        → doc.parent id ≡ some p
        → member doc.traverse p ≡ true
    parents zero p m h = absurd (cc h)
    parents (suc zero) p m h = ground (arith, h)
    parents (suc (suc n)) p m h = ground (arith, h)

Reached-IsNavigator_example : IsNavigator doc moved
unfolding cd parse_id parse_u64 digits
Reached-IsNavigator_example =
    Reached-IsNavigator doc moved doc-IsDoc
      (after moved (created (new_navigator doc) refl) (by_cd section_id refl))

back-cd_example :
    back doc moved
    ≡ ok (record (new_navigator doc) { breadcrumb = rebuild_breadcrumb doc 0; visited = 2 ∷ [] })
unfolding cd parse_id parse_u64 digits
back-cd_example = back-cd doc (new_navigator doc) moved section_id (inl refl)

abbrev read_once : Navigator
read_once = record moved {
  collected = 2 ∷ [];
  evidence =
      record {
        node_id = 2;
        title = b's' ∷ [];
        content = b'x' ∷ [];
        source_path =
            b'r' ∷ b'o' ∷ b'o' ∷ b't' ∷ b' ' ∷ b'/' ∷ b' ' ∷ b's' ∷ b' ' ∷ b'/' ∷ b' ' ∷ b's' ∷ [];
      }
      ∷ [];
}

cat-cat_example :
    (c : Navigator) × (cat doc read_once none ≡ ok (b'x' ∷ [], c))
    × (c.evidence ≡ read_once.evidence)
unfolding cat resolve_optional_id
cat-cat_example = cat-cat doc moved read_once none (b'x' ∷ []) refl

cd_up-cd_example :
    (b c : Navigator) × (cd doc (new_navigator doc) section_id ≡ ok b)
    × (cd_up doc b ≡ ok c)
    × (c.cursor ≡ 1)
    × (cd_up doc c ≡ err at_root)
unfolding parse_id parse_u64 digits
cd_up-cd_example = cd_up-cd doc section_id 2 1 refl refl
