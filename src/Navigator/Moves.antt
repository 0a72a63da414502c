-- ===== src/Navigator/Moves.antt =====
-- The operations of the navigator: moving, reading, collecting evidence, and looking around.
use vectorless.Base.{
  ℕ, Bool, true, false, not, ◌&&◌, List, [], ◌∷◌, ◌++◌, Option, none, some, Result, ok, err, leb,
  map, length, Text, if◌then◌else◌,
}
use vectorless.Navigator.{
  NodeText, ChildRoute, NavEntry, NodeInfo, Doc, CollectedEvidence, Navigator, NavError,
  target_not_found, at_root, no_parent, no_previous, node_not_found, member, set_insert, root_name,
  unknown_name, separator, join, parse_id, resolve_optional_id,
}

-- `DocumentNavigator::new`
abbrev pub new_navigator : Doc → Navigator
new_navigator doc = record {
  cursor = doc.root;
  breadcrumb = root_name ∷ [];
  history = [];
  visited = [];
  collected = [];
  evidence = [];
}

-- `tree.get(id).map(|n| n.title).unwrap_or(default)`
abbrev pub title_or : Text → Option NodeText → Text
title_or default none = default
title_or default (some n) = n.title

-- The common end of `cd` and `cd_by_title`.
abbrev pub go_to : Navigator → ℕ → Text → Navigator
go_to nav id title = record nav {
  visited = set_insert nav.visited id;
  history = nav.cursor ∷ nav.history;
  cursor = id;
  breadcrumb = nav.breadcrumb ++ title ∷ [];
}

abbrev pub cd_to : Doc → Navigator → Result ℕ NavError → Result Navigator NavError
cd_to doc nav (err e) = err e
cd_to doc nav (ok id) = ok (go_to nav id (title_or unknown_name (doc.get id)))

unfoldable pub cd : Doc → Navigator → Text → Result Navigator NavError
unfolding parse_id
cd doc nav node_id = cd_to doc nav (parse_id doc node_id)

abbrev pub cd_target : Doc → Navigator → Text → Option ℕ → Result Navigator NavError
cd_target doc nav title none = err (target_not_found title)
cd_target doc nav title (some id) = ok (go_to nav id (title_or title (doc.get id)))

unfoldable pub cd_by_title : Doc → Navigator → Text → Result Navigator NavError
cd_by_title doc nav title = cd_target doc nav title (doc.resolve_target title nav.cursor)

-- `Vec::pop`, with the value dropped
abbrev pub drop_last : List Text → List Text
drop_last [] = []
drop_last (x ∷ []) = []
drop_last (x ∷ y ∷ xs) = x ∷ drop_last (y ∷ xs)

abbrev pub up_to : Navigator → Option ℕ → Result Navigator NavError
up_to nav none = err no_parent
up_to nav (some parent) = ok (record nav { breadcrumb = drop_last nav.breadcrumb; cursor = parent })

unfoldable pub cd_up : Doc → Navigator → Result Navigator NavError
cd_up doc nav =
    if leb (length nav.breadcrumb) 1 then err at_root else up_to nav (doc.parent nav.cursor)

abbrev pub cd_root : Doc → Navigator → Navigator
cd_root doc nav = record nav { cursor = doc.root; breadcrumb = root_name ∷ [] }

-- `filter_map` of the titles
abbrev pub titles : Doc → List ℕ → List Text
titles doc [] = []
titles doc (id ∷ ids) =
    let rest = titles doc ids in elim (doc.get id) [ none ↦ rest | some n ↦ n.title ∷ rest ]

abbrev pub skip_first : List ℕ → List ℕ
skip_first [] = []
skip_first (x ∷ xs) = xs

-- `_rebuild_breadcrumb`
abbrev pub rebuild_breadcrumb : Doc → ℕ → List Text
rebuild_breadcrumb doc cursor = root_name ∷ titles doc (skip_first (doc.path_from_root cursor))

abbrev pub back_to : Doc → Navigator → List ℕ → Result Navigator NavError
back_to doc nav [] = err no_previous
back_to doc nav (prev ∷ history) =
    ok (record nav { history = history; cursor = prev; breadcrumb = rebuild_breadcrumb doc prev })

unfoldable pub back : Doc → Navigator → Result Navigator NavError
back doc nav = back_to doc nav nav.history

abbrev pub pwd : Navigator → Text
pwd nav = join nav.breadcrumb

abbrev pub is_empty_text : Text → Bool
is_empty_text [] = true
is_empty_text (c ∷ cs) = false

-- The evidence of a node, with the path on which it was read.
abbrev pub evidence_of : Navigator → ℕ → NodeText → CollectedEvidence
evidence_of nav id n = record {
  node_id = id;
  title = n.title;
  content = n.content;
  source_path = join nav.breadcrumb ++ (separator ++ n.title);
}

abbrev pub cat_node : Navigator → ℕ → Option NodeText → Result (Text × Navigator) NavError
cat_node nav id none = err node_not_found
cat_node nav id (some n) = ok (
  n.content,
  record (if not (is_empty_text n.content) && not (member nav.collected id)
      then record nav {
        evidence = nav.evidence ++ evidence_of nav id n ∷ [];
        collected = set_insert nav.collected id;
      }
      else nav) { visited = set_insert nav.visited id },
)

abbrev pub cat_at : Doc → Navigator → Result ℕ NavError → Result (Text × Navigator) NavError
cat_at doc nav (err e) = err e
cat_at doc nav (ok id) = cat_node nav id (doc.get id)

unfoldable pub cat : Doc → Navigator → Option Text → Result (Text × Navigator) NavError
unfolding resolve_optional_id
cat doc nav node_id = cat_at doc nav (resolve_optional_id doc nav node_id)

abbrev pub collect_node : Navigator → ℕ → Option NodeText → Result Navigator NavError
collect_node nav id none = err node_not_found
collect_node nav id (some n) = ok (record nav {
  evidence =
      if is_empty_text n.content then nav.evidence else nav.evidence ++ evidence_of nav id n ∷ [];
  collected = set_insert nav.collected id;
  visited = set_insert nav.visited id;
})

abbrev pub collect_at : Doc → Navigator → Result ℕ NavError → Result Navigator NavError
collect_at doc nav (err e) = err e
collect_at doc nav (ok id) =
    if member nav.collected id then ok nav else collect_node nav id (doc.get id)

unfoldable pub collect_evidence : Doc → Navigator → Text → Result Navigator NavError
unfolding parse_id
collect_evidence doc nav node_id = collect_at doc nav (parse_id doc node_id)

abbrev pub clear_evidence : Navigator → Navigator
clear_evidence nav = record nav { evidence = []; collected = [] }

-- `get_entry(…).map(…).unwrap_or_default()`
abbrev pub entry_or : Option NavEntry → NavEntry
entry_or none = record { question_hints = []; topic_tags = []; leaf_count = 0 }
entry_or (some e) = e

abbrev pub node_info : Doc → ChildRoute → NodeInfo
node_info doc route =
    let e = entry_or (doc.entry route.node_id) in
    record {
      id = route.node_id;
      title = route.title;
      depth = doc.depth route.node_id;
      child_count = doc.child_count route.node_id;
      leaf_count = e.leaf_count;
      question_hints = e.question_hints;
      topic_tags = e.topic_tags;
    }

abbrev pub infos_of : Doc → Option (List ChildRoute) → List NodeInfo
infos_of doc none = []
infos_of doc (some routes) = map (node_info doc) routes

unfoldable pub ls : Doc → Navigator → List NodeInfo
ls doc nav = infos_of doc (doc.child_routes nav.cursor)

abbrev pub children_at : Doc → Result ℕ NavError → Result (List NodeInfo) NavError
children_at doc (err e) = err e
children_at doc (ok id) = ok (infos_of doc (doc.child_routes id))

-- `children_of`
unfoldable pub list_children : Doc → Text → Result (List NodeInfo) NavError
unfolding parse_id
list_children doc node_id = children_at doc (parse_id doc node_id)
