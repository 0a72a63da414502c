-- ===== src/Frontend/Tests.antt =====
-- Three nested headings, and a tree that records the calls that build it.
use vectorless.Base.{ℕ, suc, ◌≡◌, refl, Bool, String, List, [], ◌∷◌, ◌++◌, some, length, str_eq}
use vectorless.Frontend.Nodes.{RawNode, default_node, enabled_thinning}
use vectorless.Frontend.Thinning.{apply_thinning}
use vectorless.Frontend.Thinning.Kept.{EachKept, apply_thinning-EachKept}
use vectorless.Frontend.Tree.{
  TreeOps, build_tree, build_loop, find_parent, slot, push_level, clear_slots, add_node,
}
use vectorless.Frontend.Tree.Nearest.{attach, build_tree-attach}

abbrev node_at : String → ℕ → ℕ → RawNode
node_at text level tokens = record default_node {
  title = text;
  content = text;
  level = level;
  token_count = some tokens;
  total_token_count = some tokens;
}

abbrev a : RawNode
a = node_at "a" 1 10

abbrev b : RawNode
b = node_at "b" 2 20

abbrev c : RawNode
c = node_at "c" 3 30

abbrev blank : String → Bool
blank text = str_eq text ""

abbrev join_with : String → String → String
join_with x y = y

apply_thinning-EachKept_example :
    EachKept (apply_thinning blank join_with (a ∷ b ∷ c ∷ []) (enabled_thinning 500))
apply_thinning-EachKept_example =
    apply_thinning-EachKept blank join_with (a ∷ b ∷ c ∷ []) (enabled_thinning 500)

-- A tree as the list of its nodes' titles with their parents' numbers, and its size.
abbrev recorded : TreeOps (List (ℕ × String)) ℕ
recorded = record {
  new = λ title content. [];
  root = λ tree. 0;
  add_child = λ tree parent title content. (tree ++ (parent, title) ∷ [], suc (length tree));
  set_line_indices = λ tree id start end. tree;
  set_page_boundaries = λ tree id start end. tree;
  set_token_count = λ tree id n. tree;
}

parents :
    build_tree recorded (a ∷ c ∷ b ∷ c ∷ a ∷ []) "doc"
    ≡ (0, "a") ∷ (1, "c") ∷ (1, "b") ∷ (3, "c") ∷ (0, "a") ∷ []
unfolding build_tree build_loop find_parent slot push_level clear_slots add_node
parents = refl

build_tree-attach_example :
    build_tree recorded (a ∷ c ∷ b ∷ []) "doc" ≡ attach recorded (a ∷ c ∷ b ∷ []) ((0, 0) ∷ []) []
build_tree-attach_example = build_tree-attach recorded (a ∷ c ∷ b ∷ []) "doc"
