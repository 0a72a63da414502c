-- ===== src/Frontend/Tree/Nearest.antt =====
-- The parent of a node, described by the nodes that were added before it.
use vectorless.Base.{
  ℕ, zero, suc, ◌≡◌, refl, sym, ap, ◌∙◌, String, List, [], ◌∷◌, Option, none, some, leb, ltb, ◌==◌,
  if◌then◌else◌, arith, Option-cases, inl, inr,
}
use vectorless.Frontend.Nodes.{RawNode}
use vectorless.Frontend.Tree.{
  TreeOps, slot, find_parent, clear_slots, push_level, add_node, or_root, build_loop, build_tree,
}

module _ {NodeId : Type 0} where
  -- The nodes added so far with their levels, the last one first.
  -- The last one with a lower level.
  unfoldable pub nearest : List (ℕ × NodeId) → ℕ → Option NodeId
  nearest [] level = none
  nearest ((l, id) ∷ before) level =
      let rest = nearest before level in if ltb l level then some id else rest

  -- What the slot of a level holds: the last node that is not deeper, if it has just that level.
  held : List (ℕ × NodeId) → ℕ → Option NodeId
  held [] level = none
  held ((l, id) ∷ before) level =
      let rest = held before level in
      if leb l level then (if l == level then some id else none) else rest

  slot-nil : (l : ℕ) → slot {NodeId = NodeId} [] l ≡ none
  unfolding slot
  slot-nil l = refl

  slot-clear : (stack : List (Option NodeId)) (l : ℕ) → slot (clear_slots stack) l ≡ none
  unfolding slot clear_slots
  slot-clear [] l = refl
  slot-clear (o ∷ stack) zero = refl
  slot-clear (o ∷ stack) (suc l) = slot-clear stack l

  slot-push :
      (stack : List (Option NodeId)) (level : ℕ) (id : NodeId) (l : ℕ)
      → slot (push_level stack level id) l
        ≡ (if leb level l then (if level == l then some id else none) else slot stack l)
  unfolding slot push_level
  slot-push [] zero id zero = refl
  slot-push [] zero id (suc l) = ground arith
  slot-push (o ∷ stack) zero id zero = refl
  slot-push (o ∷ stack) zero id (suc l) = ground (arith, slot-clear stack l)
  slot-push [] (suc level) id zero = ground arith
  slot-push [] (suc level) id (suc l) = ground (arith, slot-push [] level id l)
  slot-push (o ∷ stack) (suc level) id zero = ground arith
  slot-push (o ∷ stack) (suc level) id (suc l) = ground (arith, slot-push stack level id l)

  nearest-some :
      (before : List (ℕ × NodeId)) (l : ℕ) (id : NodeId)
      → held before l ≡ some id
      → nearest before (suc l) ≡ some id
  unfolding nearest held
  nearest-some [] l id h = cc
  nearest-some ((k, i) ∷ before) l id h = ground (arith, nearest-some before l id)

  nearest-none :
      (before : List (ℕ × NodeId)) (l : ℕ)
      → held before l ≡ none
      → nearest before (suc l) ≡ nearest before l
  unfolding nearest held
  nearest-none [] l h = refl
  nearest-none ((k, i) ∷ before) l h = ground (arith, nearest-none before l)

  nearest-zero : (before : List (ℕ × NodeId)) → nearest before 0 ≡ none
  unfolding nearest
  nearest-zero [] = refl
  nearest-zero ((k, i) ∷ before) = ground (arith, nearest-zero before)

  -- Each slot holds what the nodes before say.
  abbrev IsStack : List (Option NodeId) → List (ℕ × NodeId) → Type 0
  IsStack stack before = (l : ℕ) → slot stack l ≡ held before l

  find_parent-nearest :
      (stack : List (Option NodeId)) (before : List (ℕ × NodeId)) (level : ℕ)
      → IsStack stack before
      → find_parent stack level ≡ nearest before level
  unfolding find_parent
  find_parent-nearest stack before zero h = sym (nearest-zero before)
  find_parent-nearest stack before (suc l) h = elim (Option-cases (held before l)) [
    | inl e ↦
        ap
          (λ (o : Option NodeId). elim o as (λ _. Option NodeId) [
            | some id ↦ some id
            | none ↦ find_parent stack l
          ])
          (h l ∙ e)
        ∙ find_parent-nearest stack before l h
        ∙ sym (nearest-none before l e)
    | inr (id, e) ↦
        ap
          (λ (o : Option NodeId). elim o as (λ _. Option NodeId) [
            | some id ↦ some id
            | none ↦ find_parent stack l
          ])
          (h l ∙ e)
        ∙ sym (nearest-some before l id e)
  ]

  IsStack-push :
      (stack : List (Option NodeId)) (before : List (ℕ × NodeId)) (level : ℕ) (id : NodeId)
      → IsStack stack before
      → IsStack (push_level stack level id) ((level, id) ∷ before)
  unfolding held
  IsStack-push stack before level id h l =
      slot-push stack level id l
      ∙ ap (λ o. if leb level l then (if level == l then some id else none) else o) (h l)

  IsStack-root : (root : NodeId) → IsStack (some root ∷ []) ((0, root) ∷ [])
  unfolding slot held
  IsStack-root root zero = refl
  IsStack-root root (suc l) = ground arith

module _ {Tree NodeId : Type 0} (ops : TreeOps Tree NodeId) where
  -- The plain description: each node goes below the last node before it that has a lower level,
  -- below the root where there is none.
  unfoldable pub attach : List RawNode → List (ℕ × NodeId) → Tree → Tree
  unfolding nearest add_node
  attach [] before tree = tree
  attach (raw ∷ nodes) before tree =
      let (t, id) = add_node ops tree (or_root ops tree (nearest before raw.level)) raw in
      attach nodes ((raw.level, id) ∷ before) t

  build_loop-attach :
      (nodes : List RawNode) (stack : List (Option NodeId)) (before : List (ℕ × NodeId))
      (tree : Tree)
      → IsStack stack before
      → build_loop ops nodes stack tree ≡ attach nodes before tree
  unfolding build_loop attach
  build_loop-attach [] stack before tree h = refl
  build_loop-attach (raw ∷ nodes) stack before tree h =
      let (t, id) = add_node ops tree (or_root ops tree (nearest before raw.level)) raw in
      ap
        (λ o.
          let r = add_node ops tree (or_root ops tree o) raw in
          build_loop ops nodes (push_level stack raw.level r.1) r.0)
        (find_parent-nearest stack before raw.level h)
      ∙ build_loop-attach nodes (push_level stack raw.level id) ((raw.level, id) ∷ before) t
          (IsStack-push stack before raw.level id h)

  -- The tree that `build_tree` makes with its stack of levels is the one in which each node stands
  -- below the last node before it with a lower level, and below the root if there is none, the root
  -- counting as a node of level 0 before all others; in the same order, with the same fields.
  pub build_tree-attach :
      (raw_nodes : List RawNode) (name : String)
      → build_tree ops raw_nodes name
        ≡ attach raw_nodes ((0, ops.root (ops.new name "")) ∷ []) (ops.new name "")
  unfolding build_tree
  build_tree-attach raw_nodes name =
      let root = ops.root (ops.new name "") in
      build_loop-attach raw_nodes (some root ∷ []) ((0, root) ∷ []) (ops.new name "")
        (IsStack-root root)
