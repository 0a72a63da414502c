-- ===== src/Incremental/Subtree/Order.antt =====
-- The order of `traverse`: every node before its children, and all nodes of one child before the
-- next child.
use vectorless.Base.{
  ℕ, zero, suc, ◌+◌, ◌<◌, ◌≡◌, refl, ap, ◌∙◌, List, [], ◌∷◌, ◌++◌, append_assoc, append-nil, arith,
}
use vectorless.Incremental.Subtree.{
  Tree, Forest, node, leaf, child, append, size, forest_size, traverse_loop, traverse,
}

unfoldable mutual
  pub preorder : Tree → List Tree
  preorder (node n children) = node n children ∷ preorder_forest children

  pub preorder_forest : Forest → List Tree
  preorder_forest leaf = []
  preorder_forest (child t ts) = preorder t ++ preorder_forest ts

preorder_forest-append :
    (ts us : Forest) → preorder_forest (append ts us) ≡ preorder_forest ts ++ preorder_forest us
unfolding preorder
preorder_forest-append leaf us = refl
preorder_forest-append (child t ts) us = simp (preorder_forest-append ts us, append_assoc)

forest_size-append : (ts us : Forest) → forest_size (append ts us) ≡ forest_size ts + forest_size us
forest_size-append leaf us = omega arith
forest_size-append (child t ts) us = omega (arith, forest_size-append ts us)

traverse_loop-preorder :
    (fuel : ℕ) (stack : Forest)
    → forest_size stack < fuel
    → traverse_loop fuel stack ≡ preorder_forest stack
unfolding traverse_loop preorder
traverse_loop-preorder zero stack h = absurd (omega (arith, h))
traverse_loop-preorder (suc fuel) leaf h = refl
traverse_loop-preorder (suc fuel) (child (node n children) stack) h = ap (◌∷◌ (node n children)) (
    traverse_loop-preorder fuel (append children stack)
      (omega (arith, h, forest_size-append children stack))
    ∙ preorder_forest-append children stack)

-- The loop with its stack visits the nodes in depth-first order, each node of the tree as often as
-- it stands there: the node itself, then what lies below its children from the first to the last.
pub traverse-preorder : (t : Tree) → traverse t ≡ preorder t
unfolding traverse preorder
traverse-preorder t =
    traverse_loop-preorder (suc (size t)) (child t leaf) (omega arith) ∙ append-nil (preorder t)
