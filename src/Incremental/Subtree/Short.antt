-- ===== src/Incremental/Subtree/Short.antt =====
-- The nodes that a traversal visits are subtrees: what holds of all texts of a tree holds of theirs.
use vectorless.Base.{◌⊎◌, inl, inr, subst, List, [], ◌∷◌, ◌++◌}
use vectorless.Incremental.Subtree.{Tree, Forest, node, leaf, child, traverse}
use vectorless.Incremental.Subtree.Order.{preorder, preorder_forest, traverse-preorder}
use vectorless.Incremental.Subtree.Keys.{Among, now, later}
use vectorless.Incremental.Subtree.Collision.{ShortTree, ShortForest}

Among-append : (t : Tree) (xs ys : List Tree) → Among t (xs ++ ys) → Among t xs ⊎ Among t ys
Among-append t [] ys a = inr a
Among-append t (x ∷ xs) ys now = inl now
Among-append t (x ∷ xs) ys (later _ a) = elim (Among-append t xs ys a) [
  | inl l ↦ inl (later x l)
  | inr r ↦ inr r
]

mutual
  unfolding preorder

  short_in_tree : (t u : Tree) → ShortTree u → Among t (preorder u) → ShortTree t
  short_in_tree _ (node n ts) s now = s
  short_in_tree t (node n ts) s (later _ a) = short_in_forest t ts s.1 a

  short_in_forest :
      (t : Tree) (ts : Forest) → ShortForest ts → Among t (preorder_forest ts) → ShortTree t
  short_in_forest t leaf s a = elim a [ ]
  short_in_forest t (child u us) s a = elim (Among-append t (preorder u) (preorder_forest us) a) [
    | inl l ↦ short_in_tree t u s.0 l
    | inr r ↦ short_in_forest t us s.1 r
  ]

pub traverse-ShortTree : (t u : Tree) → ShortTree u → Among t (traverse u) → ShortTree t
traverse-ShortTree t u s a = short_in_tree t u s (subst (Among t) (traverse-preorder u) a)
