-- ===== src/Frontend/Thinning/Merged.antt =====
-- Contents merged from nodes nested three deep.
use vectorless.Base.{
  ◌<◌, ◌≡◌, Bool, true, false, List, [], ◌∷◌, String, arith, Bool-cases, inl, inr, ltb,
}
use vectorless.Frontend.Nodes.{RawNode, ThinningConfig}
use vectorless.Frontend.Tokens.{total_of}
use vectorless.Frontend.Thinning.{
  Flagged, thin_nodes, thin_node, run_of, drop_children, merged_content, all_kept,
}

-- The content of the first node, empty where there is none.
abbrev pub first_content : List Flagged → String
first_content [] = ""
first_content ((n, k) ∷ nodes) = n.content

-- Of small nodes nested three deep, merging puts the innermost content twice into the outermost
-- node: once in the middle node's merged content, and once more by itself.
pub thin_nodes-nested :
    (is_blank : String → Bool) (join : String → String → String) (c : ThinningConfig)
    (x y z : RawNode)
    → c.merge_content ≡ true
    → x.level < y.level
    → y.level < z.level
    → total_of x < c.threshold
    → total_of y < c.threshold
    → is_blank z.content ≡ false
    → is_blank (join y.content z.content) ≡ false
    → first_content (thin_nodes is_blank join c (all_kept (x ∷ y ∷ z ∷ [])))
      ≡ join (join x.content (join y.content z.content)) z.content
unfolding thin_nodes thin_node run_of drop_children merged_content
thin_nodes-nested is_blank join c x y z m h k small small' b b' =
    elim (Bool-cases (ltb (total_of z) c.threshold)) [
      | inl t ↦ ground (arith, t)
      | inr f ↦ ground (arith, f)
    ]
