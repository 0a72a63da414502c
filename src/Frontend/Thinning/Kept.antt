-- ===== src/Frontend/Thinning/Kept.antt =====
-- Every node with direct children keeps one of them.
use vectorless.Base.{
  All, ℕ, zero, suc, ◌≤◌, ◌≡◌, refl, sym, ap, ◌∙◌, subst, Bool, true, false, not, ◌&&◌, List, [],
  ◌∷◌, Option, none, some, length, arith, Bool-cases, Option-cases, if_true, if_false, inl, inr,
  String,
}
use vectorless.Frontend.Nodes.{RawNode, ThinningConfig}
use vectorless.Frontend.Tokens.{total_of}
use vectorless.Frontend.Thinning.{
  Flagged, has_child, has_kept_child, best_child, keep_at, keep_best, ensure_child, ensure_loop,
  ensure_min_children, thin_node, apply_thinning, thin_nodes, all_kept,
}

-- The same nodes, with no flag cleared.
pub data Raised : List Flagged → List Flagged → Type 0 where
  none_left : Raised [] []
  same_flag : {xs ys : List Flagged} (f : Flagged) → Raised xs ys → Raised (f ∷ xs) (f ∷ ys)
  set_flag :
      {xs ys : List Flagged} (n : RawNode) (k : Bool)
      → Raised xs ys
      → Raised ((n, k) ∷ xs) ((n, true) ∷ ys)

Raised-refl : (xs : List Flagged) → Raised xs xs
Raised-refl [] = none_left
Raised-refl (f ∷ xs) = same_flag f (Raised-refl xs)

Raised-length : {xs ys : List Flagged} → Raised xs ys → length ys ≡ length xs
Raised-length none_left = refl
Raised-length (same_flag f h) = ap suc (Raised-length h)
Raised-length (set_flag n k h) = ap suc (Raised-length h)

keep_at-Raised : (i : ℕ) (xs : List Flagged) → Raised xs (keep_at i xs)
unfolding keep_at
keep_at-Raised i [] = none_left
keep_at-Raised zero ((n, k) ∷ xs) = set_flag n k (Raised-refl xs)
keep_at-Raised (suc i) (f ∷ xs) = same_flag f (keep_at-Raised i xs)

has_child-Raised :
    {xs ys : List Flagged} (level : ℕ) → Raised xs ys → has_child level ys ≡ has_child level xs
unfolding has_child
has_child-Raised level none_left = refl
has_child-Raised level (same_flag (n, k) h) = ground (arith, has_child-Raised level h)
has_child-Raised level (set_flag n k h) = ground (arith, has_child-Raised level h)

has_kept_child-Raised :
    {xs ys : List Flagged} (level : ℕ)
    → Raised xs ys
    → has_kept_child level xs ≡ true
    → has_kept_child level ys ≡ true
unfolding has_kept_child
has_kept_child-Raised level none_left e = e
has_kept_child-Raised level (same_flag (n, k) h) e = ground (arith, has_kept_child-Raised level h)
has_kept_child-Raised level (set_flag n k h) e = ground (arith, has_kept_child-Raised level h)

-- A node's children are looked after: it has none, or one that is kept.
abbrev pub HasKept : ℕ → List Flagged → Type 0
HasKept level nodes = has_child level nodes ≡ true → has_kept_child level nodes ≡ true

-- The best child is there where a child is, and keeping it keeps a child.
best_child-kept :
    (level : ℕ) (xs : List Flagged) (i best : ℕ)
    → best_child level xs ≡ some (i, best)
    → has_kept_child level (keep_at i xs) ≡ true
unfolding best_child has_kept_child keep_at
best_child-kept level [] i best h = cc
best_child-kept level ((n, k) ∷ xs) zero best h = elim (Option-cases (best_child level xs)) [
  | inl e ↦ ground (arith, e)
  | inr (r, e) ↦ ground (arith, e)
]
best_child-kept level ((n, k) ∷ xs) (suc i) best h = elim (Option-cases (best_child level xs)) [
  | inl e ↦ ground (arith, e)
  | inr (r, e) ↦ ground (arith, e, best_child-kept level xs i r.1)
]

best_child-none :
    (level : ℕ) (xs : List Flagged) → best_child level xs ≡ none → has_child level xs ≡ false
unfolding best_child has_child
best_child-none level [] h = refl
best_child-none level ((n, k) ∷ xs) h = elim (Option-cases (best_child level xs)) [
  | inl e ↦ ground (arith, e, best_child-none level xs e)
  | inr (r, e) ↦ ground (arith, e)
]

ensure_child-Raised : (level : ℕ) (xs : List Flagged) → Raised xs (ensure_child level xs)
unfolding ensure_child
ensure_child-Raised level xs =
    elim (Bool-cases (has_child level xs && not (has_kept_child level xs))) [
      | inl t ↦
          subst (Raised xs) (sym (if_true (keep_best (best_child level xs) xs) xs t))
            (go (best_child level xs))
      | inr f ↦
          subst (Raised xs) (sym (if_false (keep_best (best_child level xs) xs) xs f))
            (Raised-refl xs)
    ]
  where
    go : (o : Option (ℕ × ℕ)) → Raised xs (keep_best o xs)
    go none = Raised-refl xs
    go (some (i, best)) = keep_at-Raised i xs

ensure_child-HasKept : (level : ℕ) (xs : List Flagged) → HasKept level (ensure_child level xs)
unfolding ensure_child
ensure_child-HasKept level xs h =
    let child : has_child level xs ≡ true =
      sym (has_child-Raised level (ensure_child-Raised level xs)) ∙ h in
    let best = best_child level xs in
    let kept = λ (ys : List Flagged). has_kept_child level ys ≡ true in
    elim (Bool-cases (has_kept_child level xs)) [
      | inl t ↦ subst kept (sym (if_false (keep_best best xs) xs (ground (arith, t)))) t
      | inr f ↦
          subst kept (sym (if_true (keep_best best xs) xs (ground (arith, child, f))))
            (elim (Option-cases best) [
              | inl e ↦ cc (child, best_child-none level xs e)
              | inr (r, e) ↦
                  subst (λ o. kept (keep_best o xs)) (sym e) (best_child-kept level xs r.0 r.1 e)
            ])
    ]

-- At every node of a list, its children are looked after.
abbrev pub EachKept : List Flagged → Type 0
EachKept [] = Unit
EachKept ((n, k) ∷ nodes) = HasKept n.level nodes × EachKept nodes

Raised-trans : {xs ys zs : List Flagged} → Raised xs ys → Raised ys zs → Raised xs zs
Raised-trans none_left none_left = none_left
Raised-trans (same_flag f h) (same_flag f' k) = same_flag f (Raised-trans h k)
Raised-trans (same_flag f h) (set_flag n b k) = set_flag n b (Raised-trans h k)
Raised-trans (set_flag n b h) (same_flag f k) = set_flag n b (Raised-trans h k)
Raised-trans (set_flag n b h) (set_flag n' b' k) = set_flag n b (Raised-trans h k)

ensure_loop-Raised : (fuel : ℕ) (xs : List Flagged) → Raised xs (ensure_loop fuel xs)
unfolding ensure_loop
ensure_loop-Raised zero xs = Raised-refl xs
ensure_loop-Raised (suc fuel) [] = none_left
ensure_loop-Raised (suc fuel) ((n, k) ∷ xs) =
    same_flag (n, k)
      (Raised-trans (ensure_child-Raised n.level xs)
        (ensure_loop-Raised fuel (ensure_child n.level xs)))

HasKept-Raised :
    {xs ys : List Flagged} (level : ℕ) → Raised xs ys → HasKept level xs → HasKept level ys
HasKept-Raised level r h e = has_kept_child-Raised level r (h (sym (has_child-Raised level r) ∙ e))

ensure_loop-EachKept :
    (fuel : ℕ) (xs : List Flagged) → length xs ≤ fuel → EachKept (ensure_loop fuel xs)
unfolding ensure_loop
ensure_loop-EachKept zero [] h = tt
ensure_loop-EachKept zero (f ∷ xs) h = absurd (omega arith)
ensure_loop-EachKept (suc fuel) [] h = tt
ensure_loop-EachKept (suc fuel) ((n, k) ∷ xs) h =
    let ys = ensure_child n.level xs in
    let same = Raised-length (ensure_child-Raised n.level xs) in
    (
      HasKept-Raised n.level (ensure_loop-Raised fuel ys) (ensure_child-HasKept n.level xs),
      ensure_loop-EachKept fuel ys (omega (arith, same)),
    )

has_kept_child-all :
    (level : ℕ) (nodes : List RawNode)
    → has_kept_child level (all_kept nodes) ≡ has_child level (all_kept nodes)
unfolding has_kept_child has_child
has_kept_child-all level [] = refl
has_kept_child-all level (n ∷ nodes) = ground (arith, has_kept_child-all level nodes)

all_kept-EachKept : (nodes : List RawNode) → EachKept (all_kept nodes)
all_kept-EachKept [] = tt
all_kept-EachKept (n ∷ nodes) = (λ h. has_kept_child-all n.level nodes ∙ h, all_kept-EachKept nodes)

-- However nodes are thinned out, each node that has direct children has a kept one among them, be
-- thinning enabled or not.
pub apply_thinning-EachKept :
    (is_blank : String → Bool) (join : String → String → String) (nodes : List RawNode)
    (c : ThinningConfig)
    → EachKept (apply_thinning is_blank join nodes c)
unfolding apply_thinning ensure_min_children
apply_thinning-EachKept is_blank join [] c = tt
apply_thinning-EachKept is_blank join (n ∷ nodes) c =
    let whole = all_kept (n ∷ nodes) in
    let thin = thin_nodes is_blank join c whole in
    elim (Bool-cases (not c.enabled)) [
      | inl t ↦
          subst EachKept (sym (if_true whole (ensure_min_children thin) t))
            (all_kept-EachKept (n ∷ nodes))
      | inr f ↦
          subst EachKept (sym (if_false whole (ensure_min_children thin) f))
            (ensure_loop-EachKept (length thin) thin (omega arith))
    ]

ensure_child-all :
    (level : ℕ) (nodes : List RawNode) → ensure_child level (all_kept nodes) ≡ all_kept nodes
unfolding ensure_child
ensure_child-all level nodes =
    if_false (keep_best (best_child level (all_kept nodes)) (all_kept nodes)) (all_kept nodes)
      (ground (arith, has_kept_child-all level nodes))

ensure_loop-all :
    (fuel : ℕ) (nodes : List RawNode) → ensure_loop fuel (all_kept nodes) ≡ all_kept nodes
unfolding ensure_loop
ensure_loop-all zero nodes = refl
ensure_loop-all (suc fuel) [] = refl
ensure_loop-all (suc fuel) (n ∷ nodes) =
    ap (◌∷◌ (n, true))
      (ap (ensure_loop fuel) (ensure_child-all n.level nodes) ∙ ensure_loop-all fuel nodes)

thin_nodes-large :
    (is_blank : String → Bool) (join : String → String → String) (nodes : List RawNode)
    (c : ThinningConfig)
    → All (λ n. c.threshold ≤ total_of n) nodes
    → thin_nodes is_blank join c (all_kept nodes) ≡ all_kept nodes
unfolding thin_nodes thin_node
thin_nodes-large is_blank join [] c h = refl
thin_nodes-large is_blank join (n ∷ nodes) c h =
    ap (thin_node is_blank join c (n, true)) (thin_nodes-large is_blank join nodes c h.1)
    ∙ ground (arith, h.0)

-- Where no node is below the threshold, thinning keeps every node and changes none.
pub apply_thinning-large :
    (is_blank : String → Bool) (join : String → String → String) (nodes : List RawNode)
    (c : ThinningConfig)
    → All (λ n. c.threshold ≤ total_of n) nodes
    → apply_thinning is_blank join nodes c ≡ all_kept nodes
unfolding apply_thinning ensure_min_children
apply_thinning-large is_blank join [] c h = refl
apply_thinning-large is_blank join (n ∷ nodes) c h =
    let whole = all_kept (n ∷ nodes) in
    let thin = thin_nodes is_blank join c whole in
    elim (Bool-cases (not c.enabled)) [
      | inl t ↦ if_true whole (ensure_min_children thin) t
      | inr f ↦
          if_false whole (ensure_min_children thin) f
          ∙ ap ensure_min_children (thin_nodes-large is_blank join (n ∷ nodes) c h)
          ∙ ensure_loop-all (length whole) (n ∷ nodes)
    ]
