-- ===== src/Incremental/Subtree/Collision.antt =====
-- What equal fingerprints say about two subtrees.
use vectorless.Base.{
  ℕ, ◌≡◌, ◌≢◌, ◌⊎◌, inl, inr, sym, ap, ◌∙◌, List, [], ◌++◌, length, text_eq, text_eq_sound,
  text_eq_refl, Bool-cases, append_cancel, append_assoc, append-nil, arith,
}
use vectorless.Incremental.Fingerprint.{Fingerprint, Fingerprinter, write_str, write_fingerprint}
use vectorless.Incremental.Fingerprint.Encoding.{
  Short, ShortOption, str_bytes, option_bytes, fingerprint_bytes, write_str_lem,
  write_option_str_lem, write_fingerprint_lem, str_bytes_cancel, option_bytes_cancel,
}
use vectorless.Incremental.Subtree.{
  TreeNode, Tree, Forest, node, leaf, child, content_fingerprint, compute_node_fingerprint,
  write_children,
}

-- Two inputs with one digest.
pub data Collision (digest : List ℕ → Fingerprint) : Type 0 where
  collision : (xs ys : List ℕ) → xs ≢ ys → digest xs ≡ digest ys → Collision digest

-- The same texts, whatever number the node has.
pub record SameNode (n m : TreeNode) : Type 0 where
  pub title : n.title ≡ m.title
  pub content : n.content ≡ m.content
  pub node_id : n.node_id ≡ m.node_id

-- Trees of one shape with the same texts.
mutual
  pub data SameTree : Tree → Tree → Type 0 where
    same_node :
        {n m : TreeNode} {ts us : Forest}
        → SameNode n m
        → SameForest ts us
        → SameTree (node n ts) (node m us)

  pub data SameForest : Forest → Forest → Type 0 where
    same_leaf : SameForest leaf leaf
    same_child :
        {t u : Tree} {ts us : Forest}
        → SameTree t u
        → SameForest ts us
        → SameForest (child t ts) (child u us)

-- All texts of a tree have lengths that fit in 32 bits.
abbrev pub ShortNode : TreeNode → Type 0
ShortNode n = Short n.title × Short n.content × ShortOption n.node_id

abbrev mutual
  pub ShortTree : Tree → Type 0
  ShortTree (node n ts) = ShortNode n × ShortForest ts

  pub ShortForest : Forest → Type 0
  ShortForest leaf = Unit
  ShortForest (child t ts) = ShortTree t × ShortForest ts

pub digest_cancel :
    (digest : List ℕ → Fingerprint) (xs ys : List ℕ)
    → digest xs ≡ digest ys
    → (xs ≡ ys) ⊎ Collision digest
digest_cancel digest xs ys h = elim (Bool-cases (text_eq xs ys)) [
  | inl e ↦ inl (text_eq_sound xs ys e)
  | inr e ↦ inr (collision xs ys (λ p. cc (e, p, text_eq_refl xs)) h)
]

node_bytes : TreeNode → List ℕ
node_bytes n = str_bytes n.title ++ (str_bytes n.content ++ (option_bytes n.node_id ++ []))

node_bytes_cancel :
    (n m : TreeNode) → ShortNode n → ShortNode m → node_bytes n ≡ node_bytes m → SameNode n m
unfolding node_bytes
node_bytes_cancel n m (a, b, c) (d, e, f) h =
    let (t, r) = str_bytes_cancel n.title m.title a d h in
    let (k, q) = str_bytes_cancel n.content m.content b e r in
    let (o, _) = option_bytes_cancel n.node_id m.node_id {rs = []} {qs = []} c f q in
    record { title = t; content = k; node_id = o }

both {ℓ κ μ ν} :
    {X : Type ℓ} {Y : Type κ} {Z : Type μ} {C : Type ν} → (X → Y → Z) → X ⊎ C → Y ⊎ C → Z ⊎ C
both f (inl x) (inl y) = inl (f x y)
both f (inl x) (inr c) = inr c
both f (inr c) y = inr c

module _ (digest : List ℕ → Fingerprint) where
  content_fingerprint_lem : (n : TreeNode) → content_fingerprint digest n ≡ digest (node_bytes n)
  unfolding content_fingerprint node_bytes
  content_fingerprint_lem n = ap digest (
      write_option_str_lem (write_str (write_str [] n.title) n.content) n.node_id
      ∙ ap (λ h. h ++ option_bytes n.node_id)
          (write_str_lem (write_str [] n.title) n.content
            ∙ ap (λ h. h ++ str_bytes n.content) (write_str_lem [] n.title))
      ∙ simp (append_assoc, append-nil))

  forest_bytes : Forest → List ℕ
  forest_bytes leaf = []
  forest_bytes (child t ts) =
      fingerprint_bytes (compute_node_fingerprint digest t).subtree ++ forest_bytes ts

  write_children_lem :
      (h : Fingerprinter) (ts : Forest) → write_children digest h ts ≡ h ++ forest_bytes ts
  unfolding compute_node_fingerprint forest_bytes
  write_children_lem h leaf = sym (append-nil h)
  write_children_lem h (child t ts) =
      let fp = (compute_node_fingerprint digest t).subtree in
      write_children_lem (write_fingerprint h fp) ts
      ∙ ap (λ x. x ++ forest_bytes ts) (write_fingerprint_lem h fp)
      ∙ append_assoc h (fingerprint_bytes fp) (forest_bytes ts)

  inner_bytes : TreeNode → Forest → List ℕ
  inner_bytes n ts = fingerprint_bytes (content_fingerprint digest n) ++ forest_bytes ts

  inner_subtree :
      (n : TreeNode) (t : Tree) (ts : Forest)
      → (compute_node_fingerprint digest (node n (child t ts))).subtree
        ≡ digest (inner_bytes n (child t ts))
  unfolding compute_node_fingerprint inner_bytes
  inner_subtree n t ts = ap digest (
      write_children_lem (write_fingerprint [] (content_fingerprint digest n)) (child t ts)
      ∙ ap (λ h. h ++ forest_bytes (child t ts))
          (write_fingerprint_lem [] (content_fingerprint digest n)))

  same_content :
      (n m : TreeNode)
      → ShortNode n
      → ShortNode m
      → content_fingerprint digest n ≡ content_fingerprint digest m
      → SameNode n m ⊎ Collision digest
  same_content n m a b h =
      elim (digest_cancel digest (node_bytes n) (node_bytes m)
        (sym (content_fingerprint_lem n) ∙ h ∙ content_fingerprint_lem m)) [
          | inl e ↦ inl (node_bytes_cancel n m a b e)
          | inr c ↦ inr c
        ]

  leaf_inner :
      (n m : TreeNode) (u : Tree) (us : Forest)
      → content_fingerprint digest n ≡ digest (inner_bytes m (child u us))
      → Collision digest
  unfolding node_bytes inner_bytes
  leaf_inner n m u us h =
      elim (digest_cancel digest (node_bytes n) (inner_bytes m (child u us))
        (sym (content_fingerprint_lem n) ∙ h)) [ inl e ↦ absurd (ground (arith, e)) | inr c ↦ c ]

  module _ (digest_length : (xs : List ℕ) → length (digest xs) ≡ 16) where
    content_length : (n : TreeNode) → length (content_fingerprint digest n) ≡ 16
    content_length n = ap length (content_fingerprint_lem n) ∙ digest_length (node_bytes n)

    subtree_length : (t : Tree) → length (compute_node_fingerprint digest t).subtree ≡ 16
    unfolding compute_node_fingerprint
    subtree_length (node n leaf) = content_length n
    subtree_length (node n (child t ts)) =
        digest_length
          (write_children digest (write_fingerprint [] (content_fingerprint digest n)) (child t ts))

    mutual
      unfolding compute_node_fingerprint forest_bytes inner_bytes

      alike_trees :
          (t u : Tree)
          → ShortTree t
          → ShortTree u
          → (compute_node_fingerprint digest t).subtree
            ≡ (compute_node_fingerprint digest u).subtree
          → SameTree t u ⊎ Collision digest
      alike_trees (node n leaf) (node m leaf) (a, _) (b, _) h = elim (same_content n m a b h) [
        | inl e ↦ inl (same_node e same_leaf)
        | inr c ↦ inr c
      ]
      alike_trees (node n leaf) (node m (child u us)) a b h =
          inr (leaf_inner n m u us (h ∙ inner_subtree m u us))
      alike_trees (node n (child t ts)) (node m leaf) a b h =
          inr (leaf_inner m n t ts (sym h ∙ inner_subtree n t ts))
      alike_trees (node n (child t ts)) (node m (child u us)) (a, x) (b, y) h =
          elim (digest_cancel digest (inner_bytes n (child t ts)) (inner_bytes m (child u us))
            (sym (inner_subtree n t ts) ∙ h ∙ inner_subtree m u us)) [
              | inl e ↦
                  let (p, q) =
                    append_cancel (content_fingerprint digest n) (content_fingerprint digest m)
                      {rs = forest_bytes (child t ts)} {qs = forest_bytes (child u us)}
                      (content_length n ∙ sym (content_length m)) (cc e) in
                  both (λ s f. same_node s f) (same_content n m a b p)
                    (alike_forests (child t ts) (child u us) x y q)
              | inr c ↦ inr c
            ]

      alike_forests :
          (ts us : Forest)
          → ShortForest ts
          → ShortForest us
          → forest_bytes ts ≡ forest_bytes us
          → SameForest ts us ⊎ Collision digest
      alike_forests leaf leaf a b h = inl same_leaf
      alike_forests leaf (child u us) a b h = absurd (ground (arith, h))
      alike_forests (child t ts) leaf a b h = absurd (ground (arith, h))
      alike_forests (child t ts) (child u us) (a, x) (b, y) h =
          let (p, q) =
            append_cancel (compute_node_fingerprint digest t).subtree
              (compute_node_fingerprint digest u).subtree {rs = forest_bytes ts}
              {qs = forest_bytes us} (subtree_length t ∙ sym (subtree_length u)) (cc h) in
          both (λ s f. same_child s f) (alike_trees t u a b p) (alike_forests ts us x y q)

    -- Two subtrees with equal subtree fingerprints have the same shape and the same titles,
    -- contents and node ids throughout, or two inputs with one digest are at hand. This supposes
    -- digests of 16 bytes and texts shorter than 4 GiB.
    pub compute_node_fingerprint-SameTree :
        (t u : Tree)
        → ShortTree t
        → ShortTree u
        → (compute_node_fingerprint digest t).subtree ≡ (compute_node_fingerprint digest u).subtree
        → SameTree t u ⊎ Collision digest
    compute_node_fingerprint-SameTree t u a b h = alike_trees t u a b h
