-- ===== src/Tree/Height.antt =====
-- How high a tree is for the number of its items: the number of rounds of the loops that go down
-- and up.
use Prim.Native.Nat.{◌^◌}
use native.Mathlib.Nat.{mul_comm, mul-le-mul_right, one-mul, pow-suc, pow-zero, suc-mul, zero-mul}
use btree_vec.Common.{ℕ, zero, suc, ◌*◌, ◌/◌, ◌≤◌, ◌<◌, ◌≡◌, ap, ◌∙◌, List, [], ◌∷◌, arith, length}
use btree_vec.Node.{Ptr}
use btree_vec.Node.Internal.{Entry}
use btree_vec.Node.Internal.Children.{Children, concat_with}
use btree_vec.Tree.{Body, Root, top}
use btree_vec.Tree.Valid.{
  leaves, weight, weight-append, weight-nil, leaf-weight, tree_weight, node_length, IsTree,
  IsSubtree, IsRoot, root_leaves, min_length,
}

pow_one : (n : ℕ) → n ^ 1 ≡ n
pow_one n = pow-suc n 0 ∙ ap (λ (t : ℕ). t * n) (pow-zero n) ∙ one-mul n

module _ {ℓ} (A : Type ℓ) (B : ℕ) where
  -- The children of a node weigh at least and at most as much as so many of the lightest and of the
  -- heaviest.
  weight-concat_with :
      (h : ℕ) (low high : ℕ)
      → ((a : Ptr) (b : Body A h)
          → IsSubtree A B h a b
          → (low ≤ tree_weight A h a b) × (tree_weight A h a b ≤ high))
      → (a : Ptr) (i : ℕ) (es : List (Entry (Body A h)))
      → Children (IsSubtree A B h) (tree_weight A h) a i es
      → (length es * low ≤ weight (concat_with (leaves A h) es))
        × (weight (concat_with (leaves A h) es) ≤ length es * high)
  weight-concat_with h low high each a i [] v =
      (omega (arith, weight-nil A, zero-mul low), omega (arith, weight-nil A, zero-mul high))
  weight-concat_with h low high each a i ((c, n) ∷ es) v =
      let (rest_low, rest_high) = weight-concat_with h low high each a (suc i) es v.1 in
      let (c_low, c_high) = each c.addr c.body v.0.is in
      let both = weight-append (leaves A h c.addr c.body) (concat_with (leaves A h) es) in
      (omega (arith, both, suc-mul (length es) low), omega (arith, both, suc-mul (length es) high))

  -- A node of height `h` that may stand below another has between `(B / 2) ^ (h + 1)` and
  -- `B ^ (h + 1)` items.
  subtree-weight :
      (h : ℕ) (a : Ptr) (b : Body A h)
      → IsSubtree A B h a b
      → ((B / 2) ^ suc h ≤ tree_weight A h a b) × (tree_weight A h a b ≤ B ^ suc h)
  subtree-weight zero a b v =
      let low : (B / 2) ^ 1 ≡ B / 2 = pow_one (B / 2) in
      let high : B ^ 1 ≡ B = pow_one B in
      (omega (arith, leaf-weight a b, low, v.1), omega (arith, leaf-weight a b, high, v.0))
  subtree-weight (suc h) a b v =
      let (low, high) =
        weight-concat_with h ((B / 2) ^ suc h) (B ^ suc h) (subtree-weight h) a 0 b.children
          v.0.children_are in
      let few = mul-le-mul_right ((B / 2) ^ suc h) v.1 in
      let short : length b.children ≤ B = omega (arith, v.0.capacity) in
      let many = mul-le-mul_right (B ^ suc h) short in
      (
        omega (arith, pow-suc (B / 2) (suc h), mul_comm ((B / 2) ^ suc h) (B / 2), low, few),
        omega (arith, pow-suc B (suc h), mul_comm (B ^ suc h) B, high, many),
      )

  -- A root above other nodes has at least two of them.
  pub root-weight :
      (r : Root A)
      → IsRoot B r
      → (0 < r.height → 2 * (B / 2) ^ r.height ≤ weight (root_leaves r))
        × (weight (root_leaves r) ≤ B ^ suc r.height)
  root-weight r v = go r.height r.node.addr r.node.body v.tree v.long
    where
      go :
          (h : ℕ) (a : Ptr) (b : Body A h)
          → IsTree A B h a b
          → min_length {A = A} B (top {h = h}) ≤ node_length A h b
          → (0 < h → 2 * (B / 2) ^ h ≤ tree_weight A h a b) × (tree_weight A h a b ≤ B ^ suc h)
      go zero a b v long =
          let high : B ^ 1 ≡ B = pow_one B in
          (λ more. absurd (omega arith), omega (arith, leaf-weight a b, high))
      go (suc h) a b v long =
          let (low, high) =
            weight-concat_with h ((B / 2) ^ suc h) (B ^ suc h) (subtree-weight h) a 0 b.children
              v.children_are in
          let few = mul-le-mul_right ((B / 2) ^ suc h) long in
          let short : length b.children ≤ B = omega (arith, v.capacity) in
          let many = mul-le-mul_right (B ^ suc h) short in
          (
            λ more. omega (arith, low, few),
            omega (arith, pow-suc B (suc h), mul_comm (B ^ suc h) B, high, many),
          )
