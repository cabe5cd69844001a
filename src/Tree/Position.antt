-- ===== src/Tree/Position.antt =====
-- A node below the nodes above it: one step up to the parent, and one step down to a child.
use btree_vec.Common.{
  ℕ, suc, ◌+◌, ◌≡◌, refl, sym, ap, subst, ◌∙◌, List, [], ◌∷◌, ◌++◌, append_assoc, append-nil, arith,
  length, length-append,
}
use btree_vec.Node.{Cell, Prefix}
use btree_vec.Node.Internal.{Entry}
use btree_vec.Node.Internal.Children.{IsChild, concat_with, concat_with-append}
use btree_vec.Node.Leaf.{Leaf, with_children}
use btree_vec.Tree.{rebuild, top, Body, Tree, Frame, Above, under, plug, frame}
use btree_vec.Tree.Plug.{plug_sized, length-plug, plug-IsNode, concat_with-plug}
use btree_vec.Tree.Unplug.{Children-from, frame-IsFrame, as_plug}
use btree_vec.Tree.Valid.{
  IsRoot, root_leaves, leaf-weight, LeafView, leaves, weight, weight-append, weight-nil,
  tree_weight, IsSubtree, leaves_before, leaves_after, IsAbove, IsBelow,
}

-- All leaves of the tree in which `c` stands below `k`.
abbrev pub leaves_around {ℓ} : {A : Type ℓ} (h : ℕ) → Tree A h → Above A h → List (LeafView A)
leaves_around {A} h c k = leaves_before k ++ (leaves A h c.addr c.body ++ leaves_after k)

-- `c` is a well-formed node at its place below `k`, in a well-formed tree of `total` items.
pub record IsAt {ℓ} {A : Type ℓ} (B total h : ℕ) (c : Tree A h) (k : Above A h) : Type 0 where
  pub below : IsBelow B h k c
  pub above : IsAbove B total k (tree_weight A h c.addr c.body)

module _ {ℓ} {X : Type ℓ} where
  regroup : (a b c d e : List X) → (a ++ b) ++ (c ++ (d ++ e)) ≡ a ++ ((b ++ (c ++ d)) ++ e)
  regroup a b c d e = simp append_assoc

pub weight-snoc {ℓ} :
    (A : Type ℓ) (h : ℕ) (es : List (Entry (Body A h))) (c : Tree A h) (n : ℕ)
    → weight (concat_with (leaves A h) (es ++ ((c, n) ∷ [])))
      ≡ weight (concat_with (leaves A h) es) + tree_weight A h c.addr c.body
weight-snoc A h es c n = omega (
  arith,
  ap weight (concat_with-append (leaves A h) es ((c, n) ∷ [])),
  weight-append (concat_with (leaves A h) es) (leaves A h c.addr c.body ++ []),
  weight-append (leaves A h c.addr c.body) [],
  weight-nil A,
)

module _ {ℓ} {A : Type ℓ} (h : ℕ) (c : Tree A h) (f : Cell (Frame (Body A h)))
    (k : Above A (suc h)) where
  pub up-leaves :
      (n : ℕ) → leaves_around (suc h) (plug_sized f c n) k ≡ leaves_around h c (under f k)
  up-leaves n =
      ap (λ xs. leaves_before k ++ (xs ++ leaves_after k)) (concat_with-plug (leaves A h) f c n)
      ∙ sym (
          regroup (leaves_before k) (concat_with (leaves A h) f.body.before)
            (leaves A h c.addr c.body) (concat_with (leaves A h) f.body.after) (leaves_after k))

  pub up-weight :
      (n : ℕ)
      → tree_weight A (suc h) f.addr (plug_sized f c n).body
        ≡ weight (concat_with (leaves A h) f.body.before)
          + (tree_weight A h c.addr c.body + weight (concat_with (leaves A h) f.body.after))
  up-weight n = omega (
    arith,
    ap weight (concat_with-plug (leaves A h) f c n),
    weight-append (concat_with (leaves A h) f.body.before)
        (leaves A h c.addr c.body ++ concat_with (leaves A h) f.body.after),
    weight-append (leaves A h c.addr c.body) (concat_with (leaves A h) f.body.after),
  )

  -- The parent of a node at its place is at its place.
  pub up-IsAt : (B total : ℕ) → IsAt B total h c (under f k) → IsAt B total (suc h) (plug f c) k
  up-IsAt B total v = record {
    below = record {
      parent_is = v.above.2;
      index_is = v.above.3;
      tree =
          plug-IsNode B (IsSubtree A B h) (tree_weight A h) f c f.body.hole v.above.0
            v.below.parent_is v.below.index_is
            (record { size_is = v.above.1; is = (v.below.tree, v.below.long) });
      long = omega (arith, v.above.4, length-plug f c f.body.hole);
    };
    above = subst (λ n. IsAbove B total k n) (sym (up-weight f.body.hole)) v.above.5;
  }

module _ {ℓ} {A : Type ℓ} (h : ℕ) (n : Tree A (suc h)) (k : Above A (suc h))
    (es : List (Entry (Body A h))) (c : Tree A h) (m : ℕ) (fs : List (Entry (Body A h)))
    (e : n.body.children ≡ es ++ ((c, m) ∷ fs)) where
  pub down-leaves : leaves_around h c (under (frame n es m fs) k) ≡ leaves_around (suc h) n k
  down-leaves =
      sym (up-leaves h c (frame n es m fs) k m)
      ∙ ap (λ x. leaves_around (suc h) x k) (sym (as_plug n es c m fs e))

  -- A child of a node at its place is at its place.
  pub down-IsAt :
      (B total : ℕ) → IsAt B total (suc h) n k → IsAt B total h c (under (frame n es m fs) k)
  down-IsAt B total v = record {
    below = record {
      parent_is = child.parent_is;
      index_is = child.index_is;
      tree = child.is.0;
      long = child.is.1;
    };
    above = (
      frame-IsFrame B (IsSubtree A B h) (tree_weight A h) n es c m fs e v.below.tree,
      child.size_is,
      v.below.parent_is,
      v.below.index_is,
      omega (arith, v.below.long, ap length e, length-append es ((c, m) ∷ fs)),
      subst (λ x. IsAbove B total k x) total_is v.above,
    );
  }
    where
      child : IsChild (IsSubtree A B h) (tree_weight A h) n.addr (length es) c m
      child = (Children-from B (IsSubtree A B h) (tree_weight A h) n es c m fs e v.below.tree).0

      total_is :
          tree_weight A (suc h) n.addr n.body
          ≡ weight (concat_with (leaves A h) es)
            + (tree_weight A h c.addr c.body + weight (concat_with (leaves A h) fs))
      total_is =
          ap (λ x. tree_weight A (suc h) x.addr x.body) (as_plug n es c m fs e)
          ∙ up-weight h c (frame n es m fs) k m

-- The whole tree has the leaves around the node, and its root has the parent that it had.
pub rebuild-leaves {ℓ} :
    {A : Type ℓ} (h : ℕ) (c : Tree A h) (k : Above A h)
    → root_leaves (rebuild c k) ≡ leaves_around h c k
unfolding rebuild
rebuild-leaves {A} h c top = sym (append-nil (leaves A h c.addr c.body))
rebuild-leaves h c (under f k) = rebuild-leaves (suc h) (plug f c) k ∙ up-leaves h c f k f.body.hole

pub rebuild-parent {ℓ} :
    {A : Type ℓ} {h : ℕ} (c c' : Tree A h) (k : Above A h)
    → c.prefix ≡ c'.prefix
    → (rebuild c k).node.prefix.parent ≡ (rebuild c' k).node.prefix.parent
unfolding rebuild
rebuild-parent c c' top e = ap (λ (p : Prefix). p.parent) e
rebuild-parent c c' (under f k) e = rebuild-parent (plug f c) (plug f c') k refl

-- The whole tree is well formed, and has the leaves around the node.
pub rebuild_lem {ℓ} :
    {A : Type ℓ} (B total h : ℕ) (c : Tree A h) (k : Above A h)
    → IsAt B total h c k
    → IsRoot B (rebuild c k) × (root_leaves (rebuild c k) ≡ leaves_around h c k)
unfolding rebuild
rebuild_lem {A} B total h c k v = (go h c k v, rebuild-leaves h c k)
  where
    go : (h : ℕ) (c : Tree A h) (k : Above A h) → IsAt B total h c k → IsRoot B (rebuild c k)
    go h c top v = v.below
    go h c (under f k) v = go (suc h) (plug f c) k (up-IsAt h c f k B total v)

-- A leaf may get other items in place of as many.
pub refill-IsAt {ℓ} :
    {A : Type ℓ} (B total : ℕ) (c : Leaf A) (k : Above A 0) (xs : List A)
    → length xs ≡ length c.body.children
    → IsAt B total 0 c k
    → IsAt B total 0 (with_children xs c) k
refill-IsAt B total c k xs e v = record {
  below = record {
    parent_is = v.below.parent_is;
    index_is = v.below.index_is;
    tree = omega (arith, v.below.tree);
    long = omega (arith, v.below.long);
  };
  above =
      subst (λ n. IsAbove B total k n)
        (leaf-weight c.addr c.body ∙ sym e ∙ sym (leaf-weight c.addr (with_children xs c).body))
        v.above;
}
