-- ===== src/Tree/Descent.antt =====
-- `leaf_for`: the way down to the leaf that holds an index.
use btree_vec.Common.{
  ℕ, zero, suc, ◌+◌, ◌≤◌, ◌<◌, ◌≡◌, refl, sym, ap, ◌∙◌, List, [], ◌∷◌, ◌++◌, Returns, returned,
  Returns-bind, Returns-map, append_assoc, arith, length,
}
use btree_vec.Node.Leaf.{Leaf}
use btree_vec.Node.Internal.{Entry}
use btree_vec.Node.Internal.Children.{Children, concat_with, concat_with-append}
use btree_vec.Tree.{Body, Tree, Above, top, under, frame, find_child, leaf_for}
use btree_vec.Tree.Valid.{
  leaf-weight, leaves, weight, weight-append, weight-nil, tree_weight, IsSubtree, depth, min_length,
  leaves_before, leaves_after, IsAbove, IsBelow,
}
use btree_vec.Tree.Position.{IsAt, down-IsAt}
use btree_vec.Tree.Find.{IsFound, find_child-IsFound}

module _ {ℓ} (A : Type ℓ) (B total : ℕ) where
  -- The leaf that `leaf_for` finds below `c`, with the index in it and the nodes above it.
  pub record IsLeafFor (h : ℕ) (c : Tree A h) (k : Above A h) (index : ℕ)
      (r : Leaf A × ℕ × Above A 0) : Type ℓ where
    pub below : IsBelow B 0 r.2 r.0
    pub above : IsAbove B total r.2 (tree_weight A 0 r.0.addr r.0.body)
    pub inside : r.1 ≤ length r.0.body.children
    pub strictly : index < tree_weight A h c.addr c.body → r.1 < length r.0.body.children
    pub same_leaves :
        leaves_before r.2 ++ (leaves A 0 r.0.addr r.0.body ++ leaves_after r.2)
        ≡ leaves_before k ++ (leaves A h c.addr c.body ++ leaves_after k)
    pub same_item : weight (leaves_before r.2) + r.1 ≡ weight (leaves_before k) + index
    pub deep : depth r.2 ≡ depth k + h

  -- One round of the loop of `leaf_for`: what is known of `c` is known of the child that is found.
  module _ (h : ℕ) (c : Tree A (suc h)) (k : Above A (suc h)) (index : ℕ)
      (below : IsBelow B (suc h) k c)
      (above : IsAbove B total k (tree_weight A (suc h) c.addr c.body))
      (r : List (Entry (Body A h)) × Entry (Body A h) × List (Entry (Body A h)) × ℕ)
      (f : IsFound (IsSubtree A B h) (leaves A h) [] c.body.children index r) where
    abbrev inner : Above A h
    inner = under (frame c r.0 r.1.1 r.2) k

    content :
        leaves A (suc h) c.addr c.body
        ≡ concat_with (leaves A h) r.0
          ++ (leaves A h r.1.0.addr r.1.0.body ++ concat_with (leaves A h) r.2)
    content =
        ap (concat_with (leaves A h)) (sym f.parts)
        ∙ concat_with-append (leaves A h) r.0 (r.1 ∷ r.2)

    inner-IsAt : IsAt B total h r.1.0 inner
    inner-IsAt =
        down-IsAt h c k r.0 r.1.0 r.1.1 r.2 (sym f.parts) B total
          (record { below = below; above = above })

    step-IsLeafFor :
        (x : Leaf A × ℕ × Above A 0) → IsLeafFor h r.1.0 inner r.3 x → IsLeafFor (suc h) c k index x
    step-IsLeafFor x l = record {
      below = l.below;
      above = l.above;
      inside = l.inside;
      strictly = λ p. l.strictly (f.strictly p);
      same_leaves = l.same_leaves ∙ rw content (simp append_assoc);
      same_item = omega (
        arith,
        l.same_item,
        f.same_item,
        weight-append (leaves_before k) (concat_with (leaves A h) r.0),
        weight-nil A,
      );
      deep = omega (arith, l.deep);
    }

  module _ (big : 3 ≤ B) where
    pub leaf_for-IsLeafFor :
        (h : ℕ) (c : Tree A h) (k : Above A h) (index : ℕ)
        → IsBelow B h k c
        → IsAbove B total k (tree_weight A h c.addr c.body)
        → index ≤ tree_weight A h c.addr c.body
        → Returns (IsLeafFor h c k index) (leaf_for h c k index)
    unfolding leaf_for
    leaf_for-IsLeafFor zero c k index below above le = returned (record {
      below = below;
      above = above;
      inside = omega (arith, leaf-weight c.addr c.body);
      strictly = λ p. omega (arith, leaf-weight c.addr c.body);
      same_leaves = refl;
      same_item = refl;
      deep = omega arith;
    })
    leaf_for-IsLeafFor (suc h) c k index below above le =
        Returns-bind _ (find c.body.children below.tree.children_are le (long k below.long)) λ r f.
          Returns-map
            (leaf_for-IsLeafFor h r.1.0 (inner h c k index below above r f) r.3
              (inner-IsAt h c k index below above r f).below
              (inner-IsAt h c k index below above r f).above f.inside)
            (step-IsLeafFor h c k index below above r f)
      where
        long :
            (k' : Above A (suc h))
            → min_length B k' ≤ length c.body.children
            → 0 < length c.body.children
        long top q = omega arith
        long (under g k') q = omega arith

        find :
            (es : List (Entry (Body A h)))
            → Children (IsSubtree A B h) (tree_weight A h) c.addr 0 es
            → index ≤ weight (concat_with (leaves A h) es)
            → 0 < length es
            → Returns (IsFound (IsSubtree A B h) (leaves A h) [] es index) (find_child [] es index)
        find [] v q p = absurd (omega arith)
        find (e ∷ es) v q p =
            find_child-IsFound (IsSubtree A B h) (leaves A h) c.addr 0 [] e es index v q
