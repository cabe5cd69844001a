-- ===== src/Remove/Rebalance.antt =====
-- `remove_once` after a child has been taken out of a node, and the rest of the loop from there.
use btree_vec.Common.{
  ℕ, zero, suc, ◌+◌, ◌-◌, ◌/◌, ◌≤◌, ◌<◌, ◌≡◌, inl, inr, ap, ap₂, subst, ◌∙◌, Option, some, List,
  ◌++◌, ok, Returns, returned, Returns-map, arith, length, le→leb, lt→leb, lt→ltb, le→ltb, le_or_lt,
  if◌then◌else◌,
}
use btree_vec.Node.{Cell, Allocator}
use btree_vec.Node.Internal.Children.{concat_with, IsChild}
use btree_vec.Tree.{Body, Tree, Frame, Above, under}
use btree_vec.Tree.Valid.{
  LeafView, leaves, weight-append, tree_weight, node_length, IsSubtree, min_length,
}
use btree_vec.Tree.Chain.{IsChain, IsChain-append_right, Follows-of_eq}
use btree_vec.Tree.Beside.{siblings}
use btree_vec.Remove.{
  RemovalKind, absorb, rebalance, from_siblings, is_longer, take_right, merge_right, sizes_merged,
}
use btree_vec.Remove.Laws.{Linked, IsMerged}
use btree_vec.Remove.MergeInternal.{tree_node-Laws}
use btree_vec.Remove.Absorbed.{IsShrunk, absorbed_lem}
use btree_vec.Tree.Position.{leaves_around}
use btree_vec.Remove.Collapse.{near_length}
use btree_vec.Remove.Moved.{moved_from_right}
use btree_vec.Remove.Merged.{merged_lem, leaves-survivor, survivor-length, survivor-IsShrunk}
use btree_vec.Remove.Neighbours.{leaves-around_left, Follows-neighbours, Continues}
use btree_vec.Remove.Pair.{pair, around_left, sizes_merged_lem, around_left-IsAround}
use btree_vec.Remove.Siblings.{set_sibling-right}

-- The chain of leaves, which a merge of leaves relies on.
abbrev pub ChainAt {ℓ} : (A : Type ℓ) (h : ℕ) → Tree A h → Above A h → Type 0
ChainAt A zero c k = IsChain (leaves_around 0 c k)
ChainAt A (suc h) c k = Unit

pub linked_lem {ℓ} :
    (A : Type ℓ) (h : ℕ) (c : Tree A h) (k : Above A h) (a b : Tree A h) (us ts : List (LeafView A))
    → ChainAt A h c k
    → leaves_around h c k ≡ us ++ ((leaves A h a.addr a.body ++ leaves A h b.addr b.body) ++ ts)
    → Linked A h a b
linked_lem A zero c k a b us ts chain e = (IsChain-append_right us _ (subst IsChain e chain)).0
linked_lem A (suc h) c k a b us ts chain e = tt

module _ {ℓ} (A : Type ℓ) (B total : ℕ) (al : Allocator) (big : 4 ≤ B) where
  pub absorb_lem :
      (h : ℕ) (k : Above A h) (c : Tree A h) (n : ℕ)
      → IsShrunk B total h k c n
      → near_length B k ≤ node_length A h c.body
      → Continues A B al h c k (absorb A B al h c k)
  absorb_lem h k c n v long fuel s =
      Returns-map (absorbed_lem A B total al big h c k n fuel s v long)
        (λ r fin. (fin.0, Follows-of_eq fin.1))

  module _ (h : ℕ) (k : Above A h) (c : Tree A h) (x y : Option (Tree A h))
      (e : siblings c k ≡ ok (x, y)) where
    pub rebalance-long :
        B / 2 ≤ node_length A h c.body → rebalance A B al h c k ≡ ok (absorb A B al h c k)
    unfolding rebalance
    rebalance-long p = rw (e, (tree_node-Laws A B al h).length_lem c, le→leb p)

    pub rebalance-short :
        node_length A h c.body < B / 2 → rebalance A B al h c k ≡ from_siblings A B al h x y c k
    unfolding rebalance
    rebalance-short p = rw (e, (tree_node-Laws A B al h).length_lem c, lt→leb p)

  module _ (h : ℕ) (k : Above A (suc h))
      (ih : (c : Tree A (suc h)) (n : ℕ)
        → IsShrunk B total (suc h) k c n
        → min_length B k ≤ suc (length c.body.children)
        → Returns (Continues A B al (suc h) c k) (rebalance A B al (suc h) c k))
      (c : Tree A h) (n : ℕ) (short : node_length A h c.body < B / 2)
      (near : B / 2 ≤ suc (node_length A h c.body)) (g : Cell (Frame (Body A h))) where
    -- There is a right sibling `b`, and it is its turn.
    pub with_right :
        (x : ℕ) (b : Tree A h) (y : ℕ)
        → IsShrunk B total h (under (around_left g x b y) k) c n
        → ChainAt A h c (under (around_left g x b y) k)
        → Returns (Continues A B al h c (under (around_left g x b y) k)) (
            if is_longer A B al h (some b)
            then take_right A B al h b c (under (around_left g x b y) k)
            else merge_right A B al h b c (under (around_left g x b y) k))
    unfolding take_right merge_right
    with_right x b y v chain = elim (le_or_lt (node_length A h b.body) (B / 2)) [
      | inl le ↦
          let (c', b', e, mg) =
            (tree_node-Laws A B al h).merge_lem c b v.tree child.is.0 (omega arith) (omega arith) le
              (linked_lem A h c _ c b _ _ chain (leaves-around_left g k c b x y)) in
          rw
            (
              (tree_node-Laws A B al h).length_lem b,
              le→ltb le,
              e,
              set_sibling-right c k g x b b' y v.index_is,
            )
            (returned (merged_right c' b' mg))
      | inr lt ↦
          let (b', z, c', e, e', mv, follows) =
            (tree_node-Laws A B al h).from_right b c child.is.0 v.tree lt short in
          rw
            (
              (tree_node-Laws A B al h).length_lem b,
              lt→ltb lt,
              e,
              e',
              set_sibling-right c k g x b b' y v.index_is,
            )
            (returned
              (moved_from_right A B total al big h g k c c' b b' x y _ n v near lt mv follows))
    ]
      where
        child : IsChild (IsSubtree A B h) (tree_weight A h) g.addr (suc (length g.body.before)) b y
        child = v.above.0.after_are.0

        merged_right :
            (c' b' : Tree A h)
            → IsMerged A B al h c b c' b'
            → Continues A B al h c (under (around_left g x b y) k) (record {
              node = c';
              kind = RemovalKind.merged b.prefix.index c.prefix.index;
              above = under (around_left g x b' y) k;
            })
        merged_right c' b' mg =
            merged_lem A B total al big h g k c' b' (x + y - 1) c (around_left g x b y)
              (around_left g x b' y) c' b.prefix.index c.prefix.index
              (ap (λ q. q.parent) mg.left_prefix ∙ v.parent_is) child.index_is
              (ap₂ (λ i j. sizes_merged i j (pair g c' x b' y)) child.index_is v.index_is
                ∙ sizes_merged_lem g c' x b' y (omega (arith, v.above.1, v.weight_is)))
              mg.right_empty
              (Follows-neighbours g k (leaves-around_left g k c b x y)
                (leaves-survivor A B total al big h g k c' b' (x + y - 1)) mg.follows)
              (ih _ _
                (survivor-IsShrunk A B total al big h g k c' b' (x + y - 1) _
                  (around_left-IsAround B (IsSubtree A B h) (tree_weight A h) g x b y v.above.0)
                  (record {
                    parent_is = ap (λ q. q.parent) mg.left_prefix ∙ v.parent_is;
                    index_is = ap (λ q. q.index) mg.left_prefix ∙ v.index_is;
                    sized = record {
                      size_is =
                          omega (arith, mg.left_weight, v.above.1, v.weight_is, child.size_is);
                      is = (mg.left_tree, omega (arith, mg.left_length, child.is.1));
                    };
                  })
                  v.above.2 v.above.3
                  (omega (
                    arith,
                    v.above.1,
                    v.weight_is,
                    child.size_is,
                    weight-append (leaves A h b.addr b.body)
                        (concat_with (leaves A h) g.body.after),
                  ))
                  v.above.5)
                (omega
                  (arith, v.above.4, survivor-length A B total al big h g k c' b' (x + y - 1))))
