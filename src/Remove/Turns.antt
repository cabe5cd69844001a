-- ===== src/Remove/Turns.antt =====
-- `remove_once` for a node that has become too short, by its place among its siblings.
use btree_vec.Common.{
  ℕ, zero, suc, ◌+◌, ◌-◌, ◌/◌, ◌≤◌, ◌<◌, ◌≡◌, inl, inr, refl, sym, ap, ap₂, subst, ◌∙◌, Option,
  none, some, List, [], ◌∷◌, Returns, returned, arith, length, lt→ltb, le→ltb, le_or_lt, last-eq,
  get_elem?,
}
use btree_vec.Node.{Cell, Allocator}
use btree_vec.Node.Internal.{Entry}
use btree_vec.Node.Internal.Children.{IsChild}
use btree_vec.Tree.{Body, Tree, Frame, Above, top, under, plug}
use btree_vec.Tree.Valid.{tree_weight, node_length, IsSubtree, min_length}
use btree_vec.Tree.Beside.{entry_cell}
use btree_vec.Remove.{RemovalKind, rebalance, from_siblings, take_left, merge_left, sizes_merged}
use btree_vec.Remove.Laws.{IsMerged}
use btree_vec.Remove.MergeInternal.{tree_node-Laws}
use btree_vec.Remove.Absorbed.{IsShrunk}
use btree_vec.Remove.Collapse.{near_length}
use btree_vec.Remove.Moved.{moved_from_left}
use btree_vec.Tree.Position.{weight-snoc}
use btree_vec.Remove.Merged.{merged_lem, leaves-survivor, survivor-length, survivor-IsShrunk}
use btree_vec.Remove.Neighbours.{leaves-around_right, Follows-neighbours, Continues}
use btree_vec.Remove.Pair.{
  IsAround, around_right, plug-around_right, length-snoc, sizes_merged_lem, around_right-IsAround,
}
use btree_vec.Remove.Rebalance.{ChainAt, linked_lem, rebalance-short, with_right}
use btree_vec.Remove.Siblings.{siblings-first, siblings-later, set_sibling-left}

module _ {ℓ} {A : Type ℓ} {B : ℕ} (big : 4 ≤ B) where
  min_length-two : {h : ℕ} (k : Above A (suc h)) → 2 ≤ min_length B k
  min_length-two top = omega arith
  min_length-two (under f k) = omega arith

module _ {ℓ} (A : Type ℓ) (B total : ℕ) (al : Allocator) (big : 4 ≤ B) where
  pub top-near :
      (h : ℕ) (c : Tree A h)
      → min_length {A = A} B (top {h = h}) ≤ suc (node_length A h c.body)
      → near_length {A = A} B (top {h = h}) ≤ node_length A h c.body
  top-near zero c p = omega arith
  top-near (suc h) c p = omega (arith, p)

  module _ (h : ℕ) (k : Above A (suc h))
      (ih : (c : Tree A (suc h)) (n : ℕ)
        → IsShrunk B total (suc h) k c n
        → min_length B k ≤ suc (length c.body.children)
        → Returns (Continues A B al (suc h) c k) (rebalance A B al (suc h) c k))
      (c : Tree A h) (n : ℕ) (short : node_length A h c.body < B / 2)
      (near : B / 2 ≤ suc (node_length A h c.body)) where
    abbrev Holds : Cell (Frame (Body A h)) → Type ℓ
    Holds f =
        IsShrunk B total h (under f k) c n
        → ChainAt A h c (under f k)
        → Returns (Continues A B al h c (under f k)) (rebalance A B al h c (under f k))

    module _ (g : Cell (Frame (Body A h))) (a : Tree A h) (x y : ℕ)
        (v : IsShrunk B total h (under (around_right g a x y) k) c n) where
      around :
          IsAround B (IsSubtree A B h) (tree_weight A h) g
          × IsChild (IsSubtree A B h) (tree_weight A h) g.addr (length g.body.before) a x
      around = around_right-IsAround B (IsSubtree A B h) (tree_weight A h) g a x y v.above.0

      merged_left :
          (a' c' : Tree A h)
          → IsMerged A B al h a c a' c'
          → Continues A B al h c (under (around_right g a x y) k) (record {
            node = c';
            kind = RemovalKind.merged c.prefix.index a.prefix.index;
            above = under (around_right g a' x y) k;
          })
      merged_left a' c' mg =
          merged_lem A B total al big h g k a' c' (x + y - 1) c (around_right g a x y)
            (around_right g a' x y) c' c.prefix.index a.prefix.index
            (ap (λ q. q.parent) mg.right_prefix ∙ v.parent_is) (v.index_is ∙ length-snoc g (a, x))
            (ap₂ (λ i j. sizes_merged i j (plug (around_right g a' x y) c'))
                (v.index_is ∙ length-snoc g (a, x)) around.1.index_is
              ∙ ap (sizes_merged (suc (length g.body.before)) (length g.body.before))
                  (plug-around_right g a' x c' y y)
              ∙ sizes_merged_lem g a' x c' y (omega (arith, v.above.1, v.weight_is)))
            mg.right_empty
            (Follows-neighbours g k (leaves-around_right g k a c x y)
              (leaves-survivor A B total al big h g k a' c' (x + y - 1)) mg.follows)
            (ih _ _
              (survivor-IsShrunk A B total al big h g k a' c' (x + y - 1) _ around.0
                (record {
                  parent_is = ap (λ q. q.parent) mg.left_prefix ∙ around.1.parent_is;
                  index_is = ap (λ q. q.index) mg.left_prefix ∙ around.1.index_is;
                  sized = record {
                    size_is =
                        omega (arith, mg.left_weight, v.above.1, v.weight_is, around.1.size_is);
                    is = (mg.left_tree, omega (arith, mg.left_length, around.1.is.1));
                  };
                })
                v.above.2 v.above.3
                (omega (
                  arith,
                  v.above.1,
                  v.weight_is,
                  around.1.size_is,
                  weight-snoc A h g.body.before a x,
                ))
                v.above.5)
              (omega (
                arith,
                v.above.4,
                length-snoc g (a, x),
                survivor-length A B total al big h g k a' c' (x + y - 1),
              )))

      -- There is a left sibling `a`, and it is its turn.
      with_left_long :
          B / 2 < node_length A h a.body
          → Returns
              (Continues A B al h c (under (around_right g a x y) k))
              (take_left A B al h a c (under (around_right g a x y) k))
      unfolding take_left
      with_left_long lt =
          let (a', z, c', e, e', mv, follows) =
            (tree_node-Laws A B al h).from_left a c around.1.is.0 v.tree lt short in
          rw (e, e', set_sibling-left c k g a a' x y v.index_is)
            (returned
              (moved_from_left A B total al big h g k c c' a a' x y _ n v near lt mv follows))

      with_left_short :
          ChainAt A h c (under (around_right g a x y) k)
          → node_length A h a.body ≤ B / 2
          → Returns
              (Continues A B al h c (under (around_right g a x y) k))
              (merge_left A B al h a c (under (around_right g a x y) k))
      unfolding merge_left
      with_left_short chain le =
          let (a', c', e, mg) =
            (tree_node-Laws A B al h).merge_lem a c around.1.is.0 v.tree
              (omega (arith, around.1.is.1)) le (omega arith)
              (linked_lem A h c _ a c _ _ chain (leaves-around_right g k a c x y)) in
          rw (e, set_sibling-left c k g a a' x y v.index_is) (returned (merged_left a' c' mg))

    -- The frame with other children after the gap.
    abbrev with_after : Cell (Frame (Body A h)) → List (Entry (Body A h)) → Cell (Frame (Body A h))
    with_after f es = record {
      addr = f.addr;
      prefix = f.prefix;
      body = record {
        before = f.body.before;
        hole = f.body.hole;
        after = es;
        spare = f.body.spare;
      };
    }

    first_child :
        (f : Cell (Frame (Body A h))) (es : List (Entry (Body A h)))
        → f.body.before ≡ []
        → Holds (with_after f es)
    unfolding from_siblings
    first_child f [] z v chain =
        absurd (omega (arith, v.above.4, ap length z, min_length-two big k))
    first_child f ((b, m) ∷ fs) z v chain =
        rw
          (rebalance-short A B total al big h _ c none (some b)
            (siblings-first c k (with_after f ((b, m) ∷ fs)) z v.parent_is v.index_is) short)
          (with_right A B total al big h k ih c n short near (with_after f fs) f.body.hole b m v
            chain)

    later_child :
        (g : Cell (Frame (Body A h))) (es : List (Entry (Body A h))) (a : Tree A h) (x y : ℕ)
        → Holds (around_right (with_after g es) a x y)
    unfolding from_siblings
    later_child g es a x y v chain = elim (le_or_lt (node_length A h a.body) (B / 2)) [
      | inl le ↦ go es le v chain
      | inr lt ↦
          rw
            (rebalance-short A B total al big h _ c (some a) (entry_cell (get_elem? es 0))
              (siblings-later c k (with_after g es) a x y v.parent_is v.index_is) short)
            (long_left (entry_cell (get_elem? es 0)) lt
              (with_left_long (with_after g es) a x y v lt))
    ]
      where
        long_left :
            (o : Option (Tree A h))
            → B / 2 < node_length A h a.body
            → Returns
                (Continues A B al h c (under (around_right (with_after g es) a x y) k))
                (take_left A B al h a c (under (around_right (with_after g es) a x y) k))
            → Returns (Continues A B al h c (under (around_right (with_after g es) a x y) k)) (
                from_siblings A B al h
                  (some a)
                  o
                  c
                  (under (around_right (with_after g es) a x y) k))
        long_left none lt t = rw ((tree_node-Laws A B al h).length_lem a, lt→ltb lt) t
        long_left (some b) lt t = rw ((tree_node-Laws A B al h).length_lem a, lt→ltb lt) t

        go :
            (fs : List (Entry (Body A h)))
            → node_length A h a.body ≤ B / 2
            → Holds (around_right (with_after g fs) a x y)
        go [] le v chain =
            rw
              (
                rebalance-short A B total al big h _ c (some a) none
                    (siblings-later c k (with_after g []) a x y v.parent_is v.index_is) short,
                (tree_node-Laws A B al h).length_lem a,
                le→ltb le,
              )
              (with_left_short (with_after g []) a x y v chain le)
        go ((b, m) ∷ fs) le v chain =
            rw
              (
                rebalance-short A B total al big h _ c (some a) (some b)
                    (siblings-later c k (with_after g ((b, m) ∷ fs)) a x y v.parent_is v.index_is)
                    short,
                (tree_node-Laws A B al h).length_lem a,
                le→ltb le,
              )
              (with_right A B total al big h k ih c n short near
                (with_after (around_right g a x y) fs) y b m v chain)

    pub any_child : (f : Cell (Frame (Body A h))) → Holds f
    any_child f = go f.body.before refl
      where
        go : (es : List (Entry (Body A h))) → f.body.before ≡ es → Holds f
        go [] z = first_child f f.body.after z
        go (e ∷ es) z =
            let (before, (a, x), q, m) = last-eq f.body.before (omega (arith, ap length z)) in
            subst Holds
              (λ i. record {
                addr = f.addr;
                prefix = f.prefix;
                body = record {
                  before = sym q i;
                  hole = f.body.hole;
                  after = f.body.after;
                  spare = f.body.spare;
                };
              })
              (later_child
                (record {
                  addr = f.addr;
                  prefix = f.prefix;
                  body = record {
                    before = before;
                    hole = f.body.hole;
                    after = f.body.after;
                    spare = f.body.spare;
                  };
                })
                f.body.after a x f.body.hole)
