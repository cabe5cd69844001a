-- ===== src/Remove/Moved.antt =====
-- A round of `remove` after a child has been moved from one neighbour to the other.
use btree_vec.Common.{
  ℕ, suc, ◌+◌, ◌-◌, ◌/◌, ◌≤◌, ◌<◌, ◌≡◌, sym, ap, ap₂, subst, ◌∙◌, some, [], ◌∷◌, ◌++◌, ok,
  Returns-map, arith, length, length-append,
}
use btree_vec.Node.{Cell, Allocator}
use btree_vec.Node.Internal.Children.{concat_with, IsChild}
use btree_vec.Tree.{Body, Tree, Frame, Above, under, plug}
use btree_vec.Tree.Parents.{into_parent-under}
use btree_vec.Tree.Plug.{length-plug}
use btree_vec.Tree.Valid.{
  leaves, weight, weight-append, tree_weight, node_length, IsSubtree, IsAbove, min_length,
}
use btree_vec.Tree.Chain.{Follows}
use btree_vec.Remove.{
  RemovalKind, removal, absorb, sizes_moved, handle_removal, update_parent, remove_loop,
}
use btree_vec.Remove.Absorbed.{IsShrunk, up-IsShrunk, min_length-near, absorbed_lem}
use btree_vec.Tree.Position.{weight-snoc, leaves_around}
use btree_vec.Remove.Laws.{IsMoved}
use btree_vec.Remove.Pair.{
  IsAround, pair, around_left, around_right, plug-around_right, length-snoc, sizes_moved-left,
  sizes_moved-right, around_left-IsAround, around_left-IsFrame, around_right-IsAround,
  around_right-IsFrame,
}
use btree_vec.Remove.Neighbours.{
  leaves-pair, leaves-around_left, leaves-around_right, Follows-neighbours, Continues,
}

module _ {ℓ} (A : Type ℓ) (B total : ℕ) (al : Allocator) (big : 4 ≤ B) (h : ℕ) where
  handle-moved :
      (f : Cell (Frame (Body A h))) (k : Above A (suc h)) (c : Tree A h) (i j z : ℕ)
      (p : Tree A (suc h)) (s : al.State)
      → c.prefix.parent ≡ some f.addr
      → sizes_moved i j z (plug f c) ≡ ok p
      → handle_removal A B al h
          (record { node = c; kind = RemovalKind.moved i j z; above = under f k })
          s
        ≡ ok (removal (suc h) (absorb A B al (suc h) p k), s)
  unfolding handle_removal update_parent
  handle-moved f k c i j z p s e q = rw (into_parent-under c f k e, q)

  moved_lem :
      (f f' : Cell (Frame (Body A h))) (k : Above A (suc h)) (c c' : Tree A h) (i j z n : ℕ)
      (p : Tree A (suc h))
      → c'.prefix.parent ≡ some f'.addr
      → sizes_moved i j z (plug f' c') ≡ ok p
      → IsShrunk B total (suc h) k p n
      → min_length B k ≤ length p.body.children
      → Follows (leaves_around h c (under f k)) (leaves_around (suc h) p k)
      → Continues A B al h c
          (under f k)
          (record { node = c'; kind = RemovalKind.moved i j z; above = under f' k })
  unfolding remove_loop
  moved_lem f f' k c c' i j z n p e q v long follows fuel s =
      rw (handle-moved f' k c' i j z p s e q) (
        Returns-map
          (absorbed_lem A B total al big (suc h) p k n fuel s v (min_length-near B k _ long))
          λ r fin.
            (fin.0, subst (λ xs. Follows (leaves_around h c (under f k)) xs) (sym fin.1) follows))

  module _ (g : Cell (Frame (Body A h))) (k : Above A (suc h)) where
    -- A child of the right sibling `b` of `c` has been moved to `c`.
    pub moved_from_right :
        (c c' b b' : Tree A h) (x y z n : ℕ)
        → IsShrunk B total h (under (around_left g x b y) k) c n
        → B / 2 ≤ suc (node_length A h c.body)
        → B / 2 < node_length A h b.body
        → IsMoved A B al h z b c b' c'
        → Follows
            (leaves A h c.addr c.body ++ leaves A h b.addr b.body)
            (leaves A h c'.addr c'.body ++ leaves A h b'.addr b'.body)
        → Continues A B al h c (under (around_left g x b y) k) (record {
          node = c';
          kind = RemovalKind.moved b.prefix.index c.prefix.index z;
          above = under (around_left g x b' y) k;
        })
    moved_from_right c c' b b' x y z n v short long mv follows =
        moved_lem (around_left g x b y) (around_left g x b' y) k c c' b.prefix.index c.prefix.index
          z _ (pair g c' (x + z - 1) b' (y - z)) parent_eq
          (ap₂ (λ i j. sizes_moved i j z (pair g c' x b' y)) child.index_is v.index_is
            ∙ sizes_moved-left g c' x b' y z (omega (arith, child.size_is, mv.source_weight))
                (omega (arith, v.above.1, v.weight_is)))
          (up-IsShrunk A B total al big h c' (around_left g (x + z) b' (y - z)) k (n + z) grown
            (omega (arith, mv.dest_length)))
          (omega (arith, v.above.4, length-plug (around_left g x b' (y - z)) c' (x + z - 1)))
          (Follows-neighbours g k (leaves-around_left g k c b x y)
            (leaves-pair g k c' b' (x + z - 1) (y - z)) follows)
      where
        child : IsChild (IsSubtree A B h) (tree_weight A h) g.addr (suc (length g.body.before)) b y
        child = v.above.0.after_are.0

        parent_eq : c'.prefix.parent ≡ some g.addr
        parent_eq = ap (λ q. q.parent) mv.dest_prefix ∙ v.parent_is

        child' :
            IsChild
              (IsSubtree A B h)
              (tree_weight A h)
              g.addr
              (suc (length g.body.before))
              b'
              (y - z)
        child' = record {
          parent_is = ap (λ q. q.parent) mv.source_prefix ∙ child.parent_is;
          index_is = ap (λ q. q.index) mv.source_prefix ∙ child.index_is;
          sized = record {
            size_is = omega (arith, child.size_is, mv.source_weight);
            is = (mv.source_tree, omega (arith, mv.source_length));
          };
        }

        same_weight :
            weight (concat_with (leaves A h) g.body.before)
              + (n + weight (leaves A h b.addr b.body ++ concat_with (leaves A h) g.body.after))
            ≡ weight (concat_with (leaves A h) g.body.before)
              + ((n + z)
                  + weight (leaves A h b'.addr b'.body ++ concat_with (leaves A h) g.body.after))
        same_weight = omega (
          arith,
          weight-append (leaves A h b.addr b.body) (concat_with (leaves A h) g.body.after),
          weight-append (leaves A h b'.addr b'.body) (concat_with (leaves A h) g.body.after),
          mv.source_weight,
        )

        grown : IsShrunk B total h (under (around_left g (x + z) b' (y - z)) k) c' (n + z)
        grown = record {
          parent_is = parent_eq;
          index_is = ap (λ q. q.index) mv.dest_prefix ∙ v.index_is;
          tree = mv.dest_tree;
          weight_is = omega (arith, v.weight_is, mv.dest_weight);
          above = (
            around_left-IsFrame B (IsSubtree A B h) (tree_weight A h) g (x + z) b' (y - z)
                (around_left-IsAround B (IsSubtree A B h) (tree_weight A h) g x b y v.above.0)
                child',
            ap (λ m. m + z) v.above.1,
            v.above.2,
            v.above.3,
            v.above.4,
            subst (λ m. IsAbove B total k m) same_weight v.above.5,
          );
        }

    -- A child of the left sibling `a` of `c` has been moved to `c`.
    pub moved_from_left :
        (c c' a a' : Tree A h) (x y z n : ℕ)
        → IsShrunk B total h (under (around_right g a x y) k) c n
        → B / 2 ≤ suc (node_length A h c.body)
        → B / 2 < node_length A h a.body
        → IsMoved A B al h z a c a' c'
        → Follows
            (leaves A h a.addr a.body ++ leaves A h c.addr c.body)
            (leaves A h a'.addr a'.body ++ leaves A h c'.addr c'.body)
        → Continues A B al h c (under (around_right g a x y) k) (record {
          node = c';
          kind = RemovalKind.moved a.prefix.index c.prefix.index z;
          above = under (around_right g a' x y) k;
        })
    moved_from_left c c' a a' x y z n v short long mv follows =
        moved_lem (around_right g a x y) (around_right g a' x y) k c c' a.prefix.index
          c.prefix.index z _ (pair g a' (x - z) c' (y + z - 1)) parent_eq
          (ap₂ (λ i j. sizes_moved i j z (plug (around_right g a' x y) c')) child.index_is
              (v.index_is ∙ length-snoc g (a, x))
            ∙ ap (sizes_moved (length g.body.before) (suc (length g.body.before)) z)
                (plug-around_right g a' x c' y y)
            ∙ sizes_moved-right g a' x c' y z (omega (arith, child.size_is, mv.source_weight))
                (omega (arith, v.above.1, v.weight_is)))
          (subst
            (λ p. IsShrunk B total (suc h) k p (
              weight (concat_with (leaves A h) (g.body.before ++ ((a', x - z) ∷ [])))
              + (n + z + weight (concat_with (leaves A h) g.body.after))))
            (plug-around_right g a' (x - z) c' (y + z - 1) (y + z))
            (up-IsShrunk A B total al big h c' (around_right g a' (x - z) (y + z)) k (n + z) grown
              (omega (arith, mv.dest_length))))
          (omega (
            arith,
            v.above.4,
            length-snoc g (a, x),
            length-append g.body.before ((a', x - z) ∷ (c', y + z - 1) ∷ g.body.after),
          ))
          (Follows-neighbours g k (leaves-around_right g k a c x y)
            (leaves-pair g k a' c' (x - z) (y + z - 1)) follows)
      where
        around :
            IsAround B (IsSubtree A B h) (tree_weight A h) g
            × IsChild (IsSubtree A B h) (tree_weight A h) g.addr (length g.body.before) a x
        around = around_right-IsAround B (IsSubtree A B h) (tree_weight A h) g a x y v.above.0

        child : IsChild (IsSubtree A B h) (tree_weight A h) g.addr (length g.body.before) a x
        child = around.1

        parent_eq : c'.prefix.parent ≡ some g.addr
        parent_eq = ap (λ q. q.parent) mv.dest_prefix ∙ v.parent_is

        child' :
            IsChild (IsSubtree A B h) (tree_weight A h) g.addr (length g.body.before) a' (x - z)
        child' = record {
          parent_is = ap (λ q. q.parent) mv.source_prefix ∙ child.parent_is;
          index_is = ap (λ q. q.index) mv.source_prefix ∙ child.index_is;
          sized = record {
            size_is = omega (arith, child.size_is, mv.source_weight);
            is = (mv.source_tree, omega (arith, mv.source_length));
          };
        }

        same_weight :
            weight (concat_with (leaves A h) (g.body.before ++ ((a, x) ∷ [])))
              + (n + weight (concat_with (leaves A h) g.body.after))
            ≡ weight (concat_with (leaves A h) (g.body.before ++ ((a', x - z) ∷ [])))
              + ((n + z) + weight (concat_with (leaves A h) g.body.after))
        same_weight = omega (
          arith,
          weight-snoc A h g.body.before a x,
          weight-snoc A h g.body.before a' (x - z),
          mv.source_weight,
        )

        grown : IsShrunk B total h (under (around_right g a' (x - z) (y + z)) k) c' (n + z)
        grown = record {
          parent_is = parent_eq;
          index_is =
              ap (λ q. q.index) mv.dest_prefix
              ∙ v.index_is
              ∙ length-snoc g (a, x)
              ∙ sym (length-snoc g (a', x - z));
          tree = mv.dest_tree;
          weight_is = omega (arith, v.weight_is, mv.dest_weight);
          above = (
            around_right-IsFrame B (IsSubtree A B h) (tree_weight A h) g a' (x - z) (y + z) around.0
                child',
            ap (λ m. m + z) v.above.1,
            v.above.2,
            v.above.3,
            omega (arith, v.above.4, length-snoc g (a, x), length-snoc g (a', x - z)),
            subst (λ m. IsAbove B total k m) same_weight v.above.5,
          );
        }
