-- ===== src/Insert/Correct.antt =====
-- `insert` from a leaf: the item comes in at its index, and all stays well formed.
use btree_vec.Common.{
  ℕ, ◌≤◌, ◌≡◌, sym, subst, ap, ◌∙◌, Option, none, some, ◌∷◌, ◌++◌, Returns, Returns-bind,
  Returns-map, append-nil, append_assoc, arith, length, length-append, insert_at, length-insert_at,
}
use btree_vec.Node.{Allocator}
use btree_vec.Node.Leaf
use btree_vec.Node.Leaf.{Leaf, leaf_node}
use btree_vec.Tree.{Above}
use btree_vec.Tree.Valid.{
  items, items-append, weight, tree_weight, leaves_before, leaves_after, IsAbove, IsBelow, IsRoot,
  root_leaves,
}
use btree_vec.Tree.Chain.{IsChain, IsChain-append_right, IsChain-replace}
use btree_vec.Insert.{insert, node_size}
use btree_vec.Insert.AtLeaf.{IsOutcome, insert_once-IsOutcome}
use btree_vec.Insert.Pending.{IsPending, all_leaves}
use btree_vec.Insert.Loop.{rounds, loop_lem}

module _ {ℓ} (A : Type ℓ) (B total : ℕ) (al : Allocator) (leaf : Leaf A) (k : Above A 0) (i : ℕ)
    (item : A) (below : IsBelow B 0 k leaf)
    (above : IsAbove B total k (tree_weight A 0 leaf.addr leaf.body))
    (inside : i ≤ length leaf.body.children) where
  module _ (node : Leaf A) where
    pending :
        (new : Option (Leaf A))
        → IsOutcome B leaf i item node new
        → IsPending A B total 0 node new k (tree_weight A 0 leaf.addr leaf.body)
    unfolding weight node_size Leaf.size
    pending none o = record {
      parent_is = ap (λ p. p.parent) o.same_prefix ∙ below.parent_is;
      index_is = ap (λ p. p.index) o.same_prefix ∙ below.index_is;
      tree = o.fits;
      new_is = omega (arith, o.new_is.0, below.long);
      total_is = omega (
        arith,
        o.new_is.0,
        ap length (append-nil node.body.children),
        ap length (append-nil leaf.body.children),
      );
      above = above;
    }
    pending (some m) o = record {
      parent_is = ap (λ p. p.parent) o.same_prefix ∙ below.parent_is;
      index_is = ap (λ p. p.index) o.same_prefix ∙ below.index_is;
      tree = o.fits;
      new_is = (o.new_is.0, o.new_is.1, o.new_is.2, sym (ap length (append-nil m.body.children)));
      total_is = omega (
        arith,
        ap length (append-nil node.body.children),
        ap length (append-nil m.body.children),
        ap length (append-nil leaf.body.children),
        ap length o.content,
        length-append node.body.children m.body.children,
        length-insert_at i item leaf.body.children inside,
      );
      above = above;
    }

    -- The items and the chain, with the new leaf in its place.
    new_items :
        (new : Option (Leaf A))
        → IsOutcome B leaf i item node new
        → items (all_leaves A 0 node new k)
          ≡ items (leaves_before k)
            ++ (insert_at i item leaf.body.children ++ items (leaves_after k))
    new_items none o =
        items-append (leaves_before k) ((node.addr, node.body) ∷ leaves_after k)
        ∙ ap (λ xs. items (leaves_before k) ++ (xs ++ items (leaves_after k)))
            (sym (append-nil node.body.children) ∙ o.content)
    new_items (some m) o =
        items-append (leaves_before k) ((node.addr, node.body) ∷ (m.addr, m.body) ∷ leaves_after k)
        ∙ ap (λ xs. items (leaves_before k) ++ xs)
            (sym (append_assoc node.body.children m.body.children (items (leaves_after k)))
              ∙ ap (λ xs. xs ++ items (leaves_after k)) o.content)

    new-IsChain :
        (new : Option (Leaf A))
        → IsOutcome B leaf i item node new
        → IsChain (leaves_before k ++ ((leaf.addr, leaf.body) ∷ leaves_after k))
        → IsChain (all_leaves A 0 node new k)
    new-IsChain none o h =
        let rest =
          IsChain-append_right (leaves_before k) ((leaf.addr, leaf.body) ∷ leaves_after k) h in
        IsChain-replace (leaves_before k) ((leaf.addr, leaf.body) ∷ leaves_after k) _ h
          (ap some (sym o.same_addr)) (o.new_is.1 ∙ rest.0, rest.1)
    new-IsChain (some m) o h =
        let rest =
          IsChain-append_right (leaves_before k) ((leaf.addr, leaf.body) ∷ leaves_after k) h in
        IsChain-replace (leaves_before k) ((leaf.addr, leaf.body) ∷ leaves_after k) _ h
          (ap some (sym o.same_addr)) (o.new_is.3, (o.new_is.4 ∙ rest.0, rest.1))

  pub insert_lem :
      3 ≤ B
      → (fuel : ℕ) (s : al.State)
      → Returns
          (λ r.
            IsRoot B r.0
            × (items (root_leaves r.0)
                ≡ items (leaves_before k)
                  ++ (insert_at i item leaf.body.children ++ items (leaves_after k)))
            × (IsChain (leaves_before k ++ ((leaf.addr, leaf.body) ∷ leaves_after k))
                → IsChain (root_leaves r.0)))
          (insert B al (rounds k fuel) leaf k i item total s)
  unfolding insert
  insert_lem big fuel s =
      Returns-bind _ (insert_once-IsOutcome B al leaf i item s big below.tree inside) λ r o.
        Returns-map (loop_lem A B total al big 0 k r.0 r.1 _ fuel r.2 (pending r.0 r.1 o)) (λ q fin.
          (
            fin.0,
            ap items fin.1 ∙ new_items r.0 r.1 o,
            λ h. subst IsChain (sym fin.1) (new-IsChain r.0 r.1 o h),
          ))
