-- ===== src/Remove/Absorbed.antt =====
-- The loop of `remove` once the removal needs no change above but that of the sizes.
use btree_vec.Common.{
  ℕ, zero, suc, ◌+◌, ◌/◌, ◌-◌, ◌≤◌, ◌≡◌, sym, ap, ◌∙◌, none, some, ◌++◌, ok, Returns, Returns-map,
  append-nil, arith, length, le→leb,
}
use btree_vec.Node.{Cell, Allocator}
use btree_vec.Node.Internal.{minus}
use btree_vec.Node.Internal.Children.{concat_with}
use btree_vec.Tree.{Body, Tree, Frame, Above, top, under, Root, plug}
use btree_vec.Tree.Parents.{into_parent-under, into_parent-top}
use btree_vec.Tree.Plug.{plug_sized, change_size-plug, length-plug, plug-IsNode, concat_with-plug}
use btree_vec.Tree.Valid.{
  leaves, weight, weight-append, tree_weight, node_length, IsTree, IsSubtree, parent_of, index_of,
  min_length, depth, IsAbove, IsRoot, root_leaves,
}
use btree_vec.Tree.Position.{leaves_around, up-leaves}
use btree_vec.Remove.{
  RemovalKind, removal, done, absorb, handle_removal, update_parent, no_parent, remove_loop,
}
use btree_vec.Remove.Collapse.{near_length, collapse_lem}

module _ {ℓ} {A : Type ℓ} where
  -- The rounds of the loop: one for each node above, one to end and one to return.
  abbrev pub rounds : {h : ℕ} → Above A h → ℕ → ℕ
  rounds top fuel = suc (suc fuel)
  rounds (under f k) fuel = suc (rounds k fuel)

  pub rounds_lem : {h : ℕ} (k : Above A h) (fuel : ℕ) → rounds k fuel ≡ depth k + 2 + fuel
  rounds_lem top fuel = omega arith
  rounds_lem (under f k) fuel = omega (arith, rounds_lem k fuel)

-- The node `c` below `k` has lost one of its `n` items, and the nodes above do not know it.
pub record IsShrunk {ℓ} {A : Type ℓ} (B total h : ℕ) (k : Above A h) (c : Tree A h) (n : ℕ)
    : Type 0 where
  pub parent_is : c.prefix.parent ≡ parent_of k
  pub index_is : c.prefix.index ≡ index_of k
  pub tree : IsTree A B h c.addr c.body
  pub weight_is : suc (tree_weight A h c.addr c.body) ≡ n
  pub above : IsAbove B total k n

pub min_length-near {ℓ} :
    {A : Type ℓ} (B : ℕ) {h : ℕ} (k : Above A h) (n : ℕ) → min_length B k ≤ n → near_length B k ≤ n
min_length-near B (top {h = zero}) n p = omega arith
min_length-near B (top {h = suc h}) n p = omega arith
min_length-near B (under f k) n p = p

module _ {ℓ} (A : Type ℓ) (B total : ℕ) (al : Allocator) (big : 4 ≤ B) where
  -- A tree with these leaves has been built.
  abbrev pub Finished : (h : ℕ) → Tree A h → Above A h → Root A × al.State → Type ℓ
  Finished h c k r = IsRoot B r.0 × (root_leaves r.0 ≡ leaves_around h c k)

  handle-absorbed_top :
      (h : ℕ) (c : Tree A h) (s : al.State)
      → c.prefix.parent ≡ none
      → handle_removal A B al h (absorb A B al h c top) s ≡ ok (done h c, s)
  unfolding handle_removal no_parent
  handle-absorbed_top h c s e = rw (into_parent-top c e)

  update_parent-absorbed :
      (h : ℕ) (c : Tree A h) (f : Cell (Frame (Body A h))) (k : Above A (suc h)) (s : al.State)
      → 1 ≤ f.body.hole
      → update_parent A B al h (RemovalKind.absorbed (length f.body.before)) (plug f c) k s
        ≡ ok (removal (suc h) (absorb A B al (suc h) (plug_sized f c (f.body.hole - 1)) k), s)
  unfolding update_parent
  update_parent-absorbed h c f k s pos =
      rw (change_size-plug (minus 1) f c f.body.hole (f.body.hole - 1) (rw (le→leb pos)))

  handle-absorbed_under :
      (h : ℕ) (c : Tree A h) (f : Cell (Frame (Body A h))) (k : Above A (suc h)) (s : al.State)
      → c.prefix.parent ≡ some f.addr
      → c.prefix.index ≡ length f.body.before
      → 1 ≤ f.body.hole
      → handle_removal A B al h (absorb A B al h c (under f k)) s
        ≡ ok (removal (suc h) (absorb A B al (suc h) (plug_sized f c (f.body.hole - 1)) k), s)
  unfolding handle_removal
  handle-absorbed_under h c f k s e i pos = rw (into_parent-under c f k e) (
      ap (λ j. update_parent A B al h (RemovalKind.absorbed j) (plug f c) k s) i
      ∙ update_parent-absorbed h c f k s pos)

  -- The parent of a node whose size has been put right.
  pub up-IsShrunk :
      (h : ℕ) (c : Tree A h) (f : Cell (Frame (Body A h))) (k : Above A (suc h)) (n : ℕ)
      → IsShrunk B total h (under f k) c n
      → B / 2 ≤ node_length A h c.body
      → IsShrunk B total (suc h) k (plug_sized f c (f.body.hole - 1)) (
          weight (concat_with (leaves A h) f.body.before)
          + (n + weight (concat_with (leaves A h) f.body.after)))
  up-IsShrunk h c f k n v long = record {
    parent_is = v.above.2;
    index_is = v.above.3;
    tree =
        plug-IsNode B (IsSubtree A B h) (tree_weight A h) f c (f.body.hole - 1) v.above.0
          v.parent_is v.index_is
          (record { size_is = omega (arith, v.above.1, v.weight_is); is = (v.tree, long) });
    weight_is = omega (
      arith,
      v.weight_is,
      ap weight (concat_with-plug (leaves A h) f c (f.body.hole - 1)),
      weight-append (concat_with (leaves A h) f.body.before)
          (leaves A h c.addr c.body ++ concat_with (leaves A h) f.body.after),
      weight-append (leaves A h c.addr c.body) (concat_with (leaves A h) f.body.after),
    );
    above = v.above.5;
  }

  -- From a node that is long enough on, the loop ends at a well-formed tree with the same leaves.
  pub absorbed_lem :
      (h : ℕ) (c : Tree A h) (k : Above A h) (n fuel : ℕ) (s : al.State)
      → IsShrunk B total h k c n
      → near_length B k ≤ node_length A h c.body
      → Returns
          (Finished h c k)
          (remove_loop A B al (rounds k fuel) (removal h (absorb A B al h c k)) s)
  unfolding remove_loop
  absorbed_lem h c top n fuel s v long = rw (handle-absorbed_top h c s v.parent_is) (
      Returns-map (collapse_lem A B al big h c s v.parent_is v.index_is v.tree long)
        (λ r q. (q.0, q.1 ∙ sym (append-nil (leaves A h c.addr c.body)))))
  absorbed_lem h c (under f k) n fuel s v long =
      rw
        (handle-absorbed_under h c f k s v.parent_is v.index_is
          (omega (arith, v.above.1, v.weight_is)))
        (Returns-map
          (absorbed_lem (suc h) (plug_sized f c (f.body.hole - 1)) k _ fuel s
            (up-IsShrunk h c f k n v long)
            (min_length-near B k _ (omega (arith, length-plug f c (f.body.hole - 1), v.above.4))))
          (λ r q. (q.0, q.1 ∙ up-leaves h c f k (f.body.hole - 1))))
