-- ===== src/Remove/Merged.antt =====
-- A round of `remove` after two neighbours have been merged: the empty one is taken out of the parent
-- and destroyed.
use btree_vec.Common.{
  ℕ, suc, ◌+◌, ◌≤◌, ◌≡◌, refl, sym, ap, ap₂, ◌∙◌, none, some, List, [], ◌∷◌, ◌++◌, Result, ok, err,
  ◌>>=◌, Returns, returned, Returns-map, arith, length, append-nil, append_assoc,
}
use btree_vec.Node.{Cell, set_prefix, Allocator}
use btree_vec.Node.Internal.{simple_remove}
use btree_vec.Node.Internal.Children.{concat_with, concat_with-append, IsChild}
use btree_vec.Tree.{Body, Tree, Frame, Above, under, plug}
use btree_vec.Tree.Parents.{into_parent-under}
use btree_vec.Tree.Unplug.{
  unplug, simple_remove-plug, length-unplug, concat_with-unplug, unplug-IsNode,
}
use btree_vec.Tree.Valid.{
  leaves, weight, weight-append, tree_weight, node_length, IsSubtree, IsAbove, parent_of, index_of,
  leaves_before, leaves_after,
}
use btree_vec.Tree.Chain.{Follows, Follows-trans}
use btree_vec.Tree.Destroy.{destroy}
use btree_vec.Remove.{
  Child, RemovalKind, RemovalResult, Removal, removal, sizes_merged, handle_removal, update_parent,
  remove_loop, remove_once, rebalance,
}
use btree_vec.Remove.Absorbed.{rounds, IsShrunk}
use btree_vec.Tree.Position.{leaves_around}
use btree_vec.Remove.Collapse.{destroy-nil}
use btree_vec.Tree.Position.{weight-snoc}
use btree_vec.Remove.Pair.{
  IsAround, pair, around_right, plug-around_right, length-snoc, around_right-IsFrame,
}
use btree_vec.Remove.Neighbours.{Continues, IsRemoved}

module _ {ℓ} (A : Type ℓ) (B total : ℕ) (al : Allocator) (big : 4 ≤ B) (h : ℕ)
    (g : Cell (Frame (Body A h))) (k : Above A (suc h)) (l e : Tree A h) (m : ℕ) where
  -- The parent without the node that has become empty.
  abbrev pub survivor : Tree A (suc h)
  survivor = unplug (around_right g l m 0)

  abbrev done_with : Result (Removal A (suc h)) → al.State → Result (RemovalResult A × al.State)
  done_with r s = ◌>>=◌ {B = RemovalResult A × al.State} r (λ x. ok (removal (suc h) x, s))

  taken_out :
      simple_remove (pair g l m e 0) (suc (length g.body.before))
      ≡ ok (survivor, (set_prefix none 0 e, 0))
  taken_out =
      ap₂ simple_remove (sym (plug-around_right g l m e 0 0)) (sym (length-snoc g (l, m)))
      ∙ simple_remove-plug (around_right g l m 0) e 0

  finish :
      (r : Result (Removal A (suc h))) (s : al.State)
      → node_length A h e.body ≡ 0
      → ◌>>=◌ {A = Removal A (suc h) × Child A (suc h)} {B = RemovalResult A × al.State}
          (r >>= λ x. ok (x, (set_prefix none 0 e, 0)))
          (λ x. destroy A al h x.1.0 s >>= λ s'. ok (removal (suc h) x.0, s'))
        ≡ done_with r (al.deallocate e.addr s)
  finish (ok x) s z = rw (destroy-nil A al h (set_prefix none 0 e) s refl z)
  finish (err x) s z = refl

  update_parent-merged :
      (i j : ℕ) (p : Tree A (suc h)) (s : al.State)
      → i ≡ suc (length g.body.before)
      → sizes_merged i j p ≡ ok (pair g l m e 0)
      → node_length A h e.body ≡ 0
      → update_parent A B al h (RemovalKind.merged i j) p k s
        ≡ done_with (rebalance A B al (suc h) survivor k) (al.deallocate e.addr s)
  unfolding update_parent remove_once
  update_parent-merged i j p s q sizes z =
      rw (sizes, ap (simple_remove (pair g l m e 0)) q ∙ taken_out)
        (finish (rebalance A B al (suc h) survivor k) s z)

  module _ (c : Tree A h) (f : Cell (Frame (Body A h))) where
    continue :
        {r : Result (Removal A (suc h))} (fuel : ℕ) (s : al.State)
        → Follows (leaves_around h c (under f k)) (leaves_around (suc h) survivor k)
        → Returns (Continues A B al (suc h) survivor k) r
        → Returns
            (IsRemoved A B al h c (under f k))
            (done_with r s >>= λ x. remove_loop A B al (rounds k fuel) x.0 x.1)
    continue fuel s follows (returned go) =
        Returns-map (go fuel s) λ r fin. (fin.0, Follows-trans follows fin.1)

    pub merged_lem :
        (f' : Cell (Frame (Body A h))) (c' : Tree A h) (i j : ℕ)
        → c'.prefix.parent ≡ some f'.addr
        → i ≡ suc (length g.body.before)
        → sizes_merged i j (plug f' c') ≡ ok (pair g l m e 0)
        → node_length A h e.body ≡ 0
        → Follows (leaves_around h c (under f k)) (leaves_around (suc h) survivor k)
        → Returns (Continues A B al (suc h) survivor k) (rebalance A B al (suc h) survivor k)
        → Continues A B al h c
            (under f k)
            (record { node = c'; kind = RemovalKind.merged i j; above = under f' k })
    unfolding remove_loop handle_removal
    merged_lem f' c' i j parent place sizes z follows ih fuel s =
        rw (into_parent-under c' f' k parent, update_parent-merged i j (plug f' c') s place sizes z)
          (continue fuel (al.deallocate e.addr s) follows ih)

  regroup :
      {X : Type ℓ} (a b c d t : List X)
      → a ++ (((b ++ (c ++ [])) ++ d) ++ t) ≡ (a ++ b) ++ (c ++ (d ++ t))
  regroup a b c d t = simp (append_assoc, append-nil)

  pub leaves-survivor :
      leaves_around (suc h) survivor k
      ≡ (leaves_before k ++ concat_with (leaves A h) g.body.before)
        ++ (leaves A h l.addr l.body ++ (concat_with (leaves A h) g.body.after ++ leaves_after k))
  leaves-survivor =
      ap (λ xs. leaves_before k ++ (xs ++ leaves_after k))
        (concat_with-unplug (leaves A h) (around_right g l m 0)
          ∙ ap (λ xs. xs ++ concat_with (leaves A h) g.body.after)
              (concat_with-append (leaves A h) g.body.before ((l, m) ∷ [])))
      ∙ regroup (leaves_before k) (concat_with (leaves A h) g.body.before)
          (leaves A h l.addr l.body) (concat_with (leaves A h) g.body.after) (leaves_after k)

  pub survivor-length :
      length survivor.body.children ≡ suc (length g.body.before + length g.body.after)
  survivor-length = omega (arith, length-unplug (around_right g l m 0), length-snoc g (l, m))

  pub survivor-IsShrunk :
      (n : ℕ)
      → IsAround B (IsSubtree A B h) (tree_weight A h) g
      → IsChild (IsSubtree A B h) (tree_weight A h) g.addr (length g.body.before) l m
      → g.prefix.parent ≡ parent_of k
      → g.prefix.index ≡ index_of k
      → weight (concat_with (leaves A h) g.body.before)
          + (suc m + weight (concat_with (leaves A h) g.body.after))
        ≡ n
      → IsAbove B total k n
      → IsShrunk B total (suc h) k survivor n
  survivor-IsShrunk n around child parent place total_is above = record {
    parent_is = parent;
    index_is = place;
    tree =
        unplug-IsNode B (IsSubtree A B h) (tree_weight A h) (around_right g l m 0)
          (around_right-IsFrame B (IsSubtree A B h) (tree_weight A h) g l m 0 around child);
    weight_is = omega (
      arith,
      total_is,
      child.size_is,
      ap weight (concat_with-unplug (leaves A h) (around_right g l m 0)),
      weight-append (concat_with (leaves A h) (g.body.before ++ ((l, m) ∷ [])))
          (concat_with (leaves A h) g.body.after),
      weight-snoc A h g.body.before l m,
    );
    above = above;
  }
