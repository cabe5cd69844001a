-- ===== src/Insert/Parent.antt =====
-- What a round of the loop of `insert` does with the parent.
use btree_vec.Common.{
  ℕ, suc, ◌+◌, ◌-◌, ◌≤◌, ◌≡◌, refl, sym, ap, ap₂, ◌∙◌, ◌⊎◌, inl, inr, Option, none, some, List, [],
  ◌++◌, ok, Returns, returned, Returns-bind, append_assoc, append-nil, arith, length, le→leb, sum,
  sum-append,
}
use btree_vec.Node.{Cell, Allocator}
use btree_vec.Node.Internal.{Internal, plus, minus, live_sizes}
use btree_vec.Node.Internal.Children.{concat_with, sum-live_sizes}
use btree_vec.Node.Internal.Inserting.{IsNode}
use btree_vec.Tree.{Body, Tree, Frame, Above, under}
use btree_vec.Tree.Valid.{
  leaves, weight, weight-append, weight-nil, tree_weight, IsTree, IsSubtree, IsFrame, parent_of,
  index_of, min_length, leaves_before, leaves_after, IsAbove,
}
use btree_vec.Tree.Plug.{
  plug_sized, change_size-plug, length-plug, plug-IsNode, concat_with-plug, concat_with-take-plug,
  drop-plug,
}
use btree_vec.Insert.{InsertionResult, insertion, node_size, update_parent}
use btree_vec.Insert.AtInternal.{IsOutcome, concat_new, insert_once-IsOutcome}
use btree_vec.Insert.Pending.{all_leaves, IsPending}

-- `size()` of a fresh node counts its items, since nothing but zeros stands behind its live sizes.
new_size {ℓ} :
    (A : Type ℓ) (B h : ℕ) (new : Tree A (suc h))
    → IsTree A B (suc h) new.addr new.body
    → sum new.body.spare ≡ 0
    → node_size A (suc h) new ≡ tree_weight A (suc h) new.addr new.body
unfolding node_size
new_size A B h new v z = omega (
  arith,
  z,
  sum-append (live_sizes new.body.children) new.body.spare,
  sum-live_sizes (IsSubtree A B h) (leaves A h) weight weight-append (weight-nil A) new.addr 0
      new.body.children v.children_are,
)

module _ {ℓ} {X : Type ℓ} (a b c d e : List X) where
  regroup_one :
      {x : List X} → x ≡ b ++ (c ++ d) → a ++ ((x ++ []) ++ e) ≡ (a ++ b) ++ ((c ++ []) ++ (d ++ e))
  regroup_one p = rw p (simp (append_assoc, append-nil))

  regroup_two :
      (m : List X) {x : List X}
      → x ≡ (b ++ (c ++ [])) ++ (m ++ d)
      → a ++ (x ++ e) ≡ (a ++ b) ++ ((c ++ m) ++ (d ++ e))
  regroup_two m p = rw p (simp (append_assoc, append-nil))

module _ {ℓ} {A : Type ℓ} (B total h : ℕ) (al : Allocator) (f : Cell (Frame (Body A h)))
    (k : Above A (suc h)) (c : Tree A h) (n : ℕ)
    (frame_is : IsFrame B (IsSubtree A B h) (tree_weight A h) f) (hole_is : f.body.hole ≡ n)
    (f_parent : f.prefix.parent ≡ parent_of k) (f_index : f.prefix.index ≡ index_of k)
    (above : IsAbove B total k (
      weight (concat_with (leaves A h) f.body.before)
      + (n + weight (concat_with (leaves A h) f.body.after))))
    (c_parent : c.prefix.parent ≡ some f.addr) (c_index : c.prefix.index ≡ length f.body.before)
    (c_is : IsSubtree A B h c.addr c.body) (s : al.State) where
  abbrev Next : Option (Tree A h) → InsertionResult A × al.State → Type ℓ
  Next new r =
      (c' : Tree A (suc h)) × (split : Option (Tree A (suc h))) × (r.0
        ≡ insertion (suc h) c' split k)
      × ((split ≡ none) ⊎ (length f.body.before + suc (length f.body.after) ≡ B))
      × IsPending A B total (suc h) c' split k (
          weight (concat_with (leaves A h) f.body.before)
          + (n + weight (concat_with (leaves A h) f.body.after)))
      × (all_leaves A (suc h) c' split k ≡ all_leaves A h c new (under f k))

  pub update_parent-none :
      tree_weight A h c.addr c.body ≡ suc n
      → min_length B k ≤ length f.body.before + suc (length f.body.after)
      → Returns
          (Next none)
          (update_parent B al (plug_sized f c f.body.hole) k (length f.body.before) none s)
  unfolding update_parent
  update_parent-none e long =
      let c' : Tree A (suc h) = plug_sized f c (f.body.hole + 1) in
      rw (change_size-plug (plus 1) f c f.body.hole (f.body.hole + 1) refl) (
        returned (
          c',
          none,
          refl,
          inl refl,
          record {
            parent_is = f_parent;
            index_is = f_index;
            tree =
                plug-IsNode B (IsSubtree A B h) (tree_weight A h) f c _ frame_is c_parent c_index
                  (record { size_is = omega arith; is = c_is });
            new_is = omega (arith, length-plug f c (f.body.hole + 1));
            total_is = omega (
              arith,
              ap weight (concat_with-plug (leaves A h) f c (f.body.hole + 1)),
              weight-append (concat_with (leaves A h) f.body.before)
                  (leaves A h c.addr c.body ++ concat_with (leaves A h) f.body.after),
              weight-append (leaves A h c.addr c.body) (concat_with (leaves A h) f.body.after),
              weight-nil A,
              e,
            );
            above = above;
          },
          regroup_one (leaves_before k) (concat_with (leaves A h) f.body.before)
              (leaves A h c.addr c.body) (concat_with (leaves A h) f.body.after) (leaves_after k)
              (concat_with-plug (leaves A h) f c (f.body.hole + 1)),
        ))

  module _ (m : Tree A h) (big : 3 ≤ B) (m_is : IsSubtree A B h m.addr m.body)
      (size_is : node_size A h m ≡ tree_weight A h m.addr m.body)
      (e : tree_weight A h c.addr c.body + tree_weight A h m.addr m.body ≡ suc n)
      (long : min_length B k ≤ length f.body.before + suc (suc (length f.body.after))) where
    abbrev shrunk : Internal (Body A h)
    shrunk = plug_sized f c (f.body.hole + 1 - node_size A h m)

    abbrev Outcome : Tree A (suc h) → Option (Tree A (suc h)) → Type ℓ
    Outcome node split =
        IsOutcome B (IsSubtree A B h) (tree_weight A h) (leaves A h) shrunk
          (length f.body.before + 1) (m, node_size A h m) node split

    shrunk-IsNode : IsNode B (IsSubtree A B h) (tree_weight A h) f.addr shrunk.body
    shrunk-IsNode =
        plug-IsNode B (IsSubtree A B h) (tree_weight A h) f c _ frame_is c_parent c_index
          (record { size_is = omega arith; is = c_is })

    -- The children of the parent after the insertion.
    parts :
        (node : Tree A (suc h)) (split : Option (Tree A (suc h)))
        → Outcome node split
        → concat_with (leaves A h) node.body.children ++ concat_new (leaves A h) split
          ≡ (concat_with (leaves A h) f.body.before ++ (leaves A h c.addr c.body ++ []))
            ++ (leaves A h m.addr m.body ++ concat_with (leaves A h) f.body.after)
    parts node split o =
        o.content
        ∙ ap₂ (λ xs ys. xs ++ (leaves A h m.addr m.body ++ concat_with (leaves A h) ys))
            (concat_with-take-plug (leaves A h) f c (f.body.hole + 1 - node_size A h m))
            (drop-plug (leaves A h) f c (f.body.hole + 1 - node_size A h m))

    parts_weight :
        (node : Tree A (suc h)) (split : Option (Tree A (suc h)))
        → Outcome node split
        → weight (concat_with (leaves A h) node.body.children)
            + weight (concat_new (leaves A h) split)
          ≡ suc (
              weight (concat_with (leaves A h) f.body.before)
              + (n + weight (concat_with (leaves A h) f.body.after)))
    parts_weight node split o = omega (
      arith,
      ap weight (parts node split o),
      weight-append (concat_with (leaves A h) node.body.children) (concat_new (leaves A h) split),
      weight-append (concat_with (leaves A h) f.body.before ++ (leaves A h c.addr c.body ++ []))
          (leaves A h m.addr m.body ++ concat_with (leaves A h) f.body.after),
      weight-append (concat_with (leaves A h) f.body.before) (leaves A h c.addr c.body ++ []),
      weight-append (leaves A h c.addr c.body) [],
      weight-append (leaves A h m.addr m.body) (concat_with (leaves A h) f.body.after),
      weight-nil A,
      e,
    )

    finish :
        (node : Tree A (suc h)) (split : Option (Tree A (suc h))) (s' : al.State)
        → Outcome node split
        → Next (some m) (insertion (suc h) node split k, s')
    finish node none s' o = (
      node,
      none,
      refl,
      inl refl,
      record {
        parent_is = ap (λ p. p.parent) o.same_prefix ∙ f_parent;
        index_is = ap (λ p. p.index) o.same_prefix ∙ f_index;
        tree = o.node_is;
        new_is = omega (arith, o.new_is, length-plug f c (f.body.hole + 1 - node_size A h m));
        total_is = parts_weight node none o;
        above = above;
      },
      regroup_two (leaves_before k) (concat_with (leaves A h) f.body.before)
          (leaves A h c.addr c.body) (concat_with (leaves A h) f.body.after) (leaves_after k)
          (leaves A h m.addr m.body) (parts node none o),
    )
    finish node (some new) s' o = (
      node,
      some new,
      refl,
      inr (sym (length-plug f c (f.body.hole + 1 - node_size A h m)) ∙ o.new_is.0),
      record {
        parent_is = ap (λ p. p.parent) o.same_prefix ∙ f_parent;
        index_is = ap (λ p. p.index) o.same_prefix ∙ f_index;
        tree = o.node_is;
        new_is = (o.new_is.1, o.new_is.2, o.new_is.3, new_size A B h new o.new_is.1 o.new_is.4);
        total_is = parts_weight node (some new) o;
        above = above;
      },
      regroup_two (leaves_before k) (concat_with (leaves A h) f.body.before)
          (leaves A h c.addr c.body) (concat_with (leaves A h) f.body.after) (leaves_after k)
          (leaves A h m.addr m.body) (parts node (some new) o),
    )

    pub update_parent-some :
        Returns
          (Next (some m))
          (update_parent B al (plug_sized f c f.body.hole) k (length f.body.before) (some m) s)
    unfolding update_parent
    update_parent-some =
        rw
          (
            change_size-plug (plus 1) f c f.body.hole (f.body.hole + 1) refl,
            change_size-plug (minus (node_size A h m)) f c (f.body.hole + 1)
                (f.body.hole + 1 - node_size A h m) enough,
          )
          (Returns-bind _
            (insert_once-IsOutcome B al (IsSubtree A B h) (tree_weight A h) (leaves A h) shrunk
              (length f.body.before + 1) (m, node_size A h m) s shrunk-IsNode
              (record { size_is = size_is; is = m_is }) big (omega (arith, shrunk-IsNode.capacity))
              (omega (arith, length-plug f c (f.body.hole + 1 - node_size A h m))))
            (λ r o. returned (finish r.0 r.1 r.2 o)))
      where
        enough : minus (node_size A h m) (f.body.hole + 1) ≡ ok (f.body.hole + 1 - node_size A h m)
        enough = rw (le→leb {a = node_size A h m} {b = f.body.hole + 1} (omega arith))
