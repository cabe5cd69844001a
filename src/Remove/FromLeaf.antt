-- ===== src/Remove/FromLeaf.antt =====
-- `remove`: from the leaf with the item to the root.
use btree_vec.Common.{
  ℕ, suc, ◌≤◌, ◌≡◌, refl, sym, ap, subst, ◌∙◌, List, [], ◌∷◌, ◌++◌, Result, ok, ◌>>=◌, Returns,
  returned, Returns-bind, arith, length, length-append, append-nil,
}
use btree_vec.Node.{Allocator}
use btree_vec.Node.Leaf.{Leaf, with_children}
use btree_vec.Tree.{Above, Root}
use btree_vec.Tree.Valid.{
  leaf-weight, items, items-append, tree_weight, leaves_before, leaves_after, IsBelow, IsAbove,
  IsRoot, root_leaves,
}
use btree_vec.Tree.Chain.{IsChain, IsChain-append_right, IsChain-replace}
use btree_vec.Remove.{Removal, removal, remove_loop, remove_once, remove}
use btree_vec.Remove.Absorbed.{rounds, IsShrunk}
use btree_vec.Tree.Position.{leaves_around}
use btree_vec.Remove.AtLeaf.{simple_remove_lem}
use btree_vec.Remove.Correct.{rebalance_lem}
use btree_vec.Remove.Neighbours.{Continues}

module _ {ℓ} (A : Type ℓ) (B total : ℕ) (al : Allocator) (big : 4 ≤ B) (leaf : Leaf A)
    (k : Above A 0) (xs : List A) (x : A) (ys : List A) (e : leaf.body.children ≡ xs ++ (x ∷ ys))
    (below : IsBelow B 0 k leaf)
    (above : IsAbove B total k (tree_weight A 0 leaf.addr leaf.body)) where
  shorter : Leaf A
  shorter = with_children (xs ++ ys) leaf

  shorter-length : suc (length (xs ++ ys)) ≡ length leaf.body.children
  shorter-length = omega (arith, ap length e, length-append xs (x ∷ ys), length-append xs ys)

  shorter-IsShrunk :
      IsShrunk B total 0 k (with_children (xs ++ ys) leaf) (tree_weight A 0 leaf.addr leaf.body)
  shorter-IsShrunk = record {
    parent_is = below.parent_is;
    index_is = below.index_is;
    tree = omega (arith, shorter-length, below.tree);
    weight_is = omega (
      arith,
      shorter-length,
      leaf-weight leaf.addr leaf.body,
      leaf-weight leaf.addr (with_children (xs ++ ys) leaf).body,
    );
    above = above;
  }

  shorter-IsChain :
      IsChain (leaves_before k ++ ((leaf.addr, leaf.body) ∷ leaves_after k))
      → IsChain (leaves_around 0 (with_children (xs ++ ys) leaf) k)
  shorter-IsChain h =
      let rest =
        IsChain-append_right (leaves_before k) ((leaf.addr, leaf.body) ∷ leaves_after k) h in
      IsChain-replace (leaves_before k) ((leaf.addr, leaf.body) ∷ leaves_after k) _ h refl
        (rest.0, rest.1)

  -- The tree without the item.
  abbrev pub Removed : Root A × A × al.State → Type ℓ
  Removed q =
      IsRoot B q.0
      × IsChain (root_leaves q.0)
      × (items (root_leaves q.0)
          ≡ items (leaves_before k) ++ ((xs ++ ys) ++ items (leaves_after k)))
      × (q.1 ≡ x)

  finish :
      {r : Result (Removal A 0)} (fuel : ℕ) (s : al.State)
      → IsChain (leaves_around 0 (with_children (xs ++ ys) leaf) k)
      → Returns (Continues A B al 0 (with_children (xs ++ ys) leaf) k) r
      → Returns Removed (
          ◌>>=◌ {A = Removal A 0 × A} {B = Root A × A × al.State}
            (r >>= λ a. ok (a, x))
            (λ p. remove_loop A B al (rounds k fuel) (removal 0 p.0) s >>= λ q. ok (q.0, p.1, q.1)))
  finish fuel s chain (returned go) = Returns-bind _ (go fuel s) λ q fin. returned (
    fin.0,
    subst IsChain (append-nil (root_leaves q.0)) (
        fin.1.chained [] [] (
          subst IsChain (sym (append-nil (leaves_around 0 (with_children (xs ++ ys) leaf) k)))
            chain)),
    fin.1.same_items
        ∙ items-append (leaves_before k)
            ((leaf.addr, (with_children (xs ++ ys) leaf).body) ∷ leaves_after k),
    refl,
  )

  pub remove_lem :
      (fuel : ℕ) (s : al.State)
      → IsChain (leaves_before k ++ ((leaf.addr, leaf.body) ∷ leaves_after k))
      → Returns Removed (remove A B al (rounds k fuel) leaf k (length xs) s)
  unfolding remove remove_once
  remove_lem fuel s chain = rw (simple_remove_lem leaf xs x ys e) (
      finish fuel s (shorter-IsChain chain) (
        rebalance_lem A B total al big 0 k (with_children (xs ++ ys) leaf) _ shorter-IsShrunk
          (omega (arith, shorter-length, below.long)) (shorter-IsChain chain)))
