-- ===== src/Memory/Rebalancing.antt =====
-- `remove_once`: the nodes of a tree when a child has been taken out of one of them.
use btree_vec.Common.{
  IfOk-if, ℕ, ◌+◌, ◌-◌, ◌/◌, ◌≡◌, refl, ap, ◌∙◌, Option, none, some, IfOk, if_ok, IfOk-bind, arith,
  leb,
}
use btree_vec.Node.{Ptr, Allocator}
use btree_vec.Tree.{Tree, Above}
use btree_vec.Tree.Valid.{parent_of}
use btree_vec.Remove.{
  RemovalKind, tree_node, Removal, take_left, take_right, merge_left, merge_right, absorb,
  is_longer, from_siblings, rebalance, remove_once,
}
use btree_vec.Memory.{below, above}
use btree_vec.Memory.Ancestors.{AboveLinked}
use btree_vec.Memory.Beside.{SiblingIs, siblings-SiblingIs, set_sibling-AboveLinked}
use btree_vec.Memory.Accounts.{child_below, tree-Accounts}

-- A node whose removal was absorbed has the right parent pointer: it may be the root.
abbrev pub LinkedFor {ℓ} : {A : Type ℓ} {h : ℕ} → RemovalKind → Tree A h → Above A h → Type 0
LinkedFor (RemovalKind.merged src dest) c k = Unit
LinkedFor (RemovalKind.moved src dest size) c k = Unit
LinkedFor (RemovalKind.absorbed i) c k = c.prefix.parent ≡ parent_of k

module _ {ℓ} (A : Type ℓ) (B : ℕ) (al : Allocator) (h : ℕ) where
  -- The node with those above it has the nodes of `c` and `k`.
  pub record Kept (c : Tree A h) (k : Above A h) (r : Removal A h) : Type ℓ where
    pub linked : LinkedFor r.kind r.node r.above
    pub above_linked : AboveLinked r.above
    pub same : (p : Ptr) → below A h r.node p + above r.above p ≡ below A h c p + above k p

  module _ (node : Tree A h) (k : Above A h) (l : AboveLinked k) where
    absorb-Kept : node.prefix.parent ≡ parent_of k → Kept node k (absorb A B al h node k)
    absorb-Kept e = record { linked = e; above_linked = l; same = λ p. refl }

    module _ (c : Tree A h) where
      take_left-Kept :
          SiblingIs k (node.prefix.index - 1) (some c)
          → IfOk (Kept node k) (take_left A B al h c node k)
      unfolding take_left
      take_left-Kept is =
          IfOk-bind _ ((tree-Accounts A B al h).remove c ((tree_node A B al h).length c - 1))
            λ (c', x) (pre, same).
              IfOk-bind _ ((tree-Accounts A B al h).insert node 0 x) λ node' (pre', same').
                if_ok (record {
                  linked = tt;
                  above_linked = set_sibling-AboveLinked k (node.prefix.index - 1) c' l;
                  same = λ p. omega (arith, same p, same' p, is c refl c' p);
                })

      take_right-Kept :
          SiblingIs k (node.prefix.index + 1) (some c)
          → IfOk (Kept node k) (take_right A B al h c node k)
      unfolding take_right
      take_right-Kept is = IfOk-bind _ ((tree-Accounts A B al h).remove c 0) λ (c', x) (pre, same).
          IfOk-bind _ ((tree-Accounts A B al h).insert node ((tree_node A B al h).length node) x)
            λ node' (pre', same'). if_ok (record {
              linked = tt;
              above_linked = set_sibling-AboveLinked k (node.prefix.index + 1) c' l;
              same = λ p. omega (arith, same p, same' p, is c refl c' p);
            })

      merge_right-Kept :
          SiblingIs k (node.prefix.index + 1) (some c)
          → IfOk (Kept node k) (merge_right A B al h c node k)
      unfolding merge_right
      merge_right-Kept is =
          IfOk-bind _ ((tree-Accounts A B al h).merge node c) λ (node', c') (pre, pre', same).
            if_ok (record {
              linked = tt;
              above_linked = set_sibling-AboveLinked k (node.prefix.index + 1) c' l;
              same = λ p. omega (arith, same p, is c refl c' p);
            })

      merge_left-Kept :
          SiblingIs k (node.prefix.index - 1) (some c)
          → IfOk (Kept node k) (merge_left A B al h c node k)
      unfolding merge_left
      merge_left-Kept is =
          IfOk-bind _ ((tree-Accounts A B al h).merge c node) λ (c', node') (pre, pre', same).
            if_ok (record {
              linked = tt;
              above_linked = set_sibling-AboveLinked k (node.prefix.index - 1) c' l;
              same = λ p. omega (arith, same p, is c refl c' p);
            })

    from_siblings-Kept :
        (left right : Option (Tree A h))
        → node.prefix.parent ≡ parent_of k
        → SiblingIs k (node.prefix.index - 1) left
        → SiblingIs k (node.prefix.index + 1) right
        → IfOk (Kept node k) (from_siblings A B al h left right node k)
    unfolding from_siblings
    from_siblings-Kept none none e l_is r_is = if_ok (absorb-Kept e)
    from_siblings-Kept (some left) none e l_is r_is =
        IfOk-if (is_longer A B al h (some left)) (take_left-Kept left l_is)
          (merge_left-Kept left l_is)
    from_siblings-Kept none (some right) e l_is r_is =
        IfOk-if (is_longer A B al h (some right)) (take_right-Kept right r_is)
          (merge_right-Kept right r_is)
    from_siblings-Kept (some left) (some right) e l_is r_is =
        IfOk-if (is_longer A B al h (some left)) (take_left-Kept left l_is) (
          IfOk-if (is_longer A B al h (some right)) (take_right-Kept right r_is)
            (merge_right-Kept right r_is))

    rebalance-Kept :
        node.prefix.parent ≡ parent_of k → IfOk (Kept node k) (rebalance A B al h node k)
    unfolding rebalance
    rebalance-Kept e = IfOk-bind _ (siblings-SiblingIs node k) λ (left, right) (l_is, r_is).
        IfOk-if (leb (B / 2) ((tree_node A B al h).length node)) (if_ok (absorb-Kept e))
          (from_siblings-Kept left right e l_is r_is)

  -- A removal keeps all nodes but those below the child that is returned.
  pub remove_once-Kept :
      (node : Tree A h) (k : Above A h) (i : ℕ)
      → node.prefix.parent ≡ parent_of k
      → AboveLinked k
      → IfOk
          (λ (r, x).
            LinkedFor r.kind r.node r.above
            × AboveLinked r.above
            × ((p : Ptr)
                → below A h r.node p + above r.above p + child_below A h x p
                  ≡ below A h node p + above k p))
          (remove_once A B al h node k i)
  unfolding remove_once
  remove_once-Kept node k i e l =
      IfOk-bind _ ((tree-Accounts A B al h).remove node i) λ (node', x) (pre, same).
        IfOk-bind _ (rebalance-Kept node' k l (ap (λ q. q.parent) pre ∙ e))
          λ r kept. if_ok (kept.linked, kept.above_linked, λ p. omega (arith, same p, kept.same p))
