-- ===== src/Memory/Accounts.antt =====
-- What the operations of `trait Node` do to the nodes of the tree below a node.
use btree_vec.Common.{
  IfOk-if, ℕ, zero, suc, ◌+◌, ◌/◌, ◌≡◌, refl, ap, List, [], ◌∷◌, IfOk, if_ok, if_err, IfOk-bind,
  IfOk-any, IfOk-map, arith, length, take, drop, ◌&&◌, leb, ltb, ◌==◌,
}
use btree_vec.Node.{Ptr, Allocator, SplitStrategy}
use btree_vec.Node.Leaf
use btree_vec.Node.Leaf.{Leaf}
use btree_vec.Tree.{Tree}
use btree_vec.Remove.{Child, tree_node}
use btree_vec.Memory.{single, below}
use btree_vec.Vec.Dropping.{node_addrs}
use btree_vec.Memory.Nodes.{
  kids, simple_insert-kids, simple_remove-kids, merge-kids, split-kids, below-kids, below-addr,
}

-- The nodes below a child: none, if it is an item.
abbrev pub child_below {ℓ} : (A : Type ℓ) (h : ℕ) → Child A h → Ptr → ℕ
child_below A zero x p = 0
child_below A (suc h) x p = below A h x.0 p

-- What insertion and removal need to know of the operations on nodes of one height.
pub record Accounts {ℓ} (A : Type ℓ) (B : ℕ) (al : Allocator) (h : ℕ) : Type ℓ where
  pub insert :
      (n : Tree A h) (i : ℕ) (x : Child A h)
      → IfOk
          (λ n'.
            (n'.prefix ≡ n.prefix)
            × ((p : Ptr) → below A h n' p ≡ below A h n p + child_below A h x p))
          ((tree_node A B al h).simple_insert n i x)
  pub remove :
      (n : Tree A h) (i : ℕ)
      → IfOk
          (λ (n', x).
            (n'.prefix ≡ n.prefix)
            × ((p : Ptr) → below A h n' p + child_below A h x p ≡ below A h n p))
          ((tree_node A B al h).simple_remove n i)
  pub split :
      (strategy : SplitStrategy) (n : Tree A h) (s : al.State)
      → IfOk
          (λ (n', new, s').
            (n'.prefix ≡ n.prefix)
            × (s' ≡ (al.allocate s).1)
            × ((p : Ptr)
                → below A h n' p + below A h new p ≡ below A h n p + single p (al.allocate s).0))
          ((tree_node A B al h).split strategy n s)
  pub merge :
      (n other : Tree A h)
      → IfOk
          (λ (n', other').
            (n'.prefix ≡ n.prefix)
            × (other'.prefix ≡ other.prefix)
            × ((p : Ptr) → below A h n' p + below A h other' p ≡ below A h n p + below A h other p))
          ((tree_node A B al h).merge n other)

module _ {ℓ} (A : Type ℓ) (B : ℕ) (al : Allocator) where
  leaf-Accounts : Accounts A B al 0
  unfolding Leaf.simple_insert Leaf.simple_remove Leaf.remove_head Leaf.split Leaf.merge
  leaf-Accounts = record {
    insert = λ n i x.
        IfOk-if (leb i (length n.body.children) && ltb (length n.body.children) B)
          (if_ok (refl, λ p. omega arith)) if_err;
    remove = λ n i. remove n (take i n.body.children) (drop i n.body.children);
    split = λ strategy n s.
        IfOk-if (length n.body.children == B) (if_ok (refl, refl, λ p. omega arith)) if_err;
    merge = λ n other.
        IfOk-if (leb (length n.body.children) (B / 2) && leb (length other.body.children) (B / 2))
          (IfOk-bind _ (IfOk-any (Leaf.points_to n.body.next other.addr))
            λ t u. if_ok (refl, refl, λ p. refl))
          if_err;
  }
    where
      remove :
          (n : Leaf A) (before after : List A)
          → IfOk
              (λ (q : Leaf A × A).
                (q.0.prefix ≡ n.prefix) × ((p : Ptr) → below A 0 q.0 p + 0 ≡ below A 0 n p))
              (Leaf.remove_head n before after)
      remove n before [] = if_err
      remove n before (x ∷ after) = if_ok (refl, λ p. omega arith)

  internal-Accounts : (h : ℕ) → Accounts A B al (suc h)
  internal-Accounts h = record {
    insert = λ n i x. IfOk-map (simple_insert-kids (node_addrs A h) B n i x) λ n' (place, same). (
      place.prefix_is,
      λ p. omega (arith, same p, below-kids A h n p, below-addr A h n n' p place.addr_is),
    );
    remove = λ n i. IfOk-map (simple_remove-kids (node_addrs A h) n i) λ (n', x) (place, same). (
      place.prefix_is,
      λ p. omega (arith, same p, below-kids A h n p, below-addr A h n n' p place.addr_is),
    );
    split = λ strategy n s.
        IfOk-map (split-kids (node_addrs A h) B al strategy n s)
          λ (n', new, s') (place, at, state, same). (
            place.prefix_is,
            state,
            λ p. omega (
              arith,
              same p,
              below-kids A h n p,
              below-addr A h n n' p place.addr_is,
              below-kids A h new p,
              ap (single p) at,
            ),
          );
    merge = λ n other.
        IfOk-map (merge-kids (node_addrs A h) B n other)
          λ (n', other') (place, place', same, none_left). (
            place.prefix_is,
            place'.prefix_is,
            λ p. omega (
              arith,
              same p,
              below-kids A h n p,
              below-kids A h other p,
              below-addr A h n n' p place.addr_is,
              below-addr A h other other' p place'.addr_is,
              ap (λ es. kids (node_addrs A h) es p) none_left,
            ),
          );
  }

  pub tree-Accounts : (h : ℕ) → Accounts A B al h
  tree-Accounts zero = leaf-Accounts
  tree-Accounts (suc h) = internal-Accounts h
