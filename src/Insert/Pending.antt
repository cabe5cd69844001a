-- ===== src/Insert/Pending.antt =====
-- What holds between two rounds of the loop of `insert`: a node has grown by one item or has been
-- split in two, and the sizes above it are still the old ones.
use btree_vec.Common.{ℕ, suc, ◌+◌, ◌/◌, ◌≤◌, ◌≡◌, Option, none, some, List, [], ◌++◌}
use btree_vec.Tree.{Tree, Above}
use btree_vec.Tree.Valid.{
  leaves, LeafView, weight, tree_weight, node_length, IsTree, parent_of, index_of, min_length,
  leaves_before, leaves_after, IsAbove,
}
use btree_vec.Insert.{node_size}

module _ {ℓ} (A : Type ℓ) where
  abbrev pub new_leaves : (h : ℕ) → Option (Tree A h) → List (LeafView A)
  new_leaves h none = []
  new_leaves h (some m) = leaves A h m.addr m.body

  -- A node beside which there is no new one is long enough for its place, and of two nodes both
  -- may stand below a parent. `Node::size` of the new one is the number of its items.
  abbrev pub NewTree : (B h : ℕ) → Above A h → Tree A h → Option (Tree A h) → Type 0
  NewTree B h k c none = min_length B k ≤ node_length A h c.body
  NewTree B h k c (some m) =
      IsTree A B h m.addr m.body
      × (B / 2 ≤ node_length A h c.body)
      × (B / 2 ≤ node_length A h m.body)
      × (node_size A h m ≡ tree_weight A h m.addr m.body)

  -- All leaves, with the new node next to the old one.
  abbrev pub all_leaves : (h : ℕ) → Tree A h → Option (Tree A h) → Above A h → List (LeafView A)
  all_leaves h c new k =
      leaves_before k ++ ((leaves A h c.addr c.body ++ new_leaves h new) ++ leaves_after k)

  -- `n` is what the sizes above say of the node `c`.
  pub record IsPending (B total h : ℕ) (c : Tree A h) (new : Option (Tree A h)) (k : Above A h)
      (n : ℕ) : Type 0 where
    pub parent_is : c.prefix.parent ≡ parent_of k
    pub index_is : c.prefix.index ≡ index_of k
    pub tree : IsTree A B h c.addr c.body
    pub new_is : NewTree B h k c new
    pub total_is : tree_weight A h c.addr c.body + weight (new_leaves h new) ≡ suc n
    pub above : IsAbove B total k n
