-- ===== src/Remove/Laws.antt =====
-- What removal asks of the nodes of a height: how an item moves between two siblings, and how two
-- siblings become one.
use btree_vec.Common.{ℕ, zero, suc, ◌+◌, ◌-◌, ◌/◌, ◌≤◌, ◌<◌, ◌≡◌, some, ◌++◌, ok}
use btree_vec.Node.{Allocator}
use btree_vec.Tree.{Tree}
use btree_vec.Tree.Valid.{leaves, tree_weight, node_length, IsTree}
use btree_vec.Tree.Chain.{Follows}
use btree_vec.Remove.{Child, tree_node}

module _ {ℓ} (A : Type ℓ) (B : ℕ) (al : Allocator) (h : ℕ) where
  -- `source` has given a child of the size `n` to `dest`.
  pub record IsMoved (n : ℕ) (source dest source' dest' : Tree A h) : Type 0 where
    pub source_addr : source'.addr ≡ source.addr
    pub source_prefix : source'.prefix ≡ source.prefix
    pub source_tree : IsTree A B h source'.addr source'.body
    pub source_length : suc (node_length A h source'.body) ≡ node_length A h source.body
    pub source_weight :
        tree_weight A h source'.addr source'.body + n ≡ tree_weight A h source.addr source.body
    pub dest_addr : dest'.addr ≡ dest.addr
    pub dest_prefix : dest'.prefix ≡ dest.prefix
    pub dest_tree : IsTree A B h dest'.addr dest'.body
    pub dest_length : node_length A h dest'.body ≡ suc (node_length A h dest.body)
    pub dest_weight :
        tree_weight A h dest'.addr dest'.body ≡ tree_weight A h dest.addr dest.body + n

  -- The children of `right` have been added to `left`.
  pub record IsMerged (left right left' right' : Tree A h) : Type ℓ where
    pub left_addr : left'.addr ≡ left.addr
    pub left_prefix : left'.prefix ≡ left.prefix
    pub left_tree : IsTree A B h left'.addr left'.body
    pub left_length :
        node_length A h left'.body ≡ node_length A h left.body + node_length A h right.body
    pub left_weight :
        tree_weight A h left'.addr left'.body
        ≡ tree_weight A h left.addr left.body + tree_weight A h right.addr right.body
    pub right_prefix : right'.prefix ≡ right.prefix
    pub right_addr : right'.addr ≡ right.addr
    pub right_empty : node_length A h right'.body ≡ 0
    pub follows :
        Follows
          (leaves A h left.addr left.body ++ leaves A h right.addr right.body)
          (leaves A h left'.addr left'.body)

  abbrev pub FromLeft : Tree A h → Tree A h → Type ℓ
  FromLeft left node =
      (left' : Tree A h) × (x : Child A h) × (node' : Tree A h) × ((tree_node A B al
            h).simple_remove
          left ((tree_node A B al h).length left - 1)
        ≡ ok (left', x))
      × ((tree_node A B al h).simple_insert node 0 x ≡ ok node')
      × IsMoved ((tree_node A B al h).item_size x) left node left' node'
      × Follows (leaves A h left.addr left.body ++ leaves A h node.addr node.body)
          (leaves A h left'.addr left'.body ++ leaves A h node'.addr node'.body)

  abbrev pub FromRight : Tree A h → Tree A h → Type ℓ
  FromRight right node =
      (right' : Tree A h) × (x : Child A h) × (node' : Tree A h) × ((tree_node A B al
            h).simple_remove
          right 0
        ≡ ok (right', x))
      × ((tree_node A B al h).simple_insert node ((tree_node A B al h).length node) x ≡ ok node')
      × IsMoved ((tree_node A B al h).item_size x) right node right' node'
      × Follows (leaves A h node.addr node.body ++ leaves A h right.addr right.body)
          (leaves A h node'.addr node'.body ++ leaves A h right'.addr right'.body)

-- The `next` of a leaf points to its right sibling.
abbrev pub Linked {ℓ} : (A : Type ℓ) (h : ℕ) → Tree A h → Tree A h → Type 0
Linked A zero left right = left.body.next ≡ some right.addr
Linked A (suc h) left right = Unit

-- The laws of the nodes of one height.
pub record Laws {ℓ} (A : Type ℓ) (B : ℕ) (al : Allocator) (h : ℕ) : Type ℓ where
  pub from_left :
      (left node : Tree A h)
      → IsTree A B h left.addr left.body
      → IsTree A B h node.addr node.body
      → B / 2 < node_length A h left.body
      → node_length A h node.body < B / 2
      → FromLeft A B al h left node
  pub from_right :
      (right node : Tree A h)
      → IsTree A B h right.addr right.body
      → IsTree A B h node.addr node.body
      → B / 2 < node_length A h right.body
      → node_length A h node.body < B / 2
      → FromRight A B al h right node
  pub merge_lem :
      (left right : Tree A h)
      → IsTree A B h left.addr left.body
      → IsTree A B h right.addr right.body
      → 0 < node_length A h left.body
      → node_length A h left.body ≤ B / 2
      → node_length A h right.body ≤ B / 2
      → Linked A h left right
      → (left' : Tree A h) × (right' : Tree A h) × ((tree_node A B al h).merge left right
          ≡ ok (left', right'))
        × IsMerged A B al h left right left' right'
  pub length_lem : (c : Tree A h) → (tree_node A B al h).length c ≡ node_length A h c.body
