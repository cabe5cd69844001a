-- ===== src/Clone.antt =====
-- `clone_node` of src/node/mod.rs, `clone_from` of src/node/leaf.rs and src/node/internal.rs, and
-- `Clone` of `BTreeVec`. `T::clone` is a parameter, and so is the allocator's own `clone`.
pub mod Nodes
pub mod Reading
use btree_vec.Common.{
  ℕ, zero, suc, Option, none, some, List, [], ◌∷◌, Result, ok, err, Error, ◌>>=◌, map,
}
use btree_vec.Node.{Ptr, Cell, Allocator, new_prefix, set_prefix}
use btree_vec.Node.Leaf.{Leaf, new_leaf}
use btree_vec.Node.Internal.{Entry, Internal}
use btree_vec.Tree.{Body, Tree, Root}
use btree_vec.Vec.{BTreeVec}

-- The loop of `InternalNode::clone_from`, from the last child to the first. `self.sizes` is
-- `other.sizes`. What is returned beside the children is `next_leaf`.
module _ {ℓ} {C : Type ℓ} (al : Allocator)
    (clone_node : Cell C → Option Ptr → al.State → Result (Cell C × Ptr × al.State)) where
  unfoldable pub clone_children :
      Ptr → List (Entry C) → Option Ptr → al.State → Result (List (Entry C) × Option Ptr × al.State)
  clone_children self_ptr [] next_leaf s = ok ([], next_leaf, s)
  clone_children self_ptr ((c, n) ∷ es) next_leaf s = do
    (es', next_leaf', s') ← clone_children self_ptr es next_leaf s
    (node, leaf, s'') ← clone_node c next_leaf' s'
    ok ((set_prefix (some self_ptr) node.prefix.index node, n) ∷ es', some leaf, s'')

module _ {ℓ} {C : Type ℓ} (al : Allocator) where
  -- `InternalNode::clone_from` into a new node at the address `ptr`, after the loop.
  unfoldable pub finish_clone :
      Ptr
      → Internal C
      → List (Entry C) × Option Ptr × al.State
      → Result (Internal C × Ptr × al.State)
  finish_clone ptr other (es, none, s) = err Error.panic
  finish_clone ptr other (es, some leaf, s) = ok (
    record {
      addr = ptr;
      prefix = new_prefix;
      body = record { children = es; spare = other.body.spare };
    },
    leaf,
    s,
  )

module _ {ℓ} {A : Type ℓ} (al : Allocator) (clone_item : A → A) where
  -- `LeafNode::clone_from` into a new leaf at the address `ptr`.
  unfoldable pub clone_leaf : Ptr → Leaf A → Option Ptr → Leaf A
  clone_leaf ptr other next_leaf = record (new_leaf ptr) {
    body = record { children = map clone_item other.body.children; next = next_leaf };
  }

  -- `clone_node`: the new node, and the leaf returned beside it.
  unfoldable pub clone_node :
      (h : ℕ) → Tree A h → Option Ptr → al.State → Result (Tree A h × Ptr × al.State)
  unfolding clone_children finish_clone clone_leaf
  clone_node zero c next_leaf s =
      let (ptr, s') = al.allocate s in ok (clone_leaf ptr c next_leaf, c.addr, s')
  clone_node (suc h) c next_leaf s =
      let (ptr, s') = al.allocate s in
      clone_children al (clone_node h) ptr c.body.children next_leaf s' >>= finish_clone al ptr c

  unfoldable pub clone_root : Option (Root A) → al.State → Result (Option (Root A) × al.State)
  clone_root none s = ok (none, s)
  clone_root (some r) s = do
    (node, leaf, s') ← clone_node r.height r.node none s
    ok (some (record { height = r.height; node = node }), s')

  -- `Clone::clone`: the vector that is cloned, whose allocator has been used, and the clone.
  unfoldable pub clone :
      (al.State → al.State) → BTreeVec al A → Result (BTreeVec al A × BTreeVec al A)
  clone clone_alloc v = do
    (root, s) ← clone_root v.root v.alloc
    ok (record v { alloc = s }, record { root = root; size = v.size; alloc = clone_alloc s })
