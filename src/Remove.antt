-- ===== src/Remove.antt =====
-- src/remove.rs
pub mod Laws
pub mod AtInternal
pub mod Absorbed
pub mod AtLeaf
pub mod Collapse
pub mod Rebalance
pub mod Correct
pub mod FromLeaf
pub mod MergeInternal
pub mod Merged
pub mod Moved
pub mod Neighbours
pub mod Pair
pub mod Siblings
pub mod Turns
use btree_vec.Common.{
  ℕ, zero, suc, ◌+◌, ◌-◌, ◌/◌, ◌||◌, Bool, true, false, Option, none, some, List, [], ◌∷◌, Result,
  ok, err, Error, ◌>>=◌, get_elem?, length, ltb, leb, ◌==◌, if◌then◌else◌,
}
use btree_vec.Node.{Ptr, Cell, set_prefix, Allocator, Node}
use btree_vec.Node.Leaf.{Leaf, leaf_node}
use btree_vec.Node.Internal
use btree_vec.Node.Internal.{Internal, Entry, internal_node, change_size, plus, minus}
use btree_vec.Tree.Beside.{siblings, set_sibling}
use btree_vec.Tree.Destroy.{destroy}
use btree_vec.Tree.{Body, Tree, Frame, Above, top, under, Root, into_parent}

pub data RemovalKind : Type 0 where
  merged : (src dest : ℕ) → RemovalKind
  moved : (src dest size : ℕ) → RemovalKind
  absorbed : (index : ℕ) → RemovalKind

-- `N::Child` of the nodes of height `h`.
abbrev pub Child {ℓ} : Type ℓ → ℕ → Type ℓ
Child A zero = A
Child A (suc h) = Entry (Body A h)

-- `impl Node` of the nodes of height `h`.
abbrev pub tree_node {ℓ} :
    (A : Type ℓ) (B : ℕ) (al : Allocator) (h : ℕ) → Node al (Tree A h) (Child A h)
tree_node A B al zero = leaf_node B al
tree_node A B al (suc h) = internal_node B al

-- A node with the kind of its removal, below the nodes above it.
pub record Removal {ℓ} (A : Type ℓ) (h : ℕ) : Type ℓ where
  pub node : Tree A h
  pub kind : RemovalKind
  pub above : Above A h

pub data RemovalResult {ℓ} (A : Type ℓ) : Type ℓ where
  removal : (h : ℕ) → Removal A h → RemovalResult A
  done : (h : ℕ) → Tree A h → RemovalResult A

module _ {ℓ} (A : Type ℓ) (B : ℕ) (al : Allocator) (h : ℕ) where
  -- The last child of the left sibling becomes the first of the node.
  unfoldable pub take_left : Tree A h → Tree A h → Above A h → Result (Removal A h)
  take_left left node k = do
    (left', x) ← (tree_node A B al h).simple_remove left ((tree_node A B al h).length left - 1)
    let size = (tree_node A B al h).item_size x
    node' ← (tree_node A B al h).simple_insert node 0 x
    ok (record {
      node = node';
      kind = RemovalKind.moved left.prefix.index node.prefix.index size;
      above = set_sibling k (node.prefix.index - 1) left';
    })

  -- The first child of the right sibling becomes the last of the node.
  unfoldable pub take_right : Tree A h → Tree A h → Above A h → Result (Removal A h)
  take_right right node k = do
    (right', x) ← (tree_node A B al h).simple_remove right 0
    let size = (tree_node A B al h).item_size x
    node' ← (tree_node A B al h).simple_insert node ((tree_node A B al h).length node) x
    ok (record {
      node = node';
      kind = RemovalKind.moved right.prefix.index node.prefix.index size;
      above = set_sibling k (node.prefix.index + 1) right';
    })

  -- `mid.merge(right)`
  unfoldable pub merge_right : Tree A h → Tree A h → Above A h → Result (Removal A h)
  merge_right right node k = do
    (node', right') ← (tree_node A B al h).merge node right
    ok (record {
      node = node';
      kind = RemovalKind.merged right.prefix.index node.prefix.index;
      above = set_sibling k (node.prefix.index + 1) right';
    })

  -- `left.merge(mid)`
  unfoldable pub merge_left : Tree A h → Tree A h → Above A h → Result (Removal A h)
  merge_left left node k = do
    (left', node') ← (tree_node A B al h).merge left node
    ok (record {
      node = node';
      kind = RemovalKind.merged node.prefix.index left.prefix.index;
      above = set_sibling k (node.prefix.index - 1) left';
    })

  abbrev pub absorb : Tree A h → Above A h → Removal A h
  absorb node k = record { node = node; kind = RemovalKind.absorbed node.prefix.index; above = k }

  abbrev pub is_longer : Option (Tree A h) → Bool
  is_longer none = false
  is_longer (some c) = ltb (B / 2) ((tree_node A B al h).length c)

  -- The choice among the siblings, for a node that has become too short.
  unfoldable pub from_siblings :
      Option (Tree A h) → Option (Tree A h) → Tree A h → Above A h → Result (Removal A h)
  from_siblings none none node k = ok (absorb node k)
  from_siblings (some left) none node k =
      if is_longer (some left) then take_left left node k else merge_left left node k
  from_siblings none (some right) node k =
      if is_longer (some right) then take_right right node k else merge_right right node k
  from_siblings (some left) (some right) node k =
      if is_longer (some left)
      then take_left left node k
      else if is_longer (some right)
      then take_right right node k
      else merge_right right node k

  -- What `remove_once` does after the child has been taken out.
  unfoldable pub rebalance : Tree A h → Above A h → Result (Removal A h)
  rebalance node k = do
    (left, right) ← siblings node k
    if leb (B / 2) ((tree_node A B al h).length node)
        then ok (absorb node k)
        else from_siblings left right node k

  unfoldable pub remove_once : Tree A h → Above A h → ℕ → Result (Removal A h × Child A h)
  remove_once node k i = do
    (node', item) ← (tree_node A B al h).simple_remove node i
    r ← rebalance node' k
    ok (r, item)

-- `sizes[i]`, read.
module _ {ℓ} {C : Type ℓ} where
  unfoldable pub size_at : List (Entry C) → List ℕ → ℕ → Result ℕ
  size_at [] [] i = err Error.panic
  size_at [] (n ∷ ns) zero = ok n
  size_at [] (n ∷ ns) (suc i) = size_at [] ns i
  size_at ((c, n) ∷ es) ns zero = ok n
  size_at ((c, n) ∷ es) ns (suc i) = size_at es ns i

  -- The changes that `handle_removal` makes to the sizes of the parent.
  unfoldable pub sizes_merged : ℕ → ℕ → Internal C → Result (Internal C)
  sizes_merged src dest p = do
    size ← size_at p.body.children p.body.spare src
    p' ← change_size (λ _. ok 0) src p
    p'' ← change_size (plus size) dest p'
    change_size (minus 1) dest p''

  unfoldable pub sizes_moved : ℕ → ℕ → ℕ → Internal C → Result (Internal C)
  sizes_moved src dest size p = do
    p' ← change_size (minus size) src p
    p'' ← change_size (plus size) dest p'
    change_size (minus 1) dest p''

module _ {ℓ} (A : Type ℓ) (B : ℕ) (al : Allocator) where
  -- What `handle_removal` does with the parent.
  unfoldable pub update_parent :
      (h : ℕ)
      → RemovalKind
      → Tree A (suc h)
      → Above A (suc h)
      → al.State
      → Result (RemovalResult A × al.State)
  update_parent h (RemovalKind.merged src dest) p k s = do
    p' ← sizes_merged src dest p
    (r, child) ← remove_once A B al (suc h) p' k src
    s' ← destroy A al h child.0 s
    ok (removal (suc h) r, s')
  update_parent h (RemovalKind.moved src dest size) p k s = do
    p' ← sizes_moved src dest size p
    ok (removal (suc h) (absorb A B al (suc h) p' k), s)
  update_parent h (RemovalKind.absorbed index) p k s = do
    p' ← change_size (minus 1) index p
    ok (removal (suc h) (absorb A B al (suc h) p' k), s)

  -- Without a parent the removal is done, or `unwrap` panics.
  unfoldable pub no_parent :
      (h : ℕ) → RemovalKind → Tree A h → al.State → Result (RemovalResult A × al.State)
  no_parent h (RemovalKind.merged src dest) node s = err Error.panic
  no_parent h (RemovalKind.moved src dest size) node s = err Error.panic
  no_parent h (RemovalKind.absorbed index) node s = ok (done h node, s)

  unfoldable pub handle_removal :
      (h : ℕ) → Removal A h → al.State → Result (RemovalResult A × al.State)
  handle_removal h r s = do
    up ← into_parent r.node r.above
    elim up [ none ↦ no_parent h r.kind r.node s | some (p, k) ↦ update_parent h r.kind p k s ]

  -- A root with one child gives way to that child.
  unfoldable pub collapse : (h : ℕ) → Tree A h → al.State → Result (Root A × al.State)
  collapse zero root s = ok (record { height = zero; node = root }, s)
  collapse (suc h) root s =
      if length root.body.children == 1
      then (do
        (root', child) ← Internal.simple_remove root 0
        s' ← destroy A al (suc h) root' s
        ok (record { height = h; node = child.0 }, s'))
      else ok (record { height = suc h; node = root }, s)

  -- The loop of `remove`, on fuel.
  unfoldable pub remove_loop : ℕ → RemovalResult A → al.State → Result (Root A × al.State)
  remove_loop zero result s = err Error.out_of_fuel
  remove_loop (suc n) (done h root) s = collapse h root s
  remove_loop (suc n) (removal h r) s = do
    (result, s') ← handle_removal h r s
    remove_loop n result s'

  unfoldable pub remove : ℕ → Leaf A → Above A zero → ℕ → al.State → Result (Root A × A × al.State)
  remove fuel node k i s = do
    (r, item) ← remove_once A B al zero node k i
    (root, s') ← remove_loop fuel (removal zero r) s
    ok (root, item, s')
