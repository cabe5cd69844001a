-- ===== src/Insert.antt =====
-- src/insert.rs
pub mod AtInternal
pub mod AtLeaf
pub mod Correct
pub mod Loop
pub mod Parent
pub mod Pending
use btree_vec.Common.{
  ℕ, zero, suc, ◌+◌, ◌-◌, ◌/◌, Option, none, some, Result, ok, err, Error, ◌>>=◌, leb, ◌==◌,
  if◌then◌else◌,
}
use btree_vec.Node.{Allocator, Node}
use btree_vec.Node.SplitStrategy.{larger_left, larger_right}
use btree_vec.Node.Leaf
use btree_vec.Node.Leaf.{Leaf, leaf_node}
use btree_vec.Node.Internal
use btree_vec.Node.Internal.{Internal, Entry, internal_node, change_size, plus, minus, new_internal}
use btree_vec.Tree.{Tree, Above, top, Root, into_parent}

module _ {ℓ} {N Child : Type ℓ} (B : ℕ) (al : Allocator) (node_type : Node al N Child) where
  open node_type use {length, simple_insert, split}

  -- The branch that splits off a larger left node and inserts into the new node.
  unfoldable pub insert_right : N → ℕ → Child → al.State → Result (N × Option N × al.State)
  insert_right node i item s = do
    (node', new, s') ← split larger_left node s
    new' ← simple_insert new i item
    ok (node', some new', s')

  -- The branch that splits off a larger right node and inserts into the old node.
  unfoldable pub insert_left : N → ℕ → Child → al.State → Result (N × Option N × al.State)
  insert_left node i item s = do
    (node', new, s') ← split larger_right node s
    node'' ← simple_insert node' i item
    ok (node'', some new, s')

  unfoldable pub insert_only : N → ℕ → Child → al.State → Result (N × Option N × al.State)
  insert_only node i item s = do node' ← simple_insert node i item; ok (node', none, s)

  unfoldable pub insert_once : N → ℕ → Child → al.State → Result (N × Option N × al.State)
  insert_once node index item s =
      if length node == B
      then (if leb (B - B / 2) index
          then insert_right node (index - (B - B / 2)) item s
          else insert_left node index item s)
      else insert_only node index item s

-- `InsertionResult`, with an `Insertion` in place.
pub data InsertionResult {ℓ} (A : Type ℓ) : Type ℓ where
  insertion : (h : ℕ) → Tree A h → Option (Tree A h) → Above A h → InsertionResult A
  done : (h : ℕ) → Tree A h → InsertionResult A

-- `new.size()`, by the kind of the node.
unfoldable pub node_size {ℓ} : (A : Type ℓ) (h : ℕ) → Tree A h → ℕ
unfolding Leaf.size Internal.size
node_size A zero n = Leaf.size n
node_size A (suc h) n = Internal.size n

module _ {ℓ} {A : Type ℓ} (B : ℕ) (al : Allocator) where
  -- What `handle_insertion` does with the parent: the child at `index` has grown by one item, and
  -- has then lost what `new` holds.
  unfoldable pub update_parent :
      {h : ℕ}
      → Tree A (suc h)
      → Above A (suc h)
      → ℕ
      → Option (Tree A h)
      → al.State
      → Result (InsertionResult A × al.State)
  update_parent {h} parent k index none s = do
    parent' ← change_size (plus 1) index parent
    ok (insertion (suc h) parent' none k, s)
  update_parent {h} parent k index (some new) s = do
    let size = node_size A h new
    parent' ← change_size (plus 1) index parent
    parent'' ← change_size (minus size) index parent'
    (parent''', split, s') ←
        insert_once B al (internal_node B al) parent'' (index + 1) (new, size) s
    ok (insertion (suc h) parent''' split k, s')

  -- The node was the root: nothing is left to do, or it gets a new root above it.
  unfoldable pub grow_root :
      (h : ℕ) → Tree A h → Option (Tree A h) → ℕ → al.State → Result (InsertionResult A × al.State)
  grow_root h node none root_size s = ok (done h node, s)
  grow_root h node (some new) root_size s = do
    let p = al.allocate s
    parent ← Internal.simple_insert B (new_internal B p.0) 0 (node, root_size)
    update_parent parent top node.prefix.index (some new) p.1

  unfoldable pub handle_insertion :
      {h : ℕ}
      → Tree A h
      → Option (Tree A h)
      → Above A h
      → ℕ
      → al.State
      → Result (InsertionResult A × al.State)
  handle_insertion {h} node new k root_size s = do
    up ← into_parent node k
    elim up [
      | none ↦ grow_root h node new root_size s
      | some (parent, k') ↦ update_parent parent k' node.prefix.index new s
    ]

  -- The loop of `insert`, on fuel.
  unfoldable pub insert_loop : ℕ → InsertionResult A → ℕ → al.State → Result (Root A × al.State)
  insert_loop zero result root_size s = err Error.out_of_fuel
  insert_loop (suc n) (done h root) root_size s = ok (record { height = h; node = root }, s)
  insert_loop (suc n) (insertion h node new k) root_size s = do
    (result, s') ← handle_insertion node new k root_size s
    insert_loop n result root_size s'

  -- `insert`: the item goes into the leaf, and the loop goes up to the root.
  unfoldable pub insert :
      ℕ → Leaf A → Above A zero → ℕ → A → ℕ → al.State → Result (Root A × al.State)
  insert fuel node k index item root_size s = do
    (node', new, s') ← insert_once B al (leaf_node B al) node index item s
    insert_loop fuel (insertion zero node' new k) root_size s'
