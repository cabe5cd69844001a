-- ===== src/Lib.antt =====
-- btree-vec: a growable array, stored as a B+ tree with the branching factor `B`. The items are in
-- the leaves, which are chained by `next`; an internal node has, beside each child, the number of
-- items below it, so that the leaf of an index is found on the way down.
--
-- The files, and the code that they model:
-- - Common: lists, tests and results, of no code of their own.
-- - Node: what src/node/mod.rs says of all nodes (`Prefix`, `NodeRef`, `SplitStrategy`, `trait
--   Node`). Node.Leaf is src/node/leaf.rs and Node.Internal is src/node/internal.rs, one function
--   for each method (`split`, `merge`, `simple_insert`, `simple_remove`). The modules below
--   Node.Internal have the lemmas on children, on insertion and on splitting.
-- - Tree: the tree of nodes, `leaf_for` of src/lib.rs and `into_parent` of src/node/mod.rs, with
--   `siblings_mut` in Tree.Beside and `destroy` in Tree.Destroy.
--   Tree.Valid says when a tree is well formed; Tree.Find and Tree.Descent are about the way down,
--   Tree.Plug and Tree.Unplug about a node and one of its children, Tree.Chain about `next`,
--   Tree.Height and Vec.Height about the height of a tree and the rounds of loops
--   against the number of items.
-- - Insert: src/insert.rs, from `insert_once` at the leaf to the loop up to the root. The lemmas on
--   its steps are in Insert.AtLeaf, Insert.AtInternal, Insert.Parent and Insert.Loop, and
--   Insert.Correct has the whole.
-- - Remove: src/remove.rs. Remove.Laws states what removal asks of the nodes of one height;
--   Remove.AtLeaf, Remove.AtInternal and Remove.MergeInternal are about leaves and internal nodes in
--   that respect. Remove.Absorbed,
--   Remove.Moved and Remove.Merged are about the loop after each kind of removal, Remove.Pair and
--   Remove.Neighbours about a parent with two neighbours, Remove.Siblings about `siblings_mut`,
--   Remove.Rebalance, Remove.Turns and Remove.Correct about `remove_once`, Remove.Collapse about the
--   root at the end, and Remove.FromLeaf about the whole.
-- - Vec: `BTreeVec` and its methods, src/lib.rs. Vec.Valid has the abstract view of a vector:
--   the list `contents` of its items, and `IsVec`, when it is well formed. Vec.Traces has
--   sequences of calls, and the same calls on a list, and Vec.Inverse `insert` with `remove`. A
--   mutable reference to an item is the item and what the vector becomes by a write to it.
-- - Iter: `Iter` of src/lib.rs, with the function `nth` and `into_next` of src/node/leaf.rs. A
--   reference to a leaf is the leaf with the nodes above it, and `next` is followed by comparing
--   addresses. Iter.Valid says when an iterator is well formed and which items it has left;
--   Iter.NextLeaf is about `into_next`, Iter.Climb about the loop of `nth`.
-- - IterMut: `IterMut` of src/lib.rs, with the vector that it borrows. A write through a reference
--   that it yields is made, if at all, before the next call. IterMut.Loop is about a loop that
--   writes to each item.
-- - IntoIter: `IntoIter` of src/lib.rs, with `set_zero_length` and `take_raw_child` of
--   src/node/leaf.rs. A slot that is not initialised is `none`, and its use the error `uninit`.
--   IntoIter.Slots is about the slots of one leaf, IntoIter.Fertile about the tree whose leaves are
--   being emptied, which is no longer well formed but can be walked along.
-- - Node.ParentPtr: src/node/parent_ptr.rs, over the crate tagged_pointer, which is a parameter. The
--   other files read a parent pointer as the optional address that its `get` returns. Node.Cast is
--   `cast` of src/node/mod.rs, which reads the kind of a node from that pointer.
-- - Clone: `clone_node` of src/node/mod.rs, `clone_from` of the two kinds of nodes and `Clone` of
--   `BTreeVec`. Clone.Nodes relates a clone to what is cloned, Clone.Reading is about `get` on a
--   clone. Vec.Dropping is about `Drop` of `BTreeVec`.
-- - Compare: `PartialEq`, `PartialOrd` and `Ord` of src/lib.rs, as loops over two iterators, and
--   Compare.Lists the comparison of lists.
-- - Debug: src/debug.rs, with the lines of the graph as the values that they show. Debug.Ids is
--   about the ids of nodes, Debug.Lines about the items that are printed.
-- - Memory: what the nodes of a vector are to its allocator. `Ledger` is the contract between the
--   two, that of `VerifiedAlloc::new` of src/verified_alloc.rs and of the trait `Allocator`: which
--   blocks are live, and that only live blocks are given back. `Holds` says that the live blocks are
--   the nodes at hand and the blocks of others. Memory.Blocks is about single calls of the
--   allocator, Memory.Nodes and Memory.Accounts about the operations on one node, Memory.Ancestors
--   and Memory.Beside about the nodes above and beside a node; Memory.Inserting, Memory.Rebalancing,
--   Memory.Removing, Memory.Cloning, Memory.Walking and Memory.Draining follow the code of insertion,
--   removal, `clone`, `into_next` and `IntoIter`, and Memory.Vectors and Memory.Traces are about the
--   methods and the whole life of a vector. Memory.Numbers counts the blocks
--   that a vector has.
-- - Alloc: src/alloc_fallback.rs, and `node_ref_alloc::alloc` of src/node/mod.rs, over the functions
--   of the crate alloc, which are a parameter with what their documentation says. Alloc.Runs is about
--   sequences of allocations and of blocks that are given back.
-- - Fused: `FusedIterator` of the three iterators. Sized: `ExactSizeIterator` of the three.
-- - Tests: runs, and the theorems at concrete inputs.
--
-- How the code is read. A node is a cell: its address, its prefix (the pointer to the parent and
-- the index below it) and its body. The heap below a node is a value, the tree below it, and the
-- height of a node is part of its type: this is what the tag of `ParentPtr` and the casts between
-- kinds of nodes distinguish at run time. What the code reaches through parent pointers is the
-- value `Above`, the nodes above a node, each without the child from which the way up comes. A
-- parent pointer is followed by comparing the address in the prefix with that of the node above, so
-- that a stale pointer is the error `dangling`. An array with a `length` is the list of its live
-- entries; the sizes past the length, which the code sums too, are kept as `spare`. A panic is the
-- error `panic`. `usize` is ℕ, so that an overflow of the number of items is out of the model;
-- subtractions that could wrap are panics. The allocator is a parameter that hands out addresses
-- and takes them back.
--
-- The loops of insertion and removal run on fuel. A round goes up one node, so that `insert_fuel`
-- gives three rounds more than the height of the tree, for a new root, for the end and to return,
-- and `remove_fuel` two more than the height, for the end and to return. The loop of `nth` has a
-- round for each node above the leaf, and one to find that there is none. A loop over an iterator
-- needs more rounds than there are items. With the branching factor
-- 3, an internal node may keep a single child, and a leaf below it has no sibling to take from, so
-- that an empty leaf stays in the chain; removal is therefore looked at from 4 on.
--
-- Not modelled: writes through a reference of `IterMut` after a later call; `Debug` of `BTreeVec`,
-- which hands the iterator to the standard library, and the auto traits; what a panic leaves behind
-- while it unwinds; the layouts of the two kinds of nodes, beside the one with which a node is
-- allocated; `VerifiedAlloc` itself, which passes calls on; and build.rs, which selects features.
pub mod Common
pub mod Node
pub mod Tree
pub mod Insert
pub mod Remove
pub mod Vec
pub mod Iter
pub mod Clone
pub mod Compare
pub mod IntoIter
pub mod IterMut
pub mod Debug
pub mod Memory
pub mod Fused
pub mod Sized
pub mod Alloc
mod Tests
