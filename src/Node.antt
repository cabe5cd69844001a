-- ===== src/Node.antt =====
-- src/node/mod.rs: what leaf and internal nodes share. A node is a cell: its address, its prefix
-- (the parent pointer and the index below the parent), and a body that differs by kind.
pub mod Cast
pub mod Leaf
pub mod Internal
pub mod ParentPtr
use btree_vec.Common.{ℕ, ◌-◌, ◌/◌, Option, none, some, Result}

abbrev pub Ptr : Type 0
Ptr = ℕ

-- `ParentPtr` is read as `Option<NonNull<InternalNode>>`, which its `get` and `set` speak of; its
-- tag, the kind of the node, is the height 0 or not 0 of the node's type.
pub record Prefix : Type 0 where
  pub parent : Option Ptr
  pub index : ℕ

-- `Prefix::new`
abbrev pub new_prefix : Prefix
new_prefix = record { parent = none; index = 0 }

pub record Cell {ℓ} (C : Type ℓ) : Type ℓ where
  pub addr : Ptr
  pub prefix : Prefix
  pub body : C

module _ {ℓ} {C : Type ℓ} where
  -- `node.parent.set(p); node.index = i`
  abbrev pub set_prefix : Option Ptr → ℕ → Cell C → Cell C
  set_prefix p i c = record c { prefix = record { parent = p; index = i } }

  -- `node.index = i`
  abbrev pub set_index : ℕ → Cell C → Cell C
  set_index i c = record c { prefix = record { parent = c.prefix.parent; index = i } }

pub data SplitStrategy : Type 0 where
  larger_left larger_right : SplitStrategy

-- The sizes `(left, right)`, for the branching factor `b`.
abbrev pub sizes : SplitStrategy → ℕ → ℕ × ℕ
sizes larger_left b = (b - b / 2, b / 2)
sizes larger_right b = (b / 2, b - b / 2)

-- The allocator is not part of this crate. It hands out an address and takes one back; where it
-- fails, `handle_alloc_error` does not return, so a call that returns has an address.
pub record Allocator : Type 1 where
  pub State : Type 0
  pub allocate : State → Ptr × State
  pub deallocate : Ptr → State → State

-- `trait Node`: what insertion and removal use of a node `N` whose children are of the type `Child`.
pub record Node {ℓ} (al : Allocator) (N : Type ℓ) (Child : Type ℓ) : Type ℓ where
  pub item_size : Child → ℕ
  pub size : N → ℕ
  pub length : N → ℕ
  pub simple_insert : N → ℕ → Child → Result N
  pub simple_remove : N → ℕ → Result (N × Child)
  pub split : SplitStrategy → N → al.State → Result (N × N × al.State)
  pub merge : N → N → Result (N × N)
