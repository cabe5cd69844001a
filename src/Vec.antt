-- ===== src/Vec.antt =====
-- src/lib.rs: `BTreeVec` and its methods. References to items are the items: a method on `&mut self`
-- returns the new vector, and the allocator's state is a field of it.
pub mod Traces
pub mod Valid
pub mod Dropping
pub mod Get
pub mod GetMut
pub mod Height
pub mod Inserting
pub mod Inverse
pub mod Removing
use btree_vec.Common.{
  ℕ, zero, ◌+◌, ◌-◌, Bool, Option, none, some, List, Result, ok, err, Error, ◌>>=◌, get_elem?, set,
  ltb, leb, ◌==◌, if◌then◌else◌,
}
use btree_vec.Node.{Allocator}
use btree_vec.Node.Leaf.{Leaf, new_leaf, with_children}
use btree_vec.Tree.{Root, Above, top, leaf_for, rebuild}
use btree_vec.Insert
use btree_vec.Remove
use btree_vec.Tree.Destroy.{destroy}

pub record BTreeVec {ℓ} (al : Allocator) (A : Type ℓ) : Type ℓ where
  pub root : Option (Root A)
  pub size : ℕ
  pub alloc : al.State

-- The rounds given to the loop of `insert` below a root of this height.
abbrev pub insert_fuel : ℕ → ℕ
insert_fuel h = h + 3

module _ {ℓ} {A : Type ℓ} (B : ℕ) (al : Allocator) where
  -- `create_in`
  unfoldable pub create_in : al.State → Result (BTreeVec al A)
  create_in alloc =
      if leb 3 B then ok (record { root = none; size = 0; alloc = alloc }) else err Error.panic

  -- `create`, and `Default::default`: `create_in` with the global allocator, or the default one.
  unfoldable pub create : al.State → Result (BTreeVec al A)
  unfolding create_in
  create alloc = create_in alloc

  unfoldable pub default : al.State → Result (BTreeVec al A)
  unfolding create_in
  default alloc = create_in alloc

  -- `self.root.get_or_insert_with(…)`: the root, and the allocator's state after that.
  unfoldable pub get_or_insert_root : BTreeVec al A → Root A × al.State
  get_or_insert_root v = elim v.root [
    | none ↦
        let (ptr, s) = al.allocate v.alloc in (record { height = zero; node = new_leaf ptr }, s)
    | some r ↦ (r, v.alloc)
  ]

  -- `insert` into the tree below `r`.
  unfoldable pub insert_below : Root A → al.State → ℕ → A → ℕ → Result (Root A × al.State)
  insert_below r s index item size = do
    (leaf, i, k) ← leaf_for r.height r.node top index
    Insert.insert B al (insert_fuel r.height) leaf k i item size s

  unfoldable pub insert : BTreeVec al A → ℕ → A → Result (BTreeVec al A)
  insert v index item =
      if leb index v.size
      then (let (r, s) = get_or_insert_root v in
          do
            (r', s') ← insert_below r s index item v.size
            ok (record { root = some r'; size = v.size + 1; alloc = s' }))
      else err Error.panic

  unfoldable pub push : BTreeVec al A → A → Result (BTreeVec al A)
  push v item = insert v v.size item

-- A vector with its branching factor, which is a parameter of its type in the code and an argument
-- of its methods here.
pub record OfBranching {ℓ} (al : Allocator) (A : Type ℓ) : Type ℓ where
  pub branching : ℕ
  pub vec : BTreeVec al A

-- `new_in` and `new` are there for the default branching factor only.
module _ {ℓ} {A : Type ℓ} (al : Allocator) where
  unfoldable pub new_in : al.State → Result (OfBranching al A)
  new_in alloc = do v ← create_in 12 al alloc; ok (record { branching = 12; vec = v })

  unfoldable pub new : al.State → Result (OfBranching al A)
  new alloc = do v ← create 12 al alloc; ok (record { branching = 12; vec = v })

-- `self.root.unwrap()`
unfoldable pub unwrap_root {ℓ} : {A : Type ℓ} → Option (Root A) → Result (Root A)
unwrap_root none = err Error.panic
unwrap_root (some r) = ok r

-- `&children[i]`, which panics out of bounds.
unfoldable pub index_children {ℓ} : {A : Type ℓ} → List A → ℕ → Result (Option A)
index_children xs i = elim (get_elem? xs i) [ none ↦ err Error.panic | some x ↦ ok (some x) ]

-- The rounds given to the loop of `remove` below a root of this height.
abbrev pub remove_fuel : ℕ → ℕ
remove_fuel h = h + 2

module _ {ℓ} {A : Type ℓ} (B : ℕ) (al : Allocator) where
  -- `remove(leaf, index, …)` below the root.
  unfoldable pub remove_below : Root A → al.State → ℕ → Result (Root A × A × al.State)
  remove_below r s index = do
    (leaf, i, k) ← leaf_for r.height r.node top index
    Remove.remove A B al (remove_fuel r.height) leaf k i s

  unfoldable pub remove : BTreeVec al A → ℕ → Result (BTreeVec al A × A)
  remove v index =
      if ltb index v.size
      then (do
        r ← unwrap_root v.root
        (r', item, s) ← remove_below r v.alloc index
        ok (record { root = some r'; size = v.size - 1; alloc = s }, item))
      else err Error.panic

  -- `checked_sub(1)` is `None` on 0.
  unfoldable pub pop : BTreeVec al A → Result (BTreeVec al A × Option A)
  pop v =
      if v.size == 0
      then ok (v, none)
      else (do (v', item) ← remove v (v.size - 1); ok (v', some item))

-- `Drop::drop`: the allocator's state after the root has been destroyed.
unfoldable pub drop {ℓ} : {A : Type ℓ} (al : Allocator) → BTreeVec al A → Result al.State
drop {A = A} al v = elim v.root [
  | none ↦ ok v.alloc
  | some r ↦ destroy A al r.height r.node v.alloc
]

module _ {ℓ} {A : Type ℓ} {al : Allocator} where
  unfoldable pub len : BTreeVec al A → ℕ
  len v = v.size

  unfoldable pub is_empty : BTreeVec al A → Bool
  is_empty v = v.size == 0

  unfoldable pub get : BTreeVec al A → ℕ → Result (Option A)
  unfolding unwrap_root
  get v index =
      if ltb index v.size
      then (do
        r ← unwrap_root v.root
        (leaf, i, k) ← leaf_for r.height r.node top index
        index_children leaf.body.children i)
      else ok none

  unfoldable pub first : BTreeVec al A → Result (Option A)
  first v = get v 0

  -- `checked_sub(1)` is `None` on 0.
  unfoldable pub last : BTreeVec al A → Result (Option A)
  last v = if v.size == 0 then ok none else get v (v.size - 1)

  -- `Index::index`: `get(index).unwrap()`.
  unfoldable pub index : BTreeVec al A → ℕ → Result A
  index v i = do o ← get v i; elim o [ none ↦ err Error.panic | some x ↦ ok x ]

-- `&mut item`: the item, and what its owner becomes by a write to it.
pub record MutRef {ℓ} (A Owner : Type ℓ) : Type ℓ where
  pub item : A
  pub write : A → Owner

-- `&mut leaf.into_children_mut()[i]`, for the leaf below `k`. A write puts the tree together again.
unfoldable pub index_children_mut {ℓ} :
    {A : Type ℓ} → Leaf A → Above A 0 → ℕ → Result (MutRef A (Root A))
index_children_mut leaf k i = elim (get_elem? leaf.body.children i) [
  | none ↦ err Error.panic
  | some x ↦ ok (record {
    item = x;
    write = λ y. rebuild (with_children (set leaf.body.children i y) leaf) k;
  })
]

module _ {ℓ} {A : Type ℓ} {al : Allocator} where
  unfoldable pub get_mut : BTreeVec al A → ℕ → Result (Option (MutRef A (BTreeVec al A)))
  unfolding unwrap_root
  get_mut v index =
      if ltb index v.size
      then (do
        r ← unwrap_root v.root
        (leaf, i, k) ← leaf_for r.height r.node top index
        m ← index_children_mut leaf k i
        ok (some (record { item = m.item; write = λ y. record v { root = some (m.write y) } })))
      else ok none

  unfoldable pub first_mut : BTreeVec al A → Result (Option (MutRef A (BTreeVec al A)))
  first_mut v = get_mut v 0

  unfoldable pub last_mut : BTreeVec al A → Result (Option (MutRef A (BTreeVec al A)))
  last_mut v = if v.size == 0 then ok none else get_mut v (v.size - 1)

  -- `IndexMut::index_mut`: `get_mut(index).unwrap()`.
  unfoldable pub index_mut : BTreeVec al A → ℕ → Result (MutRef A (BTreeVec al A))
  index_mut v i = do o ← get_mut v i; elim o [ none ↦ err Error.panic | some m ↦ ok m ]
