-- ===== src/IntoIter.antt =====
-- `IntoIter` of src/lib.rs, with the raw access to the slots of a leaf, `set_zero_length` and
-- `take_raw_child` of src/node/leaf.rs.
pub mod Fertile
pub mod Drop
pub mod Next
pub mod Slots
pub mod Valid
use btree_vec.Common.{
  ℕ, zero, suc, ◌+◌, ◌-◌, min, Option, none, some, List, [], ◌∷◌, ◌++◌, map, Result, ok, err, Error,
  ◌>>=◌, length, take, drop, set, get_elem?, replicate, ◌==◌, if◌then◌else◌,
}
use btree_vec.Node.{Allocator}
use btree_vec.Node.Leaf.{Leaf, with_children}
use btree_vec.Node.Internal.{minus}
use btree_vec.Tree.{Root, Above, top, leaf_for, rebuild}
use btree_vec.Vec
use btree_vec.Vec.{BTreeVec}
use btree_vec.Vec.Valid.{contents}
use btree_vec.Iter.{LeafRef, into_next}

-- A leaf with what its array holds at the places from `length` on: a slot that is not initialised
-- is `none`.
pub record RawLeaf {ℓ} (A : Type ℓ) : Type ℓ where
  pub leaf : Leaf A
  pub rest : List (Option A)

module _ {ℓ} {A : Type ℓ} where
  -- The whole array `children`.
  abbrev pub slots : RawLeaf A → List (Option A)
  slots r = map some r.leaf.body.children ++ r.rest

  -- The leaf with the first `n` slots live, of those that are live.
  abbrev pub shorten : ℕ → List (Option A) → RawLeaf A → RawLeaf A
  shorten n array r = record {
    leaf = with_children (take n r.leaf.body.children) r.leaf;
    rest = drop n array;
  }

  unfoldable pub set_zero_length : RawLeaf A → RawLeaf A
  set_zero_length r = shorten 0 (slots r) r

  -- `take_raw_child`: the slot at `i`, which is left uninitialised. The live slots end before it.
  unfoldable pub take_raw_child : RawLeaf A → ℕ → Result (RawLeaf A × Option A)
  take_raw_child r i = elim (get_elem? (slots r) i) [
    | none ↦ err Error.panic
    | some slot ↦ ok (shorten (min (length r.leaf.body.children) i) (set (slots r) i none) r, slot)
  ]

-- `MaybeUninit::assume_init`
abbrev pub assume_init {ℓ} : {A : Type ℓ} → Option A → Result A
assume_init none = err Error.uninit
assume_init (some x) = ok x

-- A leaf that nothing has been taken from: the places past the length are not initialised.
abbrev pub raw_leaf {ℓ} : {A : Type ℓ} → ℕ → Leaf A → RawLeaf A
raw_leaf B leaf = record { leaf = leaf; rest = replicate (B - length leaf.body.children) none }

-- `IntoIter`. `tree` is `_tree`, in which the leaf stands that `leaf` refers to.
pub record IntoIter {ℓ} (al : Allocator) (A : Type ℓ) : Type ℓ where
  pub leaf : Option (RawLeaf A × Above A 0)
  pub length : ℕ
  pub index : ℕ
  pub remaining : ℕ
  pub tree : BTreeVec al A

module _ {ℓ} {A : Type ℓ} (B : ℕ) {al : Allocator} where
  -- `IntoIterator::into_iter`
  unfoldable pub into_iter : BTreeVec al A → Result (IntoIter al A)
  into_iter v = elim v.root [
    | none ↦ ok (record { leaf = none; length = 0; index = 0; remaining = v.size; tree = v })
    | some r ↦ do
      (leaf, i, k) ← leaf_for r.height r.node top 0
      ok (record {
        leaf = some (raw_leaf B leaf, k);
        length = length leaf.body.children;
        index = 0;
        remaining = v.size;
        tree = v;
      })
  ]

module _ {ℓ} {A : Type ℓ} {al : Allocator} where
  -- The iterator after a change of its leaf.
  abbrev pub write_back : RawLeaf A → Above A 0 → IntoIter al A → IntoIter al A
  write_back r k it = record it {
    leaf = some (r, k);
    tree = record it.tree { root = some (rebuild r.leaf k) };
  }

  -- The end of `next`: the item at the iterator's index.
  unfoldable pub take_item :
      RawLeaf A → Above A 0 → IntoIter al A → Result (Option A × IntoIter al A)
  take_item r k it = do
    remaining ← minus 1 it.remaining
    (r', slot) ← take_raw_child r it.index
    item ← assume_init slot
    ok (some item, record (write_back r' k it) { index = it.index + 1; remaining = remaining })

module _ {ℓ} {A : Type ℓ} (B : ℕ) {al : Allocator} where
  -- `next` after `into_next`.
  unfoldable pub enter : Option (LeafRef A) → IntoIter al A → Result (Option A × IntoIter al A)
  enter none it = ok (none, record it { leaf = none })
  enter (some p) it =
      take_item (set_zero_length (raw_leaf B p.0)) p.1
        (record it { index = 0; length = length p.0.body.children })

  unfoldable pub next_at : RawLeaf A → Above A 0 → IntoIter al A → Result (Option A × IntoIter al A)
  next_at r k it =
      if it.index == it.length then (do q ← into_next (r.leaf, k); enter q it) else take_item r k it

  -- `Iterator::next`
  unfoldable pub next : IntoIter al A → Result (Option A × IntoIter al A)
  next it = elim it.leaf [ none ↦ ok (none, it) | some p ↦ next_at p.0 p.1 it ]

module _ {ℓ} {A : Type ℓ} {al : Allocator} where
  unfoldable pub size_hint : IntoIter al A → ℕ × Option ℕ
  size_hint it = (it.remaining, some it.remaining)

  -- `ExactSizeIterator::len`, with its assertion.
  unfoldable pub len : IntoIter al A → Result ℕ
  len it = elim (size_hint it).1 [
    | none ↦ err Error.panic
    | some upper ↦ if (size_hint it).0 == upper then ok (size_hint it).0 else err Error.panic
  ]

module _ {ℓ} {A : Type ℓ} where
  -- The loop of `drop` over `n` slots from `i` on, with the items that it drops.
  unfoldable pub drop_slots : ℕ → ℕ → RawLeaf A → Result (List A × RawLeaf A)
  drop_slots zero i r = ok ([], r)
  drop_slots (suc n) i r = do
    (r', slot) ← take_raw_child r i
    item ← assume_init slot
    (items, r'') ← drop_slots n (i + 1) r'
    ok (item ∷ items, r'')

module _ {ℓ} {A : Type ℓ} {al : Allocator} where
  -- `Drop::drop` of the iterator: the items that it drops, and `_tree` as it leaves it.
  unfoldable pub drop_rest : IntoIter al A → Result (List A × BTreeVec al A)
  drop_rest it = elim it.leaf [
    | none ↦ ok ([], it.tree)
    | some p ↦ do
      (items, r) ← drop_slots (it.length - it.index) it.index p.0
      ok (items, (write_back r p.1 it).tree)
  ]

  -- The iterator is dropped, and then its field `_tree`, whose leaves drop the items that are live
  -- in them. What is returned are the items dropped, and the allocator's state.
  unfoldable pub drop_iter : IntoIter al A → Result (List A × al.State)
  drop_iter it = do
    (items, tree) ← drop_rest it
    s ← Vec.drop al tree
    ok (items ++ contents tree, s)

module _ {ℓ} {A : Type ℓ} (B : ℕ) {al : Allocator} where
  -- `n` calls of `next`, with the items that they return, and then the drop, with those it drops.
  unfoldable pub take_then_drop : ℕ → IntoIter al A → Result (List A × List A × al.State)
  take_then_drop zero it = do (dropped, s) ← drop_iter it; ok ([], dropped, s)
  take_then_drop (suc n) it = do
    (o, it') ← next B it
    (taken, dropped, s) ← take_then_drop n it'
    ok ((elim o [ none ↦ taken | some x ↦ x ∷ taken ]), dropped, s)
