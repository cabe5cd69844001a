-- ===== src/IterMut.antt =====
-- `IterMut` of src/lib.rs. A reference that it yields is written through, if at all, before the
-- next call.
pub mod Valid
pub mod Next
pub mod Loop
pub mod Nth
use btree_vec.Common.{
  ℕ, zero, suc, ◌+◌, ◌-◌, Option, none, some, List, Result, ok, err, Error, ◌>>=◌, length, set,
  get_elem?, ◌==◌, if◌then◌else◌,
}
use btree_vec.Node.{Allocator}
use btree_vec.Node.Leaf.{Leaf, with_children}
use btree_vec.Node.Internal.{minus}
use btree_vec.Tree.{top, leaf_for, rebuild}
use btree_vec.Vec.{BTreeVec, MutRef}
use btree_vec.Iter.{LeafRef, into_next, nth_leaf}

-- `IterMut`. `vec` is the vector that is borrowed, in which the leaf stands that `leaf` refers to.
pub record IterMut {ℓ} (al : Allocator) (A : Type ℓ) : Type ℓ where
  pub leaf : Option (LeafRef A)
  pub index : ℕ
  pub remaining : ℕ
  pub vec : BTreeVec al A

-- A reference that is yielded, and the iterator without a write through it.
abbrev pub Step {ℓ} : Allocator → Type ℓ → Type ℓ
Step al A = Option (MutRef A (IterMut al A)) × IterMut al A

module _ {ℓ} {A : Type ℓ} {al : Allocator} where
  -- `iter_mut`
  unfoldable pub iter_mut : BTreeVec al A → Result (IterMut al A)
  iter_mut v = elim v.root [
    | none ↦ ok (record { leaf = none; index = 0; remaining = v.size; vec = v })
    | some r ↦ do
      (leaf, i, k) ← leaf_for r.height r.node top 0
      ok (record { leaf = some (leaf, k); index = 0; remaining = v.size; vec = v })
  ]

  -- The item at `i` of the leaf `p` is replaced by `y`.
  abbrev pub write_item : LeafRef A → ℕ → IterMut al A → A → IterMut al A
  write_item p i it y =
      let leaf = with_children (set p.0.body.children i y) p.0 in
      record it { leaf = some (leaf, p.1); vec = record it.vec { root = some (rebuild leaf p.1) } }

  -- `&mut leaf.children_mut()[i]`, which panics out of bounds.
  unfoldable pub refer : LeafRef A → ℕ → IterMut al A → Result (Step al A)
  refer p i it = elim (get_elem? p.0.body.children i) [
    | none ↦ err Error.panic
    | some x ↦ ok (some (record { item = x; write = write_item p i it }), it)
  ]

  -- The end of `next`.
  unfoldable pub take_item : LeafRef A → IterMut al A → Result (Step al A)
  unfolding refer
  take_item p it = do
    remaining ← minus 1 it.remaining
    refer p it.index (record it { leaf = some p; index = it.index + 1; remaining = remaining })

  unfoldable pub enter : Option (LeafRef A) → IterMut al A → Result (Step al A)
  enter none it = ok (none, record it { leaf = none })
  enter (some p) it = take_item p (record it { leaf = some p; index = 0 })

  unfoldable pub next_at : LeafRef A → IterMut al A → Result (Step al A)
  next_at p it =
      if it.index == length p.0.body.children
      then (do q ← into_next p; enter q it)
      else take_item p it

  -- `Iterator::next`
  unfoldable pub next : IterMut al A → Result (Step al A)
  next it = elim it.leaf [ none ↦ ok (none, it) | some p ↦ next_at p it ]

  -- What `nth` does with the leaf and the index that it is given.
  unfoldable pub land : Option (LeafRef A × ℕ) → ℕ → IterMut al A → Result (Step al A)
  unfolding refer
  land none n it = ok (none, record it { leaf = none; remaining = 0 })
  land (some (p, i)) n it = do
    less ← minus n it.remaining
    remaining ← minus 1 less
    refer p i (record it { leaf = some p; index = i + 1; remaining = remaining })

  -- `Iterator::nth`
  unfoldable pub nth : IterMut al A → ℕ → Result (Step al A)
  nth it n = elim it.leaf [
    | none ↦ ok (none, record it { remaining = 0 })
    | some p ↦ do q ← nth_leaf p it.index n; land q n it
  ]

  unfoldable pub size_hint : IterMut al A → ℕ × Option ℕ
  size_hint it = (it.remaining, some it.remaining)

  -- `ExactSizeIterator::len`, with its assertion.
  unfoldable pub len : IterMut al A → Result ℕ
  len it = elim (size_hint it).1 [
    | none ↦ err Error.panic
    | some upper ↦ if (size_hint it).0 == upper then ok (size_hint it).0 else err Error.panic
  ]

  -- `for item in it { *item = f(item) }`, on fuel, and the vector after it.
  unfoldable pub write_all : (A → A) → ℕ → IterMut al A → Result (BTreeVec al A)
  write_all f zero it = err Error.out_of_fuel
  write_all f (suc fuel) it = do
    (o, it') ← next it
    elim o [ none ↦ ok it'.vec | some m ↦ write_all f fuel (m.write (f m.item)) ]
