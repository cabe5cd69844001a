-- ===== src/Compare.antt =====
-- Comparison of vectors, src/lib.rs: `PartialEq`, `PartialOrd` and `Ord`. The comparison of items is
-- a parameter. `Iterator::eq`, `partial_cmp` and `cmp` take an item of each iterator in turn until
-- the items or the lengths tell the two apart.
pub mod Lists
use btree_vec.Common.{
  ℕ, zero, suc, ◌+◌, Bool, true, false, Option, none, some, Result, ok, err, Error, ◌>>=◌,
  if◌then◌else◌,
}
use btree_vec.Node.{Allocator}
use btree_vec.Iter.{Iter, iter, next}
use btree_vec.Vec.{BTreeVec}

-- `core::cmp::Ordering`
pub data Order : Type 0 where
  less equal greater : Order

-- How a comparison of two iterators ends: at the end of one of them, or at a pair of items.
pub data Verdict {ℓ} (V : Type ℓ) : Type ℓ where
  ended : Order → Verdict V
  broken : V → Verdict V

-- The loop goes on, or it is broken off.
abbrev pub go_on {ℓ} : {V : Type ℓ} → Option V → Result (Verdict V) → Result (Verdict V)
go_on none rest = rest
go_on (some r) rest = ok (broken r)

module _ {ℓ κ} {A : Type ℓ} {V : Type κ} (f : A → A → Option V) where
  -- What a round does with the next items, where `rest` is the loop from there on.
  unfoldable pub compare_items : Option A → Option A → Result (Verdict V) → Result (Verdict V)
  compare_items none none rest = ok (ended Order.equal)
  compare_items none (some y) rest = ok (ended Order.less)
  compare_items (some x) none rest = ok (ended Order.greater)
  compare_items (some x) (some y) rest = go_on (f x y) rest

  -- The loop over both iterators, on fuel.
  unfoldable pub compare_iters : ℕ → Iter A → Iter A → Result (Verdict V)
  unfolding compare_items
  compare_iters zero a b = err Error.out_of_fuel
  compare_iters (suc fuel) a b = do
    (o, a') ← next a
    (o', b') ← next b
    compare_items o o' (compare_iters fuel a' b')

  -- The loop over the items of both vectors, with a round for each item and one for the end.
  unfoldable pub compare_vecs :
      {al al' : Allocator} → BTreeVec al A → BTreeVec al' A → Result (Verdict V)
  compare_vecs v w = do a ← iter v; b ← iter w; compare_iters (v.size + 1) a b

-- What the loops do with a pair of items.
abbrev pub unless_equal {ℓ} : {A : Type ℓ} → (A → A → Bool) → A → A → Option (Unit {0})
unless_equal item_eq x y = if item_eq x y then none else some tt

abbrev pub unless_equivalent : Order → Option Order
unless_equivalent Order.equal = none
unless_equivalent Order.less = some Order.less
unless_equivalent Order.greater = some Order.greater

abbrev pub unless_partial : Option Order → Option (Option Order)
unless_partial none = some none
unless_partial (some Order.equal) = none
unless_partial (some Order.less) = some (some Order.less)
unless_partial (some Order.greater) = some (some Order.greater)

-- The results of the loops.
abbrev pub is_equal : Verdict (Unit {0}) → Bool
is_equal (ended Order.equal) = true
is_equal (ended Order.less) = false
is_equal (ended Order.greater) = false
is_equal (broken r) = false

abbrev pub to_partial : Verdict (Option Order) → Option Order
to_partial (ended r) = some r
to_partial (broken r) = r

abbrev pub to_order : Verdict Order → Order
to_order (ended r) = r
to_order (broken r) = r

module _ {ℓ} {A : Type ℓ} {al al' : Allocator} where
  -- `PartialEq::eq`
  unfoldable pub eq : (A → A → Bool) → BTreeVec al A → BTreeVec al' A → Result Bool
  eq item_eq v w = do r ← compare_vecs (unless_equal item_eq) v w; ok (is_equal r)

  -- `PartialOrd::partial_cmp`
  unfoldable pub partial_cmp :
      (A → A → Option Order) → BTreeVec al A → BTreeVec al' A → Result (Option Order)
  partial_cmp item_cmp v w = do
    r ← compare_vecs (λ x y. unless_partial (item_cmp x y)) v w
    ok (to_partial r)

module _ {ℓ} {A : Type ℓ} {al : Allocator} where
  -- `Ord::cmp`
  unfoldable pub cmp : (A → A → Order) → BTreeVec al A → BTreeVec al A → Result Order
  cmp item_cmp v w = do
    r ← compare_vecs (λ x y. unless_equivalent (item_cmp x y)) v w
    ok (to_order r)
