-- ===== src/Iter.antt =====
-- src/lib.rs: `Iter`, with `nth` of src/lib.rs and `into_next` of src/node/leaf.rs. A reference to a
-- leaf is the leaf with the nodes above it.
pub mod Climb
pub mod Next
pub mod Nth
pub mod NextLeaf
pub mod Start
pub mod Valid
use btree_vec.Common.{
  ℕ, zero, suc, ◌+◌, ◌-◌, Option, none, some, List, [], ◌∷◌, ◌++◌, Result, ok, err, Error, ◌>>=◌,
  length, take, drop, leb, ◌==◌, if◌then◌else◌,
}
use btree_vec.Node.{Ptr, Cell, Allocator}
use btree_vec.Node.Leaf.{Leaf}
use btree_vec.Node.Internal.{Entry, minus}
use btree_vec.Tree.{Body, Tree, Frame, Above, top, under, Root, plug, frame, into_parent, leaf_for}
use btree_vec.Tree.Valid.{depth}
use btree_vec.Vec.{BTreeVec, index_children}

abbrev pub LeafRef {ℓ} : Type ℓ → Type ℓ
LeafRef A = Leaf A × Above A 0

-- What the `for` loop of `nth` comes to: a child whose size is not below the count, with what stands
-- before and after it, or the count that is left.
pub data Skipped {ℓ} (C : Type ℓ) : Type ℓ where
  found : List (Entry C) → Entry C → List (Entry C) → ℕ → Skipped C
  past : ℕ → Skipped C

-- The `for` loop of `nth` over the sizes of the children `es`, after those of `before`.
unfoldable pub skip_children {ℓ} : {C : Type ℓ} → List (Entry C) → List (Entry C) → ℕ → Skipped C
skip_children before [] n = past n
skip_children before (e ∷ es) n =
    let rest = skip_children (before ++ (e ∷ [])) es (n - e.1) in
    if leb e.1 n then rest else found before e es n

module _ {ℓ} {A : Type ℓ} where
  -- The leaf at the left end of a tree.
  unfoldable pub first_leaf : (h : ℕ) → Tree A h → Above A h → Option (LeafRef A)
  first_leaf zero c k = some (c, k)
  first_leaf (suc h) c k = elim c.body.children [
    | [] ↦ none
    | e ∷ es ↦ first_leaf h e.0 (under (frame c [] e.1 es) k)
  ]

  -- The first leaf among the children `es` to the right of `c`, or else `otherwise`.
  unfoldable pub first_beside :
      (h : ℕ)
      → Tree A h
      → Cell (Frame (Body A h))
      → Above A (suc h)
      → List (Entry (Body A h))
      → Option (LeafRef A)
      → Option (LeafRef A)
  first_beside h c f k [] otherwise = otherwise
  first_beside h c f k (e ∷ es) otherwise =
      first_leaf h e.0
        (under (frame (plug f c) (f.body.before ++ ((c, f.body.hole) ∷ [])) e.1 es) k)

  -- The leaf that follows what stands below `k`.
  unfoldable pub leaf_after : {h : ℕ} → Tree A h → Above A h → Option (LeafRef A)
  leaf_after c top = none
  leaf_after {h} c (under f k) = first_beside h c f k f.body.after (leaf_after (plug f c) k)

  -- The leaf to which the pointer `q`, the `next` of the leaf before `m`, points.
  unfoldable pub deref_next : Ptr → Option (LeafRef A) → Result (Option (LeafRef A))
  deref_next q none = err Error.dangling
  deref_next q (some m) = if q == m.0.addr then ok (some m) else err Error.dangling

  unfoldable pub follow : Option Ptr → LeafRef A → Result (Option (LeafRef A))
  follow none p = ok none
  follow (some q) p = deref_next q (leaf_after p.0 p.1)

  -- `into_next`
  unfoldable pub into_next : LeafRef A → Result (Option (LeafRef A))
  unfolding follow
  into_next p = follow p.0.body.next p

  -- What `nth` does after its `for` loop over the children of `p`: it goes down to the leaf, or on
  -- with the next round.
  unfoldable pub arrive :
      {h : ℕ}
      → Tree A (suc h)
      → Above A (suc h)
      → (ℕ → Result (Option (LeafRef A × ℕ)))
      → Skipped (Body A h)
      → Result (Option (LeafRef A × ℕ))
  arrive {h} p k next_round (found before e after n) = do
    (leaf, i, k') ← leaf_for h e.0 (under (frame p before e.1 after) k) n
    ok (some ((leaf, k'), i))
  arrive p k next_round (past n) = next_round n

  -- The part of `nth` from `into_parent` on, where `c` is the node that has been passed.
  unfoldable pub climb : ℕ → {h : ℕ} → Tree A h → Above A h → ℕ → Result (Option (LeafRef A × ℕ))
  unfolding arrive
  climb zero c k n = err Error.out_of_fuel
  climb (suc fuel) c k n = do
    up ← into_parent c k
    elim up [
      | none ↦ ok none
      | some (p, k') ↦ arrive p k' (climb fuel p k') (
          skip_children (take (c.prefix.index + 1) p.body.children)
            (drop (c.prefix.index + 1) p.body.children) n)
    ]

  -- `nth`: the item `n` places after the one at `index` of the leaf. The loop has a round for each
  -- node above, and one to find that there is none.
  unfoldable pub nth_leaf : LeafRef A → ℕ → ℕ → Result (Option (LeafRef A × ℕ))
  nth_leaf p index n = do
    left ← minus index (length p.0.body.children)
    (if leb left n then climb (depth p.1 + 1) p.0 p.1 (n - left) else ok (some (p, index + n)))

pub record Iter {ℓ} (A : Type ℓ) : Type ℓ where
  pub leaf : Option (LeafRef A)
  pub index : ℕ
  pub remaining : ℕ

module _ {ℓ} {A : Type ℓ} {al : Allocator} where
  unfoldable pub iter : BTreeVec al A → Result (Iter A)
  iter v = elim v.root [
    | none ↦ ok (record { leaf = none; index = 0; remaining = v.size })
    | some r ↦ do
      (leaf, i, k) ← leaf_for r.height r.node top 0
      ok (record { leaf = some (leaf, k); index = 0; remaining = v.size })
  ]

module _ {ℓ} {A : Type ℓ} where
  -- The end of `next`: the item at the iterator's index of the leaf `p`.
  unfoldable pub take_item : LeafRef A → Iter A → Result (Option A × Iter A)
  take_item p it = do
    remaining ← minus 1 it.remaining
    item ← index_children p.0.body.children it.index
    ok (item, record { leaf = some p; index = it.index + 1; remaining = remaining })

  unfoldable pub enter : Option (LeafRef A) → Iter A → Result (Option A × Iter A)
  enter none it = ok (none, record it { leaf = none })
  enter (some p) it = take_item p (record it { leaf = some p; index = 0 })

  unfoldable pub next_at : LeafRef A → Iter A → Result (Option A × Iter A)
  next_at p it =
      if it.index == length p.0.body.children
      then (do q ← into_next p; enter q it)
      else take_item p it

  -- `Iterator::next`
  unfoldable pub next : Iter A → Result (Option A × Iter A)
  next it = elim it.leaf [ none ↦ ok (none, it) | some p ↦ next_at p it ]

  -- What `nth` does with the leaf and the index that it is given.
  unfoldable pub land : Option (LeafRef A × ℕ) → ℕ → Iter A → Result (Option A × Iter A)
  land none n it = ok (none, record { leaf = none; index = it.index; remaining = 0 })
  land (some (p, i)) n it = do
    less ← minus n it.remaining
    remaining ← minus 1 less
    item ← index_children p.0.body.children i
    ok (item, record { leaf = some p; index = i + 1; remaining = remaining })

  -- `Iterator::nth`
  unfoldable pub nth : Iter A → ℕ → Result (Option A × Iter A)
  nth it n = elim it.leaf [
    | none ↦ ok (none, record it { remaining = 0 })
    | some p ↦ do q ← nth_leaf p it.index n; land q n it
  ]

  unfoldable pub size_hint : Iter A → ℕ × Option ℕ
  size_hint it = (it.remaining, some it.remaining)

  -- `ExactSizeIterator::len`, with its assertion.
  unfoldable pub len : Iter A → Result ℕ
  len it = elim (size_hint it).1 [
    | none ↦ err Error.panic
    | some upper ↦ if (size_hint it).0 == upper then ok (size_hint it).0 else err Error.panic
  ]

  -- A `for` loop over the iterator that keeps the items, on fuel.
  unfoldable pub collect : ℕ → Iter A → Result (List A)
  collect zero it = err Error.out_of_fuel
  collect (suc fuel) it = do
    (o, it') ← next it
    elim o [ none ↦ ok [] | some x ↦ do xs ← collect fuel it'; ok (x ∷ xs) ]
