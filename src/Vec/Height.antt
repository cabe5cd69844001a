-- ===== src/Vec/Height.antt =====
-- The rounds of the loops down and up the tree against `len`: the logarithmic bounds that the
-- documentation of `BTreeVec` promises.
use Prim.Native.Nat.{◌^◌}
use native.Mathlib.Nat.{pow-le-pow_left, pow-le-pow_right, pow-suc}
use btree_vec.Common.{
  ℕ, zero, suc, ◌+◌, ◌*◌, ◌/◌, ◌≤◌, ◌<◌, ◌≡◌, refl, sym, inl, inr, ap, subst, some, arith, length,
  ◌∙◌, Returns, Returns-map, le_or_lt,
}
use btree_vec.Node.{Allocator}
use btree_vec.Tree.{Root, leaf_for, top}
use btree_vec.Tree.Height.{root-weight}
use btree_vec.Tree.Valid.{weight, depth, root_leaves, items, IsRoot}
use btree_vec.Vec.{BTreeVec, len}
use btree_vec.Vec.Get.{leaf_for_root}
use btree_vec.Vec.Inserting.{Inserted, insert_within, insert_within_lem}
use btree_vec.Vec.Removing.{RootRemoved, remove_within, remove_within_lem}
use btree_vec.Vec.Valid.{IsVec, IsRootOption, root_items}

two_pow : (B h n : ℕ) → 4 ≤ B → 2 * (B / 2) ^ h ≤ n → 2 ^ suc h ≤ n
two_pow B h n big fits =
    let half : 2 ≤ B / 2 = omega arith in omega (arith, pow-suc 2 h, pow-le-pow_left half h)

module _ {ℓ} {A : Type ℓ} (B : ℕ) where
  -- A tree of height `h` has about `2 ^ (h + 1)` items or more.
  height_fits :
      (r : Root A) → 4 ≤ B → IsRoot B r → 2 ^ suc r.height ≤ length (items (root_leaves r)) + 2
  unfolding weight
  height_fits r big v = go r.height refl
    where
      go : (h : ℕ) → r.height ≡ h → 2 ^ suc r.height ≤ length (items (root_leaves r)) + 2
      go zero e = let one : 2 ^ suc r.height ≡ 2 = ap (λ n. 2 ^ suc n) e in omega (arith, one)
      go (suc h) e = omega (
        arith,
        two_pow B r.height (length (items (root_leaves r))) big
            ((root-weight A B r v).0 (omega arith)),
      )

-- A number of rounds whose power of 2 is larger.
enough_rounds : (m fuel n : ℕ) → 2 ^ m ≤ n → n < 2 ^ fuel → m < fuel
enough_rounds m fuel n fits more = elim (le_or_lt fuel m) [
  | inl few ↦
      let no_more : 2 ^ fuel ≤ 2 ^ m = pow-le-pow_right (omega arith) few in absurd (omega arith)
  | inr enough ↦ enough
]

module _ {ℓ} {A : Type ℓ} {al : Allocator} (B : ℕ) where
  -- On a well-formed vector with the root `r`, and for a `B` of at least 4: up to `len`, `leaf_for`
  -- returns, and has gone down a number of nodes to whose power 2 is at most `len + 2`; up to `len`,
  -- `insert` below the root returns with the item in its place in a well-formed tree, with any
  -- number of rounds for its loop to whose power 2 is more than `2 * (len + 2)`; and below `len`,
  -- `remove` below the root returns the item at the index and leaves a well-formed tree of the
  -- others, with any number of rounds to whose power 2 is more than `len + 2`.
  pub few_rounds :
      (v : BTreeVec al A) (r : Root A) (i : ℕ) (item : A) (fuel : ℕ)
      → 4 ≤ B
      → IsVec B v
      → v.root ≡ some r
      → (i ≤ len v
          → Returns (λ (leaf, j, k). 2 ^ depth k ≤ len v + 2) (leaf_for r.height r.node top i))
        × (i ≤ len v
            → 2 * (len v + 2) < 2 ^ fuel
            → Returns (Inserted B al r i item) (insert_within B al fuel r v.alloc i item (len v)))
        × (i < len v
            → len v + 2 < 2 ^ fuel
            → Returns (RootRemoved B al r i) (remove_within B al fuel r v.alloc i))
  unfolding len
  few_rounds v r i item fuel big valid e =
      let root = subst (IsRootOption B) e valid.root_is in
      let size_is : v.size ≡ length (items (root_leaves r)) =
        valid.size_is ∙ ap (λ o. length (root_items o)) e in
      let fits = height_fits B r big root.0 in
      (
        λ h. Returns-map (leaf_for_root B valid.branching r root.0 i (omega arith)) λ x f.
            let deep : depth x.2 ≡ r.height = omega (arith, f.deep) in
            omega (arith, ap (λ n. 2 ^ n) deep, pow-suc 2 r.height, fits),
        λ h more.
            subst
              (λ n. Returns (Inserted B al r i item) (insert_within B al fuel r v.alloc i item n))
              (sym size_is)
              (insert_within_lem B al r v.alloc i item fuel valid.branching root.0 root.1
                (omega arith)
                (omega (
                  arith,
                  enough_rounds (suc (suc r.height)) fuel (2 * (v.size + 2))
                      (omega (arith, pow-suc 2 (suc r.height), fits)) more,
                ))),
        λ h more. remove_within_lem B al r v.alloc i fuel big root.0 root.1 (omega arith) (
            omega
              (arith, enough_rounds (suc r.height) fuel (v.size + 2) (omega (arith, fits)) more)),
      )
