-- ===== src/Iter/Start.antt =====
-- `iter`: the iterator over a whole vector.
use btree_vec.Common.{
  length-zero, ℕ, ◌≤◌, ◌<◌, ◌≡◌, refl, sym, ap, subst, ◌∙◌, Option, none, some, [], ◌++◌, ok, ◌>>=◌,
  Returns, returned, Returns-bind, Returns-eq, append-nil, arith, length,
}
use btree_vec.Node.{Allocator}
use btree_vec.Node.Leaf.{Leaf}
use btree_vec.Tree.{Root, Above}
use btree_vec.Tree.Valid.{items, leaves_before, IsRoot, root_leaves}
use btree_vec.Tree.Chain.{IsChain}
use btree_vec.Vec.{BTreeVec}
use btree_vec.Vec.Valid.{contents, IsVec, root_items, IsRootOption}
use btree_vec.Vec.Get.{Found, leaf_for_root, leaf_items, leaf_index}
use btree_vec.Iter.{iter, collect}
use btree_vec.Iter.Next.{collect_lem}
use btree_vec.Iter.Valid.{items_from, IsCursor, IsIter}

module _ {ℓ} {A : Type ℓ} (B : ℕ) (big : 3 ≤ B) (r : Root A) (v : IsRoot B r)
    (chain : IsChain (root_leaves r)) where
  -- A leaf that `leaf_for` has found is a place to iterate from.
  pub leaf_for_root-IsCursor :
      (i : ℕ) (x : Leaf A × ℕ × Above A 0)
      → Found B big r v i x
      → IsCursor B (length (items (root_leaves r))) (x.0, x.2) x.1
  leaf_for_root-IsCursor i x f = record {
    at = record { below = f.below; above = f.above };
    chain = subst IsChain (sym (f.same_leaves ∙ append-nil (root_leaves r))) chain;
    inside = f.inside;
  }

  -- What is found for the index 0 is the first leaf.
  pub leaf_for_root-before :
      (x : Leaf A × ℕ × Above A 0) → Found B big r v 0 x → items (leaves_before x.2) ≡ []
  leaf_for_root-before x f =
      length-zero (items (leaves_before x.2)) (omega (arith, leaf_index B big r v 0 x f))

  pub leaf_for_root-first :
      (x : Leaf A × ℕ × Above A 0)
      → Found B big r v 0 x
      → items (root_leaves r) ≡ items_from (x.0, x.2) 0
  leaf_for_root-first x f =
      leaf_items B big r v 0 x f
      ∙ ap (λ xs. xs ++ items_from (x.0, x.2) 0) (leaf_for_root-before x f)

module _ {ℓ} {A : Type ℓ} {al : Allocator} (B : ℕ) where
  pub iter_lem : (v : BTreeVec al A) → IsVec B v → Returns (λ it. IsIter B it (contents v)) (iter v)
  unfolding iter
  iter_lem v valid = go v.root valid.root_is valid.size_is
    where
      go :
          (root : Option (Root A))
          → IsRootOption B root
          → v.size ≡ length (root_items root)
          → Returns (λ it. IsIter B it (root_items root)) (iter (record v { root = root }))
      go none h e =
          returned (record { branching = valid.branching; leaf_has = refl; remaining_is = e })
      go (some r) h e =
          Returns-bind _ (leaf_for_root B valid.branching r h.0 0 (omega arith)) λ x f.
            returned (record {
              branching = valid.branching;
              leaf_has = (
                length (items (root_leaves r)),
                (let c = leaf_for_root-IsCursor B valid.branching r h.0 h.1 0 x f in
                    record { at = c.at; chain = c.chain; inside = omega arith }),
                leaf_for_root-first B valid.branching r h.0 h.1 x f,
              );
              remaining_is = e;
            })

  -- On a well-formed vector, `iter` returns, and the loop over the iterator, with more fuel than there
  -- are items, ends with the items of the vector in their order.
  pub iter-collect :
      (v : BTreeVec al A) (fuel : ℕ)
      → IsVec B v
      → length (contents v) < fuel
      → (iter v >>= collect fuel) ≡ ok (contents v)
  iter-collect v fuel valid h =
      let (it, e, q) = Returns-eq (iter_lem v valid) in
      rw e (collect_lem B fuel it (contents v) q h)
