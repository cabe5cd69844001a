-- ===== src/IntoIter/Drop.antt =====
-- `into_iter`, and the drop of the iterator: every item leaves the vector once.
use btree_vec.Common.{
  ℕ, zero, suc, ◌-◌, ◌≡◌, refl, sym, ap, ap₂, ◌∙◌, Option, none, some, List, [], ◌∷◌, ◌++◌, ok,
  ◌>>=◌, Returns, returned, Returns-bind, arith, length, drop, take, get_elem?, replicate, inr,
}
use btree_vec.Node.{Allocator}
use btree_vec.Node.Leaf.{with_children}
use btree_vec.Tree.{Root, Above, rebuild}
use btree_vec.Tree.Chain.{IsChain-append_right}
use btree_vec.Tree.Valid.{items, leaves_before, leaves_after, root_leaves}
use btree_vec.Vec
use btree_vec.Vec.{BTreeVec}
use btree_vec.Vec.Dropping.{destroy_lem, give_back, root_addrs}
use btree_vec.Vec.Get.{leaf_for_root}
use btree_vec.Vec.Valid.{contents, root_items, IsVec, IsRootOption}
use btree_vec.Iter.NextLeaf.{view}
use btree_vec.Iter.Start.{leaf_for_root-IsCursor, leaf_for_root-first, leaf_for_root-before}
use btree_vec.IntoIter.{RawLeaf, IntoIter, into_iter, drop_rest, drop_iter, take_then_drop}
use btree_vec.IntoIter.Fertile.{IsAt-IsWalked}
use btree_vec.IntoIter.Next.{next_lem}
use btree_vec.IntoIter.Slots.{drop_slots-Taken}
use btree_vec.IntoIter.Valid.{
  IsStand-items, with_children-IsStand, HasItems, LeafHas, IsIntoIter, RootFree,
}

module _ {ℓ} {A : Type ℓ} where
  take_nil : (n : ℕ) → take {A = A} n [] ≡ []
  take_nil zero = refl
  take_nil (suc n) = refl

  drop_next : (n : ℕ) (xs : List A) → drop (suc n) xs ≡ drop n (drop 1 xs)
  drop_next zero [] = refl
  drop_next (suc n) [] = refl
  drop_next n (x ∷ xs) = refl

module _ {ℓ} {A : Type ℓ} {al : Allocator} where
  -- A tree whose root has no parent is dropped without a panic.
  tree_drop :
      (root : Option (Root A)) (v : BTreeVec al A)
      → RootFree root
      → Vec.drop al (record v { root = root }) ≡ ok (give_back al (root_addrs root) v.alloc)
  unfolding Vec.drop
  tree_drop none v h = refl
  tree_drop (some r) v h = destroy_lem A al r.height r.node v.alloc h

  -- The items that are dropped and those left to the field `_tree` are `xs`.
  abbrev DropsTo : List A → List A × BTreeVec al A → Type ℓ
  DropsTo xs q = (q.0 ++ contents q.1 ≡ xs) × RootFree q.1.root

  drop_leaf-DropsTo :
      (r r' : RawLeaf A) (k : Above A 0) (len index : ℕ) (xs dropped : List A)
      (tree : BTreeVec al A) (h : HasItems r k len index xs)
      → dropped ≡ h.here
      → r'.leaf ≡ with_children [] r.leaf
      → DropsTo xs (dropped, record tree { root = some (rebuild r'.leaf k) })
  drop_leaf-DropsTo r r' k len index xs dropped tree h same e = (
    ap₂ (λ ys zs. ys ++ zs) same
          (ap (λ l. items (root_leaves (rebuild l k))) e
            ∙ IsStand-items (with_children [] r.leaf) k (with_children-IsStand r.leaf k [] h.stand))
        ∙ sym h.items_are,
    ap (λ l. (rebuild l k).node.prefix.parent) e
        ∙ (with_children-IsStand r.leaf k [] h.stand).walked.no_parent,
  )

  drop_rest_lem :
      (it : IntoIter al A) (xs : List A) → IsIntoIter it xs → Returns (DropsTo xs) (drop_rest it)
  unfolding drop_rest
  drop_rest_lem it xs v = go it.leaf v.leaf_has
    where
      go :
          (leaf : Option (RawLeaf A × Above A 0))
          → LeafHas leaf it.length it.index it.tree xs
          → Returns (DropsTo xs) (drop_rest (record it { leaf = leaf }))
      go none (nothing, empty, free) = returned (empty ∙ sym nothing, free)
      go (some (r, k)) (h, root, free) =
          let count : it.length - it.index ≡ length h.here = omega (arith, h.length_is) in
          rw (count) (
            Returns-bind _ (drop_slots-Taken h.here r it.index h.left) λ (dropped, r') (same, e).
              returned (drop_leaf-DropsTo r r' k it.length it.index xs dropped it.tree h same e))

  -- The drop of a well-formed iterator returns, and drops each item that is left once.
  drop_iter_lem :
      (it : IntoIter al A) (xs : List A)
      → IsIntoIter it xs
      → Returns (λ (q : List A × al.State). q.0 ≡ xs) (drop_iter it)
  unfolding drop_iter
  drop_iter_lem it xs v =
      Returns-bind _ (drop_rest_lem it xs v)
        λ (dropped, tree) (same, free). rw (tree_drop tree.root tree free) (returned same)

  take_then_drop_lem :
      (B : ℕ) (n : ℕ) (it : IntoIter al A) (xs : List A)
      → IsIntoIter it xs
      → Returns
          (λ (q : List A × List A × al.State). (q.0 ≡ take n xs) × (q.1 ≡ drop n xs))
          (take_then_drop B n it)
  unfolding take_then_drop
  take_then_drop_lem B zero it xs v =
      Returns-bind _ (drop_iter_lem it xs v) λ q e. returned (refl, e)
  take_then_drop_lem B (suc n) it xs v = Returns-bind _ (next_lem B it xs v) λ (o, it') (e, v').
      Returns-bind _ (take_then_drop_lem B n it' (drop 1 xs) v')
        λ q (t, d). returned (go xs o q.0 e t, d ∙ sym (drop_next n xs))
    where
      go :
          (xs : List A) (o : Option A) (taken : List A)
          → o ≡ get_elem? xs 0
          → taken ≡ take n (drop 1 xs)
          → (elim o as (λ o. List A) [ none ↦ taken | some x ↦ x ∷ taken ]) ≡ take (suc n) xs
      go [] o taken e t = rw e (t ∙ take_nil n)
      go (x ∷ xs) o taken e t = rw e (ap (λ ys. x ∷ ys) t)

module _ {ℓ} {A : Type ℓ} {al : Allocator} (B : ℕ) where
  pub into_iter_lem :
      (v : BTreeVec al A) → IsVec B v → Returns (λ it. IsIntoIter it (contents v)) (into_iter B v)
  unfolding into_iter
  into_iter_lem v valid = go v.root valid.root_is valid.size_is
    where
      go :
          (root : Option (Root A))
          → IsRootOption B root
          → v.size ≡ length (root_items root)
          → Returns (λ it. IsIntoIter it (root_items root)) (into_iter B (record v { root = root }))
      go none h e = returned (record { leaf_has = (refl, refl, tt); remaining_is = e })
      go (some r) h e =
          Returns-bind _ (leaf_for_root B valid.branching r h.0 0 (omega arith)) λ x f.
            let (walked, filled) =
              IsAt-IsWalked A B valid.branching (length (items (root_leaves r))) x.0 x.2
                (record { below = f.below; above = f.above }) in
            let first = leaf_for_root-first B valid.branching r h.0 h.1 x f in
            returned (record {
              leaf_has = (
                record {
                  stand = record {
                    walked = walked;
                    chain =
                        IsChain-append_right (leaves_before x.2) (view x.0 ∷ leaves_after x.2)
                          (leaf_for_root-IsCursor B valid.branching r h.0 h.1 0 x f).chain;
                    before_empty = leaf_for_root-before B valid.branching r h.0 h.1 x f;
                    filled = filled;
                  };
                  here = x.0.body.children;
                  left = record {
                    tail = replicate (B - length x.0.body.children) none;
                    slots_are = refl;
                    live = inr (refl, refl);
                  };
                  length_is = omega arith;
                  items_are = first;
                },
                first,
                h.0.parent_is,
              );
              remaining_is = e;
            })

  -- After `into_iter` on a well-formed vector, any number `n` of calls of `next` return the first `n`
  -- items, and the drop of the iterator then returns and drops the others: each item leaves the
  -- vector once, in its order, and none is read from a slot that is not initialised.
  pub into_iter-take_then_drop :
      (v : BTreeVec al A) (n : ℕ)
      → IsVec B v
      → Returns
          (λ (q : List A × List A × al.State).
            (q.0 ≡ take n (contents v)) × (q.1 ≡ drop n (contents v)))
          (into_iter B v >>= take_then_drop B n)
  into_iter-take_then_drop v n valid =
      Returns-bind _ (into_iter_lem v valid) λ it h. take_then_drop_lem B n it (contents v) h
