-- ===== src/Memory/Draining.antt =====
-- `IntoIter`: the nodes of the vector that it has taken over.
use btree_vec.Common.{
  IfOk-if, ℕ, zero, suc, ◌+◌, ◌-◌, ◌≡◌, refl, ap, ◌∙◌, Option, none, some, List, ok, err, Error,
  min, ◌>>=◌, length, IfOk, if_ok, if_err, IfOk-bind, IfOk-any, Returns, Returns-map, Returns-IfOk,
  arith, ◌==◌, get_elem?, set,
}
use btree_vec.Node.{Ptr, Allocator}
use btree_vec.Node.Internal.{minus}
use btree_vec.Tree.{Root, Above, top}
use btree_vec.Iter.{LeafRef}
use btree_vec.IntoIter.{
  RawLeaf, IntoIter, into_iter, raw_leaf, set_zero_length, take_raw_child, shorten, slots,
  assume_init, write_back, take_item, enter, next_at, next, drop_slots, drop_rest, drop_iter,
  take_then_drop,
}
use btree_vec.IntoIter.Drop.{into_iter-take_then_drop}
use btree_vec.Vec
use btree_vec.Vec.{BTreeVec}
use btree_vec.Vec.Dropping.{root_addrs}
use btree_vec.Vec.Valid.{IsVec}
use btree_vec.Memory.{single, count, Ledger, Holds, below, above}
use btree_vec.Memory.Ancestors.{leaf_for-below}
use btree_vec.Memory.Blocks.{Holds-eq}
use btree_vec.Memory.Removing.{destroy-Holds}
use btree_vec.Memory.Vectors.{HeldVec}
use btree_vec.Memory.Walking.{rebuild-below, IsIn, IsIn-eq, into_next-IsIn}

module _ {ℓ} {A : Type ℓ} where
  -- A raw access moves no leaf.
  take_raw_child-addr :
      (r : RawLeaf A) (i : ℕ) → IfOk (λ (r', slot). r'.leaf.addr ≡ r.leaf.addr) (take_raw_child r i)
  unfolding take_raw_child
  take_raw_child-addr r i = go (get_elem? (slots r) i)
    where
      go :
          (o : Option (Option A))
          → IfOk
              (λ (q : RawLeaf A × Option A). q.0.leaf.addr ≡ r.leaf.addr)
              (elim o [
                | none ↦ err Error.panic
                | some slot ↦
                    ok
                      (shorten (min (length r.leaf.body.children) i) (set (slots r) i none) r, slot)
              ])
      go none = if_err
      go (some slot) = if_ok refl

  drop_slots-addr :
      (n i : ℕ) (r : RawLeaf A) → IfOk (λ (xs, r'). r'.leaf.addr ≡ r.leaf.addr) (drop_slots n i r)
  unfolding drop_slots
  drop_slots-addr zero i r = if_ok refl
  drop_slots-addr (suc n) i r = IfOk-bind _ (take_raw_child-addr r i) λ (r', slot) same.
      IfOk-bind _ (IfOk-any (assume_init slot))
        λ x t. IfOk-bind _ (drop_slots-addr n (i + 1) r') λ (xs, r'') same'. if_ok (same' ∙ same)

module _ {ℓ} {A : Type ℓ} {al : Allocator} (ledger : Ledger al) (others : Ptr → ℕ) where
  -- The iterator's leaf is one of the nodes of its tree.
  abbrev HasLeaf : Option (RawLeaf A × Above A 0) → BTreeVec al A → Type 0
  HasLeaf none tree = Unit
  HasLeaf (some (r, k)) tree =
      (p : Ptr) → below A 0 r.leaf p + above k p ≡ count p (root_addrs tree.root)

  abbrev HeldIter : IntoIter al A → Type 0
  HeldIter it = HeldVec ledger others it.tree × HasLeaf it.leaf it.tree

  write_back-HeldIter :
      (r r' : RawLeaf A) (k : Above A 0) (it : IntoIter al A) (index remaining : ℕ)
      → r'.leaf.addr ≡ r.leaf.addr
      → Holds ledger others it.tree.alloc (λ p. below A 0 r.leaf p + above k p)
      → HeldIter (record (write_back r' k it) { index = index; remaining = remaining })
  write_back-HeldIter r r' k it index remaining e held = (
    Holds-eq ledger others held (λ p. omega (arith, rebuild-below r'.leaf k p, ap (single p) e)),
    λ p. omega (arith, rebuild-below r'.leaf k p),
  )

  take_item-HeldIter :
      (r : RawLeaf A) (k : Above A 0) (it : IntoIter al A)
      → Holds ledger others it.tree.alloc (λ p. below A 0 r.leaf p + above k p)
      → IfOk (λ (o, it'). HeldIter it') (take_item r k it)
  unfolding take_item
  take_item-HeldIter r k it held = IfOk-bind _ (IfOk-any (minus 1 it.remaining)) λ remaining t.
      IfOk-bind _ (take_raw_child-addr r it.index) λ (r', slot) same.
        IfOk-bind _ (IfOk-any (assume_init slot))
          λ item t'. if_ok (write_back-HeldIter r r' k it (it.index + 1) remaining same held)

  enter-HeldIter :
      (B : ℕ) (o : Option (LeafRef A)) (it : IntoIter al A)
      → HeldVec ledger others it.tree
      → IsIn (λ p. count p (root_addrs it.tree.root)) o
      → IfOk (λ (x, it'). HeldIter it') (enter B o it)
  unfolding enter set_zero_length
  enter-HeldIter B none it held i = if_ok (held, tt)
  enter-HeldIter B (some (c, k)) it held i =
      take_item-HeldIter (set_zero_length (raw_leaf B c)) k
        (record it { index = 0; length = length c.body.children })
        (Holds-eq ledger others held (λ p. omega (arith, i p)))

  next-HeldIter :
      (B : ℕ) (it : IntoIter al A) → HeldIter it → IfOk (λ (o, it'). HeldIter it') (next B it)
  unfolding next next_at
  next-HeldIter B it (held, has) = go it.leaf has
    where
      go :
          (leaf : Option (RawLeaf A × Above A 0))
          → HasLeaf leaf it.tree
          → IfOk
              (λ (q : Option A × IntoIter al A). HeldIter q.1)
              (next B (record it { leaf = leaf }))
      go none has = if_ok (held, tt)
      go (some (r, k)) has =
          IfOk-if (it.index == it.length)
            (IfOk-bind _ (into_next-IsIn r.leaf k)
              λ o i. enter-HeldIter B o (record it { leaf = some (r, k) }) held (IsIn-eq o i has))
            (take_item-HeldIter r k (record it { leaf = some (r, k) })
              (Holds-eq ledger others held (λ p. omega (arith, has p))))

  drop_rest-HeldVec :
      (it : IntoIter al A)
      → HeldIter it
      → IfOk (λ (xs, tree). HeldVec ledger others tree) (drop_rest it)
  unfolding drop_rest
  drop_rest-HeldVec it (held, has) = go it.leaf has
    where
      go :
          (leaf : Option (RawLeaf A × Above A 0))
          → HasLeaf leaf it.tree
          → IfOk
              (λ (q : List A × BTreeVec al A). HeldVec ledger others q.1)
              (drop_rest (record it { leaf = leaf }))
      go none has = if_ok held
      go (some (r, k)) has =
          IfOk-bind _ (drop_slots-addr (it.length - it.index) it.index r) λ (xs, r') same.
            if_ok
              (write_back-HeldIter r r' k it it.index it.remaining same
                (Holds-eq ledger others held (λ p. omega (arith, has p)))).0

  drop-IfOk :
      (v : BTreeVec al A)
      → HeldVec ledger others v
      → IfOk (λ s. Holds ledger others s (λ _. 0)) (Vec.drop al v)
  unfolding Vec.drop
  drop-IfOk v held = go v.root held
    where
      go :
          (root : Option (Root A))
          → HeldVec ledger others (record v { root = root })
          → IfOk (λ s. Holds ledger others s (λ _. 0)) (Vec.drop al (record v { root = root }))
      go none held = if_ok held
      go (some r) held =
          destroy-Holds A ledger others r.height r.node (λ _. 0) v.alloc
            (Holds-eq ledger others held (λ p. omega arith))

  take_then_drop-Holds :
      (B n : ℕ) (it : IntoIter al A)
      → HeldIter it
      → IfOk (λ (xs, ys, s). Holds ledger others s (λ _. 0)) (take_then_drop B n it)
  unfolding take_then_drop drop_iter
  take_then_drop-Holds B zero it held =
      IfOk-bind _
        (IfOk-bind _ (drop_rest-HeldVec it held)
          λ (xs, tree) held'. IfOk-bind _ (drop-IfOk tree held') λ s end. if_ok end)
        λ q end. if_ok end
  take_then_drop-Holds B (suc n) it held =
      IfOk-bind _ (next-HeldIter B it held)
        λ (o, it') held'. IfOk-bind _ (take_then_drop-Holds B n it' held') λ q end. if_ok end

  into_iter-HeldIter :
      (B : ℕ) (v : BTreeVec al A) → HeldVec ledger others v → IfOk HeldIter (into_iter B v)
  unfolding into_iter
  into_iter-HeldIter B v held = go v.root held
    where
      go :
          (root : Option (Root A))
          → HeldVec ledger others (record v { root = root })
          → IfOk HeldIter (into_iter B (record v { root = root }))
      go none held = if_ok (held, tt)
      go (some r) held =
          IfOk-bind _ (leaf_for-below r.height r.node top 0)
            λ (c, i, k) same. if_ok (held, λ p. omega (arith, same p))

module _ {ℓ} {A : Type ℓ} (B : ℕ) {al : Allocator} (ledger : Ledger al) (others : Ptr → ℕ) where
  -- Let the vector be well formed, and the live blocks be its nodes, each at an address of its own,
  -- and `others`. Then `into_iter`, any number of calls of `next` and the drop of the iterator
  -- return, give back only live blocks, and leave exactly `others` live.
  pub into_iter-Holds :
      (v : BTreeVec al A) (n : ℕ)
      → IsVec B v
      → HeldVec ledger others v
      → Returns
          (λ (xs, ys, s). Holds ledger others s (λ _. 0))
          (into_iter B v >>= take_then_drop B n)
  into_iter-Holds v n valid held =
      Returns-map
        (Returns-IfOk (into_iter-take_then_drop B v n valid) (
          IfOk-bind _ (into_iter-HeldIter ledger others B v held)
            λ it held'. take_then_drop-Holds ledger others B n it held'))
        λ q r. r.1
