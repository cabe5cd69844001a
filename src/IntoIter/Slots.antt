-- ===== src/IntoIter/Slots.antt =====
-- The slots of a leaf from which items are taken one after the other.
use btree_vec.Common.{
  ℕ, zero, suc, ◌+◌, ◌≡◌, refl, ap, ◌∙◌, ◌⊎◌, inl, inr, min, Option, none, some, List, [], ◌∷◌,
  ◌++◌, map, Returns, returned, Returns-bind, arith, length, drop, set, get_elem?, suc-add,
}
use btree_vec.Node.Leaf.{with_children}
use btree_vec.IntoIter.{RawLeaf, slots, take_raw_child, drop_slots}

module _ {ℓ} {A : Type ℓ} where
  pub slot-set :
      (array zs : List (Option A)) (i : ℕ) (y : A)
      → drop i array ≡ some y ∷ zs
      → (get_elem? array i ≡ some (some y)) × (drop (i + 1) (set array i none) ≡ zs)
  slot-set [] zs zero y e = absurd cc
  slot-set [] zs (suc i) y e = absurd cc
  slot-set (x ∷ array) zs zero y e = (ap (λ xs. get_elem? xs 0) e, ap (drop 1) e)
  slot-set (x ∷ array) zs (suc i) y e = rw suc-add (slot-set array zs i y e)

  -- The items `ys` are in the slots from `index` on. Either no slot is live any more, or nothing has
  -- been taken.
  pub record HasLeft (r : RawLeaf A) (index : ℕ) (ys : List A) : Type ℓ where
    pub tail : List (Option A)
    pub slots_are : drop index (slots r) ≡ map some ys ++ tail
    pub live : (r.leaf.body.children ≡ []) ⊎ ((index ≡ 0) × (r.leaf.body.children ≡ ys))

  -- What `take_raw_child` leaves of the leaf `r`.
  pub record Taken (r r' : RawLeaf A) (index : ℕ) (ys : List A) : Type ℓ where
    pub leaf_is : r'.leaf ≡ with_children [] r.leaf
    pub left : HasLeft r' index ys

  no_live : (xs ys : List A) (i : ℕ) → (xs ≡ []) ⊎ ((i ≡ 0) × (xs ≡ ys)) → min (length xs) i ≡ 0
  no_live xs ys i (inl e) = omega (arith, ap length e)
  no_live xs ys i (inr e) = omega (arith, e.0)

  pub take_raw_child-Taken :
      (r : RawLeaf A) (i : ℕ) (y : A) (ys : List A)
      → HasLeft r i (y ∷ ys)
      → Returns (λ q. (q.1 ≡ some y) × Taken r q.0 (i + 1) ys) (take_raw_child r i)
  unfolding take_raw_child
  take_raw_child-Taken r i y ys h =
      let (got, after) = slot-set (slots r) (map some ys ++ h.tail) i y h.slots_are in
      rw (got, take_raw_child, no_live r.leaf.body.children (y ∷ ys) i h.live)
        (returned (
          refl,
          record {
            leaf_is = refl;
            left = record { tail = h.tail; slots_are = after; live = inl refl };
          },
        ))

  pub nothing_live : (r : RawLeaf A) (i : ℕ) → HasLeft r i [] → r.leaf ≡ with_children [] r.leaf
  nothing_live r i h = ap (λ xs. with_children xs r.leaf) (empty h.live)
    where
      empty : {i : ℕ} {xs : List A} → (xs ≡ []) ⊎ ((i ≡ 0) × (xs ≡ [])) → xs ≡ []
      empty (inl e) = e
      empty (inr e) = e.1

  -- The loop of `drop` takes all that is left, and leaves no live slot.
  pub drop_slots-Taken :
      (ys : List A) (r : RawLeaf A) (i : ℕ)
      → HasLeft r i ys
      → Returns
          (λ q. (q.0 ≡ ys) × (q.1.leaf ≡ with_children [] r.leaf))
          (drop_slots (length ys) i r)
  unfolding drop_slots
  drop_slots-Taken [] r i h = returned (refl, nothing_live r i h)
  drop_slots-Taken (y ∷ ys) r i h =
      Returns-bind _ (take_raw_child-Taken r i y ys h) λ (r', slot) (e, t). rw (e) (
        Returns-bind _ (drop_slots-Taken ys r' (i + 1) t.left) λ (dropped, r'') (same, w).
          returned (ap (λ zs. y ∷ zs) same, w ∙ ap (λ l. with_children [] l) t.leaf_is))
