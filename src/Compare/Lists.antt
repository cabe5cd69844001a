-- ===== src/Compare/Lists.antt =====
-- The comparison of vectors is that of the lists of their items.
use btree_vec.Common.{
  ℕ, zero, suc, ◌+◌, ◌<◌, ◌≡◌, refl, ap, Bool, true, false, ◌&&◌, Option, none, some, List, [], ◌∷◌,
  Result, ok, arith, length, drop, get_elem?, if◌then◌else◌, Returns-eq, ◌⊎◌, inl, inr, ◌-◌, ◌≢◌,
  eq_or_ne, length-drop,
}
use btree_vec.Node.{Allocator}
use btree_vec.Iter.{Iter}
use btree_vec.Iter.Valid.{IsIter}
use btree_vec.Iter.Next.{next_lem}
use btree_vec.Iter.Start.{iter_lem}
use btree_vec.Vec.{BTreeVec}
use btree_vec.Vec.Valid.{IsVec, contents}
use btree_vec.Compare.{
  Order, Verdict, ended, broken, go_on, compare_items, compare_iters, compare_vecs, unless_equal,
  unless_equivalent, unless_partial, is_equal, to_partial, to_order, eq, partial_cmp, cmp,
}

shorter : {n m fuel : ℕ} → n ≡ m - 1 → m ≢ 0 → m < suc fuel → n < fuel
shorter e k h = grind arith

abbrev partial_first : Option Order → Option Order → Option Order
partial_first none r = none
partial_first (some Order.less) r = some Order.less
partial_first (some Order.greater) r = some Order.greater
partial_first (some Order.equal) r = r

abbrev order_first : Order → Order → Order
order_first Order.less r = Order.less
order_first Order.greater r = Order.greater
order_first Order.equal r = r

module _ {ℓ} {A : Type ℓ} where
  abbrev pub equal_lists : (A → A → Bool) → List A → List A → Bool
  equal_lists item_eq [] [] = true
  equal_lists item_eq [] (y ∷ ys) = false
  equal_lists item_eq (x ∷ xs) [] = false
  equal_lists item_eq (x ∷ xs) (y ∷ ys) = item_eq x y && equal_lists item_eq xs ys

  -- The lexicographic order, where items may be without order.
  abbrev pub partial_lists : (A → A → Option Order) → List A → List A → Option Order
  partial_lists item_cmp [] [] = some Order.equal
  partial_lists item_cmp [] (y ∷ ys) = some Order.less
  partial_lists item_cmp (x ∷ xs) [] = some Order.greater
  partial_lists item_cmp (x ∷ xs) (y ∷ ys) =
      partial_first (item_cmp x y) (partial_lists item_cmp xs ys)

  -- The lexicographic order.
  abbrev pub order_lists : (A → A → Order) → List A → List A → Order
  order_lists item_cmp [] [] = Order.equal
  order_lists item_cmp [] (y ∷ ys) = Order.less
  order_lists item_cmp (x ∷ xs) [] = Order.greater
  order_lists item_cmp (x ∷ xs) (y ∷ ys) = order_first (item_cmp x y) (order_lists item_cmp xs ys)

abbrev verdict_first {ℓ} : {V : Type ℓ} → Option V → Verdict V → Verdict V
verdict_first none r = r
verdict_first (some v) r = broken v

go_on_lem {ℓ} :
    {V : Type ℓ} (o : Option V) (rest : Result (Verdict V)) (r : Verdict V)
    → rest ≡ ok r
    → go_on o rest ≡ ok (verdict_first o r)
go_on_lem none rest r e = e
go_on_lem (some v) rest r e = refl

module _ {ℓ κ} {A : Type ℓ} {V : Type κ} (f : A → A → Option V) where
  abbrev verdict_lists : List A → List A → Verdict V
  verdict_lists [] [] = ended Order.equal
  verdict_lists [] (y ∷ ys) = ended Order.less
  verdict_lists (x ∷ xs) [] = ended Order.greater
  verdict_lists (x ∷ xs) (y ∷ ys) = verdict_first (f x y) (verdict_lists xs ys)

  compare_items_lem :
      (xs ys : List A) (rest : Result (Verdict V))
      → (rest ≡ ok (verdict_lists (drop 1 xs) (drop 1 ys))) ⊎ (length xs ≡ 0)
      → compare_items f (get_elem? xs 0) (get_elem? ys 0) rest ≡ ok (verdict_lists xs ys)
  unfolding compare_items
  compare_items_lem [] [] rest e = refl
  compare_items_lem [] (y ∷ ys) rest e = refl
  compare_items_lem (x ∷ xs) [] rest e = refl
  compare_items_lem (x ∷ xs) (y ∷ ys) rest (inl e) = go_on_lem (f x y) rest (verdict_lists xs ys) e
  compare_items_lem (x ∷ xs) (y ∷ ys) rest (inr e) = absurd (omega arith)

  -- With more fuel than the first has items, the loop over two well-formed iterators ends.
  compare_iters_lem :
      (B fuel : ℕ) (a b : Iter A) (xs ys : List A)
      → IsIter B a xs
      → IsIter B b ys
      → length xs < fuel
      → compare_iters f fuel a b ≡ ok (verdict_lists xs ys)
  unfolding compare_iters
  compare_iters_lem B zero a b xs ys va vb h = absurd (omega arith)
  compare_iters_lem B (suc fuel) a b xs ys va vb h =
      let (ra, ea, (pa, va')) = Returns-eq (next_lem B a xs va) in
      let (rb, eb, (pb, vb')) = Returns-eq (next_lem B b ys vb) in
      rw (ea, eb, pa, pb)
        (compare_items_lem xs ys (compare_iters f fuel ra.1 rb.1) (elim (eq_or_ne (length xs) 0) [
          | inl e ↦ inr e
          | inr more ↦ inl (
              compare_iters_lem B fuel ra.1 rb.1 (drop 1 xs) (drop 1 ys) va' vb'
                (shorter (length-drop 1 xs) more h))
        ]))

  compare_vecs_lem :
      (B : ℕ) {al al' : Allocator} (v : BTreeVec al A) (w : BTreeVec al' A)
      → IsVec B v
      → IsVec B w
      → compare_vecs f v w ≡ ok (verdict_lists (contents v) (contents w))
  unfolding compare_vecs
  compare_vecs_lem B v w vv vw =
      let (a, ea, va) = Returns-eq (iter_lem B v vv) in
      let (b, eb, vb) = Returns-eq (iter_lem B w vw) in
      rw (ea, eb)
        (compare_iters_lem B (v.size + 1) a b (contents v) (contents w) va vb
          (omega (arith, vv.size_is)))

module _ {ℓ} {A : Type ℓ} where
  is_equal_lem :
      (item_eq : A → A → Bool) (xs ys : List A)
      → is_equal (verdict_lists (unless_equal item_eq) xs ys) ≡ equal_lists item_eq xs ys
  is_equal_lem item_eq [] [] = refl
  is_equal_lem item_eq [] (y ∷ ys) = refl
  is_equal_lem item_eq (x ∷ xs) [] = refl
  is_equal_lem item_eq (x ∷ xs) (y ∷ ys) = go (item_eq x y) _ _ (is_equal_lem item_eq xs ys)
    where
      go :
          (b : Bool) (r : Verdict (Unit {0})) (s : Bool)
          → is_equal r ≡ s
          → is_equal (verdict_first (if b then none else some tt) r) ≡ (b && s)
      go true r s e = e
      go false r s e = refl

  to_partial_lem :
      (item_cmp : A → A → Option Order) (xs ys : List A)
      → to_partial (verdict_lists (λ x y. unless_partial (item_cmp x y)) xs ys)
        ≡ partial_lists item_cmp xs ys
  to_partial_lem item_cmp [] [] = refl
  to_partial_lem item_cmp [] (y ∷ ys) = refl
  to_partial_lem item_cmp (x ∷ xs) [] = refl
  to_partial_lem item_cmp (x ∷ xs) (y ∷ ys) = go (item_cmp x y) _ _ (to_partial_lem item_cmp xs ys)
    where
      go :
          (o : Option Order) (r : Verdict (Option Order)) (s : Option Order)
          → to_partial r ≡ s
          → to_partial (verdict_first (unless_partial o) r) ≡ partial_first o s
      go none r s e = refl
      go (some Order.less) r s e = refl
      go (some Order.equal) r s e = e
      go (some Order.greater) r s e = refl

  to_order_lem :
      (item_cmp : A → A → Order) (xs ys : List A)
      → to_order (verdict_lists (λ x y. unless_equivalent (item_cmp x y)) xs ys)
        ≡ order_lists item_cmp xs ys
  to_order_lem item_cmp [] [] = refl
  to_order_lem item_cmp [] (y ∷ ys) = refl
  to_order_lem item_cmp (x ∷ xs) [] = refl
  to_order_lem item_cmp (x ∷ xs) (y ∷ ys) = go (item_cmp x y) _ _ (to_order_lem item_cmp xs ys)
    where
      go :
          (o : Order) (r : Verdict Order) (s : Order)
          → to_order r ≡ s
          → to_order (verdict_first (unless_equivalent o) r) ≡ order_first o s
      go Order.less r s e = refl
      go Order.equal r s e = e
      go Order.greater r s e = refl

module _ {ℓ} {A : Type ℓ} (B : ℕ) {al al' : Allocator} where
  -- On well-formed vectors, `==` returns, and says whether the lists of their items have the same
  -- length and are equal item by item.
  pub eq_lem :
      (item_eq : A → A → Bool) (v : BTreeVec al A) (w : BTreeVec al' A)
      → IsVec B v
      → IsVec B w
      → eq item_eq v w ≡ ok (equal_lists item_eq (contents v) (contents w))
  unfolding eq
  eq_lem item_eq v w vv vw =
      rw (compare_vecs_lem (unless_equal item_eq) B v w vv vw)
        (ap ok (is_equal_lem item_eq (contents v) (contents w)))

  -- On well-formed vectors, `partial_cmp` returns, and gives the lexicographic order of the lists of
  -- their items: that of the first items which are not equal, `None` if these are without order.
  pub partial_cmp_lem :
      (item_cmp : A → A → Option Order) (v : BTreeVec al A) (w : BTreeVec al' A)
      → IsVec B v
      → IsVec B w
      → partial_cmp item_cmp v w ≡ ok (partial_lists item_cmp (contents v) (contents w))
  unfolding partial_cmp
  partial_cmp_lem item_cmp v w vv vw =
      rw (compare_vecs_lem (λ x y. unless_partial (item_cmp x y)) B v w vv vw)
        (ap ok (to_partial_lem item_cmp (contents v) (contents w)))

module _ {ℓ} {A : Type ℓ} (B : ℕ) {al : Allocator} where
  -- On well-formed vectors, `cmp` returns, and gives the lexicographic order of the lists of their
  -- items.
  pub cmp_lem :
      (item_cmp : A → A → Order) (v w : BTreeVec al A)
      → IsVec B v
      → IsVec B w
      → cmp item_cmp v w ≡ ok (order_lists item_cmp (contents v) (contents w))
  unfolding cmp
  cmp_lem item_cmp v w vv vw =
      rw (compare_vecs_lem (λ x y. unless_equivalent (item_cmp x y)) B v w vv vw)
        (ap ok (to_order_lem item_cmp (contents v) (contents w)))
