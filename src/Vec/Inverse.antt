-- ===== src/Vec/Inverse.antt =====
-- `remove` undoes `insert`.
use btree_vec.Common.{
  ℕ, zero, suc, ◌+◌, ◌≤◌, ◌≡◌, refl, sym, ap, ◌∙◌, some, List, [], ◌∷◌, ◌++◌, ◌>>=◌, Returns,
  Returns-bind, Returns-map, arith, length, take, drop, get_elem?, insert_at, length-insert_at,
}
use btree_vec.Node.{Allocator}
use btree_vec.Vec.{BTreeVec, insert, remove}
use btree_vec.Vec.Inserting.{insert_lem}
use btree_vec.Vec.Removing.{Removes, remove_lem}
use btree_vec.Vec.Valid.{IsVec, contents}

module _ {ℓ} {A : Type ℓ} where
  get_elem?-insert_at :
      (i : ℕ) (x : A) (xs : List A) → i ≤ length xs → get_elem? (insert_at i x xs) i ≡ some x
  get_elem?-insert_at zero x xs h = refl
  get_elem?-insert_at (suc i) x [] h = absurd (omega arith)
  get_elem?-insert_at (suc i) x (y ∷ xs) h = get_elem?-insert_at i x xs (omega arith)

  others-insert_at :
      (i : ℕ) (x : A) (xs : List A)
      → i ≤ length xs
      → take i (insert_at i x xs) ++ drop (suc i) (insert_at i x xs) ≡ xs
  others-insert_at zero x xs h = refl
  others-insert_at (suc i) x [] h = absurd (omega arith)
  others-insert_at (suc i) x (y ∷ xs) h = ap (λ ys. y ∷ ys) (others-insert_at i x xs (omega arith))

  undone :
      (i : ℕ) (x y : A) (xs ys zs : List A)
      → i ≤ length xs
      → ys ≡ insert_at i x xs
      → Removes i y ys zs
      → (zs ≡ xs) × (y ≡ x)
  undone i x y xs ys zs h e r =
      let next : i + 1 ≡ suc i = omega arith in
      let item : some y ≡ some x =
        sym r.item_is ∙ ap (λ ws. get_elem? ws i) e ∙ get_elem?-insert_at i x xs h in
      (
        r.others
            ∙ ap (λ ws. take i ws ++ drop (i + 1) ws) e
            ∙ ap (λ n. take i (insert_at i x xs) ++ drop n (insert_at i x xs)) next
            ∙ others-insert_at i x xs h,
        cc item,
      )

module _ {ℓ} {A : Type ℓ} (B : ℕ) (al : Allocator) where
  -- On a well-formed vector whose `B` is at least 4: up to the length, `insert` and then `remove` at
  -- the same index return, give the item back, and leave a well-formed vector of the items that were
  -- there before, in their order.
  pub remove-insert :
      (v : BTreeVec al A) (i : ℕ) (item : A)
      → 4 ≤ B
      → IsVec B v
      → i ≤ length (contents v)
      → Returns
          (λ (w, x). IsVec B w × (contents w ≡ contents v) × (x ≡ item))
          (insert B al v i item >>= λ w. remove B al w i)
  remove-insert v i item big valid h =
      Returns-bind _ ((insert_lem B al v i item valid).0 h) λ w (w_valid, same).
        Returns-map
          ((remove_lem B al w i big w_valid).0
            (omega (arith, ap length same, length-insert_at i item (contents v) h)))
          λ (u, x) (u_valid, removes).
            let back = undone i item x (contents v) (contents w) (contents u) h same removes in
            (u_valid, back.0, back.1)
