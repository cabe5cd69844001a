-- ===== src/Iter/Valid.antt =====
-- When an iterator is well formed, and which items it has left.
use btree_vec.Common.{
  ℕ, zero, suc, ◌+◌, ◌≤◌, ◌<◌, ◌≡◌, refl, Option, none, some, List, [], ◌∷◌, ◌++◌, arith, length,
  drop, get_elem?, suc-add, ok, ==_self,
}
use btree_vec.Tree.Valid.{items, leaves_after}
use btree_vec.Tree.Position.{IsAt, leaves_around}
use btree_vec.Tree.Chain.{IsChain}
use btree_vec.Vec.{index_children}
use btree_vec.Iter.{LeafRef, Iter, size_hint, len}

module _ {ℓ} {A : Type ℓ} where
  -- The items from the one at `index` of the leaf on.
  abbrev pub items_from : LeafRef A → ℕ → List A
  items_from p index = drop index p.0.body.children ++ items (leaves_after p.1)

  -- `p` is a leaf of a well-formed tree whose leaves are chained, and `index` lies in it or at its
  -- end.
  pub record IsCursor (B total : ℕ) (p : LeafRef A) (index : ℕ) : Type 0 where
    pub at : IsAt B total 0 p.0 p.1
    pub chain : IsChain (leaves_around 0 p.0 p.1)
    pub inside : index ≤ length p.0.body.children

  abbrev pub LeafHas : ℕ → Option (LeafRef A) → ℕ → List A → Type ℓ
  LeafHas B none index xs = xs ≡ []
  LeafHas B (some p) index xs = (total : ℕ) × IsCursor B total p index × (xs ≡ items_from p index)

  -- The iterator is well formed and has the items `xs` left.
  pub record IsIter (B : ℕ) (it : Iter A) (xs : List A) : Type ℓ where
    pub branching : 3 ≤ B
    pub leaf_has : LeafHas B it.leaf it.index xs
    pub remaining_is : it.remaining ≡ length xs

  pub drop-get_elem? :
      (xs : List A) (i : ℕ)
      → i < length xs
      → (x : A) × (get_elem? xs i ≡ some x) × (drop i xs ≡ x ∷ drop (i + 1) xs)
  drop-get_elem? [] i h = absurd (omega arith)
  drop-get_elem? (x ∷ xs) zero h = (x, refl, refl)
  drop-get_elem? (x ∷ xs) (suc i) h = rw suc-add (drop-get_elem? xs i (omega arith))

  pub index_children-some :
      (xs : List A) (i : ℕ) (x : A) → get_elem? xs i ≡ some x → index_children xs i ≡ ok (some x)
  unfolding index_children
  index_children-some xs i x e = rw (e, index_children)

  -- On a well-formed iterator, `size_hint` gives the number of items that are left as both bounds,
  -- and `len` returns it.
  pub size_hint-len :
      (B : ℕ) (it : Iter A) (xs : List A)
      → IsIter B it xs
      → (size_hint it ≡ (length xs, some (length xs))) × (len it ≡ ok (length xs))
  unfolding size_hint len
  size_hint-len B it xs v =
      (rw (v.remaining_is) refl, rw (v.remaining_is, ==_self (length xs)) refl)
