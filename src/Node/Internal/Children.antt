-- ===== src/Node/Internal/Children.antt =====
-- The children of an internal node: each knows its parent and its index, and has its size beside it.
use btree_vec.Common.{
  ℕ, suc, ◌+◌, ◌≤◌, ◌≡◌, refl, sym, ap, ◌∙◌, Option, some, List, [], ◌∷◌, ◌++◌, append_assoc, arith,
  length, take, drop, take-append-drop, length-take, sum, add-zero, add-suc, suc-add,
}
use btree_vec.Node.{Ptr, Cell}
use btree_vec.Node.Internal.{Entry, live_sizes, adopt, reindex}

-- What `L` gives for each child, from left to right.
abbrev pub concat_with {ℓ κ} :
    {C : Type ℓ} {X : Type κ} → (Ptr → C → List X) → List (Entry C) → List X
concat_with L [] = []
concat_with L ((c, n) ∷ es) = L c.addr c.body ++ concat_with L es

module _ {ℓ κ} {C : Type ℓ} {X : Type κ} (L : Ptr → C → List X) where
  pub concat_with-append :
      (es fs : List (Entry C)) → concat_with L (es ++ fs) ≡ concat_with L es ++ concat_with L fs
  concat_with-append [] fs = refl
  concat_with-append ((c, n) ∷ es) fs =
      rw (concat_with-append es fs) (sym (append_assoc (L c.addr c.body) _ _))

  pub concat_with-adopt :
      (p : Option Ptr) (i : ℕ) (es : List (Entry C))
      → concat_with L (adopt p i es) ≡ concat_with L es
  unfolding adopt
  concat_with-adopt p i [] = refl
  concat_with-adopt p i ((c, n) ∷ es) =
      ap (λ xs. L c.addr c.body ++ xs) (concat_with-adopt p (suc i) es)

  pub concat_with-reindex :
      (i : ℕ) (es : List (Entry C)) → concat_with L (reindex i es) ≡ concat_with L es
  unfolding reindex
  concat_with-reindex i [] = refl
  concat_with-reindex i ((c, n) ∷ es) =
      ap (λ xs. L c.addr c.body ++ xs) (concat_with-reindex (suc i) es)

  pub concat_with-split :
      (k : ℕ) (es : List (Entry C))
      → concat_with L es ≡ concat_with L (take k es) ++ concat_with L (drop k es)
  concat_with-split k es =
      ap (concat_with L) (sym (take-append-drop k es)) ∙ concat_with-append (take k es) (drop k es)

module _ {ℓ} {C : Type ℓ} where
  pub length-adopt :
      (p : Option Ptr) (i : ℕ) (es : List (Entry C)) → length (adopt p i es) ≡ length es
  unfolding adopt
  length-adopt p i [] = refl
  length-adopt p i ((c, n) ∷ es) = ap suc (length-adopt p (suc i) es)

  pub length-reindex : (i : ℕ) (es : List (Entry C)) → length (reindex i es) ≡ length es
  unfolding reindex
  length-reindex i [] = refl
  length-reindex i ((c, n) ∷ es) = ap suc (length-reindex (suc i) es)

  pub length-live_sizes : (es : List (Entry C)) → length (live_sizes es) ≡ length es
  length-live_sizes [] = refl
  length-live_sizes ((c, n) ∷ es) = ap suc (length-live_sizes es)

  -- A child with its size is of the kind `P`, and the size is its weight.
  pub record IsSized (P : Ptr → C → Type 0) (weight : Ptr → C → ℕ) (c : Cell C) (n : ℕ)
      : Type 0 where
    pub size_is : n ≡ weight c.addr c.body
    pub is : P c.addr c.body

  -- `c` is the child of the node at `a` with the index `i`.
  pub record IsChild (P : Ptr → C → Type 0) (weight : Ptr → C → ℕ) (a : Ptr) (i : ℕ) (c : Cell C)
      (n : ℕ) : Type 0 where
    pub parent_is : c.prefix.parent ≡ some a
    pub index_is : c.prefix.index ≡ i
    pub sized : IsSized P weight c n
    pub open sized use *

  -- The children from the index `i` on of the node at `a`.
  abbrev pub Children :
      (P : Ptr → C → Type 0) (weight : Ptr → C → ℕ) → Ptr → ℕ → List (Entry C) → Type 0
  Children P weight a i [] = Unit
  Children P weight a i ((c, n) ∷ es) = IsChild P weight a i c n × Children P weight a (suc i) es

module _ {ℓ} {C : Type ℓ} (P : Ptr → C → Type 0) (weight : Ptr → C → ℕ) where
  pub Children-append :
      (a : Ptr) (i : ℕ) (es fs : List (Entry C))
      → Children P weight a i es
      → Children P weight a (i + length es) fs
      → Children P weight a i (es ++ fs)
  Children-append a i [] fs p q = rw add-zero at q
  Children-append a i ((c, n) ∷ es) fs p q =
      (p.0, Children-append a (suc i) es fs p.1 (rw (add-suc, ← suc-add) at q))

  pub Children-append_left :
      (a : Ptr) (i : ℕ) (es fs : List (Entry C))
      → Children P weight a i (es ++ fs)
      → Children P weight a i es
  Children-append_left a i [] fs p = tt
  Children-append_left a i ((c, n) ∷ es) fs p = (p.0, Children-append_left a (suc i) es fs p.1)

  pub Children-append_right :
      (a : Ptr) (i : ℕ) (es fs : List (Entry C))
      → Children P weight a i (es ++ fs)
      → Children P weight a (i + length es) fs
  Children-append_right a i [] fs p = rw add-zero p
  Children-append_right a i ((c, n) ∷ es) fs p =
      rw (add-suc, ← suc-add) (Children-append_right a (suc i) es fs p.1)

  pub Children-adopt :
      (a b : Ptr) (i j : ℕ) (es : List (Entry C))
      → Children P weight a i es
      → Children P weight b j (adopt (some b) j es)
  unfolding adopt
  Children-adopt a b i j [] p = tt
  Children-adopt a b i j ((c, n) ∷ es) p = (
    record {
      parent_is = refl;
      index_is = refl;
      sized = record { size_is = p.0.size_is; is = p.0.is };
    },
    Children-adopt a b (suc i) (suc j) es p.1,
  )

  pub Children-reindex :
      (a : Ptr) (i j : ℕ) (es : List (Entry C))
      → Children P weight a i es
      → Children P weight a j (reindex j es)
  unfolding reindex
  Children-reindex a i j [] p = tt
  Children-reindex a i j ((c, n) ∷ es) p = (
    record {
      parent_is = p.0.parent_is;
      index_is = refl;
      sized = record { size_is = p.0.size_is; is = p.0.is };
    },
    Children-reindex a (suc i) (suc j) es p.1,
  )

  pub Children-take :
      (a : Ptr) (k : ℕ) (es : List (Entry C))
      → Children P weight a 0 es
      → Children P weight a 0 (take k es)
  Children-take a k es p =
      Children-append_left a 0 (take k es) (drop k es) (rw (take-append-drop k es) p)

  pub Children-drop :
      (a : Ptr) (k : ℕ) (es : List (Entry C))
      → k ≤ length es
      → Children P weight a 0 es
      → Children P weight a k (drop k es)
  Children-drop a k es h p =
      rw (length_is) at
        (Children-append_right a 0 (take k es) (drop k es) (rw (take-append-drop k es) p))
    where
      length_is : 0 + length (take k es) ≡ k
      length_is = omega (arith, length-take k es)

module _ {ℓ κ} {C : Type ℓ} {X : Type κ} (P : Ptr → C → Type 0) (L : Ptr → C → List X)
    (weight : List X → ℕ) (additive : (xs ys : List X) → weight (xs ++ ys) ≡ weight xs + weight ys)
    (empty : weight [] ≡ 0) where
  -- The sizes add up to the weight of all that is below the node.
  pub sum-live_sizes :
      (a : Ptr) (i : ℕ) (es : List (Entry C))
      → Children P (λ b c. weight (L b c)) a i es
      → sum (live_sizes es) ≡ weight (concat_with L es)
  sum-live_sizes a i [] p = sym empty
  sum-live_sizes a i ((c, n) ∷ es) p = omega (
    arith,
    p.0.size_is,
    additive (L c.addr c.body) (concat_with L es),
    sum-live_sizes a (suc i) es p.1,
  )
