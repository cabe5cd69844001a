-- ===== src/Node/Internal/Inserting.antt =====
-- `simple_insert` of an internal node.
use btree_vec.Common.{
  ℕ, suc, ◌+◌, ◌≤◌, ◌<◌, ◌≡◌, refl, ap, ◌∙◌, some, List, [], ◌∷◌, ◌++◌, ok, arith, length, take,
  drop, length-append, length-take, length-drop, sum, lt→ltb, le→leb,
}
use btree_vec.Node.{Ptr, set_prefix}
use btree_vec.Node.Internal.{Internal, InternalBody, Entry, reindex, inserted, simple_insert}
use btree_vec.Node.Internal.Children.{
  Children, IsSized, concat_with, concat_with-append, concat_with-reindex, length-reindex,
  Children-append, Children-take, Children-drop, Children-reindex,
}

-- The two arrays have `B` places, and the children know where they are.
pub record IsNode {ℓ} {C : Type ℓ} (B : ℕ) (P : Ptr → C → Type 0) (weight : Ptr → C → ℕ) (a : Ptr)
    (b : InternalBody C) : Type 0 where
  pub capacity : length b.children + length b.spare ≡ B
  pub children_are : Children P weight a 0 b.children

module _ {ℓ} {C : Type ℓ} (B : ℕ) (n : Internal C) (i : ℕ) (item : Entry C) where
  pub simple_insert_lem :
      length n.body.children < B
      → i ≤ length n.body.children
      → simple_insert B n i item ≡ ok (inserted B n i item)
  unfolding simple_insert
  simple_insert_lem room h = rw (lt→ltb room, le→leb h)

  pub length-inserted :
      i ≤ length n.body.children
      → length (inserted B n i item).body.children ≡ suc (length n.body.children)
  length-inserted h = omega (
    arith,
    length-append (take i n.body.children)
        ((set_prefix (some n.addr) i item.0, item.1) ∷ reindex (suc i) (drop i n.body.children)),
    length-take i n.body.children,
    length-drop i n.body.children,
    length-reindex (suc i) (drop i n.body.children),
  )

  -- What stands below the node: the new child's part comes in at its place.
  pub concat_with-inserted {κ} :
      {X : Type κ} (L : Ptr → C → List X)
      → concat_with L (inserted B n i item).body.children
        ≡ concat_with L (take i n.body.children)
          ++ (L item.0.addr item.0.body ++ concat_with L (drop i n.body.children))
  concat_with-inserted L =
      concat_with-append L (take i n.body.children) _
      ∙ ap (λ xs. concat_with L (take i n.body.children) ++ (L item.0.addr item.0.body ++ xs))
          (concat_with-reindex L (suc i) (drop i n.body.children))

  pub inserted-IsNode :
      (P : Ptr → C → Type 0) (weight : Ptr → C → ℕ)
      → IsNode B P weight n.addr n.body
      → length n.body.children < B
      → i ≤ length n.body.children
      → IsSized P weight item.0 item.1
      → IsNode B P weight (inserted B n i item).addr (inserted B n i item).body
  inserted-IsNode P weight v room h s = record {
    capacity = omega (arith, length-inserted h, v.capacity, length-drop 1 n.body.spare);
    children_are =
        Children-append P weight n.addr 0 (take i n.body.children) _
          (Children-take P weight n.addr i n.body.children v.children_are)
          (rw (start) (
            record {
              parent_is = refl;
              index_is = refl;
              sized = record { size_is = s.size_is; is = s.is };
            },
            Children-reindex P weight n.addr i (suc i) (drop i n.body.children)
                (Children-drop P weight n.addr i n.body.children h v.children_are),
          ));
  }
    where
      start : 0 + length (take i n.body.children) ≡ i
      start = omega (arith, length-take i n.body.children)

-- Where nothing but zeros stands after the live sizes, this stays so.
pub sum-drop_zero : (xs : List ℕ) → sum xs ≡ 0 → sum (drop 1 xs) ≡ 0
sum-drop_zero [] h = refl
sum-drop_zero (x ∷ xs) h = omega arith
