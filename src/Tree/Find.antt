-- ===== src/Tree/Find.antt =====
-- One round of `leaf_for`: the search for the child that holds an index.
use btree_vec.Common.{
  ℕ, suc, ◌+◌, ◌-◌, ◌≤◌, ◌<◌, ◌≡◌, refl, ap, ◌∙◌, inl, inr, List, [], ◌∷◌, ◌++◌, Returns, returned,
  Returns-map, append-nil, append_assoc, arith, lt→ltb, le→ltb, le_or_lt,
}
use btree_vec.Node.{Ptr}
use btree_vec.Node.Internal.{Entry}
use btree_vec.Node.Internal.Children.{Children, concat_with, concat_with-append}
use btree_vec.Tree.{find_child}
use btree_vec.Tree.Valid.{LeafView, weight, weight-append}

module _ {ℓ} {C A : Type ℓ} (P : Ptr → C → Type 0) (L : Ptr → C → List (LeafView A)) where
  -- A child found among `es`, of which `before` has been passed over: nothing is left out, the
  -- index is that of the same item, and it lies inside of the child.
  pub record IsFound (before es : List (Entry C)) (index : ℕ)
      (r : List (Entry C) × Entry C × List (Entry C) × ℕ) : Type ℓ where
    pub parts : r.0 ++ (r.1 ∷ r.2) ≡ before ++ es
    pub same_item : weight (concat_with L r.0) + r.3 ≡ weight (concat_with L before) + index
    pub inside : r.3 ≤ weight (L r.1.0.addr r.1.0.body)
    pub strictly : index < weight (concat_with L es) → r.3 < weight (L r.1.0.addr r.1.0.body)

  pub find_child-IsFound :
      (a : Ptr) (i : ℕ) (before : List (Entry C)) (e : Entry C) (es : List (Entry C)) (index : ℕ)
      → Children P (λ b c. weight (L b c)) a i (e ∷ es)
      → index ≤ weight (concat_with L (e ∷ es))
      → Returns (IsFound before (e ∷ es) index) (find_child before (e ∷ es) index)
  unfolding find_child
  find_child-IsFound a i before e [] index v h = returned (record {
    parts = refl;
    same_item = refl;
    inside = rw append-nil at h;
    strictly = λ k. rw append-nil at k;
  })
  find_child-IsFound a i before e (e' ∷ es) index v h = elim (le_or_lt e.1 index) [
    | inl past ↦ rw (le→ltb past) (
        Returns-map
          (find_child-IsFound a (suc i) (before ++ (e ∷ [])) e' es (index - e.1) v.1 (
            omega
              (arith, weight-append (L e.0.addr e.0.body) (concat_with L (e' ∷ es)), v.0.size_is)))
          (λ r f. record {
            parts = f.parts ∙ append_assoc before (e ∷ []) (e' ∷ es);
            same_item = omega (
              arith,
              f.same_item,
              ap weight (concat_with-append L before (e ∷ [])),
              weight-append (concat_with L before) (L e.0.addr e.0.body ++ []),
              ap weight (append-nil (L e.0.addr e.0.body)),
              v.0.size_is,
            );
            inside = f.inside;
            strictly = λ k. f.strictly (
                omega (
                  arith,
                  weight-append (L e.0.addr e.0.body) (concat_with L (e' ∷ es)),
                  v.0.size_is,
                ));
          }))
    | inr here ↦ rw (lt→ltb here) (
        returned (record {
          parts = refl;
          same_item = refl;
          inside = omega (arith, v.0.size_is);
          strictly = λ k. omega (arith, v.0.size_is);
        }))
  ]
