-- ===== src/Tree/Items.antt =====
-- The items of a leaf among those of the whole tree.
use btree_vec.Common.{
  ℕ, ◌+◌, ◌<◌, ◌≡◌, refl, sym, ap, subst, length-set, ◌∙◌, List, ◌∷◌, ◌++◌, arith, length,
  get_elem?, set, get_elem?-append_right, get_elem?-append_left, set-append_left, set-append_right,
  length-append,
}
use btree_vec.Node.Leaf.{Leaf, with_children}
use btree_vec.Tree.{Above, rebuild}
use btree_vec.Tree.Chain.{IsChain, IsChain-append_right, IsChain-replace}
use btree_vec.Tree.Position.{IsAt, leaves_around, refill-IsAt, rebuild_lem}
use btree_vec.Tree.Valid.{
  items, items-append, weight, leaves_before, leaves_after, IsRoot, root_leaves,
}

module _ {ℓ} {A : Type ℓ} (leaf : Leaf A) (k : Above A 0) where
  pub items-around :
      items (leaves_around 0 leaf k)
      ≡ items (leaves_before k) ++ (leaf.body.children ++ items (leaves_after k))
  items-around = items-append (leaves_before k) ((leaf.addr, leaf.body) ∷ leaves_after k)

  pub length-around :
      length (items (leaves_around 0 leaf k))
      ≡ weight (leaves_before k) + (length leaf.body.children + weight (leaves_after k))
  unfolding weight
  length-around = omega (
    arith,
    ap length items-around,
    length-append (items (leaves_before k)) (leaf.body.children ++ items (leaves_after k)),
    length-append leaf.body.children (items (leaves_after k)),
  )

  pub get_elem?-around :
      (i : ℕ)
      → i < length leaf.body.children
      → get_elem? (items (leaves_around 0 leaf k)) (weight (leaves_before k) + i)
        ≡ get_elem? leaf.body.children i
  unfolding weight
  get_elem?-around i h =
      ap (λ xs. get_elem? xs (length (items (leaves_before k)) + i)) items-around
      ∙ get_elem?-append_right (items (leaves_before k)) _ i
      ∙ get_elem?-append_left leaf.body.children (items (leaves_after k)) i h

  pub set-around :
      (i : ℕ) (y : A)
      → i < length leaf.body.children
      → items (leaves_around 0 (with_children (set leaf.body.children i y) leaf) k)
        ≡ set (items (leaves_around 0 leaf k)) (weight (leaves_before k) + i) y
  unfolding weight
  set-around i y h =
      items-append (leaves_before k) _
      ∙ ap (λ zs. items (leaves_before k) ++ zs)
          (sym (set-append_left leaf.body.children (items (leaves_after k)) i y h))
      ∙ sym (set-append_right (items (leaves_before k)) _ i y)
      ∙ sym (ap (λ xs. set xs (length (items (leaves_before k)) + i) y) items-around)

  -- A leaf with other items in place of as many leaves the tree and the chain as they are.
  pub refill_lem :
      (B total : ℕ) (xs : List A)
      → length xs ≡ length leaf.body.children
      → IsAt B total 0 leaf k
      → IsChain (leaves_around 0 leaf k)
      → IsAt B total 0 (with_children xs leaf) k
        × IsChain (leaves_around 0 (with_children xs leaf) k)
  refill_lem B total xs e v chain = (
    refill-IsAt B total leaf k xs e v,
    (let rest =
          IsChain-append_right (leaves_before k) ((leaf.addr, leaf.body) ∷ leaves_after k) chain in
        IsChain-replace (leaves_before k) ((leaf.addr, leaf.body) ∷ leaves_after k) _ chain refl
          (rest.0, rest.1)),
  )

  -- A write to an item of the leaf, seen from the whole tree.
  pub write_lem :
      (B total i : ℕ) (y : A)
      → i < length leaf.body.children
      → IsAt B total 0 leaf k
      → IsChain (leaves_around 0 leaf k)
      → let leaf' = with_children (set leaf.body.children i y) leaf in
        IsRoot B (rebuild leaf' k)
        × IsChain (root_leaves (rebuild leaf' k))
        × (items (root_leaves (rebuild leaf' k))
            ≡ set (items (leaves_around 0 leaf k)) (weight (leaves_before k) + i) y)
  write_lem B total i y inside v chain =
      let (at, chain') =
        refill_lem B total (set leaf.body.children i y) (length-set leaf.body.children i y) v
          chain in
      let (root, same) =
        rebuild_lem B total 0 (with_children (set leaf.body.children i y) leaf) k at in
      (root, subst IsChain (sym same) chain', ap items same ∙ set-around i y inside)
