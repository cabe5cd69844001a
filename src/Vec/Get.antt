-- ===== src/Vec/Get.antt =====
-- Reading a vector: `get`, `first`, `last` and the index operator of src/lib.rs.
use btree_vec.Common.{
  ℕ, ◌+◌, ◌-◌, ◌≤◌, ◌<◌, ◌≡◌, refl, sym, ap, ◌∙◌, inl, inr, Option, none, some, ◌∷◌, ◌++◌, ok, err,
  Error, Returns, Returns-eq, arith, length, get_elem?, get_elem?-append_right,
  get_elem?-append_left, get_elem?-some, get_elem?-none, lt→ltb, le→ltb, le_or_lt, eq→==, ne→==,
  eq_or_ne, append-nil,
}
use btree_vec.Node.{Allocator}
use btree_vec.Node.Leaf.{Leaf}
use btree_vec.Tree.{Root, Above, top, leaf_for}
use btree_vec.Tree.Valid.{
  items, items-append, weight, leaves_before, leaves_after, IsRoot, root_leaves,
}
use btree_vec.Tree.Descent.{IsLeafFor, leaf_for-IsLeafFor}
use btree_vec.Vec.{BTreeVec, get, first, last, index, index_children}
use btree_vec.Vec.Valid.{contents, IsVec, root_items}

module _ {ℓ} {A : Type ℓ} (B : ℕ) (big : 3 ≤ B) (r : Root A) (v : IsRoot B r) (i : ℕ) where
  abbrev pub Found : Leaf A × ℕ × Above A 0 → Type ℓ
  Found = IsLeafFor A B (length (items (root_leaves r))) r.height r.node top i

  -- The leaf for an index up to the number of items.
  pub leaf_for_root :
      i ≤ length (items (root_leaves r)) → Returns Found (leaf_for r.height r.node top i)
  unfolding weight
  leaf_for_root h =
      leaf_for-IsLeafFor A B (length (items (root_leaves r))) big r.height r.node top i v refl h

  pub leaf_items :
      (x : Leaf A × ℕ × Above A 0)
      → Found x
      → items (root_leaves r)
        ≡ items (leaves_before x.2) ++ (x.0.body.children ++ items (leaves_after x.2))
  leaf_items x f =
      ap items (sym (append-nil (root_leaves r)) ∙ sym f.same_leaves)
      ∙ items-append (leaves_before x.2) ((x.0.addr, x.0.body) ∷ leaves_after x.2)

  pub leaf_index :
      (x : Leaf A × ℕ × Above A 0) → Found x → i ≡ length (items (leaves_before x.2)) + x.1
  unfolding weight
  leaf_index x f = omega (arith, f.same_item)

  get_leaf :
      (x : Leaf A × ℕ × Above A 0)
      → i < length (items (root_leaves r))
      → Found x
      → index_children x.0.body.children x.1 ≡ ok (get_elem? (items (root_leaves r)) i)
  unfolding index_children weight
  get_leaf x h f =
      let inside : x.1 < length x.0.body.children = f.strictly h in
      let (item, e) = get_elem?-some x.0.body.children x.1 inside in
      rw (e, index_children)
        (ap ok (
          sym (
            ap (λ xs. get_elem? xs i) (leaf_items x f)
            ∙ ap (get_elem? _) (leaf_index x f)
            ∙ get_elem?-append_right (items (leaves_before x.2)) _ x.1
            ∙ get_elem?-append_left x.0.body.children (items (leaves_after x.2)) x.1 inside
            ∙ e)))

module _ {ℓ} {A : Type ℓ} {al : Allocator} (B : ℕ) where
  get_root :
      (root : Option (Root A)) (size : ℕ) (s : al.State) (i : ℕ)
      → IsVec {al = al} B (record { root = root; size = size; alloc = s })
      → i < size
      → get {al = al} (record { root = root; size = size; alloc = s }) i
        ≡ ok (get_elem? (root_items root) i)
  unfolding get
  get_root none size s i v h = absurd (omega (arith, v.size_is))
  get_root (some r) size s i v h =
      let (x, e, f) =
        Returns-eq (leaf_for_root B v.branching r v.root_is.0 i (omega (arith, v.size_is))) in
      rw (lt→ltb h, e) (get_leaf B v.branching r v.root_is.0 i x (omega (arith, v.size_is)) f)

  -- On a well-formed vector, `get` returns the item at the index, and `None` past the end; it never panics.
  pub get_lem : (v : BTreeVec al A) (i : ℕ) → IsVec B v → get v i ≡ ok (get_elem? (contents v) i)
  unfolding get
  get_lem v i valid = elim (le_or_lt v.size i) [
    | inl past ↦ rw (le→ltb past, get_elem?-none (contents v) i (omega (arith, valid.size_is)))
    | inr inside ↦ get_root v.root v.size v.alloc i valid inside
  ]

  -- On a well-formed vector, `first` and `last` return the ends of the list, and `None` on the empty
  -- vector.
  pub first-last :
      (v : BTreeVec al A)
      → IsVec B v
      → (first v ≡ ok (get_elem? (contents v) 0))
        × (last v ≡ ok (get_elem? (contents v) (length (contents v) - 1)))
  unfolding first last
  first-last v valid = (
    get_lem v 0 valid,
    elim (eq_or_ne v.size 0) [
      | inl empty ↦ rw (
        eq→== empty,
        get_elem?-none (contents v) (length (contents v) - 1) (omega (arith, valid.size_is)),
      )
      | inr more ↦ rw (ne→== more) (
          get_lem v (v.size - 1) valid
          ∙ ap (λ n. ok (get_elem? (contents v) (n - 1))) valid.size_is)
    ],
  )

  -- On a well-formed vector, `v[i]` is the item at the index, and panics exactly where there is none.
  pub index_lem :
      (v : BTreeVec al A) (i : ℕ)
      → IsVec B v
      → ((item : A) → (get_elem? (contents v) i ≡ some item) → index v i ≡ ok item)
        × (length (contents v) ≤ i → index v i ≡ err Error.panic)
  unfolding index
  index_lem v i valid = (
    λ item e. rw (get_lem v i valid, e),
    λ past. rw (get_lem v i valid, get_elem?-none (contents v) i past),
  )
