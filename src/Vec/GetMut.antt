-- ===== src/Vec/GetMut.antt =====
-- Mutable references to items: `get_mut`, `first_mut`, `last_mut` and `index_mut` of src/lib.rs.
use btree_vec.Common.{
  ℕ, ◌+◌, ◌-◌, ◌≤◌, ◌<◌, ◌≡◌, refl, sym, ap, ap₂, subst, ◌∙◌, Option, none, some, List, ok, err,
  Error, Returns, returned, Returns-bind, arith, length, get_elem?, set, get_elem?-some, length-set,
  lt→ltb, le→ltb, eq→==, ne→==, append-nil,
}
use btree_vec.Node.{Allocator}
use btree_vec.Node.Leaf.{Leaf}
use btree_vec.Tree.{Root, Above}
use btree_vec.Tree.Chain.{IsChain}
use btree_vec.Tree.Position.{leaves_around}
use btree_vec.Tree.Items.{get_elem?-around, write_lem}
use btree_vec.Tree.Valid.{weight, items, leaves_before, IsRoot, root_leaves}
use btree_vec.Vec.{
  BTreeVec, MutRef, index_children_mut, unwrap_root, get_mut, first_mut, last_mut, index_mut,
}
use btree_vec.Vec.Get.{Found, leaf_for_root}
use btree_vec.Vec.Valid.{contents, IsVec, root_items, IsRootOption}

module _ {ℓ} {A : Type ℓ} (B : ℕ) where
  -- `m` refers to the item at the index `i` of the list `xs`, which `owner` has.
  pub record RefersTo {O : Type ℓ} (holds : O → List A → Type ℓ) (xs : List A) (i : ℕ)
      (m : MutRef A O) : Type ℓ where
    pub item_is : get_elem? xs i ≡ some m.item
    pub written : (y : A) → holds (m.write y) (set xs i y)

  abbrev pub RootHolds : Root A → List A → Type ℓ
  RootHolds r xs = IsRoot B r × IsChain (root_leaves r) × (items (root_leaves r) ≡ xs)

  module _ (big : 3 ≤ B) (r : Root A) (v : IsRoot B r) (chain : IsChain (root_leaves r)) (i : ℕ)
      (x : Leaf A × ℕ × Above A 0) (f : Found B big r v i x)
      (h : i < length (items (root_leaves r))) where
    index_children_mut_lem :
        Returns (RefersTo RootHolds (items (root_leaves r)) i) (index_children_mut x.0 x.2 x.1)
    unfolding index_children_mut weight
    index_children_mut_lem =
        let inside : x.1 < length x.0.body.children = f.strictly h in
        let (item, e) = get_elem?-some x.0.body.children x.1 inside in
        rw (e, index_children_mut)
          (returned (record {
            item_is = ap₂ get_elem? whole place ∙ get_elem?-around x.0 x.2 x.1 inside ∙ e;
            written = λ y.
                let (root, chain', same) =
                  write_lem x.0 x.2 B (length (items (root_leaves r))) x.1 y inside
                    (record { below = f.below; above = f.above })
                    (subst IsChain (sym (f.same_leaves ∙ append-nil (root_leaves r))) chain) in
                (root, chain', same ∙ sym (ap₂ (λ zs j. set zs j y) whole place));
          }))
      where
        whole : items (root_leaves r) ≡ items (leaves_around 0 x.0 x.2)
        whole = ap items (sym (f.same_leaves ∙ append-nil (root_leaves r)))

        place : i ≡ weight (leaves_before x.2) + x.1
        place = omega (arith, f.same_item)

module _ {ℓ} {A : Type ℓ} {al : Allocator} (B : ℕ) where
  abbrev pub VecHolds : BTreeVec al A → List A → Type ℓ
  VecHolds v xs = IsVec B v × (contents v ≡ xs)

  -- On a well-formed vector, `get_mut` returns a reference to the item at the index, and `None` past
  -- the end. A write through the reference replaces that item alone and leaves a well-formed vector.
  pub get_mut_lem :
      (v : BTreeVec al A) (i : ℕ)
      → IsVec B v
      → (i < length (contents v)
          → Returns
              (λ o.
                (m : MutRef A (BTreeVec al A)) × (o ≡ some m)
                × RefersTo B VecHolds (contents v) i m)
              (get_mut v i))
        × (length (contents v) ≤ i → get_mut v i ≡ ok none)
  unfolding get_mut unwrap_root
  get_mut_lem v i valid = (
    λ h. go v.root valid.root_is valid.size_is h,
    λ h. rw (le→ltb {a = i} {b = v.size} (omega (arith, valid.size_is))),
  )
    where
      go :
          (root : Option (Root A))
          → IsRootOption B root
          → v.size ≡ length (root_items root)
          → i < length (root_items root)
          → Returns
              (λ o.
                (m : MutRef A (BTreeVec al A)) × (o ≡ some m)
                × RefersTo B VecHolds (root_items root) i m)
              (get_mut (record v { root = root }) i)
      go none r e h = absurd (omega arith)
      go (some r) t e h = rw (lt→ltb {a = i} {b = v.size} (omega (arith, e))) (
          Returns-bind _ (leaf_for_root B valid.branching r t.0 i (omega arith)) λ x f.
            Returns-bind _ (index_children_mut_lem B valid.branching r t.0 t.1 i x f h) λ m w.
              returned (
                record { item = m.item; write = λ y. record v { root = some (m.write y) } },
                refl,
                record {
                  item_is = w.item_is;
                  written = λ y. (
                    record {
                      branching = valid.branching;
                      root_is = ((w.written y).0, (w.written y).1);
                      size_is =
                          e
                          ∙ sym (length-set (items (root_leaves r)) i y)
                          ∙ ap length (sym (w.written y).2);
                    },
                    (w.written y).2,
                  );
                },
              ))

  -- On a well-formed vector that is not empty, `first_mut` and `last_mut` return references to its
  -- first and last item; on the empty vector they return `None`.
  pub first_mut-last_mut :
      (v : BTreeVec al A)
      → IsVec B v
      → (0 < length (contents v)
          → Returns
              (λ o.
                (m : MutRef A (BTreeVec al A)) × (o ≡ some m)
                × RefersTo B VecHolds (contents v) 0 m)
              (first_mut v)
            × Returns
                (λ o.
                  (m : MutRef A (BTreeVec al A)) × (o ≡ some m)
                  × RefersTo B VecHolds (contents v) (length (contents v) - 1) m)
                (last_mut v))
        × (length (contents v) ≡ 0 → (first_mut v ≡ ok none) × (last_mut v ≡ ok none))
  unfolding first_mut last_mut
  first_mut-last_mut v valid = (
    λ h. (
      (get_mut_lem v 0 valid).0 h,
      rw (ne→== {a = v.size} {b = 0} (λ e. absurd (omega (arith, valid.size_is)))) (
          subst
            (λ n.
              Returns
                (λ o.
                  (m : MutRef A (BTreeVec al A)) × (o ≡ some m)
                  × RefersTo B VecHolds (contents v) (length (contents v) - 1) m)
                (get_mut v (n - 1)))
            (sym valid.size_is) ((get_mut_lem v (length (contents v) - 1) valid).0 (omega arith))),
    ),
    λ h. (
      (get_mut_lem v 0 valid).1 (omega arith),
      rw (eq→== {a = v.size} {b = 0} (omega (arith, valid.size_is))),
    ),
  )

  -- On a well-formed vector, `v[i]` as a place is a reference to the item at the index, and panics
  -- exactly where there is none.
  pub index_mut_lem :
      (v : BTreeVec al A) (i : ℕ)
      → IsVec B v
      → (i < length (contents v) → Returns (RefersTo B VecHolds (contents v) i) (index_mut v i))
        × (length (contents v) ≤ i → index_mut v i ≡ err Error.panic)
  unfolding index_mut
  index_mut_lem v i valid = (
    λ h. Returns-bind _ ((get_mut_lem v i valid).0 h) λ o w. rw (w.1) (returned w.2),
    λ h. rw ((get_mut_lem v i valid).1 h),
  )
