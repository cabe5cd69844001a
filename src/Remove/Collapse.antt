-- ===== src/Remove/Collapse.antt =====
-- The end of `remove`: a root with one child gives way to that child. A node without children is
-- destroyed without a panic.
use btree_vec.Common.{
  ℕ, zero, suc, ◌/◌, ◌≤◌, ◌≡◌, refl, sym, ap, ◌∙◌, inl, inr, none, List, [], ◌∷◌, ok, Returns,
  returned, arith, length, append-nil, eq→==, ne→==, eq_or_ne,
}
use btree_vec.Node.{Allocator}
use btree_vec.Node.Internal.{Entry, reindex}
use btree_vec.Tree.{Body, Tree, Above, top, under}
use btree_vec.Tree.Valid.{leaves, tree_weight, node_length, IsTree, IsSubtree, IsRoot, root_leaves}
use btree_vec.Tree.Unplug.{Children-from}
use btree_vec.Tree.Destroy.{destroy, destroy_children}
use btree_vec.Remove.{collapse}
use btree_vec.Remove.AtInternal.{taken, rest, leaves-whole}

module _ {ℓ} (A : Type ℓ) (al : Allocator) where
  pub destroy-nil :
      (h : ℕ) (c : Tree A h) (s : al.State)
      → c.prefix.parent ≡ none
      → node_length A h c.body ≡ 0
      → destroy A al h c s ≡ ok (al.deallocate c.addr s)
  unfolding destroy destroy_children
  destroy-nil zero c s e z = rw e
  destroy-nil (suc h) c s e z = rw (e, no_children c.body.children z)
    where
      no_children :
          (es : List (Entry (Body A h)))
          → length es ≡ 0
          → destroy_children al (destroy A al h) es s ≡ ok s
      no_children [] z = refl
      no_children (e ∷ es) z = absurd (omega arith)

-- While a removal is under way, the root may have one child.
abbrev pub near_length {ℓ} : {A : Type ℓ} (B : ℕ) {h : ℕ} → Above A h → ℕ
near_length B (top {h = zero}) = 0
near_length B (top {h = suc h}) = 1
near_length B (under f k) = B / 2

module _ {ℓ} (A : Type ℓ) (B : ℕ) (al : Allocator) (big : 4 ≤ B) where
  only_child :
      (h : ℕ) (c : Tree A h)
      → c.prefix.parent ≡ none
      → c.prefix.index ≡ 0
      → IsSubtree A B h c.addr c.body
      → IsRoot B (record { height = h; node = c })
  only_child zero c e i v = record { parent_is = e; index_is = i; tree = v.0; long = omega arith }
  only_child (suc h) c e i v = record {
    parent_is = e;
    index_is = i;
    tree = v.0;
    long = omega (arith, v.1);
  }

  pub collapse_lem :
      (h : ℕ) (c : Tree A h) (s : al.State)
      → c.prefix.parent ≡ none
      → c.prefix.index ≡ 0
      → IsTree A B h c.addr c.body
      → near_length {A = A} B (top {h = h}) ≤ node_length A h c.body
      → Returns
          (λ r. IsRoot B r.0 × (root_leaves r.0 ≡ leaves A h c.addr c.body))
          (collapse A B al h c s)
  unfolding collapse reindex
  collapse_lem zero c s e i v long =
      returned (record { parent_is = e; index_is = i; tree = v; long = omega arith }, refl)
  collapse_lem (suc h) c s e i v long = elim (eq_or_ne (length c.body.children) 1) [
    | inl one ↦ single c.body.children refl one
    | inr more ↦
        rw (ne→== more)
          (returned (record { parent_is = e; index_is = i; tree = v; long = omega arith }, refl))
  ]
    where
      single :
          (es : List (Entry (Body A h)))
          → c.body.children ≡ es
          → length c.body.children ≡ 1
          → Returns
              (λ r. IsRoot B r.0 × (root_leaves r.0 ≡ leaves A (suc h) c.addr c.body))
              (collapse A B al (suc h) c s)
      single [] p one = absurd (omega (arith, ap length p))
      single (x ∷ (y ∷ es)) p one = absurd (omega (arith, ap length p))
      single ((d, m) ∷ []) p one =
          rw
            (
              eq→== one,
              taken A B al h c [] d m [] p,
              destroy-nil A al (suc h) (rest A B al h c [] d m [] p) s e refl,
            )
            (returned (
              only_child h _ refl refl
                  (Children-from B (IsSubtree A B h) (tree_weight A h) c [] d m [] p v).0.is,
              sym (leaves-whole A B al h c [] d m [] p ∙ append-nil (leaves A h d.addr d.body)),
            ))
