-- ===== src/IntoIter/Fertile.antt =====
-- What is left of a well-formed tree when its leaves are emptied: every internal node has a child.
use btree_vec.Common.{
  ℕ, zero, suc, ◌≤◌, ◌<◌, ◌≡◌, sym, ap, subst, ◌∙◌, none, List, [], ◌∷◌, ◌++◌, arith, length,
  length-append,
}
use btree_vec.Node.{Ptr, Cell}
use btree_vec.Node.Internal.{Entry}
use btree_vec.Node.Internal.Children.{concat_with, Children}
use btree_vec.Tree.{Body, Tree, Frame, Above, top, under, plug, frame, rebuild}
use btree_vec.Tree.Unplug.{as_plug}
use btree_vec.Tree.Valid.{LeafView, leaves, leaves_after, IsSubtree, IsAbove, tree_weight}
use btree_vec.Tree.Position.{IsAt, rebuild_lem}
use btree_vec.Iter.NextLeaf.{Walk}

abbrev pub AllOf {ℓ} : {C : Type ℓ} → (Ptr → C → Type 0) → List (Entry C) → Type 0
AllOf P [] = Unit
AllOf P ((c, n) ∷ es) = P c.addr c.body × AllOf P es

module _ {ℓ} {C : Type ℓ} (P : Ptr → C → Type 0) where
  AllOf-append : (es fs : List (Entry C)) → AllOf P es → AllOf P fs → AllOf P (es ++ fs)
  AllOf-append [] fs p q = q
  AllOf-append ((c, n) ∷ es) fs p q = (p.0, AllOf-append es fs p.1 q)

  AllOf-split : (es fs : List (Entry C)) → AllOf P (es ++ fs) → AllOf P es × AllOf P fs
  AllOf-split [] fs p = (tt, p)
  AllOf-split ((c, n) ∷ es) fs p = let (q, r) = AllOf-split es fs p.1 in ((p.0, q), r)

-- A node that has a child, if it is internal, and so have those below it.
abbrev pub IsFertile {ℓ} : (A : Type ℓ) (h : ℕ) → Ptr → Body A h → Type 0
IsFertile A zero a b = Unit
IsFertile A (suc h) a b = (0 < length b.children) × AllOf (IsFertile A h) b.children

module _ {ℓ} {A : Type ℓ} where
  abbrev pub AboveFertile : {h : ℕ} → Above A h → Type 0
  AboveFertile top = Unit
  AboveFertile (under {h = h} f k) =
      AllOf (IsFertile A h) f.body.before × AllOf (IsFertile A h) f.body.after × AboveFertile k

  -- A node in such a tree, whose root has no parent.
  pub record IsWalked (h : ℕ) (c : Tree A h) (k : Above A h) : Type 0 where
    pub fertile : IsFertile A h c.addr c.body
    pub above : AboveFertile k
    pub no_parent : (rebuild c k).node.prefix.parent ≡ none

  pub up_walk :
      (h : ℕ) (c : Tree A h) (f : Cell (Frame (Body A h))) (k : Above A (suc h))
      → IsWalked h c (under f k)
      → IsWalked (suc h) (plug f c) k
  unfolding rebuild
  up_walk h c f k v = record {
    fertile = (
      omega (arith, length-append f.body.before ((c, f.body.hole) ∷ f.body.after)),
      AllOf-append (IsFertile A h) f.body.before ((c, f.body.hole) ∷ f.body.after) v.above.0
          (v.fertile, v.above.1),
    );
    above = v.above.2;
    no_parent = v.no_parent;
  }

  pub down_walk :
      (h : ℕ) (c : Tree A (suc h)) (k : Above A (suc h)) (before : List (Entry (Body A h)))
      (d : Tree A h) (m : ℕ) (after : List (Entry (Body A h)))
      → c.body.children ≡ before ++ ((d, m) ∷ after)
      → IsWalked (suc h) c k
      → IsWalked h d (under (frame c before m after) k)
  unfolding rebuild
  down_walk h c k before d m after e v =
      let (p, (q, r)) =
        AllOf-split (IsFertile A h) before ((d, m) ∷ after)
          (subst (AllOf (IsFertile A h)) e v.fertile.1) in
      record {
        fertile = q;
        above = (p, r, v.above);
        no_parent =
            ap (λ x. (rebuild x k).node.prefix.parent) (sym (as_plug c before d m after e))
            ∙ v.no_parent;
      }

-- Such a tree may be walked along.
abbrev pub fertile_walk {ℓ} : (A : Type ℓ) → Walk A
fertile_walk A = record {
  IsPlace = IsWalked {A = A};
  up = up_walk;
  down = down_walk;
  has_child = λ h c k v. v.fertile.0;
}

-- Leaves that have items.
abbrev pub AllFilled {ℓ} : {A : Type ℓ} → List (LeafView A) → Type 0
AllFilled [] = Unit
AllFilled ((a, b) ∷ vs) = (0 < length b.children) × AllFilled vs

AllFilled-append {ℓ} :
    {A : Type ℓ} (us vs : List (LeafView A)) → AllFilled us → AllFilled vs → AllFilled (us ++ vs)
AllFilled-append [] vs p q = q
AllFilled-append ((a, b) ∷ us) vs p q = (p.0, AllFilled-append us vs p.1 q)

module _ {ℓ} (A : Type ℓ) (B : ℕ) (big : 3 ≤ B) where
  -- A subtree is fertile, and its leaves are filled.
  abbrev IsFull : (h : ℕ) → Ptr → Body A h → Type 0
  IsFull h a b = IsFertile A h a b × AllFilled (leaves A h a b)

  children_lem :
      (h : ℕ)
      → ((a : Ptr) (b : Body A h) → IsSubtree A B h a b → IsFull h a b)
      → (a : Ptr) (i : ℕ) (es : List (Entry (Body A h)))
      → Children (IsSubtree A B h) (tree_weight A h) a i es
      → AllOf (IsFertile A h) es × AllFilled (concat_with (leaves A h) es)
  children_lem h ih a i [] v = (tt, tt)
  children_lem h ih a i ((c, n) ∷ es) v =
      let (p, q) = ih c.addr c.body v.0.sized.is in
      let (ps, qs) = children_lem h ih a (suc i) es v.1 in
      ((p, ps), AllFilled-append (leaves A h c.addr c.body) (concat_with (leaves A h) es) q qs)

  subtree_lem : (h : ℕ) (a : Ptr) (b : Body A h) → IsSubtree A B h a b → IsFull h a b
  subtree_lem zero a b v = (tt, (omega (arith, v.1), tt))
  subtree_lem (suc h) a b v =
      let (p, q) = children_lem h (subtree_lem h) a 0 b.children v.0.children_are in
      ((omega (arith, v.1), p), q)

  above_lem :
      (total : ℕ) {h : ℕ} (k : Above A h) (n : ℕ)
      → IsAbove B total k n
      → AboveFertile k × AllFilled (leaves_after k)
  above_lem total top n v = (tt, tt)
  above_lem total (under {h = h} f k) n v =
      let (p, p') = children_lem h (subtree_lem h) f.addr 0 f.body.before v.0.before_are in
      let (q, q') =
        children_lem h (subtree_lem h) f.addr (suc (length f.body.before)) f.body.after
          v.0.after_are in
      let (r, r') = above_lem total k _ v.5 in
      ((p, q, r), AllFilled-append (concat_with (leaves A h) f.body.after) (leaves_after k) q' r')

  -- A leaf of a well-formed tree is such a node, and the leaves after it have items.
  pub IsAt-IsWalked :
      (total : ℕ) (c : Tree A 0) (k : Above A 0)
      → IsAt B total 0 c k
      → IsWalked 0 c k × AllFilled (leaves_after k)
  IsAt-IsWalked total c k v =
      let (p, q) = above_lem total k _ v.above in
      (record { fertile = tt; above = p; no_parent = (rebuild_lem B total 0 c k v).0.parent_is }, q)
