-- ===== src/Memory/Walking.antt =====
-- `into_next`: the leaf that follows is in the same tree.
use btree_vec.Common.{
  IfOk-if, ℕ, zero, suc, ◌+◌, ◌≡◌, refl, ap, ◌∙◌, Option, none, some, List, [], ◌∷◌, ◌++◌, IfOk,
  if_ok, if_err, arith, ◌==◌,
}
use btree_vec.Node.{Ptr, Cell}
use btree_vec.Node.Leaf.{Leaf}
use btree_vec.Node.Internal.{Entry}
use btree_vec.Node.Internal.Children.{concat_with}
use btree_vec.Tree.{Body, Tree, Frame, Above, top, under, plug, frame, rebuild}
use btree_vec.Iter.{LeafRef, first_leaf, first_beside, leaf_after, deref_next, follow, into_next}
use btree_vec.Vec.Dropping.{node_addrs}
use btree_vec.Memory.{below, above}
use btree_vec.Memory.Ancestors.{above-under, plug-below}
use btree_vec.Memory.Blocks.{count-append}
use btree_vec.Memory.Nodes.{kids, kids-append, below-kids}

module _ {ℓ} {A : Type ℓ} where
  pub rebuild-below :
      {h : ℕ} (c : Tree A h) (k : Above A h) (p : Ptr)
      → below A (rebuild c k).height (rebuild c k).node p ≡ below A h c p + above k p
  unfolding rebuild
  rebuild-below c top p = omega arith
  rebuild-below c (under f k) p = omega (arith, rebuild-below (plug f c) k p, plug-below c f k p)

  -- A leaf, if there is one, is in a tree with these nodes.
  abbrev pub IsIn : (Ptr → ℕ) → Option (LeafRef A) → Type 0
  IsIn nodes none = Unit
  IsIn nodes (some (c, k)) = (p : Ptr) → below A 0 c p + above k p ≡ nodes p

  pub IsIn-eq :
      {f g : Ptr → ℕ} (o : Option (LeafRef A)) → IsIn f o → ((p : Ptr) → f p ≡ g p) → IsIn g o
  IsIn-eq none i e = tt
  IsIn-eq (some (c, k)) i e = λ p. i p ∙ e p

  first_leaf-IsIn :
      (h : ℕ) (c : Tree A h) (k : Above A h)
      → IsIn (λ p. below A h c p + above k p) (first_leaf h c k)
  unfolding first_leaf
  first_leaf-IsIn zero c k = λ p. refl
  first_leaf-IsIn (suc h) c k = go (first_leaf-IsIn h) c.body.children refl
    where
      go :
          ((d : Tree A h) (k : Above A h)
            → IsIn (λ p. below A h d p + above k p) (first_leaf h d k))
          → (es : List (Entry (Body A h))) → c.body.children ≡ es
          → IsIn
              (λ p. below A (suc h) c p + above k p)
              (elim es [ [] ↦ none | e ∷ es ↦ first_leaf h e.0 (under (frame c [] e.1 es) k) ])
      go ih [] e = tt
      go ih (x ∷ es) e =
          IsIn-eq (first_leaf h x.0 (under (frame c [] x.1 es) k))
            (ih x.0 (under (frame c [] x.1 es) k))
            λ p. omega (
              arith,
              above-under (frame c [] x.1 es) k p,
              below-kids A h c p,
              ap (λ fs. kids (node_addrs A h) fs p) e,
              count-append p (node_addrs A h x.0.addr x.0.body) (concat_with (node_addrs A h) es),
            )

  first_beside-IsIn :
      (h : ℕ) (c : Tree A h) (f : Cell (Frame (Body A h))) (k : Above A (suc h))
      (es : List (Entry (Body A h))) (otherwise : Option (LeafRef A))
      → f.body.after ≡ es
      → IsIn (λ p. below A h c p + above (under f k) p) otherwise
      → IsIn (λ p. below A h c p + above (under f k) p) (first_beside h c f k es otherwise)
  unfolding first_beside
  first_beside-IsIn h c f k [] otherwise e i = i
  first_beside-IsIn h c f k (x ∷ es) otherwise e i =
      let g = frame (plug f c) (f.body.before ++ ((c, f.body.hole) ∷ [])) x.1 es in
      IsIn-eq (first_leaf h x.0 (under g k)) (first_leaf-IsIn h x.0 (under g k)) λ p. omega (
        arith,
        above-under g k p,
        above-under f k p,
        kids-append (node_addrs A h) f.body.before ((c, f.body.hole) ∷ []) p,
        count-append p (node_addrs A h c.addr c.body) [],
        ap (λ fs. kids (node_addrs A h) fs p) e,
        count-append p (node_addrs A h x.0.addr x.0.body) (concat_with (node_addrs A h) es),
      )

  leaf_after-IsIn :
      {h : ℕ} (c : Tree A h) (k : Above A h)
      → IsIn (λ p. below A h c p + above k p) (leaf_after c k)
  unfolding leaf_after
  leaf_after-IsIn c top = tt
  leaf_after-IsIn {h} c (under f k) =
      first_beside-IsIn h c f k f.body.after (leaf_after (plug f c) k) refl
        (IsIn-eq (leaf_after (plug f c) k) (leaf_after-IsIn (plug f c) k) (λ p. plug-below c f k p))

  deref_next-IsIn :
      (q : Ptr) (nodes : Ptr → ℕ) (o : Option (LeafRef A))
      → IsIn nodes o
      → IfOk (IsIn nodes) (deref_next q o)
  unfolding deref_next
  deref_next-IsIn q nodes none i = if_err
  deref_next-IsIn q nodes (some m) i = IfOk-if (q == m.0.addr) (if_ok i) if_err

  follow-IsIn :
      (o : Option Ptr) (c : Leaf A) (k : Above A 0)
      → IfOk (IsIn (λ p. below A 0 c p + above k p)) (follow o (c, k))
  unfolding follow
  follow-IsIn none c k = if_ok tt
  follow-IsIn (some q) c k = deref_next-IsIn q _ (leaf_after c k) (leaf_after-IsIn c k)

  pub into_next-IsIn :
      (c : Leaf A) (k : Above A 0) → IfOk (IsIn (λ p. below A 0 c p + above k p)) (into_next (c, k))
  unfolding into_next
  into_next-IsIn c k = follow-IsIn c.body.next c k
