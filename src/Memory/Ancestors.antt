-- ===== src/Memory/Ancestors.antt =====
-- The nodes above a node, and the steps up and down.
use btree_vec.Common.{
  IfOk-if, ℕ, zero, suc, ◌+◌, ◌-◌, ◌≡◌, refl, ap, ◌∙◌, Option, none, some, List, [], ◌∷◌, ◌++◌, ok,
  IfOk, if_ok, if_err, IfOk-bind, IfOk-map, arith, ltb, append_assoc, ◌==◌,
}
use btree_vec.Node.{Ptr, Cell}
use btree_vec.Node.Internal.{Entry}
use btree_vec.Node.Internal.Children.{concat_with}
use btree_vec.Tree.{
  Body, Tree, Frame, Above, top, under, plug, frame, into_parent, deref_parent, find_child,
  leaf_for,
}
use btree_vec.Tree.Valid.{parent_of, IsAbove}
use btree_vec.Memory.{single, below, above, above_addrs}
use btree_vec.Memory.Blocks.{count-append}
use btree_vec.Memory.Nodes.{kids, kids-append, below-kids}
use btree_vec.Vec.Dropping.{node_addrs}

find_child-parts {ℓ} :
    {C : Type ℓ} (before es : List (Entry C)) (i : ℕ)
    → IfOk (λ (b, e, a, j). b ++ (e ∷ a) ≡ before ++ es) (find_child before es i)
unfolding find_child
find_child-parts before [] i = if_err
find_child-parts before (e ∷ []) i = if_ok refl
find_child-parts before (e ∷ (e' ∷ es)) i = IfOk-if (ltb i e.1) (if_ok refl) (
    IfOk-map (find_child-parts (before ++ (e ∷ [])) (e' ∷ es) (i - e.1))
      λ r q. q ∙ append_assoc before (e ∷ []) (e' ∷ es))

module _ {ℓ} {A : Type ℓ} where
  -- Each of the nodes above has the address of the next in its prefix.
  abbrev pub AboveLinked : {h : ℕ} → Above A h → Type 0
  AboveLinked top = Unit
  AboveLinked (under f k) = (f.prefix.parent ≡ parent_of k) × AboveLinked k

  pub IsAbove-AboveLinked :
      (B total : ℕ) {h : ℕ} (k : Above A h) (n : ℕ) → IsAbove B total k n → AboveLinked k
  IsAbove-AboveLinked B total top n v = tt
  IsAbove-AboveLinked B total (under f k) n v = (v.2, IsAbove-AboveLinked B total k _ v.5)

  pub above-under :
      {h : ℕ} (f : Cell (Frame (Body A h))) (k : Above A (suc h)) (p : Ptr)
      → above (under f k) p
        ≡ kids (node_addrs A h) f.body.before p
          + (kids (node_addrs A h) f.body.after p + (single p f.addr + above k p))
  above-under {h} f k p = omega (
    arith,
    count-append p (concat_with (node_addrs A h) f.body.before)
        (concat_with (node_addrs A h) f.body.after ++ (f.addr ∷ above_addrs k)),
    count-append p (concat_with (node_addrs A h) f.body.after) (f.addr ∷ above_addrs k),
  )

  pub plug-below :
      {h : ℕ} (c : Tree A h) (f : Cell (Frame (Body A h))) (k : Above A (suc h)) (p : Ptr)
      → below A (suc h) (plug f c) p + above k p ≡ below A h c p + above (under f k) p
  plug-below {h} c f k p = omega (
    arith,
    above-under f k p,
    below-kids A h (plug f c) p,
    kids-append (node_addrs A h) f.body.before ((c, f.body.hole) ∷ f.body.after) p,
    count-append p (node_addrs A h c.addr c.body) (concat_with (node_addrs A h) f.body.after),
  )

  -- What `into_parent` finds: no parent only if the pointer is null, and else the parent, which with
  -- the nodes above it is `c` with those above it.
  abbrev pub ParentIs :
      {h : ℕ} → Tree A h → Above A h → Option (Tree A (suc h) × Above A (suc h)) → Type 0
  ParentIs c k none = c.prefix.parent ≡ none
  ParentIs {h} c k (some (d, k')) =
      (d.prefix.parent ≡ parent_of k')
      × AboveLinked k'
      × ((p : Ptr) → below A (suc h) d p + above k' p ≡ below A h c p + above k p)

  deref_parent-ParentIs :
      {h : ℕ} (q : Ptr) (c : Tree A h) (k : Above A h)
      → AboveLinked k
      → IfOk (ParentIs c k) (deref_parent q c k)
  unfolding deref_parent
  deref_parent-ParentIs q c top l = if_err
  deref_parent-ParentIs q c (under f k) l =
      IfOk-if (q == f.addr) (if_ok (l.0, l.1, λ p. plug-below c f k p)) if_err

  pub into_parent-ParentIs :
      {h : ℕ} (c : Tree A h) (k : Above A h) → AboveLinked k → IfOk (ParentIs c k) (into_parent c k)
  unfolding into_parent
  into_parent-ParentIs {h} c k l = go c.prefix.parent refl
    where
      go :
          (o : Option Ptr)
          → c.prefix.parent ≡ o
          → IfOk (ParentIs c k) (elim o [ none ↦ ok none | some p ↦ deref_parent p c k ])
      go none e = if_ok e
      go (some q) e = deref_parent-ParentIs q c k l

  -- Only the root has no parent.
  pub above-none : {h : ℕ} (k : Above A h) → parent_of k ≡ none → (p : Ptr) → above k p ≡ 0
  above-none top e p = refl
  above-none (under f k) e p = absurd (cc e)

  -- The leaf that is found with the nodes above it are the tree.
  pub leaf_for-below :
      (h : ℕ) (c : Tree A h) (k : Above A h) (i : ℕ)
      → IfOk
          (λ (leaf, j, k'). (p : Ptr) → below A 0 leaf p + above k' p ≡ below A h c p + above k p)
          (leaf_for h c k i)
  unfolding leaf_for
  leaf_for-below zero c k i = if_ok (λ p. refl)
  leaf_for-below (suc h) c k i =
      IfOk-bind _ (find_child-parts [] c.body.children i) λ (b, e, a, j) parts.
        IfOk-map (leaf_for-below h e.0 (under (frame c b e.1 a) k) j) λ r same p. omega (
          arith,
          same p,
          above-under (frame c b e.1 a) k p,
          below-kids A h c p,
          ap (λ es. kids (node_addrs A h) es p) parts,
          kids-append (node_addrs A h) b (e ∷ a) p,
          count-append p (node_addrs A h e.0.addr e.0.body) (concat_with (node_addrs A h) a),
        )
