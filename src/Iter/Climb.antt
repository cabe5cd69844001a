-- ===== src/Iter/Climb.antt =====
-- The way of `nth` from a leaf up to a node above the item, and down again.
use btree_vec.Common.{
  ℕ, zero, suc, ◌+◌, ◌-◌, ◌≤◌, ◌<◌, ◌≡◌, refl, sym, subst, ◌∙◌, Option, none, some, List, [], ◌∷◌,
  ◌++◌, Result, Returns, returned, Returns-bind, Returns-map, append_assoc, arith, length, take,
  drop, take-add, take-append, drop-append, le→leb, lt→leb, le_or_lt, inl, inr,
}
use btree_vec.Node.{Ptr, Cell}
use btree_vec.Node.Internal.{Entry}
use btree_vec.Node.Internal.Children.{Children, concat_with}
use btree_vec.Tree.{Body, Tree, Frame, Above, top, under, plug, frame}
use btree_vec.Tree.Descent.{leaf_for-IsLeafFor}
use btree_vec.Tree.Parents.{into_parent-under, into_parent-top}
use btree_vec.Tree.Plug.{plug_sized, drop-plug}
use btree_vec.Tree.Position.{
  leaves_around, IsAt, up-IsAt, up-leaves, up-weight, down-IsAt, down-leaves, weight-snoc,
}
use btree_vec.Tree.Valid.{
  leaves, weight, weight-append, weight-nil, tree_weight, IsSubtree, leaves_before, leaves_after,
  depth,
}
use btree_vec.Iter.{LeafRef, Skipped, found, past, skip_children, arrive, climb}

module _ {ℓ} (A : Type ℓ) (B h : ℕ) where
  -- Where the item `n` places into `es` is found, or how many places past them it is.
  abbrev pub SkipIs :
      List (Entry (Body A h)) → List (Entry (Body A h)) → ℕ → Skipped (Body A h) → Type ℓ
  SkipIs before es n (found b e a n') =
      (b ++ (e ∷ a) ≡ before ++ es)
      × (n' < tree_weight A h e.0.addr e.0.body)
      × (weight (concat_with (leaves A h) b) + n' ≡ weight (concat_with (leaves A h) before) + n)
  SkipIs before es n (past n') = Unit {ℓ} × (n' + weight (concat_with (leaves A h) es) ≡ n)

  skip_children-SkipIs :
      (a : Ptr) (i : ℕ) (before es : List (Entry (Body A h))) (n : ℕ)
      → Children (IsSubtree A B h) (tree_weight A h) a i es
      → SkipIs before es n (skip_children before es n)
  unfolding skip_children
  skip_children-SkipIs a i before [] n v = (tt, omega (arith, weight-nil A))
  skip_children-SkipIs a i before (e ∷ es) n v = elim (le_or_lt e.1 n) [
    | inl le ↦ rw (le→leb le) (
        passed (skip_children (before ++ (e ∷ [])) es (n - e.1)) le
          (skip_children-SkipIs a (suc i) (before ++ (e ∷ [])) es (n - e.1) v.1))
    | inr lt ↦ rw (lt→leb lt) (refl, omega (arith, v.0.size_is), refl)
  ]
    where
      passed :
          (r : Skipped (Body A h))
          → e.1 ≤ n
          → SkipIs (before ++ (e ∷ [])) es (n - e.1) r
          → SkipIs before (e ∷ es) n r
      passed (found b e' after n') le s = (
        s.0 ∙ append_assoc before (e ∷ []) es,
        s.1,
        omega (arith, s.2, v.0.size_is, weight-snoc A h before e.0 e.1),
      )
      passed (past n') le s = (
        tt,
        omega (
          arith,
          s.1,
          v.0.size_is,
          weight-append (leaves A h e.0.addr e.0.body) (concat_with (leaves A h) es),
        ),
      )

module _ {ℓ} {C : Type ℓ} where
  take-plug :
      (f : Cell (Frame C)) (c : Cell C) (n : ℕ)
      → take (length f.body.before + 1) (plug_sized f c n).body.children
        ≡ f.body.before ++ ((c, n) ∷ [])
  take-plug f c n = rw (
    take-add (length f.body.before) 1 (f.body.before ++ ((c, n) ∷ f.body.after)),
    take-append f.body.before ((c, n) ∷ f.body.after),
    drop-append f.body.before ((c, n) ∷ f.body.after),
  )

module _ {ℓ} (A : Type ℓ) (B total : ℕ) (big : 3 ≤ B) where
  -- The item `n` places after what stands below `k`, if there is one.
  abbrev pub ClimbIs : (h : ℕ) → Tree A h → Above A h → ℕ → Option (LeafRef A × ℕ) → Type ℓ
  ClimbIs h c k n none = Unit {ℓ} × (weight (leaves_after k) ≤ n)
  ClimbIs h c k n (some (q, i)) =
      IsAt B total 0 q.0 q.1
      × (i < length q.0.body.children)
      × (leaves_around 0 q.0 q.1 ≡ leaves_around h c k)
      × (weight (leaves_before q.1) + i
          ≡ weight (leaves_before k) + (tree_weight A h c.addr c.body + n))

  module _ (h : ℕ) (c : Tree A h) (f : Cell (Frame (Body A h))) (k : Above A (suc h))
      (v : IsAt B total h c (under f k)) where
    arrive-ClimbIs :
        (n : ℕ) (next_round : ℕ → Result (Option (LeafRef A × ℕ))) (r : Skipped (Body A h))
        → SkipIs A B h (f.body.before ++ ((c, f.body.hole) ∷ [])) f.body.after n r
        → ((n' : ℕ) → Returns (ClimbIs (suc h) (plug f c) k n') (next_round n'))
        → Returns (ClimbIs h c (under f k) n) (arrive (plug f c) k next_round r)
    unfolding arrive
    arrive-ClimbIs n next_round (found b e a n') s ih =
        let parts : (plug f c).body.children ≡ b ++ (e ∷ a) =
          sym (s.0 ∙ append_assoc f.body.before ((c, f.body.hole) ∷ []) f.body.after) in
        let at = down-IsAt h (plug f c) k b e.0 e.1 a parts B total (up-IsAt h c f k B total v) in
        Returns-bind _
          (leaf_for-IsLeafFor A B total big h e.0 (under (frame (plug f c) b e.1 a) k) n' at.below
            at.above (omega (arith, s.1)))
          λ x l. returned (
            record { below = l.below; above = l.above },
            l.strictly s.1,
            l.same_leaves
                ∙ down-leaves h (plug f c) k b e.0 e.1 a parts
                ∙ up-leaves h c f k f.body.hole,
            omega (
              arith,
              l.same_item,
              s.2,
              weight-snoc A h f.body.before c f.body.hole,
              weight-append (leaves_before k) (concat_with (leaves A h) b),
              weight-append (leaves_before k) (concat_with (leaves A h) f.body.before),
            ),
          )
    arrive-ClimbIs n next_round (past n') s ih = Returns-map (ih n') over
      where
        over :
            (o : Option (LeafRef A × ℕ))
            → ClimbIs (suc h) (plug f c) k n' o
            → ClimbIs h c (under f k) n o
        over none t = (
          tt,
          omega (
            arith,
            t.1,
            s.1,
            weight-append (concat_with (leaves A h) f.body.after) (leaves_after k),
          ),
        )
        over (some (q, i)) t = (
          t.0,
          t.1,
          t.2 ∙ up-leaves h c f k f.body.hole,
          omega (
            arith,
            t.3,
            s.1,
            up-weight h c f k f.body.hole,
            weight-append (leaves_before k) (concat_with (leaves A h) f.body.before),
          ),
        )

  pub climb-ClimbIs :
      (fuel h : ℕ) (c : Tree A h) (k : Above A h) (n : ℕ)
      → IsAt B total h c k
      → depth k < fuel
      → Returns (ClimbIs h c k n) (climb fuel c k n)
  unfolding climb
  climb-ClimbIs zero h c k n v h' = absurd (omega arith)
  climb-ClimbIs (suc fuel) h c top n v h' =
      rw (into_parent-top c v.below.parent_is) (returned (tt, omega (arith, weight-nil A)))
  climb-ClimbIs (suc fuel) h c (under f k) n v h' = rw (into_parent-under c f k v.below.parent_is) (
      subst
        (λ i. Returns (ClimbIs h c (under f k) n) (
          arrive (plug f c) k (climb fuel (plug f c) k) (
            skip_children (take (i + 1) (plug f c).body.children)
              (drop (i + 1) (plug f c).body.children) n)))
        (sym v.below.index_is)
        (rw (take-plug f c f.body.hole, drop-plug (leaves A h) f c f.body.hole)
          (arrive-ClimbIs h c f k v n (climb fuel (plug f c) k)
            (skip_children (f.body.before ++ ((c, f.body.hole) ∷ [])) f.body.after n)
            (skip_children-SkipIs A B h f.addr _ _ f.body.after n v.above.0.after_are)
            (λ n'.
              climb-ClimbIs fuel (suc h) (plug f c) k n' (up-IsAt h c f k B total v)
                (omega arith)))))
