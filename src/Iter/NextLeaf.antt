-- ===== src/Iter/NextLeaf.antt =====
-- `into_next`: the leaf after a leaf, in the order of the tree.
use btree_vec.Common.{
  ℕ, zero, suc, ◌≤◌, ◌<◌, ◌≡◌, refl, sym, ap, subst, ◌∙◌, Option, none, some, List, [], ◌∷◌, ◌++◌,
  ok, append_assoc, append-nil, arith, length, ==_self,
}
use btree_vec.Node.{Cell}
use btree_vec.Node.Leaf.{Leaf}
use btree_vec.Node.Internal.{Entry}
use btree_vec.Node.Internal.Children.{concat_with, concat_with-append}
use btree_vec.Tree.{Body, Tree, Frame, Above, top, under, plug, frame}
use btree_vec.Tree.Valid.{LeafView, leaves, leaves_before, leaves_after, min_length}
use btree_vec.Tree.Position.{IsAt, up-IsAt, down-IsAt}
use btree_vec.Tree.Chain.{IsChain, first_addr}
use btree_vec.Iter.{LeafRef, first_leaf, first_beside, leaf_after, deref_next, follow, into_next}

abbrev pub view {ℓ} : {A : Type ℓ} → Leaf A → LeafView A
view leaf = (leaf.addr, leaf.body)

module _ {ℓ} {X : Type ℓ} where
  regroup_last : (a b c : List X) → a ++ (b ++ (c ++ [])) ≡ (a ++ b) ++ c
  regroup_last a b c = simp (append_assoc, append-nil)

  nonempty : {x : X} {xs : List X} → x ∷ xs ≡ [] → ⊥
  nonempty e = cc

-- What a walk along the leaves needs to know of the tree: it holds after a step up or down, and
-- there is always a child to go down to.
pub record Walk {ℓ} (A : Type ℓ) : Type (ℓ ⊔ 1) where
  pub IsPlace : (h : ℕ) → Tree A h → Above A h → Type 0
  pub up :
      (h : ℕ) (c : Tree A h) (f : Cell (Frame (Body A h))) (k : Above A (suc h))
      → IsPlace h c (under f k)
      → IsPlace (suc h) (plug f c) k
  pub down :
      (h : ℕ) (c : Tree A (suc h)) (k : Above A (suc h)) (before : List (Entry (Body A h)))
      (d : Tree A h) (m : ℕ) (after : List (Entry (Body A h)))
      → c.body.children ≡ before ++ ((d, m) ∷ after)
      → IsPlace (suc h) c k
      → IsPlace h d (under (frame c before m after) k)
  pub has_child :
      (h : ℕ) (c : Tree A (suc h)) (k : Above A (suc h))
      → IsPlace (suc h) c k
      → 0 < length c.body.children

module _ {ℓ} (A : Type ℓ) (walk : Walk A) where
  -- `p` is the first leaf of `vs`, which follow the leaves of `us`.
  pub record Starts (us vs : List (LeafView A)) (p : LeafRef A) : Type ℓ where
    pub at : walk.IsPlace 0 p.0 p.1
    pub before_is : leaves_before p.1 ≡ us
    pub after_is : view p.0 ∷ leaves_after p.1 ≡ vs

  -- The first leaf there is, if there is one.
  abbrev pub StartsOption : List (LeafView A) → List (LeafView A) → Option (LeafRef A) → Type ℓ
  StartsOption us vs none = vs ≡ []
  StartsOption us vs (some p) = Starts us vs p

  first_leaf-Starts :
      (h : ℕ) (c : Tree A h) (k : Above A h)
      → walk.IsPlace h c k
      → (p : LeafRef A) × (first_leaf h c k ≡ some p)
        × Starts (leaves_before k) (leaves A h c.addr c.body ++ leaves_after k) p
  unfolding first_leaf
  first_leaf-Starts zero c k v =
      ((c, k), refl, record { at = v; before_is = refl; after_is = refl })
  first_leaf-Starts (suc h) c k v = go (first_leaf-Starts h) c.body.children refl
    where
      go :
          ((d : Tree A h) (k' : Above A h)
            → walk.IsPlace h d k'
            → (p : LeafRef A) × (first_leaf h d k' ≡ some p)
              × Starts (leaves_before k') (leaves A h d.addr d.body ++ leaves_after k') p)
          → (es : List (Entry (Body A h))) → c.body.children ≡ es
          → (p : LeafRef A) × (first_leaf (suc h) c k ≡ some p)
            × Starts
                (leaves_before k)
                (concat_with (leaves A h) c.body.children ++ leaves_after k)
                p
      go ih [] e = absurd (omega (arith, walk.has_child h c k v, ap length e))
      go ih ((d, m) ∷ es) e =
          let (p, q, s) = ih d (under (frame c [] m es) k) (walk.down h c k [] d m es e v) in
          (
            p,
            rw (e) q,
            record {
              at = s.at;
              before_is = s.before_is ∙ append-nil (leaves_before k);
              after_is =
                  s.after_is
                  ∙ sym (
                      append_assoc (leaves A h d.addr d.body) (concat_with (leaves A h) es)
                        (leaves_after k))
                  ∙ ap (λ xs. concat_with (leaves A h) xs ++ leaves_after k) (sym e);
            },
          )

  -- The order of leaves is that of the tree.
  pub leaf_after-Starts :
      (h : ℕ) (c : Tree A h) (k : Above A h)
      → walk.IsPlace h c k
      → StartsOption (leaves_before k ++ leaves A h c.addr c.body) (leaves_after k) (leaf_after c k)
  unfolding leaf_after first_beside
  leaf_after-Starts h c top v = refl
  leaf_after-Starts h c (under f k) v =
      go (leaf_after-Starts (suc h) (plug f c) k (walk.up h c f k v)) f.body.after refl
    where
      go :
          StartsOption
            (leaves_before k ++ concat_with (leaves A h) (plug f c).body.children)
            (leaves_after k)
            (leaf_after (plug f c) k)
          → (es : List (Entry (Body A h))) → f.body.after ≡ es
          → StartsOption
              ((leaves_before k ++ concat_with (leaves A h) f.body.before)
                ++ leaves A h c.addr c.body)
              (concat_with (leaves A h) es ++ leaves_after k)
              (first_beside h c f k es (leaf_after (plug f c) k))
      go up [] e =
          subst (λ us. StartsOption us (leaves_after k) (leaf_after (plug f c) k))
            (ap (λ xs. leaves_before k ++ xs)
                (concat_with-append (leaves A h) f.body.before ((c, f.body.hole) ∷ f.body.after)
                  ∙ ap
                      (λ es.
                        concat_with (leaves A h) f.body.before
                        ++ (leaves A h c.addr c.body ++ concat_with (leaves A h) es))
                      e)
              ∙ regroup_last (leaves_before k) (concat_with (leaves A h) f.body.before)
                  (leaves A h c.addr c.body))
            up
      go up ((d, m) ∷ es) e =
          let before : List (Entry (Body A h)) = f.body.before ++ ((c, f.body.hole) ∷ []) in
          let parts : (plug f c).body.children ≡ before ++ ((d, m) ∷ es) =
            ap (λ xs. f.body.before ++ ((c, f.body.hole) ∷ xs)) e
            ∙ sym (append_assoc f.body.before ((c, f.body.hole) ∷ []) ((d, m) ∷ es)) in
          let (p, q, s) =
            first_leaf-Starts h d (under (frame (plug f c) before m es) k)
              (walk.down h (plug f c) k before d m es parts (walk.up h c f k v)) in
          subst
            (StartsOption
              ((leaves_before k ++ concat_with (leaves A h) f.body.before)
                ++ leaves A h c.addr c.body)
              ((leaves A h d.addr d.body ++ concat_with (leaves A h) es) ++ leaves_after k))
            (sym q)
            (record {
              at = s.at;
              before_is =
                  s.before_is
                  ∙ ap (λ xs. leaves_before k ++ xs)
                      (concat_with-append (leaves A h) f.body.before ((c, f.body.hole) ∷ []))
                  ∙ regroup_last (leaves_before k) (concat_with (leaves A h) f.body.before)
                      (leaves A h c.addr c.body);
              after_is =
                  s.after_is
                  ∙ sym (
                      append_assoc (leaves A h d.addr d.body) (concat_with (leaves A h) es)
                        (leaves_after k));
            })

  -- `into_next` returns, with the next leaf of the tree if the leaves are chained.
  pub into_next-Starts :
      (p : LeafRef A)
      → walk.IsPlace 0 p.0 p.1
      → IsChain (view p.0 ∷ leaves_after p.1)
      → (q : Option (LeafRef A)) × (into_next p ≡ ok q)
        × StartsOption (leaves_before p.1 ++ (view p.0 ∷ [])) (leaves_after p.1) q
  unfolding into_next follow deref_next
  into_next-Starts p v chain =
      go (leaf_after p.0 p.1) refl (leaves_after p.1) refl (leaf_after-Starts 0 p.0 p.1 v)
    where
      go :
          (q : Option (LeafRef A))
          → leaf_after p.0 p.1 ≡ q
          → (vs : List (LeafView A)) → leaves_after p.1 ≡ vs
          → StartsOption
              (leaves_before p.1 ++ (view p.0 ∷ []))
              (leaves_after p.1)
              (leaf_after p.0 p.1)
          → (q : Option (LeafRef A)) × (into_next p ≡ ok q)
            × StartsOption (leaves_before p.1 ++ (view p.0 ∷ [])) (leaves_after p.1) q
      go none e [] vs s = (none, ap (λ x. follow x p) (chain.0 ∙ ap first_addr vs), vs)
      go none e (w ∷ ws) vs s = absurd (nonempty (sym vs ∙ subst (StartsOption _ _) e s))
      go (some q) e ws vs s =
          let s' : Starts (leaves_before p.1 ++ (view p.0 ∷ [])) (leaves_after p.1) q =
            subst (StartsOption _ _) e s in
          (
            some q,
            ap (λ x. follow x p) (chain.0 ∙ ap first_addr (sym s'.after_is))
                ∙ rw (e, ==_self q.0.addr),
            s',
          )

-- A well-formed tree may be walked along.
abbrev pub tree_walk {ℓ} : (A : Type ℓ) (B total : ℕ) → 3 ≤ B → Walk A
tree_walk A B total big = record {
  IsPlace = λ h c k. IsAt B total h c k;
  up = λ h c f k v. up-IsAt h c f k B total v;
  down = λ h c k before d m after e v. down-IsAt h c k before d m after e B total v;
  has_child = λ h c k v. some_child k v.below.long;
}
  where
    some_child : {h n : ℕ} (k : Above A (suc h)) → min_length B k ≤ n → 0 < n
    some_child top q = omega arith
    some_child (under g k) q = omega arith
