-- ===== src/Remove/Neighbours.antt =====
-- The leaves around two neighbours, and what is left to do after a round of `remove`.
use btree_vec.Common.{
  ℕ, suc, ◌≡◌, sym, ap, ◌∙◌, List, [], ◌∷◌, ◌++◌, append_assoc, append-nil, Returns,
}
use btree_vec.Node.{Cell, Allocator}
use btree_vec.Node.Internal.Children.{concat_with, concat_with-append}
use btree_vec.Tree.{Body, Tree, Frame, Above, under, Root}
use btree_vec.Tree.Valid.{LeafView, leaves, IsRoot, root_leaves, leaves_before, leaves_after}
use btree_vec.Tree.Chain.{Follows, Follows-of_eq, Follows-trans, Follows-within}
use btree_vec.Remove.{Removal, removal, remove_loop}
use btree_vec.Remove.Absorbed.{rounds}
use btree_vec.Tree.Position.{leaves_around}
use btree_vec.Remove.Pair.{pair, around_left, around_right}

module _ {ℓ} {X : Type ℓ} (a b c d e f : List X) where
  regroup_pair : a ++ ((b ++ (c ++ (d ++ e))) ++ f) ≡ (a ++ b) ++ ((c ++ d) ++ (e ++ f))
  regroup_pair = simp append_assoc

  regroup_around_left : (a ++ b) ++ (c ++ ((d ++ e) ++ f)) ≡ (a ++ b) ++ ((c ++ d) ++ (e ++ f))
  regroup_around_left = simp append_assoc

  regroup_around_right :
      (a ++ (b ++ (c ++ []))) ++ (d ++ (e ++ f)) ≡ (a ++ b) ++ ((c ++ d) ++ (e ++ f))
  regroup_around_right = simp (append_assoc, append-nil)

module _ {ℓ} {A : Type ℓ} {h : ℕ} (g : Cell (Frame (Body A h))) (k : Above A (suc h)) where
  abbrev us : List (LeafView A)
  us = leaves_before k ++ concat_with (leaves A h) g.body.before

  abbrev ts : List (LeafView A)
  ts = concat_with (leaves A h) g.body.after ++ leaves_after k

  module _ (a b : Tree A h) where
    abbrev both : List (LeafView A)
    both = leaves A h a.addr a.body ++ leaves A h b.addr b.body

    pub leaves-pair : (x y : ℕ) → leaves_around (suc h) (pair g a x b y) k ≡ us ++ (both ++ ts)
    leaves-pair x y =
        ap (λ xs. leaves_before k ++ (xs ++ leaves_after k))
          (concat_with-append (leaves A h) g.body.before ((a, x) ∷ (b, y) ∷ g.body.after))
        ∙ regroup_pair (leaves_before k) (concat_with (leaves A h) g.body.before)
            (leaves A h a.addr a.body) (leaves A h b.addr b.body)
            (concat_with (leaves A h) g.body.after) (leaves_after k)

    pub leaves-around_left :
        (n y : ℕ) → leaves_around h a (under (around_left g n b y) k) ≡ us ++ (both ++ ts)
    leaves-around_left n y =
        regroup_around_left (leaves_before k) (concat_with (leaves A h) g.body.before)
          (leaves A h a.addr a.body) (leaves A h b.addr b.body)
          (concat_with (leaves A h) g.body.after) (leaves_after k)

    pub leaves-around_right :
        (x n : ℕ) → leaves_around h b (under (around_right g a x n) k) ≡ us ++ (both ++ ts)
    leaves-around_right x n =
        ap (λ xs. (leaves_before k ++ xs) ++ (leaves A h b.addr b.body ++ ts))
          (concat_with-append (leaves A h) g.body.before ((a, x) ∷ []))
        ∙ regroup_around_right (leaves_before k) (concat_with (leaves A h) g.body.before)
            (leaves A h a.addr a.body) (leaves A h b.addr b.body)
            (concat_with (leaves A h) g.body.after) (leaves_after k)

  pub Follows-neighbours :
      {vs ws xs ys : List (LeafView A)}
      → vs ≡ us ++ (xs ++ ts)
      → ws ≡ us ++ (ys ++ ts)
      → Follows xs ys
      → Follows vs ws
  Follows-neighbours p q f =
      Follows-trans (Follows-of_eq (sym p))
        (Follows-trans (Follows-within us ts f) (Follows-of_eq q))

module _ {ℓ} (A : Type ℓ) (B : ℕ) (al : Allocator) where
  -- A well-formed tree with the items of what stood below and above `c`.
  abbrev pub IsRemoved : (h : ℕ) → Tree A h → Above A h → Root A × al.State → Type ℓ
  IsRemoved h c k r = IsRoot B r.0 × Follows (leaves_around h c k) (root_leaves r.0)

  -- From `r` on, the loop of `remove` ends at such a tree.
  abbrev pub Continues : (h : ℕ) → Tree A h → Above A h → Removal A h → Type ℓ
  Continues h c k r =
      (fuel : ℕ) (s : al.State)
      → Returns (IsRemoved h c k) (remove_loop A B al (rounds k fuel) (removal h r) s)
