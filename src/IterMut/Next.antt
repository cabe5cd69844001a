-- ===== src/IterMut/Next.antt =====
-- `next` and `nth` of a mutable iterator.
use btree_vec.Common.{
  ℕ, ◌+◌, ◌-◌, ◌≤◌, ◌<◌, ◌≡◌, ◌≢◌, refl, sym, ap, ap₂, subst, ◌∙◌, inl, inr, Option, none, some,
  List, [], ◌∷◌, ◌++◌, length, Returns, returned, arith, le→leb, eq→==, ne→==, eq_or_ne,
  append_assoc, length-append,
}
use btree_vec.Node.{Allocator}
use btree_vec.Tree.Chain.{IsChain, IsChain-append_right}
use btree_vec.Tree.Items.{length-around}
use btree_vec.Tree.Position.{leaves_around}
use btree_vec.Tree.Valid.{items, items-append, weight, leaves_before, leaves_after}
use btree_vec.Vec.Valid.{IsVec, contents}
use btree_vec.Iter.{LeafRef}
use btree_vec.Iter.Next.{follower_pos}
use btree_vec.Iter.NextLeaf.{view, tree_walk, StartsOption, into_next-Starts}
use btree_vec.IterMut.{IterMut, take_item, enter, next_at, next}
use btree_vec.IterMut.Valid.{IsAtItem, StandsAt, IsIterMut, StepIs, finished-StepIs, refer-StepIs}

before_end : {i n : ℕ} → i ≤ n → i ≢ n → i < n
before_end h k = grind arith

module _ {ℓ} {A : Type ℓ} (B : ℕ) where
  -- An index inside of the leaf is a place of an item.
  pub pos_inside :
      (p : LeafRef A) (i : ℕ) (all : List A) (pos : ℕ)
      → IsAtItem B p i all pos
      → i < length p.0.body.children
      → pos < length all
  pos_inside p i all pos s h = omega (arith, s.pos_is, ap length s.all_are, length-around p.0 p.1)

module _ {ℓ} {A : Type ℓ} {al : Allocator} (B : ℕ) where
  take_item-StepIs :
      (p : LeafRef A) (it : IterMut al A) (all : List A) (pos : ℕ)
      → IsVec B it.vec
      → contents it.vec ≡ all
      → IsAtItem B p it.index all pos
      → it.index < length p.0.body.children
      → it.remaining ≡ length all - pos
      → Returns (StepIs B all pos) (take_item p it)
  unfolding take_item
  take_item-StepIs p it all pos v e s h r =
      let there : pos < length all = pos_inside B p it.index all pos s h in
      rw (le→leb {a = 1} {b = it.remaining} (omega (arith, r))) (
        refer-StepIs B p it.index
          (record it { leaf = some p; index = it.index + 1; remaining = it.remaining - 1 }) all pos
          v e s h refl refl (omega (arith, r)))

  enter-StepIs :
      (total : ℕ) (big : 3 ≤ B) (p : LeafRef A) (q : Option (LeafRef A)) (it : IterMut al A)
      (all : List A) (pos : ℕ)
      → IsVec B it.vec
      → contents it.vec ≡ all
      → IsAtItem B p (length p.0.body.children) all pos
      → StartsOption A
          (tree_walk A B total big)
          (leaves_before p.1 ++ (view p.0 ∷ []))
          (leaves_after p.1)
          q
      → it.remaining ≡ length all - pos
      → Returns (StepIs B all pos) (enter q it)
  unfolding enter weight
  enter-StepIs total big p none it all pos v e s t r =
      let end : length all ≤ pos =
        omega
          (arith, s.pos_is, ap length s.all_are, length-around p.0 p.1, ap (λ vs. weight vs) t) in
      returned (finished-StepIs B it all pos v e end (omega (arith, r)))
  enter-StepIs total big p (some q) it all pos v e s t r =
      take_item-StepIs q (record it { leaf = some q; index = 0 }) all pos v e
        (record {
          total = total;
          at = t.at;
          chain = subst IsChain same s.chain;
          inside = omega arith;
          all_are = s.all_are ∙ ap items same;
          pos_is = omega (
            arith,
            s.pos_is,
            ap weight t.before_is,
            ap length (items-append (leaves_before p.1) (view p.0 ∷ [])),
            length-append (items (leaves_before p.1)) (p.0.body.children ++ []),
            length-append p.0.body.children [],
          );
        })
        (follower_pos B total q (leaves_before p.1) (view p.0) big t.at t.before_is) r
    where
      same : leaves_around 0 p.0 p.1 ≡ leaves_around 0 q.0 q.1
      same =
          sym (append_assoc (leaves_before p.1) (view p.0 ∷ []) (leaves_after p.1))
          ∙ sym (ap₂ (λ us vs. us ++ vs) t.before_is t.after_is)

  next_at-StepIs :
      (p : LeafRef A) (it : IterMut al A) (all : List A) (pos : ℕ)
      → IsVec B it.vec
      → contents it.vec ≡ all
      → IsAtItem B p it.index all pos
      → it.remaining ≡ length all - pos
      → Returns (StepIs B all pos) (next_at p it)
  unfolding next_at
  next_at-StepIs p it all pos v e s r = elim (eq_or_ne it.index (length p.0.body.children)) [
    | inl end ↦
        let (q, go, t) =
          into_next-Starts A (tree_walk A B s.total v.branching) p s.at
            (IsChain-append_right (leaves_before p.1) (view p.0 ∷ leaves_after p.1) s.chain) in
        rw (eq→== end, go)
          (enter-StepIs s.total v.branching p q it all pos v e
            (subst (λ i. IsAtItem B p i all pos) end s) t r)
    | inr more ↦ rw (ne→== more) (take_item-StepIs p it all pos v e s (before_end s.inside more) r)
  ]

  pub next_lem :
      (it : IterMut al A) (all : List A) (pos : ℕ)
      → IsIterMut B it all pos
      → Returns (StepIs B all pos) (next it)
  unfolding next
  next_lem it all pos v = go it.leaf v.stands
    where
      go :
          (leaf : Option (LeafRef A))
          → StandsAt B leaf it.index all pos
          → Returns (StepIs B all pos) (next (record it { leaf = leaf }))
      go none s =
          returned (
            finished-StepIs B it all pos v.vec_is v.all_are s.1
              (omega (arith, v.remaining_is, s.1)))
      go (some p) s =
          next_at-StepIs p (record it { leaf = some p }) all pos v.vec_is v.all_are s v.remaining_is
