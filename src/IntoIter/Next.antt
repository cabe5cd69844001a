-- ===== src/IntoIter/Next.antt =====
-- `next` of an iterator that owns its vector.
use btree_vec.Common.{
  ℕ, ◌+◌, ◌<◌, ◌≡◌, ◌≢◌, refl, sym, ap, ap₂, subst, ◌∙◌, inl, inr, Option, none, some, List, [],
  ◌∷◌, ◌++◌, Returns, returned, Returns-bind, arith, length, drop, get_elem?, le→leb, eq→==, ne→==,
  eq_or_ne, length-zero, replicate, ◌-◌,
}
use btree_vec.Node.{Allocator}
use btree_vec.Node.Leaf.{Leaf, with_children}
use btree_vec.Tree.{Above}
use btree_vec.Tree.Chain.{IsChain}
use btree_vec.Tree.Valid.{items, items-append, leaves_before, leaves_after}
use btree_vec.Vec.Valid.{contents}
use btree_vec.Iter.{LeafRef}
use btree_vec.Iter.NextLeaf.{view, StartsOption, into_next-Starts}
use btree_vec.IntoIter.{
  RawLeaf, IntoIter, raw_leaf, set_zero_length, take_item, enter, next_at, next,
}
use btree_vec.IntoIter.Fertile.{AllFilled, fertile_walk}
use btree_vec.IntoIter.Slots.{HasLeft, take_raw_child-Taken, nothing_live}
use btree_vec.IntoIter.Valid.{
  IsStand, IsStand-items, with_children-IsStand, HasItems, LeafHas, IsIntoIter, Yields, RootFree,
}

before_end : {i n : ℕ} (m : ℕ) → n ≡ i + m → i ≢ n → i < n
before_end m e k = grind arith

module _ {ℓ} {A : Type ℓ} {al : Allocator} where
  take_item-Yields :
      (r : RawLeaf A) (k : Above A 0) (it : IntoIter al A) (xs : List A)
      → HasItems r k it.length it.index xs
      → it.index < it.length
      → it.remaining ≡ length xs
      → Returns (Yields xs) (take_item r k it)
  unfolding take_item
  take_item-Yields r k it xs v h e = go v.here v.left v.length_is v.items_are
    where
      stand : (r' : RawLeaf A) → r'.leaf ≡ with_children [] r.leaf → IsStand r'.leaf k
      stand r' e = subst (λ l. IsStand l k) (sym e) (with_children-IsStand r.leaf k [] v.stand)

      go :
          (here : List A)
          → HasLeft r it.index here
          → it.length ≡ it.index + length here
          → xs ≡ here ++ items (leaves_after k)
          → Returns (Yields xs) (take_item r k it)
      go [] left n same = absurd (omega arith)
      go (y ∷ here) left n same =
          rw (le→leb {a = 1} {b = it.remaining} (omega (arith, e, ap length same))) (
            Returns-bind _ (take_raw_child-Taken r it.index y here left) λ (r', slot) (got, t).
              rw (got) (
                returned (
                  sym (ap (λ zs. get_elem? zs 0) same),
                  record {
                    leaf_has = (
                      record {
                        stand = stand r' t.leaf_is;
                        here = here;
                        left = t.left;
                        length_is = omega arith;
                        items_are = ap (drop 1) same;
                      },
                      IsStand-items r'.leaf k (stand r' t.leaf_is),
                      (stand r' t.leaf_is).walked.no_parent,
                    );
                    remaining_is =
                        omega (arith, e, ap length same, ap (λ zs. length (drop 1 zs)) same);
                  },
                )))

  enter-Yields :
      (B : ℕ) (r : RawLeaf A) (k : Above A 0) (q : Option (LeafRef A)) (it : IntoIter al A)
      (xs : List A)
      → IsStand r.leaf k
      → HasLeft r it.index []
      → contents it.tree ≡ r.leaf.body.children ++ items (leaves_after k)
      → RootFree it.tree.root
      → StartsOption A (fertile_walk A) (leaves_before k ++ (view r.leaf ∷ [])) (leaves_after k) q
      → xs ≡ items (leaves_after k)
      → it.remaining ≡ length xs
      → Returns (Yields xs) (enter B q it)
  unfolding enter set_zero_length
  enter-Yields B r k none it xs v left root free s same e = returned (
    sym (ap (λ zs. get_elem? zs 0) nothing),
    record {
      leaf_has = (
        ap (drop 1) nothing,
        root
            ∙ ap₂ (λ (l : Leaf A) vs. l.body.children ++ items vs) (nothing_live r it.index left) s,
        free,
      );
      remaining_is = omega (arith, e, ap length nothing, ap (λ zs. length (drop 1 zs)) nothing);
    },
  )
    where
      nothing : xs ≡ []
      nothing = same ∙ ap items s
  enter-Yields B r k (some q) it xs v left root free s same e =
      take_item-Yields (set_zero_length (raw_leaf B q.0)) q.1
        (record it { index = 0; length = length q.0.body.children }) xs
        (record {
          stand = with_children-IsStand q.0 q.1 [] (record {
            walked = s.at;
            chain = subst IsChain (sym s.after_is) v.chain.1;
            before_empty = empty;
            filled = full.1;
          });
          here = q.0.body.children;
          left = record {
            tail = replicate (B - length q.0.body.children) none;
            slots_are = refl;
            live = inl refl;
          };
          length_is = omega arith;
          items_are = same ∙ ap items (sym s.after_is);
        })
        full.0 e
    where
      full : AllFilled (view q.0 ∷ leaves_after q.1)
      full = subst AllFilled (sym s.after_is) v.filled

      empty : items (leaves_before q.1) ≡ []
      empty =
          ap items s.before_is
          ∙ items-append (leaves_before k) (view r.leaf ∷ [])
          ∙ ap₂ (λ (xs : List A) (l : Leaf A). xs ++ (l.body.children ++ [])) v.before_empty
              (nothing_live r it.index left)

  next_at-Yields :
      (B : ℕ) (r : RawLeaf A) (k : Above A 0) (it : IntoIter al A) (xs : List A)
      → HasItems r k it.length it.index xs
      → contents it.tree ≡ r.leaf.body.children ++ items (leaves_after k)
      → RootFree it.tree.root
      → it.remaining ≡ length xs
      → Returns (Yields xs) (next_at B r k it)
  unfolding next_at
  next_at-Yields B r k it xs v root free e = elim (eq_or_ne it.index it.length) [
    | inl end ↦
        let (q, found, s) =
          into_next-Starts A (fertile_walk A) (r.leaf, k) v.stand.walked v.stand.chain in
        let none_here : v.here ≡ [] = length-zero v.here (omega (arith, v.length_is)) in
        rw (eq→== end, found)
          (enter-Yields B r k q it xs v.stand (subst (HasLeft r it.index) none_here v.left) root
            free s (v.items_are ∙ ap (λ ys. ys ++ items (leaves_after k)) none_here) e)
    | inr more ↦
        rw (ne→== more)
          (take_item-Yields r k it xs v (before_end (length v.here) v.length_is more) e)
  ]

  -- On a well-formed iterator, `next` returns the first of the items that are left, or `None` if
  -- there are none, and leaves a well-formed iterator over the others. It moves an item out of no
  -- slot that is not initialised.
  pub next_lem :
      (B : ℕ) (it : IntoIter al A) (xs : List A)
      → IsIntoIter it xs
      → Returns (Yields xs) (next B it)
  unfolding next
  next_lem B it xs v = go it.leaf v.leaf_has
    where
      go :
          (leaf : Option (RawLeaf A × Above A 0))
          → LeafHas leaf it.length it.index it.tree xs
          → Returns (Yields xs) (next B (record it { leaf = leaf }))
      go none (nothing, empty, free) = returned (
        sym (ap (λ ys. get_elem? ys 0) nothing),
        record {
          leaf_has = (ap (drop 1) nothing, empty, free);
          remaining_is =
              omega
                (arith, v.remaining_is, ap length nothing, ap (λ ys. length (drop 1 ys)) nothing);
        },
      )
      go (some (r, k)) (h, root, free) =
          next_at-Yields B r k (record it { leaf = some (r, k) }) xs h root free v.remaining_is
