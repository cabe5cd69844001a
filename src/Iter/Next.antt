-- ===== src/Iter/Next.antt =====
-- `iter`, `next` and the loop over an iterator.
use btree_vec.Common.{
  ℕ, zero, suc, ◌+◌, ◌≤◌, ◌<◌, ◌≡◌, refl, sym, ap, ap₂, subst, ◌∙◌, Option, none, some, List, [],
  ◌∷◌, ◌++◌, Result, ok, Returns, returned, append_assoc, arith, length, drop, get_elem?,
  drop-length, length-append, le→leb, eq→==, ne→==, eq_or_ne, inl, inr, ◌≢◌, ◌>>=◌,
}
use btree_vec.Tree.{top, under}
use btree_vec.Tree.Valid.{LeafView, items, leaves_before, leaves_after}
use btree_vec.Tree.Position.{IsAt, leaves_around}
use btree_vec.Tree.Chain.{IsChain, IsChain-append_right}
use btree_vec.Iter.{LeafRef, Iter, take_item, enter, next_at, next, collect}
use btree_vec.Iter.NextLeaf.{view, tree_walk, Starts, StartsOption, into_next-Starts}
use btree_vec.Iter.Valid.{
  items_from, IsCursor, LeafHas, IsIter, drop-get_elem?, index_children-some,
}

before_end : {i n : ℕ} → i ≤ n → i ≢ n → i < n
before_end h k = grind arith

module _ {ℓ} {A : Type ℓ} (B : ℕ) where
  -- `r` is the item at `n` of `xs`, if there is one, with an iterator over those after it.
  abbrev pub Yields : List A → ℕ → Option A × Iter A → Type ℓ
  Yields xs n r = (r.0 ≡ get_elem? xs n) × IsIter B r.1 (drop (n + 1) xs)

  -- A leaf that follows another is not empty.
  pub follower_pos :
      (total : ℕ) (q : LeafRef A) (us : List (LeafView A)) (w : LeafView A)
      → 3 ≤ B
      → IsAt B total 0 q.0 q.1
      → leaves_before q.1 ≡ us ++ (w ∷ [])
      → 0 < length q.0.body.children
  follower_pos total (leaf, top) us w big v e =
      absurd (omega (arith, ap length e, length-append us (w ∷ [])))
  follower_pos total (leaf, under f k) us w big v e = omega (arith, v.below.long)

  pub take_item-Yields :
      (total : ℕ) (p : LeafRef A) (it : Iter A) (xs : List A)
      → 3 ≤ B
      → IsCursor B total p it.index
      → it.index < length p.0.body.children
      → xs ≡ items_from p it.index
      → it.remaining ≡ length xs
      → Returns (Yields xs 0) (take_item p it)
  unfolding take_item
  take_item-Yields total p it xs big c h e r =
      let (x, got, rest) = drop-get_elem? p.0.body.children it.index h in
      let parts : xs ≡ x ∷ items_from p (it.index + 1) =
        e ∙ ap (λ ys. ys ++ items (leaves_after p.1)) rest in
      rw
        (
          le→leb {a = 1} {b = it.remaining} (omega (arith, r, ap length parts)),
          index_children-some p.0.body.children it.index x got,
        )
        (returned (
          sym (ap (λ ys. get_elem? ys 0) parts),
          record {
            branching = big;
            leaf_has = (
              total,
              record { at = c.at; chain = c.chain; inside = omega arith },
              ap (drop 1) parts,
            );
            remaining_is = omega (arith, r, ap length parts, ap (λ ys. length (drop 1 ys)) parts);
          },
        ))

  enter-Yields :
      (total : ℕ) (p : LeafRef A) (q : Option (LeafRef A)) (it : Iter A) (xs : List A) (big : 3 ≤ B)
      → StartsOption A
          (tree_walk A B total big)
          (leaves_before p.1 ++ (view p.0 ∷ []))
          (leaves_after p.1)
          q
      → IsChain (leaves_around 0 p.0 p.1)
      → xs ≡ items (leaves_after p.1)
      → it.remaining ≡ length xs
      → Returns (Yields xs 0) (enter q it)
  unfolding enter
  enter-Yields total p none it xs big s chain e r = returned (
    sym (ap (λ ys. get_elem? ys 0) nothing),
    record {
      branching = big;
      leaf_has = ap (drop 1) nothing;
      remaining_is = omega (arith, r, ap length nothing, ap (λ ys. length (drop 1 ys)) nothing);
    },
  )
    where
      nothing : xs ≡ []
      nothing = e ∙ ap items s
  enter-Yields total p (some q) it xs big s chain e r =
      take_item-Yields total q (record { leaf = some q; index = 0; remaining = it.remaining }) xs
        big (record { at = s.at; chain = subst IsChain (moved q s) chain; inside = omega arith })
        (follower_pos total q (leaves_before p.1) (view p.0) big s.at s.before_is)
        (e ∙ ap items (sym s.after_is)) r
    where
      moved :
          (q : LeafRef A)
          → Starts A
              (tree_walk A B total big)
              (leaves_before p.1 ++ (view p.0 ∷ []))
              (leaves_after p.1)
              q
          → leaves_around 0 p.0 p.1 ≡ leaves_around 0 q.0 q.1
      moved q s =
          sym (append_assoc (leaves_before p.1) (view p.0 ∷ []) (leaves_after p.1))
          ∙ sym (ap₂ (λ us vs. us ++ vs) s.before_is s.after_is)

  next_at-Yields :
      (total : ℕ) (p : LeafRef A) (it : Iter A) (xs : List A)
      → 3 ≤ B
      → IsCursor B total p it.index
      → xs ≡ items_from p it.index
      → it.remaining ≡ length xs
      → Returns (Yields xs 0) (next_at p it)
  unfolding next_at
  next_at-Yields total p it xs big c e r = elim (eq_or_ne it.index (length p.0.body.children)) [
    | inl end ↦
        let (q, go, s) =
          into_next-Starts A (tree_walk A B total big) p c.at
            (IsChain-append_right (leaves_before p.1) (view p.0 ∷ leaves_after p.1) c.chain) in
        rw (eq→== end, go)
          (enter-Yields total p q it xs big s c.chain
            (e
              ∙ ap (λ i. drop i p.0.body.children ++ items (leaves_after p.1)) end
              ∙ ap (λ ys. ys ++ items (leaves_after p.1)) (drop-length p.0.body.children))
            r)
    | inr more ↦
        rw (ne→== more) (take_item-Yields total p it xs big c (before_end c.inside more) e r)
  ]

  -- On a well-formed iterator, `next` returns the first of the items that are left, or `None` if there
  -- are none, and leaves a well-formed iterator over the others.
  pub next_lem : (it : Iter A) (xs : List A) → IsIter B it xs → Returns (Yields xs 0) (next it)
  unfolding next
  next_lem it xs v = go it.leaf v.leaf_has
    where
      go :
          (leaf : Option (LeafRef A))
          → LeafHas B leaf it.index xs
          → Returns (Yields xs 0) (next (record it { leaf = leaf }))
      go none nothing = returned (
        sym (ap (λ ys. get_elem? ys 0) nothing),
        record {
          branching = v.branching;
          leaf_has = ap (drop 1) nothing;
          remaining_is =
              omega
                (arith, v.remaining_is, ap length nothing, ap (λ ys. length (drop 1 ys)) nothing);
        },
      )
      go (some p) (total, c, e) =
          next_at-Yields total p (record it { leaf = some p }) xs v.branching c e v.remaining_is

  -- With more fuel than there are items, the loop over a well-formed iterator ends with its items.
  pub collect_lem :
      (fuel : ℕ) (it : Iter A) (xs : List A)
      → IsIter B it xs
      → length xs < fuel
      → collect fuel it ≡ ok xs
  unfolding collect
  collect_lem zero it xs v h = absurd (omega arith)
  collect_lem (suc fuel) it xs v h = go (next it) (next_lem it xs v) xs refl (collect_lem fuel)
    where
      go :
          (r : Result (Option A × Iter A))
          → Returns (Yields xs 0) r
          → (ys : List A) → xs ≡ ys
          → ((it' : Iter A) (zs : List A)
              → IsIter B it' zs
              → length zs < fuel
              → collect fuel it' ≡ ok zs)
          → (r >>= λ r. elim r.0 [ none ↦ ok [] | some x ↦ collect fuel r.1 >>= λ zs. ok (x ∷ zs) ])
            ≡ ok ys
      go r (returned y) [] e ih = rw (y.0 ∙ ap (λ zs. get_elem? zs 0) e)
      go r (returned y) (x ∷ ys) e ih =
          rw
            (
              y.0 ∙ ap (λ zs. get_elem? zs 0) e,
              ih _ (drop 1 xs) y.1 (omega (arith, ap length e, ap (λ zs. length (drop 1 zs)) e)),
            )
            (ap (λ zs. ok (x ∷ drop 1 zs)) e)
