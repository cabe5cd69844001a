-- ===== src/Iter/Nth.antt =====
-- `nth`: the item some places ahead.
use btree_vec.Common.{
  ℕ, zero, suc, ◌+◌, ◌-◌, ◌≤◌, ◌<◌, ◌≡◌, refl, sym, ap, ap₂, subst, ◌∙◌, Option, none, some, List,
  [], ◌∷◌, ◌++◌, Returns, returned, Returns-bind, arith, length, drop, get_elem?, get_elem?-none,
  length-drop, drop-add, drop-append, length-append, le→leb, lt→leb, le_or_lt, inl, inr, ◌>>=◌,
}
use btree_vec.Tree.Valid.{
  leaf-weight, items, items-append, weight, leaves_before, leaves_after, depth,
}
use btree_vec.Tree.Chain.{IsChain}
use btree_vec.Tree.Position.{leaves_around}
use btree_vec.Iter.{LeafRef, Iter, nth_leaf, land, nth}
use btree_vec.Iter.Climb.{ClimbIs, climb-ClimbIs}
use btree_vec.Iter.Next.{Yields}
use btree_vec.Iter.NextLeaf.{view}
use btree_vec.Iter.Valid.{
  items_from, IsCursor, LeafHas, IsIter, drop-get_elem?, index_children-some,
}

module _ {ℓ} {A : Type ℓ} where
  drop-past : (xs : List A) (n : ℕ) → length xs ≤ n → drop n xs ≡ []
  drop-past [] zero h = refl
  drop-past [] (suc n) h = refl
  drop-past (x ∷ xs) zero h = absurd (omega arith)
  drop-past (x ∷ xs) (suc n) h = drop-past xs n (omega arith)

  get_elem?-drop : (xs : List A) (n : ℕ) → get_elem? xs n ≡ get_elem? (drop n xs) 0
  get_elem?-drop [] zero = refl
  get_elem?-drop [] (suc n) = refl
  get_elem?-drop (x ∷ xs) zero = refl
  get_elem?-drop (x ∷ xs) (suc n) = get_elem?-drop xs n

  drop-append_left : (i : ℕ) (xs ys : List A) → i ≤ length xs → drop i (xs ++ ys) ≡ drop i xs ++ ys
  drop-append_left zero xs ys h = refl
  drop-append_left (suc i) [] ys h = absurd (omega arith)
  drop-append_left (suc i) (x ∷ xs) ys h = drop-append_left i xs ys (omega arith)

  -- The items from a place on, counted in the whole tree.
  items_from-drop :
      (p : LeafRef A) (i : ℕ)
      → i ≤ length p.0.body.children
      → items_from p i ≡ drop (weight (leaves_before p.1) + i) (items (leaves_around 0 p.0 p.1))
  unfolding weight
  items_from-drop p i h = sym (
      ap (drop (weight (leaves_before p.1) + i))
        (items-append (leaves_before p.1) (view p.0 ∷ leaves_after p.1))
      ∙ drop-add (weight (leaves_before p.1)) i _
      ∙ ap (drop i)
          (drop-append (items (leaves_before p.1)) (p.0.body.children ++ items (leaves_after p.1)))
      ∙ drop-append_left i p.0.body.children (items (leaves_after p.1)) h)

  items_from-length :
      (p : LeafRef A) (i : ℕ)
      → length (items_from p i) ≡ (length p.0.body.children - i) + weight (leaves_after p.1)
  unfolding weight
  items_from-length p i = omega (
    arith,
    length-append (drop i p.0.body.children) (items (leaves_after p.1)),
    length-drop i p.0.body.children,
  )

module _ {ℓ} {A : Type ℓ} (B : ℕ) where
  -- There is no item that far.
  nowhere-Yields :
      (xs : List A) (n index : ℕ)
      → 3 ≤ B
      → length xs ≤ n
      → Yields B xs n (none, record { leaf = none; index = index; remaining = 0 })
  nowhere-Yields xs n index big h = (
    sym (get_elem?-none xs n h),
    record {
      branching = big;
      leaf_has = drop-past xs (n + 1) (omega arith);
      remaining_is = omega (arith, length-drop (n + 1) xs);
    },
  )

  land-Yields :
      (total : ℕ) (q : LeafRef A) (i n : ℕ) (it : Iter A) (xs : List A)
      → 3 ≤ B
      → IsCursor B total q i
      → i < length q.0.body.children
      → drop n xs ≡ items_from q i
      → it.remaining ≡ length xs
      → Returns (Yields B xs n) (land (some (q, i)) n it)
  unfolding land
  land-Yields total q i n it xs big c h e r =
      let (x, got, rest) = drop-get_elem? q.0.body.children i h in
      let parts : drop n xs ≡ x ∷ items_from q (i + 1) =
        e ∙ ap (λ ys. ys ++ items (leaves_after q.1)) rest in
      let after : drop (n + 1) xs ≡ items_from q (i + 1) = drop-add n 1 xs ∙ ap (drop 1) parts in
      rw
        (
          le→leb {a = n} {b = it.remaining} (omega (arith, r, ap length parts, length-drop n xs)),
          le→leb {a = 1} {b = it.remaining - n}
              (omega (arith, r, ap length parts, length-drop n xs)),
          index_children-some q.0.body.children i x got,
        )
        (returned (
          sym (get_elem?-drop xs n ∙ ap (λ ys. get_elem? ys 0) parts),
          record {
            branching = big;
            leaf_has = (total, record { at = c.at; chain = c.chain; inside = omega arith }, after);
            remaining_is = omega (arith, r, length-drop (n + 1) xs);
          },
        ))

  nth_leaf-Yields :
      (total : ℕ) (p : LeafRef A) (n : ℕ) (it : Iter A) (xs : List A)
      → 3 ≤ B
      → IsCursor B total p it.index
      → xs ≡ items_from p it.index
      → it.remaining ≡ length xs
      → Returns (Yields B xs n) (nth_leaf p it.index n >>= λ q. land q n it)
  unfolding nth_leaf land
  nth_leaf-Yields total p n it xs big c e r =
      rw (le→leb c.inside) (elim (le_or_lt (length p.0.body.children - it.index) n) [
        | inl le ↦ rw (le→leb le) (
            Returns-bind _
              (climb-ClimbIs A B total big (depth p.1 + 1) 0 p.0 p.1
                (n - (length p.0.body.children - it.index)) c.at (omega arith))
              (over le))
        | inr lt ↦ rw (lt→leb lt) (
            land-Yields total p (it.index + n) n it xs big (here lt) (omega arith)
              (ahead p (it.index + n) (omega arith) refl (omega arith)) r)
      ])
    where
      wp : ℕ
      wp = weight (leaves_before p.1)

      here : n < length p.0.body.children - it.index → IsCursor B total p (it.index + n)
      here lt = record { at = c.at; chain = c.chain; inside = omega arith }

      ahead :
          (q : LeafRef A) (i : ℕ)
          → i ≤ length q.0.body.children
          → leaves_around 0 q.0 q.1 ≡ leaves_around 0 p.0 p.1
          → weight (leaves_before q.1) + i ≡ weight (leaves_before p.1) + (it.index + n)
          → drop n xs ≡ items_from q i
      ahead q i h same place =
          ap (drop n) (e ∙ items_from-drop p it.index c.inside)
          ∙ sym
              (drop-add (weight (leaves_before p.1) + it.index) n (items (leaves_around 0 p.0 p.1)))
          ∙ ap₂ (λ m vs. drop m (items vs)) (omega (arith, place)) (sym same)
          ∙ sym (items_from-drop q i h)

      over :
          length p.0.body.children - it.index ≤ n
          → (o : Option (LeafRef A × ℕ))
          → ClimbIs A B total big 0 p.0 p.1 (n - (length p.0.body.children - it.index)) o
          → Returns (Yields B xs n) (land o n it)
      over le none t = returned (
          nowhere-Yields xs n it.index big
            (omega (arith, t.1, ap length e, items_from-length p it.index, c.inside)))
      over le (some (q, i)) t =
          land-Yields total q i n it xs big
            (record {
              at = t.0;
              chain = subst IsChain (sym t.2) c.chain;
              inside = omega (arith, t.1);
            })
            t.1
            (ahead q i (omega (arith, t.1)) t.2
              (omega (arith, t.3, leaf-weight p.0.addr p.0.body, c.inside)))
            r

  -- On a well-formed iterator, `nth` returns the item that many places ahead, or `None` if there is
  -- none, and leaves a well-formed iterator over the items after it.
  pub nth_lem :
      (it : Iter A) (n : ℕ) (xs : List A) → IsIter B it xs → Returns (Yields B xs n) (nth it n)
  unfolding nth
  nth_lem it n xs v = go it.leaf v.leaf_has
    where
      go :
          (leaf : Option (LeafRef A))
          → LeafHas B leaf it.index xs
          → Returns (Yields B xs n) (nth (record it { leaf = leaf }) n)
      go none nothing =
          returned (nowhere-Yields xs n it.index v.branching (omega (arith, ap length nothing)))
      go (some p) (total, c, e) =
          nth_leaf-Yields total p n (record it { leaf = some p }) xs v.branching c e v.remaining_is
