-- ===== src/Vec/Removing.antt =====
-- Removal from a vector: `remove` and `pop` of src/lib.rs.
use btree_vec.Common.{
  ℕ, zero, suc, ◌+◌, ◌-◌, ◌≤◌, ◌<◌, ◌≡◌, refl, sym, ap, ap₂, subst, ◌∙◌, Option, none, some, List,
  [], ◌∷◌, ◌++◌, ok, err, Error, Returns, returned, Returns-bind, Returns-map, arith, length, take,
  drop, Result, ◌>>=◌, get_elem?, take-append, drop-append, drop-add, get_elem?-append_right,
  length-append, append-nil, append_assoc, lt→ltb, le→ltb, length-take, length-drop, last-eq, eq→==,
  ne→==,
}
use btree_vec.Node.{Allocator}
use btree_vec.Node.Leaf.{Leaf}
use btree_vec.Tree.{Root, Above, top, leaf_for}
use btree_vec.Remove
use btree_vec.Tree.Valid.{items, weight, leaves_before, leaves_after, IsRoot, root_leaves}
use btree_vec.Tree.Descent.{IsLeafFor}
use btree_vec.Tree.Chain.{IsChain}
use btree_vec.Remove.Absorbed.{rounds, rounds_lem}
use btree_vec.Remove.FromLeaf.{remove_lem as remove_leaf_lem}
use btree_vec.Vec.{BTreeVec, remove_fuel, remove_below, remove, pop, unwrap_root}
use btree_vec.Vec.Valid.{contents, IsVec, root_items}
use btree_vec.Vec.Get.{leaf_for_root, leaf_items, leaf_index}

module _ {ℓ} {A : Type ℓ} where
  -- `ys` is `xs` without `x`, which stands at the index `i`.
  pub record Removes (i : ℕ) (x : A) (xs ys : List A) : Type ℓ where
    pub item_is : get_elem? xs i ≡ some x
    pub others : ys ≡ take i xs ++ drop (i + 1) xs

  cut_at :
      (xs : List A) (i : ℕ)
      → i < length xs
      → (us : List A) × (x : A) × (vs : List A) × (xs ≡ us ++ (x ∷ vs)) × (length us ≡ i)
  cut_at [] i h = absurd (omega arith)
  cut_at (x ∷ xs) zero h = ([], x, xs, refl, refl)
  cut_at (x ∷ xs) (suc i) h =
      let (us, y, vs, e, n) = cut_at xs i (omega arith) in
      (x ∷ us, y, vs, ap (λ zs. x ∷ zs) e, ap suc n)

  middle-Removes :
      (us : List A) (x : A) (vs : List A) → Removes (length us) x (us ++ (x ∷ vs)) (us ++ vs)
  middle-Removes us x vs = record {
    item_is = ap (get_elem? (us ++ (x ∷ vs))) zero_more ∙ get_elem?-append_right us (x ∷ vs) 0;
    others = sym (
        ap₂ (λ before after. before ++ after) (take-append us (x ∷ vs))
          (drop-add (length us) 1 (us ++ (x ∷ vs)) ∙ ap (drop 1) (drop-append us (x ∷ vs))));
  }
    where
      zero_more : length us ≡ length us + 0
      zero_more = omega arith

  Removes-length :
      (i : ℕ) (x : A) (xs ys : List A)
      → i < length xs
      → Removes i x xs ys
      → length xs ≡ suc (length ys)
  Removes-length i x xs ys h r = omega (
    arith,
    ap length r.others,
    length-append (take i xs) (drop (i + 1) xs),
    length-take i xs,
    length-drop (i + 1) xs,
  )

  Removes-last :
      (xs ys : List A) (x : A) (i : ℕ)
      → 0 < length xs
      → i + 1 ≡ length xs
      → Removes i x xs ys
      → xs ≡ ys ++ (x ∷ [])
  Removes-last xs ys x i h n r =
      let (us, y, e, m) = last-eq xs h in
      let place : length us ≡ i = omega (arith, m, n) in
      let r' =
        subst (λ j. Removes j x (us ++ (y ∷ [])) ys) (sym place)
          (subst (λ zs. Removes i x zs ys) e r) in
      let same = middle-Removes us y [] in
      let item : some y ≡ some x = sym same.item_is ∙ r'.item_is in
      let rest : ys ≡ us = r'.others ∙ sym same.others ∙ append-nil us in
      e ∙ ap₂ (λ zs z. zs ++ (z ∷ [])) (sym rest) (cc item)

  regroup : (a b c d : List A) → a ++ ((b ++ c) ++ d) ≡ (a ++ b) ++ (c ++ d)
  regroup a b c d = simp append_assoc

module _ {ℓ} {A : Type ℓ} (B : ℕ) (al : Allocator) where
  abbrev pub RootRemoved : Root A → ℕ → Root A × A × al.State → Type ℓ
  RootRemoved r i q =
      (IsRoot B q.0 × IsChain (root_leaves q.0))
      × Removes i q.1 (items (root_leaves r)) (items (root_leaves q.0))

  -- `remove` below the root, with another number of rounds for its loop.
  abbrev pub remove_within : ℕ → Root A → al.State → ℕ → Result (Root A × A × al.State)
  remove_within fuel r s i = do
    (leaf, j, k) ← leaf_for r.height r.node top i
    Remove.remove A B al fuel leaf k j s

  pub remove_within_lem :
      (r : Root A) (s : al.State) (i fuel : ℕ)
      → 4 ≤ B
      → IsRoot B r
      → IsChain (root_leaves r)
      → i < length (items (root_leaves r))
      → r.height + 2 ≤ fuel
      → Returns (RootRemoved r i) (remove_within fuel r s i)
  unfolding weight
  remove_within_lem r s i fuel big v chain h enough =
      Returns-bind _ (leaf_for_root B (omega arith) r v i (omega arith)) λ x f.
        let (us, item, vs, e, n) =
          cut_at x.0.body.children x.1 (f.strictly (omega (arith, h, weight_is))) in
        let extra = fuel - (r.height + 2) in
        let fuel_is : fuel ≡ rounds x.2 (fuel - (r.height + 2)) =
          omega (arith, rounds_lem x.2 (fuel - (r.height + 2)), f.deep) in
        subst (λ m. Returns (RootRemoved r i) (Remove.remove A B al m x.0 x.2 x.1 s)) (sym fuel_is)
          (subst
            (λ j. Returns (RootRemoved r i) (Remove.remove A B al (rounds x.2 extra) x.0 x.2 j s)) n
            (Returns-map
              (remove_leaf_lem A B (length (items (root_leaves r))) al big x.0 x.2 us item vs e
                f.below f.above extra s
                (subst IsChain (sym (f.same_leaves ∙ append-nil (root_leaves r))) chain))
              (λ q o.
                ((o.0, o.1), removes x f us item vs e n q.1 (items (root_leaves q.0)) o.2 o.3))))
    where
      weight_is : weight (root_leaves r) ≡ length (items (root_leaves r))
      weight_is = refl

      removes :
          (x : Leaf A × ℕ × Above A 0)
          → IsLeafFor A B (length (items (root_leaves r))) r.height r.node top i x
          → (us : List A) (item : A) (vs : List A) → x.0.body.children ≡ us ++ (item ∷ vs)
          → length us ≡ x.1
          → (got : A) (ws : List A)
          → ws ≡ items (leaves_before x.2) ++ ((us ++ vs) ++ items (leaves_after x.2))
          → got ≡ item
          → Removes i got (items (root_leaves r)) ws
      removes x f us item vs e n got ws p q =
          let all_items : items (root_leaves r)
              ≡ (items (leaves_before x.2) ++ us) ++ (item ∷ (vs ++ items (leaves_after x.2))) =
            leaf_items B (omega arith) r v i x f
            ∙ ap (λ zs. items (leaves_before x.2) ++ (zs ++ items (leaves_after x.2))) e
            ∙ regroup (items (leaves_before x.2)) us (item ∷ vs) (items (leaves_after x.2)) in
          let place : length (items (leaves_before x.2) ++ us) ≡ i = omega (
            arith,
            length-append (items (leaves_before x.2)) us,
            leaf_index B (omega arith) r v i x f,
            n,
          ) in
          subst (λ j. Removes j got (items (root_leaves r)) ws) place
            (subst (λ zs. Removes (length (items (leaves_before x.2) ++ us)) got zs ws)
              (sym all_items)
              (subst
                (λ y.
                  Removes (length (items (leaves_before x.2) ++ us)) y
                    ((items (leaves_before x.2) ++ us) ++ (item ∷ (vs ++ items (leaves_after x.2))))
                    ws)
                (sym q)
                (subst
                  (λ zs.
                    Removes (length (items (leaves_before x.2) ++ us)) item
                      ((items (leaves_before x.2) ++ us)
                        ++ (item ∷ (vs ++ items (leaves_after x.2))))
                      zs)
                  (sym (p ∙ regroup (items (leaves_before x.2)) us vs (items (leaves_after x.2))))
                  (middle-Removes (items (leaves_before x.2) ++ us) item
                    (vs ++ items (leaves_after x.2))))))

  remove_below_lem :
      (r : Root A) (s : al.State) (i : ℕ)
      → 4 ≤ B
      → IsRoot B r
      → IsChain (root_leaves r)
      → i < length (items (root_leaves r))
      → Returns (RootRemoved r i) (remove_below B al r s i)
  unfolding remove_below
  remove_below_lem r s i big v chain h =
      remove_within_lem r s i (remove_fuel r.height) big v chain h (omega arith)

  remove_root :
      (root : Option (Root A)) (size : ℕ) (s : al.State) (i : ℕ)
      → 4 ≤ B
      → IsVec {al = al} B (record { root = root; size = size; alloc = s })
      → i < size
      → Returns
          (λ q. IsVec B q.0 × Removes i q.1 (root_items root) (contents q.0))
          (remove B al (record { root = root; size = size; alloc = s }) i)
  unfolding remove unwrap_root
  remove_root none size s i big v h = absurd (omega (arith, v.size_is))
  remove_root (some r) size s i big v h = rw (lt→ltb h) (
      Returns-bind _ (remove_below_lem r s i big v.root_is.0 v.root_is.1 (omega (arith, v.size_is)))
        λ q o. returned (
          record {
            branching = v.branching;
            root_is = o.0;
            size_is = omega (
              arith,
              v.size_is,
              Removes-length i q.1 (items (root_leaves r)) (items (root_leaves q.0))
                  (omega (arith, v.size_is)) o.1,
            );
          },
          o.1,
        ))

  -- On a well-formed vector whose `B` is at least 4: below the length, `remove` returns the item at the index and leaves a
  -- well-formed vector of the others in their order; from the length on it panics.
  pub remove_lem :
      (v : BTreeVec al A) (i : ℕ)
      → 4 ≤ B
      → IsVec B v
      → (i < length (contents v)
          → Returns
              (λ q. IsVec B q.0 × Removes i q.1 (contents v) (contents q.0))
              (remove B al v i))
        × (length (contents v) ≤ i → remove B al v i ≡ err Error.panic)
  unfolding remove
  remove_lem v i big valid = (
    λ h. remove_root v.root v.size v.alloc i big valid (omega (arith, valid.size_is)),
    λ h. rw (le→ltb {a = i} {b = v.size} (omega (arith, valid.size_is))),
  )

  -- On a well-formed vector whose `B` is at least 4: `pop` gives `None` on the empty vector, which stays as it is; else it
  -- returns the last item and leaves a well-formed vector of the others.
  pub pop_lem :
      (v : BTreeVec al A)
      → 4 ≤ B
      → IsVec B v
      → (length (contents v) ≡ 0 → pop B al v ≡ ok (v, none))
        × (0 < length (contents v)
            → Returns
                (λ q.
                  IsVec B q.0
                  × (item : A) × (q.1 ≡ some item)
                  × (contents v ≡ contents q.0 ++ (item ∷ [])))
                (pop B al v))
  unfolding pop
  pop_lem v big valid = (
    λ h. rw (eq→== {a = v.size} {b = 0} (omega (arith, valid.size_is))),
    λ h. rw (ne→== {a = v.size} {b = 0} (λ e. absurd (omega (arith, valid.size_is)))) (
        Returns-bind _ ((remove_lem v (v.size - 1) big valid).0 (omega (arith, valid.size_is)))
          λ q o. returned (
            o.0,
            q.1,
            refl,
            Removes-last (contents v) (contents q.0) q.1 (v.size - 1) h
                (omega (arith, valid.size_is)) o.1,
          )),
  )
