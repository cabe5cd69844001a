-- ===== src/Vec/Inserting.antt =====
-- Insertion into a vector: `create_in`, `insert` and `push` of src/lib.rs.
use btree_vec.Common.{
  ℕ, ◌+◌, ◌-◌, Result, ◌>>=◌, ◌≤◌, ◌<◌, ◌≡◌, refl, sym, ap, subst, ◌∙◌, Option, none, some, [], ◌∷◌,
  ◌++◌, err, Error, Returns, returned, Returns-bind, Returns-map, arith, length, append-nil,
  insert_at, insert_at-length, insert_at-append_right, insert_at-append_left, length-insert_at,
  le→leb, lt→leb,
}
use btree_vec.Node.{Allocator}
use btree_vec.Node.Leaf.{Leaf}
use btree_vec.Insert
use btree_vec.Tree.{Root, Above, top, leaf_for}
use btree_vec.Tree.Valid.{items, leaves_before, leaves_after, IsRoot, root_leaves}
use btree_vec.Tree.Descent.{IsLeafFor}
use btree_vec.Tree.Chain.{IsChain}
use btree_vec.Insert.Loop.{rounds, rounds_lem}
use btree_vec.Insert.Correct.{insert_lem as insert_leaf_lem}
use btree_vec.Vec.{BTreeVec, create_in, get_or_insert_root, insert_fuel, insert_below, insert, push}
use btree_vec.Vec.Valid.{contents, IsVec, IsRootOption, root_items}
use btree_vec.Vec.Get.{leaf_for_root, leaf_items, leaf_index}

module _ {ℓ} {A : Type ℓ} (B : ℕ) (al : Allocator) where
  -- The root `r'` is that of `r` with an insertion.
  abbrev pub Inserted : Root A → ℕ → A → Root A × al.State → Type ℓ
  Inserted r i item r' =
      (IsRoot B r'.0 × IsChain (root_leaves r'.0))
      × (items (root_leaves r'.0) ≡ insert_at i item (items (root_leaves r)))

  -- `insert` below the root, with another number of rounds for its loop.
  abbrev pub insert_within : ℕ → Root A → al.State → ℕ → A → ℕ → Result (Root A × al.State)
  insert_within fuel r s i item size = do
    (leaf, j, k) ← leaf_for r.height r.node top i
    Insert.insert B al fuel leaf k j item size s

  pub insert_within_lem :
      (r : Root A) (s : al.State) (i : ℕ) (item : A) (fuel : ℕ)
      → 3 ≤ B
      → IsRoot B r
      → IsChain (root_leaves r)
      → i ≤ length (items (root_leaves r))
      → r.height + 3 ≤ fuel
      → Returns (Inserted r i item) (insert_within fuel r s i item (length (items (root_leaves r))))
  insert_within_lem r s i item fuel big v chain h enough =
      Returns-bind _ (leaf_for_root B big r v i h) λ x f.
        let fuel_is : fuel ≡ rounds x.2 (fuel - (r.height + 3)) =
          omega (arith, rounds_lem x.2 (fuel - (r.height + 3)), f.deep) in
        subst
          (λ n.
            Returns (Inserted r i item)
              (Insert.insert B al n x.0 x.2 x.1 item (length (items (root_leaves r))) s))
          (sym fuel_is)
          (Returns-map
            (insert_leaf_lem A B (length (items (root_leaves r))) al x.0 x.2 x.1 item f.below
              f.above f.inside big (fuel - (r.height + 3)) s)
            (λ r' q. (
              (q.0, q.2 (subst IsChain (sym (f.same_leaves ∙ append-nil (root_leaves r))) chain)),
              q.1 ∙ sym (inserted_items x f),
            )))
    where
      inserted_items :
          (x : Leaf A × ℕ × Above A 0)
          → IsLeafFor A B (length (items (root_leaves r))) r.height r.node top i x
          → insert_at i item (items (root_leaves r))
            ≡ items (leaves_before x.2)
              ++ (insert_at x.1 item x.0.body.children ++ items (leaves_after x.2))
      inserted_items x f =
          ap (insert_at i item) (leaf_items B big r v i x f)
          ∙ ap
              (λ j.
                insert_at j item
                  (items (leaves_before x.2) ++ (x.0.body.children ++ items (leaves_after x.2))))
              (leaf_index B big r v i x f)
          ∙ insert_at-append_right (items (leaves_before x.2)) _ x.1 item
          ∙ ap (λ xs. items (leaves_before x.2) ++ xs)
              (insert_at-append_left x.0.body.children (items (leaves_after x.2)) x.1 item f.inside)

  insert_below_lem :
      (r : Root A) (s : al.State) (i : ℕ) (item : A)
      → 3 ≤ B
      → IsRoot B r
      → IsChain (root_leaves r)
      → i ≤ length (items (root_leaves r))
      → Returns (Inserted r i item) (insert_below B al r s i item (length (items (root_leaves r))))
  unfolding insert_below
  insert_below_lem r s i item big v chain h =
      insert_within_lem r s i item (insert_fuel r.height) big v chain h (omega arith)

  -- A vector as it is when `insert` has made sure that there is a root.
  pub root_lem :
      (v : BTreeVec al A)
      → IsVec B v
      → IsRoot B (get_or_insert_root B al v).0
        × IsChain (root_leaves (get_or_insert_root B al v).0)
        × (items (root_leaves (get_or_insert_root B al v).0) ≡ contents v)
  unfolding get_or_insert_root
  root_lem v valid = go v.root valid.root_is
    where
      go :
          (root : Option (Root A))
          → IsRootOption B root
          → IsRoot B (get_or_insert_root B al (record v { root = root })).0
            × IsChain (root_leaves (get_or_insert_root B al (record v { root = root })).0)
            × (items (root_leaves (get_or_insert_root B al (record v { root = root })).0)
                ≡ root_items root)
      go none h = (
        record { parent_is = refl; index_is = refl; tree = omega arith; long = omega arith },
        (refl, tt),
        refl,
      )
      go (some r) h = (h.0, h.1, refl)

  -- On a well-formed vector: up to the length, `insert` returns, puts the item in front of the one at
  -- the index, and leaves a well-formed vector; past the length it panics.
  pub insert_lem :
      (v : BTreeVec al A) (i : ℕ) (item : A)
      → IsVec B v
      → (i ≤ length (contents v)
          → Returns
              (λ v'. IsVec B v' × (contents v' ≡ insert_at i item (contents v)))
              (insert B al v i item))
        × (length (contents v) < i → insert B al v i item ≡ err Error.panic)
  unfolding insert
  insert_lem v i item valid = (
    λ h.
        let (rooted, chain, same) = root_lem v valid in
        let size_is : v.size ≡ length (items (root_leaves (get_or_insert_root B al v).0)) =
          valid.size_is ∙ ap length (sym same) in
        rw (le→leb {a = i} {b = v.size} (omega (arith, valid.size_is))) (
          Returns-bind _
            (subst
              (λ n. Returns (Inserted (get_or_insert_root B al v).0 i item) (
                insert_below B al (get_or_insert_root B al v).0 (get_or_insert_root B al v).1 i item
                  n))
              (sym size_is)
              (insert_below_lem (get_or_insert_root B al v).0 (get_or_insert_root B al v).1 i item
                valid.branching rooted chain (omega (arith, size_is, valid.size_is))))
            λ r q. returned (
              record {
                branching = valid.branching;
                root_is = q.0;
                size_is = omega (
                  arith,
                  ap length q.1,
                  length-insert_at i item (items (root_leaves (get_or_insert_root B al v).0))
                      (omega (arith, size_is, valid.size_is)),
                );
              },
              q.1 ∙ ap (insert_at i item) same,
            )),
    λ h. rw (lt→leb {a = i} {b = v.size} (omega (arith, valid.size_is))),
  )

  -- On a well-formed vector, `push` returns, puts the item at the end and leaves a well-formed
  -- vector.
  pub push_lem :
      (v : BTreeVec al A) (item : A)
      → IsVec B v
      → Returns (λ v'. IsVec B v' × (contents v' ≡ contents v ++ (item ∷ []))) (push B al v item)
  unfolding push
  push_lem v item valid =
      subst
        (λ n.
          Returns (λ v'. IsVec B v' × (contents v' ≡ contents v ++ (item ∷ [])))
            (insert B al v n item))
        (sym valid.size_is)
        (Returns-map ((insert_lem v (length (contents v)) item valid).0 (omega arith))
          (λ v' q. (q.0, q.1 ∙ insert_at-length item (contents v))))

  -- A new vector is empty and well formed, and `B < 3` panics.
  pub create_in_lem :
      (s : al.State)
      → (3 ≤ B → Returns (λ v. IsVec B v × (contents {A = A} v ≡ [])) (create_in B al s))
        × (B < 3 → create_in {A = A} B al s ≡ err Error.panic)
  unfolding create_in
  create_in_lem s = (
    λ h.
        rw (le→leb {a = 3} {b = B} h)
          (returned (record { branching = h; root_is = tt; size_is = refl }, refl)),
    λ h. rw (lt→leb {a = 3} {b = B} h),
  )
