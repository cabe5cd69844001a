-- ===== src/Insert/Loop.antt =====
-- The loop of `insert` of src/insert.rs, up to the root.
use btree_vec.Common.{
  ◌⊎◌, ℕ, suc, ◌+◌, ◌≤◌, ◌≡◌, refl, sym, ap, ◌∙◌, inl, inr, Option, none, some, [], ok, Returns,
  returned, Returns-bind, Returns-map, append-nil, arith, length, drop, replicate, length-drop,
  length-replicate,
}
use btree_vec.Node.{Ptr, Cell, new_prefix, set_prefix, Allocator}
use btree_vec.Node.Internal.{inserted, new_internal, reindex}
use btree_vec.Node.Internal.Inserting.{simple_insert_lem}
use btree_vec.Tree.{Body, Tree, Frame, Above, top, under, Root, plug}
use btree_vec.Tree.Parents.{into_parent-under, into_parent-top}
use btree_vec.Tree.Valid.{depth, weight-nil, IsRoot, root_leaves}
use btree_vec.Insert.{insertion, done, handle_insertion, grow_root, insert_loop, update_parent}
use btree_vec.Insert.Pending.{IsPending, all_leaves}
use btree_vec.Insert.Parent.{update_parent-none, update_parent-some}

module _ {ℓ} {A : Type ℓ} where
  -- The rounds of the loop: one for each node above, two for a new root, and one to return.
  abbrev pub rounds : {h : ℕ} → Above A h → ℕ → ℕ
  rounds top fuel = suc (suc (suc fuel))
  rounds (under f k) fuel = suc (rounds k fuel)

  pub rounds_lem : {h : ℕ} (k : Above A h) (fuel : ℕ) → rounds k fuel ≡ depth k + 3 + fuel
  rounds_lem top fuel = omega arith
  rounds_lem (under f k) fuel = omega (arith, rounds_lem k fuel)

module _ {ℓ} (A : Type ℓ) (B total : ℕ) (al : Allocator) where
  -- The tree below the root `r` is well formed and has the leaves of the insertion at hand.
  abbrev Finished : (h : ℕ) → Tree A h → Option (Tree A h) → Above A h → Root A × al.State → Type ℓ
  Finished h c new k r = IsRoot B r.0 × (root_leaves r.0 ≡ all_leaves A h c new k)

  handle-top_none :
      (h : ℕ) (c : Tree A h) (s : al.State)
      → c.prefix.parent ≡ none
      → handle_insertion B al c none top total s ≡ ok (done h c, s)
  unfolding handle_insertion grow_root
  handle-top_none h c s e = rw (into_parent-top c e)

  handle-top_some :
      (h : ℕ) (c m : Tree A h) (s : al.State)
      → c.prefix.parent ≡ none
      → c.prefix.index ≡ 0
      → 3 ≤ B
      → handle_insertion B al c (some m) top total s
        ≡ update_parent B al
            (inserted B (new_internal B (al.allocate s).0) 0 (c, total))
            top
            0
            (some m)
            (al.allocate s).1
  unfolding handle_insertion grow_root
  handle-top_some h c m s e i big =
      rw
        (
          into_parent-top c e,
          simple_insert_lem B (new_internal B (al.allocate s).0) 0 (c, total) (omega arith)
              (omega arith),
        )
        (ap
          (λ j.
            update_parent B al (inserted B (new_internal B (al.allocate s).0) 0 (c, total)) top j
              (some m) (al.allocate s).1)
          i)

  handle-under :
      (h : ℕ) (c : Tree A h) (new : Option (Tree A h)) (f : Cell (Frame (Body A h)))
      (k : Above A (suc h)) (s : al.State)
      → c.prefix.parent ≡ some f.addr
      → c.prefix.index ≡ length f.body.before
      → handle_insertion B al c new (under f k) total s
        ≡ update_parent B al (plug f c) k (length f.body.before) new s
  unfolding handle_insertion
  handle-under h c new f k s e i =
      rw (into_parent-under c f k e) (ap (λ j. update_parent B al (plug f c) k j new s) i)

  top-none :
      (fuel h : ℕ) (c : Tree A h) (n : ℕ) (s : al.State)
      → IsPending A B total h c none top n
      → Returns
          (Finished h c none top)
          (insert_loop B al (suc (suc fuel)) (insertion h c none top) total s)
  unfolding insert_loop
  top-none fuel h c n s v = rw (handle-top_none h c s v.parent_is) (
      returned (
        record { parent_is = v.parent_is; index_is = v.index_is; tree = v.tree; long = v.new_is },
        simp append-nil,
      ))

  module _ (big : 3 ≤ B) where
    last_round :
        (fuel h : ℕ) (c : Tree A h) (split : Option (Tree A h)) (n : ℕ) (s : al.State)
        → (split ≡ none) ⊎ (0 + 1 ≡ B)
        → IsPending A B total h c split top n
        → Returns
            (Finished h c split top)
            (insert_loop B al (suc (suc fuel)) (insertion h c split top) total s)
    last_round fuel h c none n s e v = top-none fuel h c n s v
    last_round fuel h c (some m) n s (inl e) v = absurd (cc e)
    last_round fuel h c (some m) n s (inr e) v = absurd (omega arith)

    -- A root that was split gets a new root, which is not split again.
    top-some :
        (fuel h : ℕ) (c m : Tree A h) (n : ℕ) (s : al.State)
        → IsPending A B total h c (some m) top n
        → Returns
            (Finished h c (some m) top)
            (insert_loop B al (suc (suc (suc fuel))) (insertion h c (some m) top) total s)
    unfolding insert_loop reindex
    top-some fuel h c m n s v =
        let ptr : Ptr = (al.allocate s).0 in
        let f : Cell (Frame (Body A h)) = record {
          addr = ptr;
          prefix = new_prefix;
          body = record { before = []; hole = total; after = []; spare = drop 1 (replicate B 0) };
        } in
        let c' : Tree A h = set_prefix (some ptr) 0 c in
        rw (handle-top_some h c m s v.parent_is v.index_is big) (
          Returns-bind _
            (update_parent-some B total h al f top c' n
              (record {
                capacity = omega (
                  arith,
                  length-drop {A = ℕ} 1 (replicate B 0),
                  length-replicate {0} {A = ℕ} B 0,
                );
                before_are = tt;
                after_are = tt;
              })
              (sym v.above) refl refl (omega (arith, v.above, weight-nil A)) refl refl
              (v.tree, v.new_is.1) (al.allocate s).1 m big (v.new_is.0, v.new_is.2) v.new_is.3
              v.total_is (omega arith))
            λ r next. rw (next.2) (
              Returns-map (last_round fuel (suc h) next.0 next.1 _ r.1 next.3 next.4)
                (λ q fin. (fin.0, fin.1 ∙ next.5))))

    pub loop_lem :
        (h : ℕ) (k : Above A h) (c : Tree A h) (new : Option (Tree A h)) (n fuel : ℕ) (s : al.State)
        → IsPending A B total h c new k n
        → Returns
            (Finished h c new k)
            (insert_loop B al (rounds k fuel) (insertion h c new k) total s)
    unfolding insert_loop
    loop_lem h top c none n fuel s v = top-none (suc fuel) h c n s v
    loop_lem h top c (some m) n fuel s v = top-some fuel h c m n s v
    loop_lem h (under f k) c none n fuel s v =
        rw (handle-under h c none f k s v.parent_is v.index_is) (
          Returns-bind _
            (update_parent-none B total h al f k c n v.above.0 v.above.1 v.above.2 v.above.3
              v.above.5 v.parent_is v.index_is (v.tree, v.new_is) s
              (omega (arith, v.total_is, weight-nil A)) v.above.4)
            (λ r next. rw (next.2) (
              Returns-map (loop_lem (suc h) k next.0 next.1 _ fuel r.1 next.4)
                (λ q fin. (fin.0, fin.1 ∙ next.5)))))
    loop_lem h (under f k) c (some m) n fuel s v =
        rw (handle-under h c (some m) f k s v.parent_is v.index_is) (
          Returns-bind _
            (update_parent-some B total h al f k c n v.above.0 v.above.1 v.above.2 v.above.3
              v.above.5 v.parent_is v.index_is (v.tree, v.new_is.1) s m big (v.new_is.0, v.new_is.2)
              v.new_is.3 v.total_is (omega (arith, v.above.4)))
            (λ r next. rw (next.2) (
              Returns-map (loop_lem (suc h) k next.0 next.1 _ fuel r.1 next.4)
                (λ q fin. (fin.0, fin.1 ∙ next.5)))))
