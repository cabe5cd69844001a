-- ===== src/IterMut/Valid.antt =====
-- When a mutable iterator is well formed, and what it yields.
use btree_vec.Common.{
  ℕ, ◌+◌, ◌-◌, ◌≤◌, ◌<◌, ◌≡◌, refl, sym, ap, ap₂, subst, ◌∙◌, Option, none, some, List, length, set,
  get_elem?, Returns, returned, Returns-bind, arith, get_elem?-some, length-set, append-nil,
}
use btree_vec.Node.{Allocator}
use btree_vec.Tree.{Root}
use btree_vec.Tree.Chain.{IsChain}
use btree_vec.Tree.Items.{get_elem?-around, refill_lem, set-around, write_lem}
use btree_vec.Tree.Position.{IsAt, leaves_around}
use btree_vec.Tree.Valid.{items, weight, leaves_before, root_leaves}
use btree_vec.Vec.{BTreeVec}
use btree_vec.Vec.Valid.{IsVec, contents, root_items, IsRootOption}
use btree_vec.Vec.Get.{leaf_for_root}
use btree_vec.Iter.{LeafRef}
use btree_vec.Iter.Start.{leaf_for_root-IsCursor, leaf_for_root-before}
use btree_vec.IterMut.{IterMut, Step, iter_mut, write_item, refer}

module _ {ℓ} {A : Type ℓ} (B : ℕ) where
  -- The leaf `p` stands in a well-formed tree with the items `all`, and the item at its `index` is
  -- that at `pos` of them, or would be.
  pub record IsAtItem (p : LeafRef A) (index : ℕ) (all : List A) (pos : ℕ) : Type ℓ where
    pub total : ℕ
    pub at : IsAt B total 0 p.0 p.1
    pub chain : IsChain (leaves_around 0 p.0 p.1)
    pub inside : index ≤ length p.0.body.children
    pub all_are : all ≡ items (leaves_around 0 p.0 p.1)
    pub pos_is : pos ≡ weight (leaves_before p.1) + index

  -- Without a leaf, the iterator has come to the end.
  abbrev pub StandsAt : Option (LeafRef A) → ℕ → List A → ℕ → Type ℓ
  StandsAt none index all pos = Unit {ℓ} × (length all ≤ pos)
  StandsAt (some p) index all pos = IsAtItem p index all pos

module _ {ℓ} {A : Type ℓ} {al : Allocator} (B : ℕ) where
  -- The iterator is well formed, its vector has the items `all`, and that at `pos` is next.
  pub record IsIterMut (it : IterMut al A) (all : List A) (pos : ℕ) : Type ℓ where
    pub vec_is : IsVec B it.vec
    pub all_are : contents it.vec ≡ all
    pub stands : StandsAt B it.leaf it.index all pos
    pub remaining_is : it.remaining ≡ length all - pos

  -- What a call yields of the items `all`: nothing, if there is no item at `pos`, or a reference to it,
  -- through which a write replaces that item alone.
  abbrev pub StepIs : List A → ℕ → Step al A → Type ℓ
  StepIs all pos (none, it) = (length all ≤ pos) × IsIterMut it all (length all)
  StepIs all pos (some m, it) =
      (get_elem? all pos ≡ some m.item)
      × IsIterMut it all (pos + 1)
      × ((y : A) → IsIterMut (m.write y) (set all pos y) (pos + 1))

  pub finished-StepIs :
      (it : IterMut al A) (all : List A) (pos : ℕ)
      → IsVec B it.vec
      → contents it.vec ≡ all
      → length all ≤ pos
      → it.remaining ≡ 0
      → StepIs all pos (none, record it { leaf = none })
  finished-StepIs it all pos v e h r = (
    h,
    record { vec_is = v; all_are = e; stands = (tt, omega arith); remaining_is = omega (arith, r) },
  )

  pub refer-StepIs :
      (p : LeafRef A) (i : ℕ) (it : IterMut al A) (all : List A) (pos : ℕ)
      → IsVec B it.vec
      → contents it.vec ≡ all
      → IsAtItem B p i all pos
      → i < length p.0.body.children
      → it.leaf ≡ some p
      → it.index ≡ i + 1
      → it.remaining ≡ length all - (pos + 1)
      → Returns (StepIs all pos) (refer p i it)
  unfolding refer weight
  refer-StepIs p i it all pos v e s inside leaf index r =
      let (x, got) = get_elem?-some p.0.body.children i inside in
      rw (got, refer)
        (returned (
          rw (s.all_are, s.pos_is) (get_elem?-around p.0 p.1 i inside ∙ got),
          record {
            vec_is = v;
            all_are = e;
            stands =
                subst (λ l. StandsAt B l it.index all (pos + 1)) (sym leaf)
                  (record {
                    total = s.total;
                    at = s.at;
                    chain = s.chain;
                    inside = omega (arith, index);
                    all_are = s.all_are;
                    pos_is = omega (arith, index, s.pos_is);
                  });
            remaining_is = r;
          },
          λ y. written y,
        ))
    where
      set_all :
          (y : A)
          → set (items (leaves_around 0 p.0 p.1)) (weight (leaves_before p.1) + i) y ≡ set all pos y
      set_all y = sym (ap₂ (λ zs j. set zs j y) s.all_are s.pos_is)

      written : (y : A) → IsIterMut (write_item p i it y) (set all pos y) (pos + 1)
      written y =
          let (root, chain, same) = write_lem p.0 p.1 B s.total i y inside s.at s.chain in
          let (at', chain') =
            refill_lem p.0 p.1 B s.total (set p.0.body.children i y)
              (length-set p.0.body.children i y) s.at s.chain in
          record {
            vec_is = record {
              branching = v.branching;
              root_is = (root, chain);
              size_is =
                  v.size_is
                  ∙ ap length e
                  ∙ sym (length-set all pos y)
                  ∙ ap length (sym (same ∙ set_all y));
            };
            all_are = same ∙ set_all y;
            stands = record {
              total = s.total;
              at = at';
              chain = chain';
              inside = omega (arith, index, length-set p.0.body.children i y);
              all_are = sym (set-around p.0 p.1 i y inside ∙ set_all y);
              pos_is = omega (arith, index, s.pos_is);
            };
            remaining_is = omega (arith, r, length-set all pos y);
          }

  -- `iter_mut` stands at the first item.
  pub iter_mut_lem :
      (v : BTreeVec al A) → IsVec B v → Returns (λ it. IsIterMut it (contents v) 0) (iter_mut v)
  unfolding iter_mut weight
  iter_mut_lem v valid = go v.root valid.root_is valid.size_is
    where
      go :
          (root : Option (Root A))
          → IsRootOption B root
          → v.size ≡ length (root_items root)
          → Returns (λ it. IsIterMut it (root_items root) 0) (iter_mut (record v { root = root }))
      go none h e = returned (record {
        vec_is = record { branching = valid.branching; root_is = tt; size_is = e };
        all_are = refl;
        stands = (tt, omega arith);
        remaining_is = e;
      })
      go (some r) h e =
          Returns-bind _ (leaf_for_root B valid.branching r h.0 0 (omega arith)) λ x f.
            let c = leaf_for_root-IsCursor B valid.branching r h.0 h.1 0 x f in
            returned (record {
              vec_is = record { branching = valid.branching; root_is = h; size_is = e };
              all_are = refl;
              stands = record {
                total = length (items (root_leaves r));
                at = c.at;
                chain = c.chain;
                inside = omega arith;
                all_are = ap items (sym (f.same_leaves ∙ append-nil (root_leaves r)));
                pos_is =
                    omega (arith, ap length (leaf_for_root-before B valid.branching r h.0 h.1 x f));
              };
              remaining_is = omega (arith, e);
            })
