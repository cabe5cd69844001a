-- ===== src/IterMut/Nth.antt =====
-- `nth` of a mutable iterator.
use btree_vec.Common.{
  ℕ, ◌+◌, ◌-◌, ◌≤◌, ◌<◌, ◌≡◌, refl, sym, ap, subst, ◌∙◌, inl, inr, Option, none, some, List, length,
  Returns, returned, Returns-bind, Returns-map, arith, le→leb, lt→leb, le_or_lt,
}
use btree_vec.Node.{Allocator}
use btree_vec.Tree.Chain.{IsChain}
use btree_vec.Tree.Items.{length-around}
use btree_vec.Tree.Valid.{items, leaf-weight, depth}
use btree_vec.Vec.Valid.{IsVec, contents}
use btree_vec.Iter.{LeafRef, nth_leaf}
use btree_vec.Iter.Climb.{ClimbIs, climb-ClimbIs}
use btree_vec.IterMut.{IterMut, land, nth}
use btree_vec.IterMut.Next.{pos_inside}
use btree_vec.IterMut.Valid.{IsAtItem, StandsAt, IsIterMut, StepIs, finished-StepIs, refer-StepIs}

module _ {ℓ} {A : Type ℓ} (B : ℕ) where
  -- Where the item at `pos` is, if there is one.
  abbrev pub PlaceIs : List A → ℕ → Option (LeafRef A × ℕ) → Type ℓ
  PlaceIs all pos none = Unit {ℓ} × (length all ≤ pos)
  PlaceIs all pos (some (q, i)) = IsAtItem B q i all pos × (i < length q.0.body.children)

  nth_leaf-PlaceIs :
      (big : 3 ≤ B) (p : LeafRef A) (index n : ℕ) (all : List A) (pos : ℕ)
      → IsAtItem B p index all pos
      → Returns (PlaceIs all (pos + n)) (nth_leaf p index n)
  unfolding nth_leaf
  nth_leaf-PlaceIs big p index n all pos s =
      rw (le→leb s.inside) (elim (le_or_lt (length p.0.body.children - index) n) [
        | inl le ↦ rw (le→leb le) (
            Returns-map
              (climb-ClimbIs A B s.total big (depth p.1 + 1) 0 p.0 p.1
                (n - (length p.0.body.children - index)) s.at (omega arith))
              (over le))
        | inr lt ↦ rw (lt→leb lt) (
            returned (
              record {
                total = s.total;
                at = s.at;
                chain = s.chain;
                inside = omega arith;
                all_are = s.all_are;
                pos_is = omega (arith, s.pos_is);
              },
              omega arith,
            ))
      ])
    where
      over :
          length p.0.body.children - index ≤ n
          → (o : Option (LeafRef A × ℕ))
          → ClimbIs A B s.total big 0 p.0 p.1 (n - (length p.0.body.children - index)) o
          → PlaceIs all (pos + n) o
      over le none t =
          (tt, omega (arith, t.1, s.pos_is, s.inside, ap length s.all_are, length-around p.0 p.1))
      over le (some (q, i)) t = (
        record {
          total = s.total;
          at = t.0;
          chain = subst IsChain (sym t.2) s.chain;
          inside = omega (arith, t.1);
          all_are = s.all_are ∙ ap items (sym t.2);
          pos_is = omega (arith, t.3, s.pos_is, s.inside, leaf-weight p.0.addr p.0.body);
        },
        t.1,
      )

module _ {ℓ} {A : Type ℓ} {al : Allocator} (B : ℕ) where
  land-StepIs :
      (o : Option (LeafRef A × ℕ)) (n : ℕ) (it : IterMut al A) (all : List A) (pos : ℕ)
      → IsVec B it.vec
      → contents it.vec ≡ all
      → PlaceIs B all (pos + n) o
      → it.remaining ≡ length all - pos
      → Returns (StepIs B all (pos + n)) (land o n it)
  unfolding land
  land-StepIs none n it all pos v e s r =
      returned (finished-StepIs B (record it { remaining = 0 }) all (pos + n) v e s.1 refl)
  land-StepIs (some (q, i)) n it all pos v e s r =
      let there : pos + n < length all = pos_inside B q i all (pos + n) s.0 s.1 in
      rw
        (
          le→leb {a = n} {b = it.remaining} (omega (arith, r)),
          le→leb {a = 1} {b = it.remaining - n} (omega (arith, r)),
        )
        (refer-StepIs B q i
          (record it { leaf = some q; index = i + 1; remaining = (it.remaining - n) - 1 }) all
          (pos + n) v e s.0 s.1 refl refl (omega (arith, r)))

  -- On a well-formed mutable iterator before the item at `pos` of the items `all` of its vector, `nth`
  -- returns a reference to the item `n` places after that, or `None` if there is none. A write
  -- through the reference replaces that item alone, in a well-formed vector, and with or without it
  -- the iterator goes on after that item.
  pub nth_mut :
      (it : IterMut al A) (n : ℕ) (all : List A) (pos : ℕ)
      → IsIterMut B it all pos
      → Returns (StepIs B all (pos + n)) (nth it n)
  unfolding nth
  nth_mut it n all pos v = go it.leaf v.stands
    where
      go :
          (leaf : Option (LeafRef A))
          → StandsAt B leaf it.index all pos
          → Returns (StepIs B all (pos + n)) (nth (record it { leaf = leaf }) n)
      go none s = returned (
          finished-StepIs B (record it { remaining = 0 }) all (pos + n) v.vec_is v.all_are
            (omega (arith, s.1)) refl)
      go (some p) s =
          Returns-bind _ (nth_leaf-PlaceIs B v.vec_is.branching p it.index n all pos s) λ o q.
            land-StepIs o n (record it { leaf = some p }) all pos v.vec_is v.all_are q
              v.remaining_is
