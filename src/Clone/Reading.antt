-- ===== src/Clone/Reading.antt =====
-- `get` on a clone. The way down reads no index of a node, so that it finds the same places.
use btree_vec.Common.{
  ℕ, zero, suc, ◌≡◌, refl, sym, ap, subst, ◌∙◌, Option, none, some, List, [], ◌∷◌, ◌++◌, Result, ok,
  err, Error, ◌>>=◌, map, get_elem?, ltb, if◌then◌else◌, Bool, true, false, ◌-◌, ◌≤◌, Returns,
  Returns-map,
}
use btree_vec.Node.{Ptr, Allocator}
use btree_vec.Node.Leaf.{Leaf}
use btree_vec.Node.Internal.{Entry}
use btree_vec.Tree.{Tree, Above, under, top, frame, find_child, leaf_for, Root}
use btree_vec.Vec.{BTreeVec, get, index_children, unwrap_root}
use btree_vec.Vec.Valid.{IsVec, contents}
use btree_vec.Vec.Get.{get_lem}
use btree_vec.Clone.{clone}
use btree_vec.Clone.Nodes.{EntriesClone, Clones, RootClone, clone_lem}

-- Two calls return related values, or stop in the same way.
data Alike {ℓ κ} {X : Type ℓ} {Y : Type ℓ} (R : X → Y → Type κ)
    : Result X → Result Y → Type (ℓ ⊔ κ) where
  both_ok : {x : X} {y : Y} → R x y → Alike R (ok x) (ok y)
  both_err : (e : Error) → Alike R (err e) (err e)

Alike-bind {ℓ κ κ'} :
    {X Y X' Y' : Type ℓ} {R : X → Y → Type κ} {S : X' → Y' → Type κ'} {m : Result X} {n : Result Y}
    (f : X → Result X') (g : Y → Result Y')
    → Alike R m n
    → ((x : X) (y : Y) → R x y → Alike S (f x) (g y))
    → Alike S (m >>= f) (n >>= g)
Alike-bind f g (both_ok r) next = next _ _ r
Alike-bind f g (both_err e) next = both_err e

Alike-if {ℓ κ} :
    {X Y : Type ℓ} {R : X → Y → Type κ} {m m' : Result X} {n n' : Result Y} (b : Bool)
    → Alike R m n
    → Alike R m' n'
    → Alike R (if b then m else m') (if b then n else n')
Alike-if true p q = p
Alike-if false p q = q

module _ {ℓ} {C : Type ℓ} (R : Ptr → C → C → Type ℓ) (a : Ptr) where
  -- The same place inside of children that are clones.
  abbrev PlaceAlike :
      List (Entry C) × Entry C × List (Entry C) × ℕ
      → List (Entry C) × Entry C × List (Entry C) × ℕ
      → Type ℓ
  PlaceAlike x y = R y.1.0.addr x.1.0.body y.1.0.body × (y.3 ≡ x.3)

  find_child-Alike :
      (before before' es es' : List (Entry C)) (i : ℕ)
      → EntriesClone R a es es'
      → Alike PlaceAlike (find_child before es i) (find_child before' es' i)
  unfolding find_child
  find_child-Alike before before' [] es' i q = rw q (both_err Error.panic)
  find_child-Alike before before' ((c, n) ∷ []) es' i (c', fs, e, p, r, q) =
      rw (e, q) (both_ok (r, refl))
  find_child-Alike before before' ((c, n) ∷ ((d, m) ∷ es)) es' i
        (c', fs, e, p, r, (d', gs, e', p', r', q)) =
      rw (e, e')
        (Alike-if (ltb i n) (both_ok (r, refl)) (
          find_child-Alike (before ++ ((c, n) ∷ [])) (before' ++ ((c', n) ∷ [])) ((d, m) ∷ es)
            ((d', m) ∷ gs) (i - n) (d', gs, refl, p', r', q)))

module _ {ℓ} {A : Type ℓ} (clone_item : A → A) where
  abbrev LeafAlike : Leaf A × ℕ × Above A 0 → Leaf A × ℕ × Above A 0 → Type ℓ
  LeafAlike x y = (y.0.body.children ≡ map clone_item x.0.body.children) × (y.1 ≡ x.1)

  leaf_for-Alike :
      (h : ℕ) (c c' : Tree A h) (k k' : Above A h) (i : ℕ)
      → Clones clone_item h c'.addr c.body c'.body
      → Alike LeafAlike (leaf_for h c k i) (leaf_for h c' k' i)
  unfolding leaf_for
  leaf_for-Alike zero c c' k k' i q = both_ok (q.0, refl)
  leaf_for-Alike (suc h) c c' k k' i q =
      Alike-bind _ _
        (find_child-Alike (Clones clone_item h) c'.addr [] [] c.body.children c'.body.children i
          q.0)
        λ (before, e, after, j) (before', e', after', j') w.
          subst
            (λ n.
              Alike LeafAlike (leaf_for h e.0 (under (frame c before e.1 after) k) j)
                (leaf_for h e'.0 (under (frame c' before' e'.1 after') k') n))
            (sym w.1) (leaf_for-Alike h e.0 e'.0 _ _ j w.0)

  -- An item and its clone.
  abbrev ItemAlike : Option A → Option A → Type ℓ
  ItemAlike none o = o ≡ none
  ItemAlike (some x) o = o ≡ some (clone_item x)

  get_elem?-ItemAlike :
      (xs : List A) (i : ℕ) → ItemAlike (get_elem? xs i) (get_elem? (map clone_item xs) i)
  get_elem?-ItemAlike [] i = refl
  get_elem?-ItemAlike (x ∷ xs) zero = refl
  get_elem?-ItemAlike (x ∷ xs) (suc i) = get_elem?-ItemAlike xs i

  ItemAlike-eq :
      (xs : List A) (i : ℕ) (o : Option A)
      → ItemAlike (get_elem? xs i) o
      → o ≡ get_elem? (map clone_item xs) i
  ItemAlike-eq [] i o q = q
  ItemAlike-eq (x ∷ xs) zero o q = q
  ItemAlike-eq (x ∷ xs) (suc i) o q = ItemAlike-eq xs i o q

  index_children-Alike :
      (xs : List A) (i : ℕ)
      → Alike ItemAlike (index_children xs i) (index_children (map clone_item xs) i)
  unfolding index_children
  index_children-Alike [] i = both_err Error.panic
  index_children-Alike (x ∷ xs) zero = both_ok refl
  index_children-Alike (x ∷ xs) (suc i) = index_children-Alike xs i

ok-injective {ℓ} : {X : Type ℓ} {x y : X} → ok x ≡ ok y → x ≡ y
ok-injective e = cc

-- What the second call returns, where the first is known to return.
Alike-ok {ℓ κ} :
    {X Y : Type ℓ} {R : X → Y → Type κ} {m : Result X} {n : Result Y} {x : X}
    → Alike R m n
    → m ≡ ok x
    → (y : Y) × (n ≡ ok y) × R x y
Alike-ok {R = R} (both_ok {y = y} r) e = (y, refl, subst (λ z. R z y) (ok-injective e) r)
Alike-ok (both_err e) e' = absurd (cc)

module _ {ℓ} {A : Type ℓ} (al : Allocator) (clone_item : A → A) (B : ℕ) where
  get-Alike :
      (big : 3 ≤ B) (v v' : BTreeVec al A) (i : ℕ)
      → v'.size ≡ v.size
      → RootClone al clone_item B big v.root v'.root
      → Alike (ItemAlike clone_item) (get v i) (get v' i)
  unfolding get unwrap_root
  get-Alike big v v' i e q = rw e (Alike-if (ltb i v.size) (go v.root v'.root q) (both_ok refl))
    where
      go :
          (root root' : Option (Root A))
          → RootClone al clone_item B big root root'
          → Alike
              (ItemAlike clone_item)
              (unwrap_root root >>= λ r.
                leaf_for r.height r.node top i >>= λ x. index_children x.0.body.children x.1)
              (unwrap_root root' >>= λ r.
                leaf_for r.height r.node top i >>= λ x. index_children x.0.body.children x.1)
      go none root' q = rw q (both_err Error.panic)
      go (some r) root' (c, e, p, q) = rw e (
          Alike-bind _ _ (leaf_for-Alike clone_item r.height r.node c top top i q)
            λ x y w. rw (w.0, w.1) (index_children-Alike clone_item x.0.body.children x.1))

  -- On a well-formed vector, `clone` returns, and `get` on the clone returns the clone of the item at
  -- the index, and `None` past the end; it never panics.
  pub clone-get :
      (clone_alloc : al.State → al.State) (v : BTreeVec al A)
      → IsVec B v
      → Returns
          (λ q. (i : ℕ) → get q.1 i ≡ ok (get_elem? (map clone_item (contents v)) i))
          (clone al clone_item clone_alloc v)
  clone-get clone_alloc v valid =
      Returns-map (clone_lem al clone_item B clone_alloc v valid) λ q w i.
        let (o, e, like) =
          Alike-ok (get-Alike valid.branching v q.1 i w.2 w.4) (get_lem B v i valid) in
        e ∙ ap ok (ItemAlike-eq clone_item (contents v) i o like)
