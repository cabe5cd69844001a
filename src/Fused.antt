-- ===== src/Fused.antt =====
-- `FusedIterator` of the three iterators of src/lib.rs.
use btree_vec.Common.{
  IfOk-if, ℕ, ◌+◌, ◌≡◌, ◌≢◌, refl, Option, none, some, List, Result, ok, err, Error, IfOk, if_ok,
  if_err, IfOk-any, IfOk-bind, IfOk-map, length, get_elem?, ◌==◌,
}
use btree_vec.Node.{Allocator}
use btree_vec.Node.Internal.{minus}
use btree_vec.Tree.{Above}
use btree_vec.Vec.{index_children}
use btree_vec.Iter
use btree_vec.Iter.{LeafRef, Iter, into_next, nth_leaf}
use btree_vec.IterMut
use btree_vec.IterMut.{IterMut, Step}
use btree_vec.IntoIter
use btree_vec.IntoIter.{
  RawLeaf, IntoIter, take_raw_child, assume_init, raw_leaf, set_zero_length, write_back,
}

-- What a call of `next` has returned is `None` only if all further calls return `None` too and leave
-- the iterator as it is.
abbrev pub IsFused {ℓ κ} :
    {I : Type ℓ} {O : Type κ} → (I → Result (Option O × I)) → Option O × I → Type (ℓ ⊔ κ)
IsFused next q = q.0 ≡ none → next q.1 ≡ ok (none, q.1)

module _ {ℓ} {A : Type ℓ} where
  index_children-some : (xs : List A) (i : ℕ) → IfOk (λ o. o ≢ none) (index_children xs i)
  unfolding index_children
  index_children-some xs i = go (get_elem? xs i)
    where
      go :
          (o : Option A)
          → IfOk
              (λ (o : Option A). o ≢ none)
              (elim o [ none ↦ err Error.panic | some x ↦ ok (some x) ])
      go none = if_err
      go (some x) = if_ok λ e. absurd (cc e)

  Iter-take_item : (p : LeafRef A) (it : Iter A) → IfOk (IsFused Iter.next) (Iter.take_item p it)
  unfolding Iter.take_item
  Iter-take_item p it = IfOk-bind _ (IfOk-any (minus 1 it.remaining)) λ n t.
      IfOk-bind _ (index_children-some p.0.body.children it.index)
        λ o more. if_ok λ e. absurd (more e)

  Iter-next : (it : Iter A) → IfOk (IsFused Iter.next) (Iter.next it)
  unfolding Iter.next Iter.next_at Iter.enter
  Iter-next it = go it.leaf
    where
      entered : (it : Iter A) (o : Option (LeafRef A)) → IfOk (IsFused Iter.next) (Iter.enter o it)
      entered it none = if_ok λ e. refl
      entered it (some p) = Iter-take_item p (record it { leaf = some p; index = 0 })

      go :
          (leaf : Option (LeafRef A))
          → IfOk (IsFused Iter.next) (Iter.next (record it { leaf = leaf }))
      go none = if_ok λ e. refl
      go (some p) =
          IfOk-if (it.index == length p.0.body.children)
            (IfOk-bind _ (IfOk-any (into_next p)) λ q t. entered (record it { leaf = some p }) q)
            (Iter-take_item p (record it { leaf = some p }))

  Iter-nth : (it : Iter A) (n : ℕ) → IfOk (IsFused Iter.next) (Iter.nth it n)
  unfolding Iter.nth Iter.land Iter.next
  Iter-nth it n = go it.leaf
    where
      landed :
          (it : Iter A) (q : Option (LeafRef A × ℕ)) → IfOk (IsFused Iter.next) (Iter.land q n it)
      landed it none = if_ok λ e. refl
      landed it (some (p, i)) = IfOk-bind _ (IfOk-any (minus n it.remaining)) λ less t.
          IfOk-bind _ (IfOk-any (minus 1 less)) λ left t'.
            IfOk-bind _ (index_children-some p.0.body.children i)
              λ o more. if_ok λ e. absurd (more e)

      go :
          (leaf : Option (LeafRef A))
          → IfOk (IsFused Iter.next) (Iter.nth (record it { leaf = leaf }) n)
      go none = if_ok λ e. refl
      go (some p) =
          IfOk-bind _ (IfOk-any (nth_leaf p it.index n))
            λ q t. landed (record it { leaf = some p }) q

module _ {ℓ} {A : Type ℓ} {al : Allocator} where
  refer-some :
      (p : LeafRef A) (i : ℕ) (it : IterMut al A) → IfOk (λ q. q.0 ≢ none) (IterMut.refer p i it)
  unfolding IterMut.refer
  refer-some p i it = go (get_elem? p.0.body.children i)
    where
      go :
          (o : Option A)
          → IfOk
              (λ (q : Step al A). q.0 ≢ none)
              (elim o [
                | none ↦ err Error.panic
                | some x ↦ ok (some (record { item = x; write = IterMut.write_item p i it }), it)
              ])
      go none = if_err
      go (some x) = if_ok λ e. absurd (cc e)

  IterMut-take_item :
      (p : LeafRef A) (it : IterMut al A) → IfOk (IsFused IterMut.next) (IterMut.take_item p it)
  unfolding IterMut.take_item
  IterMut-take_item p it = IfOk-bind _ (IfOk-any (minus 1 it.remaining)) λ n t.
      IfOk-map
        (refer-some p it.index (record it { leaf = some p; index = it.index + 1; remaining = n }))
        λ q more e. absurd (more e)

  IterMut-next : (it : IterMut al A) → IfOk (IsFused IterMut.next) (IterMut.next it)
  unfolding IterMut.next IterMut.next_at IterMut.enter
  IterMut-next it = go it.leaf
    where
      entered :
          (it : IterMut al A) (o : Option (LeafRef A))
          → IfOk (IsFused IterMut.next) (IterMut.enter o it)
      entered it none = if_ok λ e. refl
      entered it (some p) = IterMut-take_item p (record it { leaf = some p; index = 0 })

      go :
          (leaf : Option (LeafRef A))
          → IfOk (IsFused IterMut.next) (IterMut.next (record it { leaf = leaf }))
      go none = if_ok λ e. refl
      go (some p) =
          IfOk-if (it.index == length p.0.body.children)
            (IfOk-bind _ (IfOk-any (into_next p)) λ q t. entered (record it { leaf = some p }) q)
            (IterMut-take_item p (record it { leaf = some p }))

  IterMut-nth : (it : IterMut al A) (n : ℕ) → IfOk (IsFused IterMut.next) (IterMut.nth it n)
  unfolding IterMut.nth IterMut.land IterMut.next
  IterMut-nth it n = go it.leaf
    where
      landed :
          (it : IterMut al A) (q : Option (LeafRef A × ℕ))
          → IfOk (IsFused IterMut.next) (IterMut.land q n it)
      landed it none = if_ok λ e. refl
      landed it (some (p, i)) = IfOk-bind _ (IfOk-any (minus n it.remaining)) λ less t.
          IfOk-bind _ (IfOk-any (minus 1 less)) λ left t'.
            IfOk-map (refer-some p i (record it { leaf = some p; index = i + 1; remaining = left }))
              λ q more e. absurd (more e)

      go :
          (leaf : Option (LeafRef A))
          → IfOk (IsFused IterMut.next) (IterMut.nth (record it { leaf = leaf }) n)
      go none = if_ok λ e. refl
      go (some p) =
          IfOk-bind _ (IfOk-any (nth_leaf p it.index n))
            λ q t. landed (record it { leaf = some p }) q

module _ {ℓ} {A : Type ℓ} (B : ℕ) {al : Allocator} where
  IntoIter-take_item :
      (r : RawLeaf A) (k : Above A 0) (it : IntoIter al A)
      → IfOk (IsFused (IntoIter.next B)) (IntoIter.take_item r k it)
  unfolding IntoIter.take_item
  IntoIter-take_item r k it = IfOk-bind _ (IfOk-any (minus 1 it.remaining)) λ n t.
      IfOk-bind _ (IfOk-any (take_raw_child r it.index))
        λ (r', slot) t'. IfOk-bind _ (IfOk-any (assume_init slot)) λ x t''. if_ok λ e. absurd (cc e)

  IntoIter-next : (it : IntoIter al A) → IfOk (IsFused (IntoIter.next B)) (IntoIter.next B it)
  unfolding IntoIter.next IntoIter.next_at IntoIter.enter
  IntoIter-next it = go it.leaf
    where
      entered :
          (it : IntoIter al A) (o : Option (LeafRef A))
          → IfOk (IsFused (IntoIter.next B)) (IntoIter.enter B o it)
      entered it none = if_ok λ e. refl
      entered it (some p) =
          IntoIter-take_item (set_zero_length (raw_leaf B p.0)) p.1
            (record it { index = 0; length = length p.0.body.children })

      go :
          (leaf : Option (RawLeaf A × Above A 0))
          → IfOk (IsFused (IntoIter.next B)) (IntoIter.next B (record it { leaf = leaf }))
      go none = if_ok λ e. refl
      go (some (r, k)) =
          IfOk-if (it.index == it.length)
            (IfOk-bind _ (IfOk-any (into_next (r.leaf, k)))
              λ q t. entered (record it { leaf = some (r, k) }) q)
            (IntoIter-take_item r k (record it { leaf = some (r, k) }))

-- The three iterators are fused, in whatever state they are: when `next`, or `nth` of `Iter` and
-- `IterMut`, has returned `None`, each further call of `next` returns `None` and leaves the iterator
-- as it is.
pub next-nth {ℓ} :
    {A : Type ℓ} {al : Allocator} (B n : ℕ) (it : Iter A) (it_mut : IterMut al A)
    (into : IntoIter al A)
    → IfOk (IsFused Iter.next) (Iter.next it)
      × IfOk (IsFused Iter.next) (Iter.nth it n)
      × IfOk (IsFused IterMut.next) (IterMut.next it_mut)
      × IfOk (IsFused IterMut.next) (IterMut.nth it_mut n)
      × IfOk (IsFused (IntoIter.next B)) (IntoIter.next B into)
next-nth B n it it_mut into =
    (Iter-next it, Iter-nth it n, IterMut-next it_mut, IterMut-nth it_mut n, IntoIter-next B into)
