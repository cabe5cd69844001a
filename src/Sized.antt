-- ===== src/Sized.antt =====
-- `ExactSizeIterator` of the three iterators of src/lib.rs: `size_hint` and `len` after any calls.
use btree_vec.Common.{
  ℕ, zero, suc, ◌+◌, ◌-◌, ◌≡◌, refl, subst, Option, none, some, List, [], ◌∷◌, Result, ok, ◌>>=◌,
  Returns, returned, Returns-bind, Returns-map, arith, length, length-drop, length-set, set, drop,
  ==_self,
}
use btree_vec.Node.{Allocator}
use btree_vec.Vec
use btree_vec.Vec.{BTreeVec}
use btree_vec.Vec.Valid.{IsVec, contents}
use btree_vec.Iter
use btree_vec.Iter.{Iter}
use btree_vec.Iter.Next as IterNext
use btree_vec.Iter.Nth as IterNth
use btree_vec.Iter.Start as IterStart
use btree_vec.Iter.Valid as IterValid
use btree_vec.Iter.Valid.{IsIter}
use btree_vec.IterMut
use btree_vec.IterMut.{IterMut, Step}
use btree_vec.IterMut.Next as IterMutNext
use btree_vec.IterMut.Nth as IterMutNth
use btree_vec.IterMut.Valid as IterMutValid
use btree_vec.IterMut.Valid.{IsIterMut}
use btree_vec.IntoIter
use btree_vec.IntoIter.{IntoIter}
use btree_vec.IntoIter.Drop as IntoIterDrop
use btree_vec.IntoIter.Next as IntoIterNext
use btree_vec.IntoIter.Valid as IntoIterValid
use btree_vec.IntoIter.Valid.{IsIntoIter}

-- A call of `next`, or of `nth`.
pub data Move : Type 0 where
  next : Move
  nth : ℕ → Move

-- The number of items that the calls go past.
abbrev pub passed : List Move → ℕ
passed [] = 0
passed (Move.next ∷ ms) = 1 + passed ms
passed (Move.nth n ∷ ms) = (n + 1) + passed ms

-- What `size_hint` and `len` say where `n` items are left.
abbrev pub Says : ℕ → ℕ × Option ℕ → Result ℕ → Type 0
Says n hint len = (hint ≡ (n, some n)) × (len ≡ ok n)

module _ {ℓ} {A : Type ℓ} where
  -- The calls one after the other.
  abbrev pub run_iter : List Move → Iter A → Result (Iter A)
  run_iter [] it = ok it
  run_iter (Move.next ∷ ms) it = do (o, it') ← Iter.next it; run_iter ms it'
  run_iter (Move.nth n ∷ ms) it = do (o, it') ← Iter.nth it n; run_iter ms it'

  HasLeft : ℕ → ℕ → Iter A → Type ℓ
  HasLeft B n it = (xs : List A) × IsIter B it xs × (length xs ≡ n)

  run_iter-HasLeft :
      (B : ℕ) (ms : List Move) (it : Iter A) (n : ℕ)
      → HasLeft B n it
      → Returns (HasLeft B (n - passed ms)) (run_iter ms it)
  unfolding HasLeft
  run_iter-HasLeft B [] it n (xs, v, e) = returned (xs, v, omega arith)
  run_iter-HasLeft B (Move.next ∷ ms) it n (xs, v, e) =
      Returns-bind _ (IterNext.next_lem B it xs v) λ (o, it') (got, v').
        Returns-map
          (run_iter-HasLeft B ms it' (n - 1) (drop 1 xs, v', omega (arith, e, length-drop 1 xs)))
          λ it'' (ys, w, e'). (ys, w, omega arith)
  run_iter-HasLeft B (Move.nth k ∷ ms) it n (xs, v, e) =
      Returns-bind _ (IterNth.nth_lem B it k xs v) λ (o, it') (got, v').
        Returns-map
          (run_iter-HasLeft B ms it' (n - (k + 1))
            (drop (k + 1) xs, v', omega (arith, e, length-drop (k + 1) xs)))
          λ it'' (ys, w, e'). (ys, w, omega arith)

module _ {ℓ} {A : Type ℓ} {al : Allocator} where
  size_hint-Says :
      (it : IterMut al A) (n : ℕ)
      → it.remaining ≡ n
      → Says n (IterMut.size_hint it) (IterMut.len it)
  unfolding IterMut.size_hint IterMut.len
  size_hint-Says it n e = (rw (e) refl, rw (e, ==_self n) refl)

  -- `f` is written through the reference, where there is one.
  abbrev pub write_step : (A → A) → Step al A → IterMut al A
  write_step f (none, it) = it
  write_step f (some m, it) = m.write (f m.item)

  -- The calls one after the other, each with a write of `f` to the item that it yields.
  abbrev pub run_iter_mut : (A → A) → List Move → IterMut al A → Result (IterMut al A)
  run_iter_mut f [] it = ok it
  run_iter_mut f (Move.next ∷ ms) it = do q ← IterMut.next it; run_iter_mut f ms (write_step f q)
  run_iter_mut f (Move.nth n ∷ ms) it = do q ← IterMut.nth it n; run_iter_mut f ms (write_step f q)

  HasLeftMut : ℕ → ℕ → IterMut al A → Type ℓ
  HasLeftMut B n it = (all : List A) × (pos : ℕ) × IsIterMut B it all pos × (length all - pos ≡ n)

  write_step-HasLeftMut :
      (B : ℕ) (f : A → A) (all : List A) (pos n : ℕ) (q : Step al A)
      → length all - pos ≡ n
      → IterMutValid.StepIs B all pos q
      → HasLeftMut B (n - 1) (write_step f q)
  unfolding HasLeftMut
  write_step-HasLeftMut B f all pos n (none, it) e (past, v) = (all, length all, v, omega arith)
  write_step-HasLeftMut B f all pos n (some m, it) e (got, v, written) = (
    set all pos (f m.item),
    pos + 1,
    written (f m.item),
    omega (arith, length-set all pos (f m.item)),
  )

  run_iter_mut-HasLeftMut :
      (B : ℕ) (f : A → A) (ms : List Move) (it : IterMut al A) (n : ℕ)
      → HasLeftMut B n it
      → Returns (HasLeftMut B (n - passed ms)) (run_iter_mut f ms it)
  unfolding HasLeftMut
  run_iter_mut-HasLeftMut B f [] it n (all, pos, v, e) = returned (all, pos, v, omega arith)
  run_iter_mut-HasLeftMut B f (Move.next ∷ ms) it n (all, pos, v, e) =
      Returns-bind _ (IterMutNext.next_lem B it all pos v) λ q step.
        Returns-map
          (run_iter_mut-HasLeftMut B f ms (write_step f q) (n - 1)
            (write_step-HasLeftMut B f all pos n q e step))
          λ it' (ys, p, w, e'). (ys, p, w, omega arith)
  run_iter_mut-HasLeftMut B f (Move.nth k ∷ ms) it n (all, pos, v, e) =
      Returns-bind _ (IterMutNth.nth_mut B it k all pos v) λ q step.
        Returns-map
          (run_iter_mut-HasLeftMut B f ms (write_step f q) ((n - k) - 1)
            (write_step-HasLeftMut B f all (pos + k) (n - k) q (omega arith) step))
          λ it' (ys, p, w, e'). (ys, p, w, omega arith)

module _ {ℓ} {A : Type ℓ} {al : Allocator} (B : ℕ) where
  -- `n` calls of `next`.
  abbrev pub run_into_iter : ℕ → IntoIter al A → Result (IntoIter al A)
  run_into_iter zero it = ok it
  run_into_iter (suc n) it = do (o, it') ← IntoIter.next B it; run_into_iter n it'

  HasLeftInto : ℕ → IntoIter al A → Type ℓ
  HasLeftInto n it = (xs : List A) × IsIntoIter it xs × (length xs ≡ n)

  run_into_iter-HasLeftInto :
      (k : ℕ) (it : IntoIter al A) (n : ℕ)
      → HasLeftInto n it
      → Returns (HasLeftInto (n - k)) (run_into_iter k it)
  unfolding HasLeftInto
  run_into_iter-HasLeftInto zero it n (xs, v, e) = returned (xs, v, omega arith)
  run_into_iter-HasLeftInto (suc k) it n (xs, v, e) =
      Returns-bind _ (IntoIterNext.next_lem B it xs v) λ (o, it') (got, v').
        Returns-map
          (run_into_iter-HasLeftInto k it' (n - 1)
            (drop 1 xs, v', omega (arith, e, length-drop 1 xs)))
          λ it'' (ys, w, e'). (ys, w, omega arith)

module _ {ℓ} {A : Type ℓ} {al : Allocator} (B : ℕ) where
  -- On a well-formed vector: after `iter` and any calls of `next` and `nth`, `size_hint` has the
  -- length of the vector less the number of items that the calls went past, down to 0, as both
  -- bounds, and `len` returns it. The same holds of `iter_mut`, with a write of `f` to each item
  -- that is yielded, and of `into_iter` after any number `n` of calls of `next`.
  pub size_hint-next :
      (v : BTreeVec al A) (ms : List Move) (n : ℕ) (f : A → A)
      → IsVec B v
      → Returns
          (λ it. Says (Vec.len v - passed ms) (Iter.size_hint it) (Iter.len it))
          (Iter.iter v >>= run_iter ms)
        × Returns
            (λ it. Says (Vec.len v - passed ms) (IterMut.size_hint it) (IterMut.len it))
            (IterMut.iter_mut v >>= run_iter_mut f ms)
        × Returns
            (λ it. Says (Vec.len v - n) (IntoIter.size_hint it) (IntoIter.len it))
            (IntoIter.into_iter B v >>= run_into_iter B n)
  unfolding Vec.len HasLeft HasLeftMut HasLeftInto
  size_hint-next v ms n f valid = (
    Returns-bind _ (IterStart.iter_lem B v valid) λ it w.
        Returns-map (run_iter-HasLeft B ms it v.size (contents v, w, omega (arith, valid.size_is)))
          λ it' (xs, w', e). shared it' xs w' e,
    Returns-bind _ (IterMutValid.iter_mut_lem B v valid) λ it w.
        Returns-map
          (run_iter_mut-HasLeftMut B f ms it v.size
            (contents v, 0, w, omega (arith, valid.size_is)))
          λ it' (all, pos, w', e). mutable it' (omega (arith, w'.remaining_is)),
    Returns-bind _ (IntoIterDrop.into_iter_lem B v valid) λ it w.
        Returns-map
          (run_into_iter-HasLeftInto B n it v.size (contents v, w, omega (arith, valid.size_is)))
          λ it' (xs, w', e). owned it' xs w' e,
  )
    where
      shared :
          (it : Iter A) (xs : List A)
          → IsIter B it xs
          → length xs ≡ v.size - passed ms
          → Says (v.size - passed ms) (Iter.size_hint it) (Iter.len it)
      shared it xs w e =
          subst (λ m. Says m (Iter.size_hint it) (Iter.len it)) e
            (IterValid.size_hint-len B it xs w)

      mutable :
          (it : IterMut al A)
          → it.remaining ≡ v.size - passed ms
          → Says (v.size - passed ms) (IterMut.size_hint it) (IterMut.len it)
      mutable it e = size_hint-Says it (v.size - passed ms) e

      owned :
          (it : IntoIter al A) (xs : List A)
          → IsIntoIter it xs
          → length xs ≡ v.size - n
          → Says (v.size - n) (IntoIter.size_hint it) (IntoIter.len it)
      owned it xs w e =
          subst (λ m. Says m (IntoIter.size_hint it) (IntoIter.len it)) e
            (IntoIterValid.size_hint_lem it xs w)
