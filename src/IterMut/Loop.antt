-- ===== src/IterMut/Loop.antt =====
-- A loop over a mutable iterator that writes to every item.
use btree_vec.Common.{
  ℕ, zero, suc, ◌+◌, ◌-◌, ◌≤◌, ◌<◌, ◌≡◌, refl, sym, ap, subst, ◌∙◌, none, some, Result, List, [],
  ◌∷◌, length, set, get_elem?, map, ok, ◌>>=◌, Returns, returned, Returns-bind, arith, length-set,
  suc-add,
}
use btree_vec.Node.{Allocator}
use btree_vec.Vec.{BTreeVec}
use btree_vec.Vec.Valid.{IsVec, contents}
use btree_vec.IterMut.{IterMut, Step, iter_mut, write_all}
use btree_vec.IterMut.Next.{next_lem}
use btree_vec.IterMut.Valid.{IsIterMut, StepIs, iter_mut_lem}

some_eq {ℓ} : {A : Type ℓ} {x y : A} → some x ≡ some y → x ≡ y
some_eq e = cc

before_fuel : {n m pos fuel : ℕ} → m ≡ n → pos < n → n - pos < suc fuel → m - (pos + 1) < fuel
before_fuel e k h = omega arith

some_there {ℓ} :
    {A : Type ℓ} (xs : List A) (i : ℕ) (x : A) → get_elem? xs i ≡ some x → i < length xs
some_there [] i x e = absurd cc
some_there (y ∷ xs) zero x e = omega arith
some_there (y ∷ xs) (suc i) x e = omega (arith, some_there xs i x e)

module _ {ℓ} {A : Type ℓ} (f : A → A) where
  -- The items from `pos` on are written to.
  abbrev map_from : ℕ → List A → List A
  map_from zero xs = map f xs
  map_from (suc pos) [] = []
  map_from (suc pos) (x ∷ xs) = x ∷ map_from pos xs

  map_from-past : (pos : ℕ) (xs : List A) → length xs ≤ pos → map_from pos xs ≡ xs
  map_from-past zero [] h = refl
  map_from-past zero (x ∷ xs) h = absurd (omega arith)
  map_from-past (suc pos) [] h = refl
  map_from-past (suc pos) (x ∷ xs) h = ap (λ ys. x ∷ ys) (map_from-past pos xs (omega arith))

  map_from-set :
      (pos : ℕ) (xs : List A) (x : A)
      → get_elem? xs pos ≡ some x
      → map_from (pos + 1) (set xs pos (f x)) ≡ map_from pos xs
  map_from-set pos [] x e = absurd cc
  map_from-set zero (y ∷ xs) x e = ap (λ z. f z ∷ map f xs) (some_eq (sym e))
  map_from-set (suc pos) (y ∷ xs) x e = rw suc-add (ap (λ ys. y ∷ ys) (map_from-set pos xs x e))

module _ {ℓ} {A : Type ℓ} {al : Allocator} (B : ℕ) (f : A → A) where
  -- The vector that the loop leaves.
  abbrev Written : List A → BTreeVec al A → Type ℓ
  Written xs v = IsVec B v × (contents v ≡ xs)

  write_all-Written :
      (fuel : ℕ) (it : IterMut al A) (all : List A) (pos : ℕ)
      → IsIterMut B it all pos
      → length all - pos < fuel
      → Returns (Written (map_from f pos all)) (write_all f fuel it)
  unfolding write_all
  write_all-Written zero it all pos v h = absurd (omega arith)
  write_all-Written (suc fuel) it all pos v h =
      Returns-bind _ (next_lem B it all pos v) (go (write_all-Written fuel))
    where
      go :
          ((it : IterMut al A) (all : List A) (pos : ℕ)
            → IsIterMut B it all pos
            → length all - pos < fuel
            → Returns (Written (map_from f pos all)) (write_all f fuel it))
          → (r : Step al A) → StepIs B all pos r
          → Returns (Written (map_from f pos all)) (elim r.0 as (λ _. Result (BTreeVec al A)) [
            | none ↦ ok r.1.vec
            | some m ↦ write_all f fuel (m.write (f m.item))
          ])
      go ih (none, it') s = returned (s.1.vec_is, s.1.all_are ∙ sym (map_from-past f pos all s.0))
      go ih (some m, it') (e, kept, written) =
          subst (λ ys. Returns (Written ys) (write_all f fuel (m.write (f m.item))))
            (map_from-set f pos all m.item e)
            (ih (m.write (f m.item)) (set all pos (f m.item)) (pos + 1) (written (f m.item))
              (before_fuel (length-set all pos (f m.item)) (some_there all pos m.item e) h))

  -- On a well-formed vector, `iter_mut` returns, and a loop over it that replaces each item by what
  -- `f` gives for it, with more fuel than there are items, returns and leaves a well-formed vector of
  -- the new items in their order.
  pub iter_mut-write_all :
      (v : BTreeVec al A) (fuel : ℕ)
      → IsVec B v
      → length (contents v) < fuel
      → Returns
          (λ w. IsVec B w × (contents w ≡ map f (contents v)))
          (iter_mut v >>= write_all f fuel)
  iter_mut-write_all v fuel valid h =
      Returns-bind _ (iter_mut_lem B v valid)
        λ it s. write_all-Written fuel it (contents v) 0 s (omega arith)
