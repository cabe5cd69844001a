-- ===== src/Tests/Iterating.antt =====
-- Runs of iterators and writes through references, and the theorems at such inputs.
use btree_vec.Fused
use btree_vec.Sized
use btree_vec.Common.{
  IfOk, ℕ, ◌≡◌, List, ◌≤◌, ◌<◌, ◌-◌, none, some, ok, err, Error, ◌>>=◌, arith, Returns, Returns-eq,
  length, take, drop, map, suc, [], ◌∷◌,
}
use btree_vec.Vec
use btree_vec.Vec.{MutRef}
use btree_vec.Vec.Valid.{contents, IsVec}
use btree_vec.Vec.GetMut
use btree_vec.Iter
use btree_vec.Iter.{Iter}
use btree_vec.Iter.Valid.{IsIter}
use btree_vec.IntoIter
use btree_vec.IterMut
use btree_vec.IterMut.Loop as IterMutLoop
use btree_vec.IterMut.Nth as IterMutNth
use btree_vec.IterMut.Valid as IterMutValid
use btree_vec.IntoIter.Drop as IntoIterDrop
use btree_vec.Iter.Start
use btree_vec.Iter.Next
use btree_vec.Iter.Nth
use btree_vec.Tests.{Vec3, counting, sample, sample-IsVec}

-- An iterator at the start of the sample.
started : Iter ℕ
started = (Returns-eq (Start.iter_lem 3 sample sample-IsVec)).0

started-IsIter : IsIter 3 started (contents sample)
unfolding started
started-IsIter = (Returns-eq (Start.iter_lem 3 sample sample-IsVec)).2

-- A mutable iterator at the start of the sample.
started_mut : IterMut.IterMut counting ℕ
started_mut = (Returns-eq (IterMutValid.iter_mut_lem 3 sample sample-IsVec)).0

started_mut-IsIterMut : IterMutValid.IsIterMut 3 started_mut (contents sample) 0
unfolding started_mut
started_mut-IsIterMut = (Returns-eq (IterMutValid.iter_mut_lem 3 sample sample-IsVec)).2

iter-collect_example : (Iter.iter sample >>= Iter.collect 9) ≡ ok (contents sample)
unfolding sample
iter-collect_example = Start.iter-collect 3 sample 9 sample-IsVec (omega arith)

next_lem_example : Returns (Next.Yields 3 (contents sample) 0) (Iter.next started)
next_lem_example = Next.next_lem 3 started (contents sample) started-IsIter

nth_lem_example : Returns (Next.Yields 3 (contents sample) 5) (Iter.nth started 5)
nth_lem_example = Nth.nth_lem 3 started 5 (contents sample) started-IsIter

get_mut_lem_example :
    (5 < length (contents sample)
      → Returns
          (λ o.
            (m : MutRef ℕ Vec3) × (o ≡ some m)
            × GetMut.RefersTo 3 (GetMut.VecHolds 3) (contents sample) 5 m)
          (Vec.get_mut sample 5))
    × (length (contents sample) ≤ 5 → Vec.get_mut sample 5 ≡ ok none)
get_mut_lem_example = GetMut.get_mut_lem 3 sample 5 sample-IsVec

first_mut-last_mut_example :
    (0 < length (contents sample)
      → Returns
          (λ o.
            (m : MutRef ℕ Vec3) × (o ≡ some m)
            × GetMut.RefersTo 3 (GetMut.VecHolds 3) (contents sample) 0 m)
          (Vec.first_mut sample)
        × Returns
            (λ o.
              (m : MutRef ℕ Vec3) × (o ≡ some m)
              × GetMut.RefersTo 3
                  (GetMut.VecHolds 3)
                  (contents sample)
                  (length (contents sample) - 1)
                  m)
            (Vec.last_mut sample))
    × (length (contents sample) ≡ 0
        → (Vec.first_mut sample ≡ ok none) × (Vec.last_mut sample ≡ ok none))
first_mut-last_mut_example = GetMut.first_mut-last_mut 3 sample sample-IsVec

index_mut_lem_example :
    (2 < length (contents sample)
      → Returns
          (GetMut.RefersTo 3 (GetMut.VecHolds 3) (contents sample) 2)
          (Vec.index_mut sample 2))
    × (length (contents sample) ≤ 2 → Vec.index_mut sample 2 ≡ err Error.panic)
index_mut_lem_example = GetMut.index_mut_lem 3 sample 2 sample-IsVec

into_iter-take_then_drop_example :
    Returns
      (λ (q : List ℕ × List ℕ × ℕ).
        (q.0 ≡ take 3 (contents sample)) × (q.1 ≡ drop 3 (contents sample)))
      (IntoIter.into_iter 3 sample >>= IntoIter.take_then_drop 3 3)
into_iter-take_then_drop_example = IntoIterDrop.into_iter-take_then_drop 3 sample 3 sample-IsVec

nth_mut_example : Returns (IterMutValid.StepIs 3 (contents sample) 5) (IterMut.nth started_mut 5)
nth_mut_example = IterMutNth.nth_mut 3 started_mut 5 (contents sample) 0 started_mut-IsIterMut

iter_mut-write_all_example :
    Returns
      (λ w. IsVec 3 w × (contents w ≡ map suc (contents sample)))
      (IterMut.iter_mut sample >>= IterMut.write_all suc 9)
unfolding sample
iter_mut-write_all_example =
    IterMutLoop.iter_mut-write_all 3 suc sample 9 sample-IsVec (omega arith)

-- An iterator that has taken over the sample.
started_into : IntoIter.IntoIter counting ℕ
started_into = (Returns-eq (IntoIterDrop.into_iter_lem 3 sample sample-IsVec)).0

next-nth_example :
    IfOk (Fused.IsFused Iter.next) (Iter.next started)
    × IfOk (Fused.IsFused Iter.next) (Iter.nth started 8)
    × IfOk (Fused.IsFused IterMut.next) (IterMut.next started_mut)
    × IfOk (Fused.IsFused IterMut.next) (IterMut.nth started_mut 8)
    × IfOk (Fused.IsFused (IntoIter.next 3)) (IntoIter.next 3 started_into)
next-nth_example = Fused.next-nth 3 8 started started_mut started_into

-- A call of `next`, one of `nth` that goes past three items, and another of `next`.
abbrev three_moves : List Sized.Move
three_moves = Sized.Move.next ∷ (Sized.Move.nth 2 ∷ (Sized.Move.next ∷ []))

size_hint-next_example :
    Returns
      (λ it.
        Sized.Says (Vec.len sample - Sized.passed three_moves) (Iter.size_hint it) (Iter.len it))
      (Iter.iter sample >>= Sized.run_iter three_moves)
    × Returns
        (λ it.
          Sized.Says
            (Vec.len sample - Sized.passed three_moves)
            (IterMut.size_hint it)
            (IterMut.len it))
        (IterMut.iter_mut sample >>= Sized.run_iter_mut suc three_moves)
    × Returns
        (λ it. Sized.Says (Vec.len sample - 3) (IntoIter.size_hint it) (IntoIter.len it))
        (IntoIter.into_iter 3 sample >>= Sized.run_into_iter 3 3)
size_hint-next_example = Sized.size_hint-next 3 sample three_moves 3 suc sample-IsVec
