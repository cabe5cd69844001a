-- ===== src/Memory/Traces.antt =====
-- The life of a vector, from `create_in` through any calls to the drop.
use btree_vec.Common.{
  IfOk-if, ℕ, ◌≤◌, ◌≡◌, sym, subst, ap, ◌∙◌, Option, none, some, List, [], ◌∷◌, Result, ◌>>=◌, IfOk,
  if_ok, if_err, IfOk-bind, IfOk-any, Returns, Returns-bind, Returns-map, Returns→IfOk,
  Returns-IfOk, IfOk-both, leb, arith,
}
use btree_vec.Node.{Ptr, Allocator}
use btree_vec.Vec
use btree_vec.Vec.{BTreeVec}
use btree_vec.Vec.Inserting.{create_in_lem}
use btree_vec.Vec.Traces.{
  Call, insert, remove, push, pop, get, list_call, list_calls, vec_call, vec_calls, Matches,
  call-Matches, calls-Matches,
}
use btree_vec.Vec.Valid.{IsVec, contents}
use btree_vec.Memory.{Ledger}
use btree_vec.Memory.Vectors.{
  HeldVec, insert-HeldVec, push-HeldVec, remove-HeldVec, pop-HeldVec, drop-Holds,
}

module _ {ℓ} {A : Type ℓ} (B : ℕ) {al : Allocator} (ledger : Ledger al) (others : Ptr → ℕ) where
  call-HeldVec :
      (c : Call A) (v : BTreeVec al A)
      → IsVec B v
      → HeldVec ledger others v
      → IfOk (λ (v', o). HeldVec ledger others v') (vec_call B al c v)
  call-HeldVec (insert i x) v valid held =
      IfOk-bind _ (insert-HeldVec B ledger others v i x valid held) λ v' held'. if_ok held'
  call-HeldVec (remove i) v valid held =
      IfOk-bind _ (remove-HeldVec B ledger others v i valid held) λ q held'. if_ok held'
  call-HeldVec (push x) v valid held =
      IfOk-bind _ (push-HeldVec B ledger others v x valid held) λ v' held'. if_ok held'
  call-HeldVec pop v valid held = pop-HeldVec B ledger others v valid held
  call-HeldVec (get i) v valid held = IfOk-bind _ (IfOk-any (Vec.get v i)) λ o t. if_ok held

  -- A call that does not panic leaves a well-formed vector.
  call-IsVec :
      (c : Call A) (v : BTreeVec al A)
      → 4 ≤ B
      → IsVec B v
      → IfOk (λ (v', o). IsVec B v') (vec_call B al c v)
  call-IsVec c v big valid = go (list_call c (contents v)) (call-Matches B al big c v valid)
    where
      go :
          (m : Option (List A × Option A))
          → Matches B al (vec_call B al c v) m
          → IfOk (λ (q : BTreeVec al A × Option A). IsVec B q.0) (vec_call B al c v)
      go none e = subst (IfOk _) (sym e) if_err
      go (some q) m = Returns→IfOk (Returns-map m λ r w. w.0)

  calls-IfOk :
      (cs : List (Call A)) (v : BTreeVec al A)
      → 4 ≤ B
      → IsVec B v
      → HeldVec ledger others v
      → IfOk (λ (v', os). HeldVec ledger others v') (vec_calls B al cs v)
  calls-IfOk [] v big valid held = if_ok held
  calls-IfOk (c ∷ cs) v big valid held =
      IfOk-bind _ (IfOk-both (call-IsVec c v big valid) (call-HeldVec c v valid held))
        λ (v', o) (valid', held').
          IfOk-bind _ (calls-IfOk cs v' big valid' held') λ q held''. if_ok held''

  -- Let `B` be at least 4, the vector be well formed, and the live blocks be its nodes, each at an
  -- address of its own, and `others`. Where a sequence of calls of `insert`, `remove`, `push`, `pop`
  -- and `get` does not panic on the list of the items, it returns on the vector and leaves it well
  -- formed, and the live blocks are again its nodes, each at an address of its own, and `others`:
  -- only live blocks have been given back, and none has been lost.
  pub calls-HeldVec :
      (cs : List (Call A)) (v : BTreeVec al A) (q : List A × List (Option A))
      → 4 ≤ B
      → IsVec B v
      → HeldVec ledger others v
      → list_calls cs (contents v) ≡ some q
      → Returns (λ (v', os). IsVec B v' × HeldVec ledger others v') (vec_calls B al cs v)
  calls-HeldVec cs v q big valid held e =
      Returns-map
        (Returns-IfOk
          (subst (Matches B al (vec_calls B al cs v)) e (calls-Matches B al cs v big valid))
          (calls-IfOk cs v big valid held))
        λ r (w, held'). (w.0, held')

module _ {ℓ} (A : Type ℓ) (B : ℕ) (al : Allocator) where
  -- A vector is made, called and dropped.
  abbrev pub lifetime : List (Call A) → al.State → Result al.State
  lifetime cs s = do
    v ← Vec.create_in {A = A} B al s
    (v', os) ← vec_calls B al cs v
    Vec.drop al v'

module _ {ℓ} {A : Type ℓ} (B : ℕ) {al : Allocator} (ledger : Ledger al) where
  pub create_in-HeldVec :
      (s : al.State)
      → ((p : Ptr) → ledger.live s p ≤ 1)
      → ledger.IsSound s
      → IfOk (HeldVec {A = A} ledger (ledger.live s)) (Vec.create_in B al s)
  unfolding Vec.create_in
  create_in-HeldVec s once sound =
      IfOk-if (leb 3 B) (if_ok (record { counts = λ p. omega arith; once = once; sound = sound }))
        if_err

  -- Let `B` be at least 4, and no block of the allocator be live twice. A vector that is made by
  -- `create_in`, called any number of times by `insert`, `remove`, `push`, `pop` and `get` with
  -- indices that do not panic on a list, and dropped, returns, has given back only live blocks, and
  -- leaves exactly those blocks live that were live before.
  pub calls-drop :
      (cs : List (Call A)) (s : al.State) (q : List A × List (Option A))
      → 4 ≤ B
      → ((p : Ptr) → ledger.live s p ≤ 1)
      → ledger.IsSound s
      → list_calls cs [] ≡ some q
      → Returns
          (λ s'. ledger.IsSound s' × ((p : Ptr) → ledger.live s' p ≡ ledger.live s p))
          (lifetime A B al cs s)
  calls-drop cs s q big once sound e =
      Returns-bind _
        (Returns-IfOk ((create_in_lem {A = A} B al s).0 (omega arith))
          (create_in-HeldVec s once sound))
        λ v ((valid, empty), held).
          Returns-bind _
            (calls-HeldVec B ledger (ledger.live s) cs v q big valid held
              (ap (list_calls cs) empty ∙ e))
            λ (v', os) (valid', held').
              Returns-map (drop-Holds B ledger (ledger.live s) v' valid' held')
                λ s' end. (end.sound, λ p. omega (arith, end.counts p))
