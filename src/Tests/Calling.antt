-- ===== src/Tests/Calling.antt =====
-- A sequence of calls on the sample with the branching factor 4.
use btree_vec.Common.{Returns, ◌>>=◌, ℕ, List, [], ◌∷◌, some, none, ◌≡◌, refl, arith}
use btree_vec.Vec
use btree_vec.Vec.Inverse.{remove-insert}
use btree_vec.Vec.Traces
use btree_vec.Vec.Traces.{Call}
use btree_vec.Vec.Valid.{IsVec, contents}
use btree_vec.Tests.{counting, sample4, sample4-IsVec, zero_to_seven}

abbrev some_calls : List (Call ℕ)
some_calls =
    Call.insert 2 50
    ∷ (Call.remove 0 ∷ (Call.push 60 ∷ (Call.get 1 ∷ (Call.pop ∷ (Call.remove 7 ∷ [])))))

-- What they return on the list.
some_calls-list_calls :
    Traces.list_calls some_calls zero_to_seven
    ≡ some (
      1 ∷ (50 ∷ (2 ∷ (3 ∷ (4 ∷ (5 ∷ (6 ∷ [])))))),
      none ∷ (some 0 ∷ (none ∷ (some 50 ∷ (some 60 ∷ (some 7 ∷ []))))),
    )
some_calls-list_calls = refl

calls-Matches_example :
    Traces.Matches 4 counting
      (Traces.vec_calls 4 counting some_calls sample4)
      (Traces.list_calls some_calls (contents sample4))
calls-Matches_example =
    Traces.calls-Matches 4 counting some_calls sample4 (omega arith) sample4-IsVec

remove-insert_example :
    Returns
      (λ (w, x). IsVec 4 w × (contents w ≡ contents sample4) × (x ≡ 90))
      (Vec.insert 4 counting sample4 3 90 >>= λ w. Vec.remove 4 counting w 3)
unfolding sample4
remove-insert_example =
    remove-insert 4 counting sample4 3 90 (omega arith) sample4-IsVec (omega arith)
