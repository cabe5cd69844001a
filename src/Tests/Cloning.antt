-- ===== src/Tests/Cloning.antt =====
-- Clones of the sample, and the theorems at such inputs.
use btree_vec.Common.{ℕ, suc, ◌≡◌, refl, map, Option, some, Result, ok, Returns, get_elem?, ◌>>=◌}
use btree_vec.Tree.{leaf_for, find_child}
use btree_vec.Vec
use btree_vec.Vec.Valid.{contents}
use btree_vec.Vec.Dropping
use btree_vec.Clone
use btree_vec.Clone.Nodes
use btree_vec.Clone.Reading
use btree_vec.Tests.{Vec3, counting, sample, sample-IsVec, run_insert}

-- A clone, with a push to it.
pushed_clone : Result Vec3
unfolding run_insert sample Clone.clone Clone.clone_root Clone.clone_node Clone.clone_children
    Clone.finish_clone Clone.clone_leaf
pushed_clone = do (original, copy) ← Clone.clone counting suc (λ s. s) sample; run_insert copy 8 100

pushed_last : Result (Option ℕ)
unfolding pushed_clone Vec.get Vec.unwrap_root leaf_for find_child Vec.index_children
pushed_last = pushed_clone >>= λ v. Vec.get v 8

-- The item that was pushed to the clone is not the one that `get` finds there.
pushed_last-some : pushed_last ≡ ok (some 7)
unfolding pushed_last
pushed_last-some = refl

clone_lem_example :
    Returns
      (λ q.
        (q.0.root ≡ sample.root)
        × (q.0.size ≡ sample.size)
        × (q.1.size ≡ sample.size)
        × (contents q.1 ≡ map suc (contents sample))
        × Nodes.RootClone counting suc 3 sample-IsVec.branching sample.root q.1.root)
      (Clone.clone counting suc (λ s. s) sample)
clone_lem_example = Nodes.clone_lem counting suc 3 (λ s. s) sample sample-IsVec

clone-get_example :
    Returns
      (λ q. (i : ℕ) → Vec.get q.1 i ≡ ok (get_elem? (map suc (contents sample)) i))
      (Clone.clone counting suc (λ s. s) sample)
clone-get_example = Reading.clone-get counting suc 3 (λ s. s) sample sample-IsVec

drop_lem_example :
    Vec.drop counting sample
    ≡ ok (Dropping.give_back counting (Dropping.root_addrs sample.root) sample.alloc)
drop_lem_example = Dropping.drop_lem 3 sample sample-IsVec
