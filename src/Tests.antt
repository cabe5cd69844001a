-- ===== src/Tests.antt =====
-- Runs on concrete inputs, and the theorems at such inputs.
mod Accounting
mod Allocating
mod Calling
mod Cloning
mod Comparing
mod Iterating
use btree_vec.Common.{
  ℕ, suc, ◌≡◌, ◌≤◌, ◌<◌, ◌-◌, ◌++◌, refl, none, some, List, [], ◌∷◌, Result, ok, err, Error, ◌>>=◌,
  arith, Returns, returned, Returns-bind, insert_at, get_elem?, length,
}
use btree_vec.Node.{Allocator, new_prefix}
use btree_vec.Node.Leaf
use btree_vec.Node.Internal
use btree_vec.Tree.{find_child, leaf_for, into_parent, deref_parent}
use btree_vec.Insert
use btree_vec.Remove
use btree_vec.Tree.Beside.{
  child_at, left_at, set_cell, set_child, set_sibling, siblings, siblings_of,
}
use btree_vec.Tree.Destroy.{destroy}
use btree_vec.Remove.Laws.{IsMerged}
use btree_vec.Remove.MergeInternal.{tree_node-Laws}
use btree_vec.Vec
use btree_vec.Vec.{BTreeVec}
use btree_vec.Vec.Valid.{IsVec, contents}
use btree_vec.Vec.Inserting
use btree_vec.Vec.Get
use btree_vec.Vec.Removing

-- An allocator that hands out the addresses in order.
abbrev pub counting : Allocator
counting = record { State = ℕ; allocate = λ s. (s, suc s); deallocate = λ _ s. s }

abbrev pub Vec3 : Type 0
Vec3 = BTreeVec counting ℕ

-- The definitions that a run of `insert` computes with.
unfoldable pub run_insert : Vec3 → ℕ → ℕ → Result Vec3
unfolding Vec.insert Vec.get_or_insert_root Vec.insert_below leaf_for find_child Insert.insert
    Insert.insert_once Insert.insert_right Insert.insert_left Insert.insert_only Insert.insert_loop
    Insert.handle_insertion into_parent deref_parent Insert.grow_root Insert.update_parent
    Insert.node_size Leaf.simple_insert Leaf.split Internal.simple_insert Internal.split
    Internal.adopt Internal.reindex Internal.change_size Internal.change Internal.change_spare
run_insert v i x = Vec.insert 3 counting v i x

push_all : ℕ → List ℕ → Vec3 → Result Vec3
push_all B [] v = ok v
push_all B (x ∷ xs) v = do v' ← Vec.insert B counting v v.size x; push_all B xs v'

or_else : Result Vec3 → Vec3 → Vec3
or_else (ok v) w = v
or_else (err e) w = w

abbrev pub nothing : Vec3
nothing = record { root = none; size = 0; alloc = 100 }

abbrev pub zero_to_seven : List ℕ
zero_to_seven = 0 ∷ 1 ∷ 2 ∷ 3 ∷ 4 ∷ 5 ∷ 6 ∷ 7 ∷ []

-- Eight items below a root of height 2.
unfoldable pub sample : Vec3
unfolding run_insert push_all or_else
sample = or_else (push_all 3 zero_to_seven nothing) nothing

sample-contents : contents sample ≡ zero_to_seven
unfolding sample
sample-contents = refl

pub nothing-IsVec : (B : ℕ) → 3 ≤ B → IsVec B nothing
nothing-IsVec B h = record { branching = h; root_is = tt; size_is = refl }

-- What is built by `insert` is well formed.
push_all-IsVec : (B : ℕ) (xs : List ℕ) (v : Vec3) → IsVec B v → Returns (IsVec B) (push_all B xs v)
unfolding push_all
push_all-IsVec B [] v valid = returned valid
push_all-IsVec B (x ∷ xs) v valid =
    Returns-bind (push_all B xs)
      ((Inserting.insert_lem B counting v v.size x valid).0 (omega (arith, valid.size_is)))
      λ v' q. push_all-IsVec B xs v' q.0

or_else-IsVec : (B : ℕ) (r : Result Vec3) (w : Vec3) → Returns (IsVec B) r → IsVec B (or_else r w)
unfolding or_else
or_else-IsVec B (ok v) w (returned valid) = valid
or_else-IsVec B (err e) w h = elim h [ ]

pub sample-IsVec : IsVec 3 sample
unfolding sample
sample-IsVec =
    or_else-IsVec 3 (push_all 3 zero_to_seven nothing) nothing
      (push_all-IsVec 3 zero_to_seven nothing (nothing-IsVec 3 (omega arith)))

get_lem_example : Vec.get sample 5 ≡ ok (get_elem? (contents sample) 5)
get_lem_example = Get.get_lem 3 sample 5 sample-IsVec

insert_lem_example :
    (3 ≤ length (contents sample)
      → Returns
          (λ v. IsVec 3 v × (contents v ≡ insert_at 3 30 (contents sample)))
          (Vec.insert 3 counting sample 3 30))
    × (length (contents sample) < 3 → Vec.insert 3 counting sample 3 30 ≡ err Error.panic)
insert_lem_example = Inserting.insert_lem 3 counting sample 3 30 sample-IsVec

push_lem_example :
    Returns
      (λ v. IsVec 3 v × (contents v ≡ contents sample ++ (8 ∷ [])))
      (Vec.push 3 counting sample 8)
push_lem_example = Inserting.push_lem 3 counting sample 8 sample-IsVec

create_in_lem_example :
    (3 ≤ 3 → Returns (λ v. IsVec 3 v × (contents {A = ℕ} v ≡ [])) (Vec.create_in 3 counting 0))
    × (3 < 3 → Vec.create_in {A = ℕ} 3 counting 0 ≡ err Error.panic)
create_in_lem_example = Inserting.create_in_lem 3 counting 0

first-last_example :
    (Vec.first sample ≡ ok (get_elem? (contents sample) 0))
    × (Vec.last sample ≡ ok (get_elem? (contents sample) (length (contents sample) - 1)))
first-last_example = Get.first-last 3 sample sample-IsVec

index_lem_example :
    ((item : ℕ) → (get_elem? (contents sample) 2 ≡ some item) → Vec.index sample 2 ≡ ok item)
    × (length (contents sample) ≤ 2 → Vec.index sample 2 ≡ err Error.panic)
index_lem_example = Get.index_lem 3 sample 2 sample-IsVec

-- The definitions that a run of `remove` computes with.
run_remove : ℕ → Vec3 → ℕ → Result (Vec3 × ℕ)
unfolding Vec.remove Vec.unwrap_root Vec.remove_below leaf_for find_child Remove.remove
    Remove.remove_once Remove.rebalance siblings siblings_of left_at child_at set_child set_cell
    set_sibling Remove.from_siblings Remove.take_left Remove.take_right Remove.merge_left
    Remove.merge_right destroy Remove.size_at Remove.sizes_merged Remove.sizes_moved
    Remove.update_parent Remove.no_parent Remove.handle_removal Remove.collapse Remove.remove_loop
    into_parent deref_parent Leaf.simple_insert Leaf.simple_remove Leaf.merge Internal.simple_insert
    Internal.simple_remove Internal.merge Internal.change_size Internal.change Internal.change_spare
    Internal.adopt Internal.reindex
run_remove B v i = Vec.remove B counting v i

remove_all : ℕ → List ℕ → Vec3 → Result Vec3
remove_all B [] v = ok v
remove_all B (x ∷ xs) v = do r ← Vec.remove B counting v x; remove_all B xs r.0

after_removals : Result Vec3
unfolding run_remove sample remove_all
after_removals = remove_all 3 (7 ∷ 6 ∷ 5 ∷ 4 ∷ []) sample

abbrev result_contents : Result Vec3 → List ℕ
result_contents (ok v) = contents v
result_contents (err e) = []

after_removals-contents : result_contents after_removals ≡ 0 ∷ 1 ∷ 2 ∷ 3 ∷ []
unfolding after_removals
after_removals-contents = refl

abbrev two_items : Leaf.Leaf ℕ
two_items = record {
  addr = 1;
  prefix = new_prefix;
  body = record { children = 1 ∷ 2 ∷ []; next = some 2 };
}

abbrev one_item : Leaf.Leaf ℕ
one_item = record {
  addr = 2;
  prefix = new_prefix;
  body = record { children = 3 ∷ []; next = none };
}

tree_node-Laws_example :
    (left' : Leaf.Leaf ℕ) × (right' : Leaf.Leaf ℕ) × (Leaf.merge 4 two_items one_item
      ≡ ok (left', right'))
    × IsMerged ℕ 4 counting 0 two_items one_item left' right'
tree_node-Laws_example =
    (tree_node-Laws ℕ 4 counting 0).merge_lem two_items one_item (omega arith) (omega arith)
      (omega arith) (omega arith) (omega arith) refl

-- The same items with the branching factor 4.
unfoldable pub sample4 : Vec3
unfolding run_insert push_all or_else
sample4 = or_else (push_all 4 zero_to_seven nothing) nothing

pub sample4-IsVec : IsVec 4 sample4
unfolding sample4
sample4-IsVec =
    or_else-IsVec 4 (push_all 4 zero_to_seven nothing) nothing
      (push_all-IsVec 4 zero_to_seven nothing (nothing-IsVec 4 (omega arith)))

remove_lem_example :
    (5 < length (contents sample4)
      → Returns
          (λ q. IsVec 4 q.0 × Removing.Removes 5 q.1 (contents sample4) (contents q.0))
          (Vec.remove 4 counting sample4 5))
    × (length (contents sample4) ≤ 5 → Vec.remove 4 counting sample4 5 ≡ err Error.panic)
remove_lem_example = Removing.remove_lem 4 counting sample4 5 (omega arith) sample4-IsVec

pop_lem_example :
    (length (contents sample4) ≡ 0 → Vec.pop 4 counting sample4 ≡ ok (sample4, none))
    × (0 < length (contents sample4)
        → Returns
            (λ q.
              IsVec 4 q.0
              × (item : ℕ) × (q.1 ≡ some item)
              × (contents sample4 ≡ contents q.0 ++ (item ∷ [])))
            (Vec.pop 4 counting sample4))
pop_lem_example = Removing.pop_lem 4 counting sample4 (omega arith) sample4-IsVec
