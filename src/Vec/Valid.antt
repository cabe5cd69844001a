-- ===== src/Vec/Valid.antt =====
-- What a vector holds, and when it is well formed.
use btree_vec.Common.{ℕ, ◌≤◌, ◌≡◌, Option, none, some, List, [], length}
use btree_vec.Node.{Allocator}
use btree_vec.Tree.{Root}
use btree_vec.Tree.Valid.{items, IsRoot, root_leaves}
use btree_vec.Tree.Chain.{IsChain}
use btree_vec.Vec.{BTreeVec}

module _ {ℓ} {A : Type ℓ} where
  abbrev pub root_items : Option (Root A) → List A
  root_items none = []
  root_items (some r) = items (root_leaves r)

  abbrev pub IsRootOption : ℕ → Option (Root A) → Type 0
  IsRootOption B none = Unit
  IsRootOption B (some r) = IsRoot B r × IsChain (root_leaves r)

module _ {ℓ} {A : Type ℓ} {al : Allocator} where
  -- The abstract vector: a list.
  abbrev pub contents : BTreeVec al A → List A
  contents v = root_items v.root

  pub record IsVec (B : ℕ) (v : BTreeVec al A) : Type 0 where
    pub branching : 3 ≤ B
    pub root_is : IsRootOption B v.root
    pub size_is : v.size ≡ length (contents v)
