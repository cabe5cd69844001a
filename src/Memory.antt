-- ===== src/Memory.antt =====
-- Which addresses the nodes of a vector have, against those that its allocator has handed out:
-- what `VerifiedAlloc` of src/verified_alloc.rs asks of the code that uses it.
pub mod Accounts
pub mod Ancestors
pub mod Beside
pub mod Blocks
pub mod Cloning
pub mod Draining
pub mod Inserting
pub mod Nodes
pub mod Numbers
pub mod Rebalancing
pub mod Removing
pub mod Traces
pub mod Vectors
pub mod Walking
use btree_vec.Common.{ℕ, ◌+◌, ◌≤◌, ◌<◌, ◌≡◌, List, [], ◌∷◌, ◌++◌, ◌==◌, if◌then◌else◌}
use btree_vec.Node.{Ptr, Cell, Allocator}
use btree_vec.Node.Internal.Children.{concat_with}
use btree_vec.Tree.{Body, Tree, Above, top, under}
use btree_vec.Vec.Dropping.{node_addrs}

-- How often `p` is `q`: once or not at all.
unfoldable pub single : Ptr → Ptr → ℕ
single p q = if q == p then 1 else 0

abbrev pub count : Ptr → List Ptr → ℕ
count p [] = 0
count p (q ∷ qs) = single p q + count p qs

-- What the documentation of `Allocator` says: a block is live from its allocation until it is given
-- back, and a block that is handed out is none of those that are live. Only a live block may be
-- given back; `IsSound` is what holds as long as nothing else has been done.
pub record Ledger (al : Allocator) : Type 1 where
  pub live : al.State → Ptr → ℕ
  pub IsSound : al.State → Type 0
  pub fresh : (s : al.State) → live s (al.allocate s).0 ≡ 0
  pub live-allocate :
      (s : al.State) (p : Ptr) → live (al.allocate s).1 p ≡ live s p + single p (al.allocate s).0
  pub live-deallocate :
      (s : al.State) (q : Ptr)
      → 0 < live s q
      → (p : Ptr) → live (al.deallocate q s) p + single p q ≡ live s p
  pub allocate-IsSound : (s : al.State) → IsSound s → IsSound (al.allocate s).1
  pub deallocate-IsSound :
      (s : al.State) (q : Ptr) → 0 < live s q → IsSound s → IsSound (al.deallocate q s)

-- The live blocks are those of `f` and those of `others`, none of them is live twice, and only live
-- blocks have been given back.
pub record Holds {al : Allocator} (ledger : Ledger al) (others : Ptr → ℕ) (s : al.State)
    (f : Ptr → ℕ) : Type 0 where
  pub counts : (p : Ptr) → ledger.live s p ≡ f p + others p
  pub once : (p : Ptr) → ledger.live s p ≤ 1
  pub sound : ledger.IsSound s

-- How many of the nodes of a tree are at `p`, and of the nodes above a node, without what is below
-- it.
abbrev pub below {ℓ} : (A : Type ℓ) (h : ℕ) → Tree A h → Ptr → ℕ
below A h c p = count p (node_addrs A h c.addr c.body)

abbrev pub above_addrs {ℓ} : {A : Type ℓ} {h : ℕ} → Above A h → List Ptr
above_addrs top = []
above_addrs {A = A} (under {h = h} f k) =
    concat_with (node_addrs A h) f.body.before
    ++ (concat_with (node_addrs A h) f.body.after ++ (f.addr ∷ above_addrs k))

abbrev pub above {ℓ} : {A : Type ℓ} {h : ℕ} → Above A h → Ptr → ℕ
above k p = count p (above_addrs k)
