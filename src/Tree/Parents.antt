-- ===== src/Tree/Parents.antt =====
-- `into_parent`: a node's parent pointer is followed to the node above.
use btree_vec.Common.{ℕ, suc, ◌≡◌, none, some, ok, ==_self}
use btree_vec.Node.{Cell}
use btree_vec.Tree.{Body, Tree, Frame, Above, top, under, plug, into_parent}

module _ {ℓ} {A : Type ℓ} where
  pub into_parent-under :
      {h : ℕ} (c : Tree A h) (f : Cell (Frame (Body A h))) (k : Above A (suc h))
      → c.prefix.parent ≡ some f.addr
      → into_parent c (under f k) ≡ ok (some (plug f c, k))
  unfolding into_parent
  into_parent-under c f k e = rw (e, ==_self f.addr)

  pub into_parent-top :
      {h : ℕ} (c : Tree A h) → c.prefix.parent ≡ none → into_parent c top ≡ ok none
  unfolding into_parent
  into_parent-top c e = rw e
