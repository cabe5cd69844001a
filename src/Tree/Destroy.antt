-- ===== src/Tree/Destroy.antt =====
-- `destroy` of src/node/mod.rs, src/node/leaf.rs and src/node/internal.rs.
use btree_vec.Common.{ℕ, zero, suc, none, some, List, [], ◌∷◌, Result, ok, err, Error, ◌>>=◌}
use btree_vec.Node.{Cell, set_prefix, Allocator}
use btree_vec.Node.Internal.{Entry}
use btree_vec.Tree.{Tree}

-- `destroy`: the node must have no parent any more; its children go first. The items of a leaf are
-- dropped with it, which leaves no trace here.
module _ {ℓ} {C : Type ℓ} (al : Allocator) (destroy : Cell C → al.State → Result al.State) where
  unfoldable pub destroy_children : List (Entry C) → al.State → Result al.State
  destroy_children [] s = ok s
  destroy_children ((c, n) ∷ es) s = do
    s' ← destroy (set_prefix none c.prefix.index c) s
    destroy_children es s'

unfoldable pub destroy {ℓ} :
    (A : Type ℓ) (al : Allocator) (h : ℕ) → Tree A h → al.State → Result al.State
unfolding destroy_children
destroy A al zero c s = elim c.prefix.parent [
  | none ↦ ok (al.deallocate c.addr s)
  | some p ↦ err Error.panic
]
destroy A al (suc h) c s = elim c.prefix.parent [
  | none ↦ do
    s' ← destroy_children al (destroy A al h) c.body.children s
    ok (al.deallocate c.addr s')
  | some p ↦ err Error.panic
]
