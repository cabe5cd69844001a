-- ===== src/Memory/Removing.antt =====
-- What a removal does to the nodes of the tree and to the live blocks.
use btree_vec.Common.{
  IfOk-if, ℕ, zero, suc, ◌+◌, ◌≡◌, refl, sym, subst, ap, ◌∙◌, Option, none, some, ok, err, Error,
  IfOk, if_ok, if_err, IfOk-bind, IfOk-any, IfOk-map, arith, length, ◌==◌,
}
use btree_vec.Node.{Ptr, Allocator}
use btree_vec.Node.Leaf.{Leaf}
use btree_vec.Node.Internal.{plus, minus}
use btree_vec.Tree.{Tree, Above}
use btree_vec.Tree.Valid.{parent_of}
use btree_vec.Tree.Destroy.{destroy}
use btree_vec.Remove.{
  RemovalKind, Removal, RemovalResult, removal, done, size_at, sizes_merged, sizes_moved,
  update_parent, no_parent, handle_removal, collapse, remove_loop, remove,
}
use btree_vec.Memory.{Ledger, Holds, below, above}
use btree_vec.Memory.Ancestors.{AboveLinked, ParentIs, into_parent-ParentIs, above-none}
use btree_vec.Memory.Blocks.{Holds-eq, Holds-give_back}
use btree_vec.Memory.Inserting.{HeldRoot, change_size-below}
use btree_vec.Memory.Accounts.{tree-Accounts}
use btree_vec.Vec.Dropping.{node_addrs, give_back, destroy_lem}
use btree_vec.Memory.Rebalancing.{LinkedFor, remove_once-Kept}

destroy-give_back {ℓ} :
    (A : Type ℓ) (al : Allocator) (h : ℕ) (c : Tree A h) (s : al.State)
    → IfOk (λ s'. s' ≡ give_back al (node_addrs A h c.addr c.body) s) (destroy A al h c s)
unfolding destroy
destroy-give_back A al h c s = go h c c.prefix.parent refl
  where
    fails :
        (h : ℕ) (c : Tree A h) (p : Ptr)
        → c.prefix.parent ≡ some p
        → destroy A al h c s ≡ err Error.panic
    fails zero c p e = rw e
    fails (suc h) c p e = rw e

    go :
        (h : ℕ) (c : Tree A h) (o : Option Ptr)
        → c.prefix.parent ≡ o
        → IfOk (λ s'. s' ≡ give_back al (node_addrs A h c.addr c.body) s) (destroy A al h c s)
    go h c none e = subst (IfOk _) (sym (destroy_lem A al h c s e)) (if_ok refl)
    go h c (some p) e = subst (IfOk _) (sym (fails h c p e)) if_err

module _ {ℓ} (A : Type ℓ) (h : ℕ) where
  -- The same node in the same place, with the same nodes below it.
  abbrev Alike : Tree A (suc h) → Tree A (suc h) → Type 0
  Alike n n' = (n'.prefix ≡ n.prefix) × ((p : Ptr) → below A (suc h) n' p ≡ below A (suc h) n p)

  sizes_merged-Alike :
      (src dest : ℕ) (n : Tree A (suc h)) → IfOk (Alike n) (sizes_merged src dest n)
  unfolding sizes_merged
  sizes_merged-Alike src dest n =
      IfOk-bind _ (IfOk-any (size_at n.body.children n.body.spare src)) λ size t.
        IfOk-bind _ (change_size-below A (λ _. ok 0) h src n) λ n' (pre, same).
          IfOk-bind _ (change_size-below A (plus size) h dest n') λ n'' (pre', same').
            IfOk-map (change_size-below A (minus 1) h dest n'')
              λ m (pre'', same''). (pre'' ∙ pre' ∙ pre, λ p. same'' p ∙ same' p ∙ same p)

  sizes_moved-Alike :
      (src dest size : ℕ) (n : Tree A (suc h)) → IfOk (Alike n) (sizes_moved src dest size n)
  unfolding sizes_moved
  sizes_moved-Alike src dest size n =
      IfOk-bind _ (change_size-below A (minus size) h src n) λ n' (pre, same).
        IfOk-bind _ (change_size-below A (plus size) h dest n') λ n'' (pre', same').
          IfOk-map (change_size-below A (minus 1) h dest n'')
            λ m (pre'', same''). (pre'' ∙ pre' ∙ pre, λ p. same'' p ∙ same' p ∙ same p)

module _ {ℓ} (A : Type ℓ) {al : Allocator} (ledger : Ledger al) (others : Ptr → ℕ) where
  -- A node that is destroyed with all below it is not live any more.
  pub destroy-Holds :
      (h : ℕ) (c : Tree A h) (rest : Ptr → ℕ) (s : al.State)
      → Holds ledger others s (λ p. below A h c p + rest p)
      → IfOk (λ s'. Holds ledger others s' rest) (destroy A al h c s)
  destroy-Holds h c rest s held = IfOk-map (destroy-give_back A al h c s) λ s' e.
      subst (λ t. Holds ledger others t rest) (sym e)
        (Holds-give_back ledger others (node_addrs A h c.addr c.body) s rest held)

module _ {ℓ} (A : Type ℓ) (B : ℕ) {al : Allocator} (ledger : Ledger al) (others : Ptr → ℕ) where
  -- Between two rounds of the loop, every node is live, and the nodes above are linked.
  abbrev HeldRemoval : RemovalResult A × al.State → Type 0
  HeldRemoval (removal h r, s) =
      LinkedFor r.kind r.node r.above
      × AboveLinked r.above
      × Holds ledger others s (λ p. below A h r.node p + above r.above p)
  HeldRemoval (done h n, s) = Holds ledger others s (below A h n)

  update_parent-HeldRemoval :
      (h : ℕ) (kind : RemovalKind) (n : Tree A (suc h)) (k : Above A (suc h)) (s : al.State)
      → n.prefix.parent ≡ parent_of k
      → AboveLinked k
      → Holds ledger others s (λ p. below A (suc h) n p + above k p)
      → IfOk HeldRemoval (update_parent A B al h kind n k s)
  unfolding update_parent
  update_parent-HeldRemoval h (RemovalKind.merged src dest) n k s e l held =
      IfOk-bind _ (sizes_merged-Alike A h src dest n) λ n' (pre, same).
        IfOk-bind _ (remove_once-Kept A B al (suc h) n' k src (ap (λ q. q.parent) pre ∙ e) l)
          λ (r, x) (linked, above_linked, same').
            IfOk-bind _
              (destroy-Holds A ledger others h x.0 (λ p. below A (suc h) r.node p + above r.above p)
                s (Holds-eq ledger others held (λ p. omega (arith, same p, same' p))))
              λ s' held'. if_ok (linked, above_linked, held')
  update_parent-HeldRemoval h (RemovalKind.moved src dest size) n k s e l held =
      IfOk-bind _ (sizes_moved-Alike A h src dest size n) λ n' (pre, same).
        if_ok
          (ap (λ q. q.parent) pre ∙ e, l, Holds-eq ledger others held (λ p. omega (arith, same p)))
  update_parent-HeldRemoval h (RemovalKind.absorbed i) n k s e l held =
      IfOk-bind _ (change_size-below A (minus 1) h i n) λ n' (pre, same).
        if_ok
          (ap (λ q. q.parent) pre ∙ e, l, Holds-eq ledger others held (λ p. omega (arith, same p)))

  no_parent-HeldRemoval :
      (h : ℕ) (kind : RemovalKind) (n : Tree A h) (k : Above A h) (s : al.State)
      → n.prefix.parent ≡ none
      → LinkedFor kind n k
      → Holds ledger others s (λ p. below A h n p + above k p)
      → IfOk HeldRemoval (no_parent A B al h kind n s)
  unfolding no_parent
  no_parent-HeldRemoval h (RemovalKind.merged src dest) n k s e linked held = if_err
  no_parent-HeldRemoval h (RemovalKind.moved src dest size) n k s e linked held = if_err
  no_parent-HeldRemoval h (RemovalKind.absorbed i) n k s e linked held =
      if_ok (Holds-eq ledger others held (λ p. omega (arith, above-none k (sym linked ∙ e) p)))

  handle_removal-HeldRemoval :
      (h : ℕ) (r : Removal A h) (s : al.State)
      → HeldRemoval (removal h r, s)
      → IfOk HeldRemoval (handle_removal A B al h r s)
  unfolding handle_removal
  handle_removal-HeldRemoval h r s (linked, l, held) =
      IfOk-bind _ (into_parent-ParentIs r.node r.above l) up
    where
      up :
          (o : Option (Tree A (suc h) × Above A (suc h)))
          → ParentIs r.node r.above o
          → IfOk HeldRemoval (elim o [
            | none ↦ no_parent A B al h r.kind r.node s
            | some (p, k) ↦ update_parent A B al h r.kind p k s
          ])
      up none alone = no_parent-HeldRemoval h r.kind r.node r.above s alone linked held
      up (some (n, k)) (e, l', same) =
          update_parent-HeldRemoval h r.kind n k s e l'
            (Holds-eq ledger others held (λ p. omega (arith, same p)))

  collapse-HeldRoot :
      (h : ℕ) (n : Tree A h) (s : al.State)
      → Holds ledger others s (below A h n)
      → IfOk (HeldRoot A B ledger others) (collapse A B al h n s)
  unfolding collapse
  collapse-HeldRoot zero n s held = if_ok held
  collapse-HeldRoot (suc h) n s held =
      IfOk-if (length n.body.children == 1)
        (IfOk-bind _ ((tree-Accounts A B al (suc h)).remove n 0) λ (n', x) (pre, same).
          IfOk-bind _
            (destroy-Holds A ledger others (suc h) n' (below A h x.0) s
              (Holds-eq ledger others held (λ p. omega (arith, same p))))
            λ s' held'. if_ok held')
        (if_ok held)

  remove_loop-HeldRoot :
      (fuel : ℕ) (r : RemovalResult A) (s : al.State)
      → HeldRemoval (r, s)
      → IfOk (HeldRoot A B ledger others) (remove_loop A B al fuel r s)
  unfolding remove_loop
  remove_loop-HeldRoot zero r s held = if_err
  remove_loop-HeldRoot (suc fuel) (done h n) s held = collapse-HeldRoot h n s held
  remove_loop-HeldRoot (suc fuel) (removal h r) s held =
      IfOk-bind _ (handle_removal-HeldRemoval h r s held)
        λ (r', s') held'. remove_loop-HeldRoot fuel r' s' held'

  pub remove-HeldRoot :
      (fuel : ℕ) (leaf : Leaf A) (k : Above A 0) (i : ℕ) (s : al.State)
      → leaf.prefix.parent ≡ parent_of k
      → AboveLinked k
      → Holds ledger others s (λ p. below A 0 leaf p + above k p)
      → IfOk (λ (r, item, s'). HeldRoot A B ledger others (r, s')) (remove A B al fuel leaf k i s)
  unfolding remove
  remove-HeldRoot fuel leaf k i s e l held =
      IfOk-bind _ (remove_once-Kept A B al 0 leaf k i e l) λ (r, item) (linked, above_linked, same).
        IfOk-bind _
          (remove_loop-HeldRoot fuel (removal 0 r) s
            (linked, above_linked, Holds-eq ledger others held (λ p. omega (arith, same p))))
          λ (root, s') held'. if_ok held'
