-- ===== src/Memory/Vectors.antt =====
-- The vector and its allocator: no node is leaked, given back twice or given back while it is in
-- use.
use btree_vec.Common.{
  IfOk-if, ℕ, ◌+◌, ◌≤◌, ◌≡◌, sym, subst, ap, inl, inr, Option, none, some, IfOk, if_ok, if_err,
  IfOk-bind, ◌-◌, le_or_lt, le→leb, lt→leb, le→ltb, lt→ltb, Returns, returned, Returns-map,
  Returns→IfOk, Returns-IfOk, arith, length, ltb, ◌==◌,
}
use btree_vec.Node.{Ptr, Allocator}
use btree_vec.Node.Leaf.{Leaf}
use btree_vec.Tree.{Above, top, Root, leaf_for}
use btree_vec.Tree.Valid.{parent_of, items, root_leaves, IsRoot}
use btree_vec.Vec
use btree_vec.Vec.{BTreeVec, insert_below, remove_below, get_or_insert_root, unwrap_root}
use btree_vec.Vec.Dropping.{root_addrs, drop_lem}
use btree_vec.Vec.Get.{leaf_for_root}
use btree_vec.Vec.Valid.{IsVec, contents}
use btree_vec.Vec.Inserting.{root_lem}
use btree_vec.Memory.{count, Ledger, Holds, below, above}
use btree_vec.Memory.Ancestors.{AboveLinked, IsAbove-AboveLinked, leaf_for-below}
use btree_vec.Memory.Blocks.{Holds-eq, Holds-allocate, Holds-give_back}
use btree_vec.Memory.Inserting.{HeldRoot, insert-HeldRoot}
use btree_vec.Memory.Removing.{remove-HeldRoot}

-- The live blocks are the nodes of the vector, each at an address of its own, and `others`.
abbrev pub HeldVec {ℓ} :
    {A : Type ℓ} {al : Allocator} → Ledger al → (Ptr → ℕ) → BTreeVec al A → Type 0
HeldVec ledger others v = Holds ledger others v.alloc (λ p. count p (root_addrs v.root))

module _ {ℓ} {A : Type ℓ} (B : ℕ) {al : Allocator} (ledger : Ledger al) (others : Ptr → ℕ) where
  -- The leaf for an index is linked to the nodes above it, and with them holds what the root did.
  LeafHeld : al.State → Leaf A × ℕ × Above A 0 → Type 0
  LeafHeld s (leaf, i, k) =
      (leaf.prefix.parent ≡ parent_of k)
      × AboveLinked k
      × Holds ledger others s (λ p. below A 0 leaf p + above k p)

  leaf_for-LeafHeld :
      (r : Root A) (s : al.State) (i : ℕ)
      → 3 ≤ B
      → IsRoot B r
      → i ≤ length (items (root_leaves r))
      → Holds ledger others s (below A r.height r.node)
      → IfOk (LeafHeld s) (leaf_for r.height r.node top i)
  unfolding LeafHeld
  leaf_for-LeafHeld r s i big v h held = Returns→IfOk (
      Returns-map
        (Returns-IfOk (leaf_for_root B big r v i h) (leaf_for-below r.height r.node top i))
        λ x (f, same). (
          f.below.parent_is,
          IsAbove-AboveLinked B (length (items (root_leaves r))) x.2 _ f.above,
          Holds-eq ledger others held (λ p. omega (arith, same p)),
        ))

  insert_below-HeldRoot :
      (r : Root A) (s : al.State) (i : ℕ) (item : A) (size : ℕ)
      → 3 ≤ B
      → IsRoot B r
      → i ≤ length (items (root_leaves r))
      → Holds ledger others s (below A r.height r.node)
      → IfOk (HeldRoot A B ledger others) (insert_below B al r s i item size)
  unfolding insert_below LeafHeld
  insert_below-HeldRoot r s i item size big v h held =
      IfOk-bind _ (leaf_for-LeafHeld r s i big v h held) λ (leaf, j, k) (e, l, held').
        insert-HeldRoot A B ledger others (Vec.insert_fuel r.height) leaf k j item size s e l held'

  remove_below-HeldRoot :
      (r : Root A) (s : al.State) (i : ℕ)
      → 3 ≤ B
      → IsRoot B r
      → i ≤ length (items (root_leaves r))
      → Holds ledger others s (below A r.height r.node)
      → IfOk (λ (r', item, s'). HeldRoot A B ledger others (r', s')) (remove_below B al r s i)
  unfolding remove_below LeafHeld
  remove_below-HeldRoot r s i big v h held =
      IfOk-bind _ (leaf_for-LeafHeld r s i big v h held) λ (leaf, j, k) (e, l, held').
        remove-HeldRoot A B ledger others (Vec.remove_fuel r.height) leaf k j s e l held'

  root-Holds :
      (v : BTreeVec al A)
      → HeldVec ledger others v
      → HeldRoot A B ledger others (get_or_insert_root B al v)
  unfolding get_or_insert_root
  root-Holds v held = go v.root held
    where
      go :
          (root : Option (Root A))
          → HeldVec ledger others (record v { root = root })
          → HeldRoot A B ledger others (get_or_insert_root B al (record v { root = root }))
      go none held =
          Holds-eq ledger others (Holds-allocate ledger others v.alloc _ held) (λ p. omega arith)
      go (some r) held = held

  -- `insert` allocates what it puts into the tree, and nothing else.
  pub insert-HeldVec :
      (v : BTreeVec al A) (i : ℕ) (item : A)
      → IsVec B v
      → HeldVec ledger others v
      → IfOk (HeldVec ledger others) (Vec.insert B al v i item)
  unfolding Vec.insert
  insert-HeldVec v i item valid held = elim (le_or_lt i (length (contents v))) [
    | inl h ↦
        let (rooted, chain, same) = root_lem B al v valid in
        rw (le→leb {a = i} {b = v.size} (omega (arith, valid.size_is))) (
          IfOk-bind _
            (insert_below-HeldRoot (get_or_insert_root B al v).0 (get_or_insert_root B al v).1 i
              item v.size valid.branching rooted (omega (arith, ap length same))
              (root-Holds v held))
            λ (r, s) held'. if_ok held')
    | inr h ↦ rw (lt→leb {a = i} {b = v.size} (omega (arith, valid.size_is))) if_err
  ]

  pub push-HeldVec :
      (v : BTreeVec al A) (item : A)
      → IsVec B v
      → HeldVec ledger others v
      → IfOk (HeldVec ledger others) (Vec.push B al v item)
  unfolding Vec.push
  push-HeldVec v item valid held = insert-HeldVec v v.size item valid held

  -- `remove` gives back what it takes out of the tree, and nothing else.
  pub remove-HeldVec :
      (v : BTreeVec al A) (i : ℕ)
      → IsVec B v
      → HeldVec ledger others v
      → IfOk (λ (v', item). HeldVec ledger others v') (Vec.remove B al v i)
  unfolding Vec.remove unwrap_root
  remove-HeldVec v i valid held = go v.root v.size v.alloc valid held
    where
      go :
          (root : Option (Root A)) (size : ℕ) (s : al.State)
          → IsVec {al = al} B (record { root = root; size = size; alloc = s })
          → HeldVec ledger others (record { root = root; size = size; alloc = s })
          → IfOk
              (λ (q : BTreeVec al A × A). HeldVec ledger others q.0)
              (Vec.remove B al (record { root = root; size = size; alloc = s }) i)
      go none size s valid held = IfOk-if (ltb i size) if_err if_err
      go (some r) size s valid held = elim (le_or_lt size i) [
        | inl h ↦ rw (le→ltb h) if_err
        | inr h ↦ rw (lt→ltb h) (
            IfOk-bind _
              (remove_below-HeldRoot r s i valid.branching valid.root_is.0
                (omega (arith, valid.size_is)) held)
              λ (r', item, s') held'. if_ok held')
      ]

  pub pop-HeldVec :
      (v : BTreeVec al A)
      → IsVec B v
      → HeldVec ledger others v
      → IfOk (λ (v', item). HeldVec ledger others v') (Vec.pop B al v)
  unfolding Vec.pop
  pop-HeldVec v valid held =
      IfOk-if (v.size == 0) (if_ok held)
        (IfOk-bind _ (remove-HeldVec v (v.size - 1) valid held) λ q held'. if_ok held')

  -- Dropping the vector gives back each of its nodes.
  pub drop-Holds :
      (v : BTreeVec al A)
      → IsVec B v
      → HeldVec ledger others v
      → Returns (λ s. Holds ledger others s (λ _. 0)) (Vec.drop al v)
  drop-Holds v valid held = subst (Returns _) (sym (drop_lem B v valid)) (
      returned (
        Holds-give_back ledger others (root_addrs v.root) v.alloc (λ _. 0)
          (Holds-eq ledger others held (λ p. omega arith))))
