-- ===== src/Memory/Inserting.antt =====
-- What an insertion does to the nodes of the tree and to the live blocks.
use btree_vec.Common.{
  IfOk-if, ℕ, zero, suc, ◌+◌, ◌-◌, ◌/◌, ◌≡◌, sym, subst, ap, ◌∙◌, Option, none, some, Result, IfOk,
  if_ok, if_err, IfOk-bind, IfOk-map, arith, leb, ◌==◌,
}
use btree_vec.Node.{Ptr, Allocator}
use btree_vec.Node.SplitStrategy.{larger_left, larger_right}
use btree_vec.Node.Leaf.{Leaf}
use btree_vec.Node.Internal.{change_size, new_internal, plus, minus}
use btree_vec.Tree.{Tree, Above, top, Root}
use btree_vec.Tree.Valid.{parent_of}
use btree_vec.Insert.{
  insert_right, insert_left, insert_only, insert_once, InsertionResult, insertion, done, node_size,
  update_parent, grow_root, handle_insertion, insert_loop, insert,
}
use btree_vec.Remove.{Child, tree_node}
use btree_vec.Memory.{Ledger, Holds, below, above}
use btree_vec.Memory.Ancestors.{AboveLinked, ParentIs, into_parent-ParentIs, above-none}
use btree_vec.Memory.Blocks.{Holds-eq, Holds-allocate}
use btree_vec.Memory.Accounts.{child_below, tree-Accounts}
use btree_vec.Memory.Nodes.{change_size-kids, below-kids, below-addr}
use btree_vec.Vec.Dropping.{node_addrs}

-- The new node beside an old one, if there is one.
abbrev pub extra {ℓ} : (A : Type ℓ) (h : ℕ) → Option (Tree A h) → Ptr → ℕ
extra A h none p = 0
extra A h (some m) p = below A h m p

pub change_size-below {ℓ} :
    (A : Type ℓ) (f : ℕ → Result ℕ) (h i : ℕ) (n : Tree A (suc h))
    → IfOk
        (λ n'. (n'.prefix ≡ n.prefix) × ((p : Ptr) → below A (suc h) n' p ≡ below A (suc h) n p))
        (change_size f i n)
change_size-below A f h i n = IfOk-map (change_size-kids (node_addrs A h) f i n) λ n' (place, same).
    (
      place.prefix_is,
      λ p. omega (arith, same p, below-kids A h n p, below-addr A h n n' p place.addr_is),
    )

module _ {ℓ} (A : Type ℓ) (B : ℕ) {al : Allocator} (ledger : Ledger al) (others : Ptr → ℕ) where
  module _ (h : ℕ) (rest : Ptr → ℕ) where
    -- What an insertion into one node leaves, next to `rest`.
    abbrev HeldOnce : Tree A h → Tree A h × Option (Tree A h) × al.State → Type 0
    HeldOnce node (node', new, s) =
        (node'.prefix ≡ node.prefix)
        × Holds ledger others s (λ p. below A h node' p + extra A h new p + rest p)

    module _ (node : Tree A h) (i : ℕ) (x : Child A h) (s : al.State)
        (held : Holds ledger others s (λ p. below A h node p + child_below A h x p + rest p)) where
      insert_right-HeldOnce :
          IfOk (HeldOnce node) (insert_right B al (tree_node A B al h) node i x s)
      unfolding insert_right
      insert_right-HeldOnce =
          IfOk-bind _ ((tree-Accounts A B al h).split larger_left node s)
            λ (node', new, s') (pre, st, same).
              IfOk-bind _ ((tree-Accounts A B al h).insert new i x) λ new' (pre', same'). if_ok (
                pre,
                subst
                    (λ t.
                      Holds ledger others t (λ p. below A h node' p + below A h new' p + rest p))
                    (sym st)
                    (Holds-eq ledger others (Holds-allocate ledger others s _ held)
                      (λ p. omega (arith, same p, same' p))),
              )

      insert_left-HeldOnce : IfOk (HeldOnce node) (insert_left B al (tree_node A B al h) node i x s)
      unfolding insert_left
      insert_left-HeldOnce =
          IfOk-bind _ ((tree-Accounts A B al h).split larger_right node s)
            λ (node', new, s') (pre, st, same).
              IfOk-bind _ ((tree-Accounts A B al h).insert node' i x) λ node'' (pre', same').
                if_ok (
                  pre' ∙ pre,
                  subst
                      (λ t.
                        Holds ledger others t (λ p. below A h node'' p + below A h new p + rest p))
                      (sym st)
                      (Holds-eq ledger others (Holds-allocate ledger others s _ held)
                        (λ p. omega (arith, same p, same' p))),
                )

      insert_only-HeldOnce : IfOk (HeldOnce node) (insert_only B al (tree_node A B al h) node i x s)
      unfolding insert_only
      insert_only-HeldOnce =
          IfOk-bind _ ((tree-Accounts A B al h).insert node i x) λ node' (pre, same).
            if_ok (pre, Holds-eq ledger others held (λ p. omega (arith, same p)))

    insert_once-HeldOnce :
        (node : Tree A h) (i : ℕ) (x : Child A h) (s : al.State)
        → Holds ledger others s (λ p. below A h node p + child_below A h x p + rest p)
        → IfOk (HeldOnce node) (insert_once B al (tree_node A B al h) node i x s)
    unfolding insert_once
    insert_once-HeldOnce node i x s held =
        IfOk-if ((tree_node A B al h).length node == B)
          (IfOk-if (leb (B - B / 2) i) (insert_right-HeldOnce node (i - (B - B / 2)) x s held)
            (insert_left-HeldOnce node i x s held))
          (insert_only-HeldOnce node i x s held)

  -- Between two rounds of the loop, every node is live, and the nodes above are linked.
  abbrev HeldResult : InsertionResult A × al.State → Type 0
  HeldResult (insertion h n new k, s) =
      (n.prefix.parent ≡ parent_of k)
      × AboveLinked k
      × Holds ledger others s (λ p. below A h n p + extra A h new p + above k p)
  HeldResult (done h n, s) = Holds ledger others s (below A h n)

  update_parent-HeldResult :
      (h : ℕ) (parent : Tree A (suc h)) (k : Above A (suc h)) (i : ℕ) (new : Option (Tree A h))
      (s : al.State)
      → parent.prefix.parent ≡ parent_of k
      → AboveLinked k
      → Holds ledger others s (λ p. below A (suc h) parent p + extra A h new p + above k p)
      → IfOk HeldResult (update_parent B al parent k i new s)
  unfolding update_parent
  update_parent-HeldResult h parent k i none s e l held =
      IfOk-bind _ (change_size-below A (plus 1) h i parent) λ parent' (pre, same).
        if_ok
          (ap (λ q. q.parent) pre ∙ e, l, Holds-eq ledger others held (λ p. omega (arith, same p)))
  update_parent-HeldResult h parent k i (some new) s e l held =
      IfOk-bind _ (change_size-below A (plus 1) h i parent) λ parent' (pre, same).
        IfOk-bind _ (change_size-below A (minus (node_size A h new)) h i parent')
          λ parent'' (pre', same').
            IfOk-bind _
              (insert_once-HeldOnce (suc h) (above k) parent'' (i + 1) (new, node_size A h new) s
                (Holds-eq ledger others held (λ p. omega (arith, same p, same' p))))
              λ (n, new', s') (pre'', held').
                if_ok (ap (λ q. q.parent) (pre'' ∙ pre' ∙ pre) ∙ e, l, held')

  grow_root-HeldResult :
      (h : ℕ) (node : Tree A h) (new : Option (Tree A h)) (size : ℕ) (s : al.State)
      → Holds ledger others s (λ p. below A h node p + extra A h new p)
      → IfOk HeldResult (grow_root B al h node new size s)
  unfolding grow_root
  grow_root-HeldResult h node none size s held =
      if_ok (Holds-eq ledger others held (λ p. omega arith))
  grow_root-HeldResult h node (some new) size s held =
      IfOk-bind _
        ((tree-Accounts A B al (suc h)).insert (new_internal B (al.allocate s).0) 0 (node, size))
        λ parent (pre, same).
          update_parent-HeldResult h parent top node.prefix.index (some new) (al.allocate s).1
            (ap (λ q. q.parent) pre) tt
            (Holds-eq ledger others (Holds-allocate ledger others s _ held)
              (λ p. omega (arith, same p)))

  handle_insertion-HeldResult :
      (h : ℕ) (node : Tree A h) (new : Option (Tree A h)) (k : Above A h) (size : ℕ) (s : al.State)
      → HeldResult (insertion h node new k, s)
      → IfOk HeldResult (handle_insertion B al node new k size s)
  unfolding handle_insertion
  handle_insertion-HeldResult h node new k size s (e, l, held) =
      IfOk-bind _ (into_parent-ParentIs node k l) up
    where
      up :
          (o : Option (Tree A (suc h) × Above A (suc h)))
          → ParentIs node k o
          → IfOk HeldResult (elim o [
            | none ↦ grow_root B al h node new size s
            | some (parent, k') ↦ update_parent B al parent k' node.prefix.index new s
          ])
      up none alone =
          grow_root-HeldResult h node new size s
            (Holds-eq ledger others held (λ p. omega (arith, above-none k (sym e ∙ alone) p)))
      up (some (parent, k')) (e', l', same) =
          update_parent-HeldResult h parent k' node.prefix.index new s e' l'
            (Holds-eq ledger others held (λ p. omega (arith, same p)))

  -- The root's nodes are the live blocks.
  abbrev pub HeldRoot : Root A × al.State → Type 0
  HeldRoot (r, s) = Holds ledger others s (below A r.height r.node)

  insert_loop-HeldRoot :
      (fuel : ℕ) (r : InsertionResult A) (size : ℕ) (s : al.State)
      → HeldResult (r, s)
      → IfOk HeldRoot (insert_loop B al fuel r size s)
  unfolding insert_loop
  insert_loop-HeldRoot zero r size s held = if_err
  insert_loop-HeldRoot (suc fuel) (done h n) size s held = if_ok held
  insert_loop-HeldRoot (suc fuel) (insertion h n new k) size s held =
      IfOk-bind _ (handle_insertion-HeldResult h n new k size s held)
        λ (r, s') held'. insert_loop-HeldRoot fuel r size s' held'

  pub insert-HeldRoot :
      (fuel : ℕ) (leaf : Leaf A) (k : Above A 0) (i : ℕ) (item : A) (size : ℕ) (s : al.State)
      → leaf.prefix.parent ≡ parent_of k
      → AboveLinked k
      → Holds ledger others s (λ p. below A 0 leaf p + above k p)
      → IfOk HeldRoot (insert B al fuel leaf k i item size s)
  unfolding insert
  insert-HeldRoot fuel leaf k i item size s e l held =
      IfOk-bind _
        (insert_once-HeldOnce 0 (above k) leaf i item s
          (Holds-eq ledger others held (λ p. omega arith)))
        λ (leaf', new, s') (pre, held').
          insert_loop-HeldRoot fuel (insertion 0 leaf' new k) size s'
            (ap (λ q. q.parent) pre ∙ e, l, held')
