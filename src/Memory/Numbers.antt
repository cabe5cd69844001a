-- ===== src/Memory/Numbers.antt =====
-- How many nodes a tree has for the number of its items, and how many blocks a vector keeps live.
use native.Mathlib.Nat.{add-mul, suc-mul, zero-mul, one-mul, le-mul_of_pos_right}
use btree_vec.Common.{
  Option, none, inl, inr, eq_or_ne, ◌>>=◌, Returns, Returns-bind, Returns-map, Returns-IfOk,
  Returns→IfOk, ℕ, zero, suc, ◌+◌, ◌*◌, ◌-◌, ◌/◌, ◌≤◌, ◌<◌, ◌≡◌, refl, ap, subst, ◌∙◌, some, List,
  [], ◌∷◌, arith, length, length-append,
}
use btree_vec.Node.{Ptr, Allocator}
use btree_vec.Node.Internal.{Entry}
use btree_vec.Node.Internal.Children.{Children, concat_with}
use btree_vec.Tree.{Body, Root, top}
use btree_vec.Tree.Valid.{
  leaves, weight, weight-append, weight-nil, leaf-weight, tree_weight, node_length, IsTree,
  IsSubtree, IsRoot, root_leaves, min_length,
}
use btree_vec.Vec.{create_in}
use btree_vec.Vec.Inserting.{create_in_lem}
use btree_vec.Vec.Traces.{Call, list_calls, vec_calls, Matches, calls-Matches}
use btree_vec.Memory.{count, Ledger}
use btree_vec.Memory.Traces.{create_in-HeldVec, calls-HeldVec}
use btree_vec.Vec.Dropping.{node_addrs, root_addrs}
use btree_vec.Vec.Valid.{IsRootOption, root_items}

module _ {ℓ} (A : Type ℓ) (B m : ℕ) (half : suc m ≡ B / 2) where
  -- The number of nodes.
  abbrev nodes : (h : ℕ) → Ptr → Body A h → ℕ
  nodes h a b = length (node_addrs A h a b)

  nodes-concat_with :
      (h : ℕ)
      → ((a : Ptr) (b : Body A h) → IsSubtree A B h a b → nodes h a b * m + 1 ≤ tree_weight A h a b)
      → (a : Ptr) (i : ℕ) (es : List (Entry (Body A h)))
      → Children (IsSubtree A B h) (tree_weight A h) a i es
      → length (concat_with (node_addrs A h) es) * m + length es
        ≤ weight (concat_with (leaves A h) es)
  nodes-concat_with h each a i [] v = omega (arith, weight-nil A, zero-mul m)
  nodes-concat_with h each a i ((c, n) ∷ es) v =
      let rest = nodes-concat_with h each a (suc i) es v.1 in
      let here = each c.addr c.body v.0.is in
      omega (
        arith,
        rest,
        here,
        weight-append (leaves A h c.addr c.body) (concat_with (leaves A h) es),
        ap (λ (t : ℕ). t * m)
            (length-append (node_addrs A h c.addr c.body) (concat_with (node_addrs A h) es)),
        add-mul (nodes h c.addr c.body) (length (concat_with (node_addrs A h) es)) m,
      )

  -- The nodes of an internal node are those of its children and itself.
  nodes-internal :
      (h : ℕ) (a : Ptr) (b : Body A (suc h))
      → nodes (suc h) a b * m ≡ length (concat_with (node_addrs A h) b.children) * m + m
  nodes-internal h a b =
      ap (λ (t : ℕ). t * m) (length-append (concat_with (node_addrs A h) b.children) (a ∷ []))
      ∙ add-mul (length (concat_with (node_addrs A h) b.children)) 1 m
      ∙ ap (λ t. length (concat_with (node_addrs A h) b.children) * m + t) (one-mul m)

  subtree-nodes :
      (h : ℕ) (a : Ptr) (b : Body A h)
      → IsSubtree A B h a b
      → nodes h a b * m + 1 ≤ tree_weight A h a b
  subtree-nodes zero a b v = omega (arith, leaf-weight a b, v.1, one-mul m, half)
  subtree-nodes (suc h) a b v = omega (
    arith,
    nodes-concat_with h (subtree-nodes h) a 0 b.children v.0.children_are,
    nodes-internal h a b,
    v.1,
    half,
  )

  root-nodes :
      (r : Root A)
      → IsRoot B r
      → 0 < r.height
      → length (root_addrs (some r)) * m + 2 ≤ weight (root_leaves r) + m
  root-nodes r v more = go r.height r.node.addr r.node.body v.tree v.long more
    where
      go :
          (h : ℕ) (a : Ptr) (b : Body A h)
          → IsTree A B h a b
          → min_length {A = A} B (top {h = h}) ≤ node_length A h b
          → 0 < h
          → nodes h a b * m + 2 ≤ tree_weight A h a b + m
      go zero a b v long more = absurd (omega arith)
      go (suc h) a b v long more = omega (
        arith,
        nodes-concat_with h (subtree-nodes h) a 0 b.children v.children_are,
        nodes-internal h a b,
        long,
      )

but_one : (n m w : ℕ) → 0 < n → n * m + 2 ≤ w + m → (n - 1) * m + 2 ≤ w
but_one zero m w some_node h = absurd (omega arith)
but_one (suc n) m w some_node h =
    subst (λ (t : ℕ). t * m + 2 ≤ w) {x = n} (omega arith) (omega (arith, h, suc-mul n m))

one_leaf {ℓ} : {A : Type ℓ} (r : Root A) → r.height ≡ 0 → length (root_addrs (some r)) ≡ 1
one_leaf {A = A} r e = go r.height r.node.addr r.node.body e
  where
    go : (h : ℕ) (a : Ptr) (b : Body A h) → h ≡ 0 → length (node_addrs A h a b) ≡ 1
    go zero a b e = refl
    go (suc h) a b e = absurd (omega arith)

some_node {ℓ} : {A : Type ℓ} (r : Root A) → 0 < length (root_addrs (some r))
some_node {A = A} r = go r.height r.node.addr r.node.body
  where
    go : (h : ℕ) (a : Ptr) (b : Body A h) → 0 < length (node_addrs A h a b)
    go zero a b = omega arith
    go (suc h) a b = omega (arith, length-append (concat_with (node_addrs A h) b.children) (a ∷ []))

module _ {ℓ} {A : Type ℓ} (B : ℕ) (half : suc (B / 2 - 1) ≡ B / 2) where
  root_addrs-items :
      (root : Option (Root A))
      → IsRootOption B root
      → (length (root_addrs root) - 1) * (B / 2 - 1) ≤ length (root_items root)
  unfolding weight
  root_addrs-items none h = omega (arith, zero-mul (B / 2 - 1))
  root_addrs-items (some r) h = elim (eq_or_ne r.height 0) [
    | inl leaf ↦
        let one : (length (root_addrs (some r)) - 1) * (B / 2 - 1) ≡ 0 =
          ap (λ n. (n - 1) * (B / 2 - 1)) (one_leaf r leaf) ∙ zero-mul (B / 2 - 1) in
        omega (arith, one)
    | inr more ↦
        let above : 0 < r.height = grind arith in
        omega (
          arith,
          but_one (length (root_addrs (some r))) (B / 2 - 1) (length (root_items (some r)))
              (some_node r) (root-nodes A B (B / 2 - 1) half r h.0 above),
        )
  ]

module _ {ℓ} {A : Type ℓ} (B : ℕ) {al : Allocator} (ledger : Ledger al) where
  -- Let `B` be at least 4, no block of the allocator be live twice, and only live blocks have been
  -- given back. After `create_in` and any calls of `insert`, `remove`, `push`, `pop` and `get` that
  -- do not panic on a list, the live blocks are those that were live before and a list of others,
  -- the memory of the vector: all but one of these, times `B / 2 - 1`, are at most as many as the
  -- items that the calls leave of the list, so that there is at most one block more than items,
  -- however many there have been before.
  pub calls-live :
      (cs : List (Call A)) (s : al.State) (q : List A × List (Option A))
      → 4 ≤ B
      → ((p : Ptr) → ledger.live s p ≤ 1)
      → ledger.IsSound s
      → list_calls cs [] ≡ some q
      → Returns
          (λ (v, os).
            (ps : List Ptr) × ((p : Ptr) → ledger.live v.alloc p ≡ count p ps + ledger.live s p)
            × ((length ps - 1) * (B / 2 - 1) ≤ length q.0)
            × (length ps ≤ length q.0 + 1))
          (create_in {A = A} B al s >>= vec_calls B al cs)
  calls-live cs s q big once sound e =
      Returns-bind _
        (Returns-IfOk ((create_in_lem {A = A} B al s).0 (omega arith))
          (create_in-HeldVec B ledger s once sound))
        λ v ((valid, empty), held).
          let same = ap (list_calls cs) empty ∙ e in
          Returns-map
            (Returns-IfOk
              (subst (Matches B al (vec_calls B al cs v)) same (calls-Matches B al cs v big valid))
              (Returns→IfOk (calls-HeldVec B ledger (ledger.live s) cs v q big valid held same)))
            λ (w, os) (matches, held').
              let bound = root_addrs-items B (omega arith) w.root matches.0.root_is in
              let fits : (length (root_addrs w.root) - 1) * (B / 2 - 1) ≤ length q.0 =
                omega (arith, bound, ap length matches.1) in
              (
                root_addrs w.root,
                held'.1.counts,
                fits,
                (let factor : 0 < B / 2 - 1 = omega arith in
                    omega
                      (arith, fits, le-mul_of_pos_right (length (root_addrs w.root) - 1) factor)),
              )
