-- ===== src/Clone/Nodes.antt =====
-- What a cloned tree has in common with the tree that is cloned, and what it lacks.
use btree_vec.Common.{
  ℕ, zero, suc, ◌≤◌, ◌<◌, ◌≡◌, refl, sym, subst, ap, ap₂, ◌∙◌, Option, none, some, List, [], ◌∷◌,
  ◌++◌, map, Returns, returned, Returns-bind, arith, length, append_assoc, append-nil,
}
use mathlib.Core.Option.{none-ne-some}
use btree_vec.Node.{Ptr, Cell, Prefix, Allocator}
use btree_vec.Node.Internal.{Entry}
use btree_vec.Node.Internal.Children.{concat_with, Children}
use btree_vec.Tree.{Body, Tree, Root, top}
use btree_vec.Tree.Valid.{
  LeafView, leaves, items, items-append, IsSubtree, IsTree, tree_weight, node_length, root_leaves,
  min_length,
}
use btree_vec.Tree.Chain.{IsChain, IsChain-append_right, first_addr}
use btree_vec.Vec.{BTreeVec}
use btree_vec.Vec.Valid.{contents, root_items, IsVec, IsRootOption}
use btree_vec.Clone.{clone_children, finish_clone, clone_leaf, clone_node, clone_root, clone}

-- The children `es'` of the node at `a` are clones of `es`: each has its size, and knows its parent,
-- but its index is 0.
abbrev pub EntriesClone {ℓ} :
    {C : Type ℓ} → (Ptr → C → C → Type ℓ) → Ptr → List (Entry C) → List (Entry C) → Type ℓ
EntriesClone R a [] es' = es' ≡ []
EntriesClone {C = C} R a ((c, n) ∷ es) es' =
    (c' : Cell C) × (fs : List (Entry C)) × (es' ≡ (c', n) ∷ fs)
    × (c'.prefix ≡ record { parent = some a; index = 0 })
    × R c'.addr c.body c'.body
    × EntriesClone R a es fs

module _ {ℓ} {A : Type ℓ} (clone_item : A → A) where
  -- The tree `b'` at the address `a` is a clone of `b`. The `next` of a leaf is that of the leaf
  -- that has been cloned.
  abbrev pub Clones : (h : ℕ) → Ptr → Body A h → Body A h → Type ℓ
  Clones zero a b b' = (b'.children ≡ map clone_item b.children) × (b'.next ≡ b.next)
  Clones (suc h) a b b' = EntriesClone (Clones h) a b.children b'.children × (b'.spare ≡ b.spare)

  map-append : (xs ys : List A) → map clone_item (xs ++ ys) ≡ map clone_item xs ++ map clone_item ys
  map-append [] ys = refl
  map-append (x ∷ xs) ys = ap (λ zs. clone_item x ∷ zs) (map-append xs ys)

  entries-Clones :
      (h : ℕ)
      → ((a a' : Ptr) (b b' : Body A h)
          → Clones h a' b b'
          → items (leaves A h a' b') ≡ map clone_item (items (leaves A h a b)))
      → (a : Ptr) (es es' : List (Entry (Body A h))) → EntriesClone (Clones h) a es es'
      → items (concat_with (leaves A h) es') ≡ map clone_item (items (concat_with (leaves A h) es))
  entries-Clones h ih a [] es' q = ap (λ fs. items (concat_with (leaves A h) fs)) q
  entries-Clones h ih a ((c, n) ∷ es) es' (c', fs, e, p, q, qs) =
      ap (λ fs. items (concat_with (leaves A h) fs)) e
      ∙ items-append (leaves A h c'.addr c'.body) (concat_with (leaves A h) fs)
      ∙ ap₂ (λ xs ys. xs ++ ys) (ih c.addr c'.addr c.body c'.body q)
          (entries-Clones h ih a es fs qs)
      ∙ sym (map-append (items (leaves A h c.addr c.body)) (items (concat_with (leaves A h) es)))
      ∙ ap (map clone_item)
          (sym (items-append (leaves A h c.addr c.body) (concat_with (leaves A h) es)))

  -- A clone holds the clones of the items.
  pub items-Clones :
      (h : ℕ) (a a' : Ptr) (b b' : Body A h)
      → Clones h a' b b'
      → items (leaves A h a' b') ≡ map clone_item (items (leaves A h a b))
  items-Clones zero a a' b b' q =
      append-nil b'.children ∙ q.0 ∙ ap (map clone_item) (sym (append-nil b.children))
  items-Clones (suc h) a a' b b' q = entries-Clones h (items-Clones h) a' b.children b'.children q.0

module _ {ℓ} {A : Type ℓ} (al : Allocator) (clone_item : A → A) (B : ℕ) (big : 3 ≤ B) where
  -- What cloning the tree `c` comes to, where the leaves `rest` follow it.
  abbrev NodeClone : (h : ℕ) → Tree A h → List (LeafView A) → Tree A h × Ptr × al.State → Type ℓ
  NodeClone h c rest r =
      (r.0.prefix ≡ record { parent = none; index = 0 })
      × (some r.1 ≡ first_addr (leaves A h c.addr c.body ++ rest))
      × Clones clone_item h r.0.addr c.body r.0.body

  -- What the loop over the children `es` of a node comes to, whose clone is at `a`.
  abbrev ChildrenClone :
      (h : ℕ)
      → Ptr
      → List (Entry (Body A h))
      → List (LeafView A)
      → List (Entry (Body A h)) × Option Ptr × al.State
      → Type ℓ
  ChildrenClone h a es rest r =
      (r.1 ≡ first_addr (concat_with (leaves A h) es ++ rest))
      × (0 < length es → (leaf : Ptr) × (r.1 ≡ some leaf))
      × EntriesClone (Clones clone_item h) a es r.0

  clone_children-ChildrenClone :
      (h : ℕ)
      → ((c : Tree A h) (rest : List (LeafView A)) (next_leaf : Option Ptr) (s : al.State)
          → IsSubtree A B h c.addr c.body
          → IsChain (leaves A h c.addr c.body ++ rest)
          → next_leaf ≡ first_addr rest
          → Returns (NodeClone h c rest) (clone_node al clone_item h c next_leaf s))
      → (a a₀ : Ptr) (i : ℕ) (es : List (Entry (Body A h))) (rest : List (LeafView A))
        (next_leaf : Option Ptr) (s : al.State)
      → Children (IsSubtree A B h) (tree_weight A h) a₀ i es
      → IsChain (concat_with (leaves A h) es ++ rest)
      → next_leaf ≡ first_addr rest
      → Returns
          (ChildrenClone h a es rest)
          (clone_children al (clone_node al clone_item h) a es next_leaf s)
  unfolding clone_children
  clone_children-ChildrenClone h ih a a₀ i [] rest next_leaf s v chain e =
      returned (e, (λ h. absurd (omega arith)), refl)
  clone_children-ChildrenClone h ih a a₀ i ((c, n) ∷ es) rest next_leaf s v chain e =
      let same = append_assoc (leaves A h c.addr c.body) (concat_with (leaves A h) es) rest in
      let chain' = subst IsChain same chain in
      Returns-bind _
        (clone_children-ChildrenClone h ih a a₀ (suc i) es rest next_leaf s v.1
          (IsChain-append_right (leaves A h c.addr c.body) _ chain') e)
        λ (es', next', s') q.
          Returns-bind _ (ih c _ next' s' v.0.sized.is chain' q.0) λ (node, leaf, s'') w. returned (
            w.1 ∙ ap first_addr (sym same),
            (λ h. (leaf, refl)),
            (
              _,
              es',
              refl,
              ap (λ (p : Prefix). record { parent = some a; index = p.index }) w.0,
              w.2,
              q.2,
            ),
          )

  -- Cloning a well-formed tree returns.
  clone_node-NodeClone :
      (h : ℕ) (c : Tree A h) (rest : List (LeafView A)) (next_leaf : Option Ptr) (s : al.State)
      → IsTree A B h c.addr c.body
      → (0 < h → 0 < node_length A h c.body)
      → IsChain (leaves A h c.addr c.body ++ rest)
      → next_leaf ≡ first_addr rest
      → Returns (NodeClone h c rest) (clone_node al clone_item h c next_leaf s)
  unfolding clone_node clone_leaf finish_clone
  clone_node-NodeClone zero c rest next_leaf s v some_child chain e =
      returned (refl, refl, (refl, e ∙ sym chain.0))
  clone_node-NodeClone (suc h) c rest next_leaf s v some_child chain e =
      Returns-bind _
        (clone_children-ChildrenClone h
          (λ d rest next_leaf s w chain e.
            clone_node-NodeClone h d rest next_leaf s w.0 (λ _. omega (arith, w.1)) chain e)
          _ c.addr 0 c.body.children rest next_leaf _ v.children_are chain e)
        (finish _)
    where
      finish :
          (a : Ptr) (r : List (Entry (Body A h)) × Option Ptr × al.State)
          → ChildrenClone h a c.body.children rest r
          → Returns (NodeClone (suc h) c rest) (finish_clone al a c r)
      finish a (es, none, s) q =
          let (leaf, e) = q.1 (some_child (omega arith)) in absurd (none-ne-some leaf e)
      finish a (es, some leaf, s) q = returned (refl, q.0, (q.2, refl))

  -- What cloning a root comes to: a tree of the same height, which is a clone.
  abbrev pub RootClone : Option (Root A) → Option (Root A) → Type ℓ
  RootClone none root' = root' ≡ none
  RootClone (some r) root' =
      (c : Tree A r.height) × (root' ≡ some (record { height = r.height; node = c }))
      × (c.prefix ≡ record { parent = none; index = 0 })
      × Clones clone_item r.height c.addr r.node.body c.body

  root_items-RootClone :
      (root root' : Option (Root A))
      → RootClone root root'
      → root_items root' ≡ map clone_item (root_items root)
  root_items-RootClone none root' q = ap root_items q
  root_items-RootClone (some r) root' (c, e, p, q) =
      ap root_items e ∙ items-Clones clone_item r.height r.node.addr c.addr r.node.body c.body q

  clone_root-RootClone :
      (root : Option (Root A)) (s : al.State)
      → IsRootOption B root
      → Returns (λ r. RootClone root r.0) (clone_root al clone_item root s)
  unfolding clone_root
  clone_root-RootClone none s v = returned refl
  clone_root-RootClone (some r) s v =
      Returns-bind _
        (clone_node-NodeClone r.height r.node [] none s v.0.tree (long r.height r.node v.0.long)
          (subst IsChain (sym (append-nil (root_leaves r))) v.1) refl)
        λ (c, leaf, s') q. returned (c, refl, q.0, q.2)
    where
      long :
          (h : ℕ) (c : Tree A h)
          → min_length {A = A} B (top {h = h}) ≤ node_length A h c.body
          → 0 < h
          → 0 < node_length A h c.body
      long zero c m k = absurd (omega arith)
      long (suc h) c m k = omega arith

module _ {ℓ} {A : Type ℓ} (al : Allocator) (clone_item : A → A) (B : ℕ) where
  -- On a well-formed vector, `clone` returns and leaves the vector as it was but for the allocator.
  -- The clone has its size and holds the clones of its items in their order. In the clone, each
  -- child knows its parent but has the index 0, and the `next` of each leaf is that of the leaf that
  -- was cloned.
  pub clone_lem :
      (clone_alloc : al.State → al.State) (v : BTreeVec al A)
      → (valid : IsVec B v)
      → Returns
          (λ q.
            (q.0.root ≡ v.root)
            × (q.0.size ≡ v.size)
            × (q.1.size ≡ v.size)
            × (contents q.1 ≡ map clone_item (contents v))
            × RootClone al clone_item B valid.branching v.root q.1.root)
          (clone al clone_item clone_alloc v)
  unfolding clone
  clone_lem clone_alloc v valid =
      Returns-bind _
        (clone_root-RootClone al clone_item B valid.branching v.root v.alloc valid.root_is)
        λ (root', s) q.
          returned (
            refl,
            refl,
            refl,
            root_items-RootClone al clone_item B valid.branching v.root root' q,
            q,
          )
