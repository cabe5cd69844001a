-- ===== src/Memory/Cloning.antt =====
-- `Clone` of `BTreeVec`, with an allocator whose clones share their blocks.
use btree_vec.Common.{
  ℕ, zero, suc, ◌+◌, ◌≡◌, refl, sym, subst, Option, none, some, List, [], ◌∷◌, IfOk, if_ok, if_err,
  IfOk-bind, Returns, returned, Returns-map, Returns-IfOk, arith,
}
use btree_vec.Node.{Ptr, Allocator}
use btree_vec.Node.Internal.{Entry, Internal}
use btree_vec.Node.Internal.Children.{concat_with}
use btree_vec.Tree.{Body, Tree, Root}
use btree_vec.Vec
use btree_vec.Vec.{BTreeVec}
use btree_vec.Vec.Dropping.{root_addrs, node_addrs, destroy_lem}
use btree_vec.Vec.Valid.{IsVec}
use btree_vec.Clone.{clone_children, finish_clone, clone_leaf, clone_node, clone_root, clone}
use btree_vec.Clone.Nodes.{clone_lem}
use btree_vec.Memory.{single, count, Ledger, Holds, below}
use btree_vec.Memory.Blocks.{Holds-eq, Holds-allocate, Holds-give_back, count-append}
use btree_vec.Memory.Nodes.{kids}
use btree_vec.Memory.Vectors.{HeldVec}

-- The root of a clone, which has no parent.
abbrev RootMade {ℓ} : {A : Type ℓ} → Option (Root A) → Type 0
RootMade none = Unit
RootMade (some r) = r.node.prefix.parent ≡ none

module _ {ℓ} (A : Type ℓ) {al : Allocator} (ledger : Ledger al) (others : Ptr → ℕ) where
  drop-RootMade :
      (root : Option (Root A)) (rest : Ptr → ℕ) (size : ℕ) (s : al.State)
      → RootMade root
      → Holds ledger others s (λ p. count p (root_addrs root) + rest p)
      → Returns
          (λ s'. Holds ledger others s' rest)
          (Vec.drop al (record { root = root; size = size; alloc = s }))
  unfolding Vec.drop
  drop-RootMade none rest size s alone held =
      returned (Holds-eq ledger others held (λ p. omega arith))
  drop-RootMade (some r) rest size s alone held =
      subst (Returns _) (sym (destroy_lem A al r.height r.node s alone)) (
        returned (
          Holds-give_back ledger others (node_addrs A r.height r.node.addr r.node.body) s rest
            held))

module _ {ℓ} (A : Type ℓ) {al : Allocator} (ledger : Ledger al) (others : Ptr → ℕ)
    (clone_item : A → A) where
  -- A node that has been made beside `rest`.
  abbrev IsMade : (h : ℕ) → (Ptr → ℕ) → Tree A h × Ptr × al.State → Type 0
  IsMade h rest (n, leaf, s) =
      (n.prefix.parent ≡ none) × Holds ledger others s (λ p. below A h n p + rest p)

  clone_children-Holds :
      (h : ℕ) (ptr : Ptr)
      → ((rest : Ptr → ℕ) (c : Tree A h) (next : Option Ptr) (s : al.State)
          → Holds ledger others s rest
          → IfOk (IsMade h rest) (clone_node al clone_item h c next s))
      → (es : List (Entry (Body A h))) (rest : Ptr → ℕ) (next : Option Ptr) (s : al.State)
      → Holds ledger others s rest
      → IfOk
          (λ (es', leaf, s'). Holds ledger others s' (λ p. kids (node_addrs A h) es' p + rest p))
          (clone_children al (clone_node al clone_item h) ptr es next s)
  unfolding clone_children
  clone_children-Holds h ptr ih [] rest next s held =
      if_ok (Holds-eq ledger others held (λ p. omega arith))
  clone_children-Holds h ptr ih ((c, n) ∷ es) rest next s held =
      IfOk-bind _ (clone_children-Holds h ptr ih es rest next s held) λ (es', next', s') held'.
        IfOk-bind _ (ih (λ p. kids (node_addrs A h) es' p + rest p) c next' s' held')
          λ (node, leaf, s'') (alone, held''). if_ok (
            Holds-eq ledger others held'' λ p. omega (
              arith,
              count-append p (node_addrs A h node.addr node.body)
                  (concat_with (node_addrs A h) es'),
            ))

  finish_clone-IsMade :
      (h : ℕ) (ptr : Ptr) (c : Internal (Body A h)) (rest : Ptr → ℕ) (es : List (Entry (Body A h)))
      (leaf : Option Ptr) (s : al.State)
      → Holds ledger others s (λ p. kids (node_addrs A h) es p + (rest p + single p ptr))
      → IfOk (IsMade (suc h) rest) (finish_clone al ptr c (es, leaf, s))
  unfolding finish_clone
  finish_clone-IsMade h ptr c rest es none s held = if_err
  finish_clone-IsMade h ptr c rest es (some leaf) s held = if_ok (
    refl,
    Holds-eq ledger others held
        λ p. omega (arith, count-append p (concat_with (node_addrs A h) es) (ptr ∷ [])),
  )

  clone_node-IsMade :
      (h : ℕ) (rest : Ptr → ℕ) (c : Tree A h) (next : Option Ptr) (s : al.State)
      → Holds ledger others s rest
      → IfOk (IsMade h rest) (clone_node al clone_item h c next s)
  unfolding clone_node clone_leaf
  clone_node-IsMade zero rest c next s held =
      if_ok
        (refl, Holds-eq ledger others (Holds-allocate ledger others s rest held) (λ p. omega arith))
  clone_node-IsMade (suc h) rest c next s held =
      IfOk-bind _
        (clone_children-Holds h (al.allocate s).0 (clone_node-IsMade h) c.body.children
          (λ p. rest p + single p (al.allocate s).0) next (al.allocate s).1
          (Holds-allocate ledger others s rest held))
        λ (es, leaf, s') held'. finish_clone-IsMade h (al.allocate s).0 c rest es leaf s' held'

  clone_root-RootMade :
      (root : Option (Root A)) (rest : Ptr → ℕ) (s : al.State)
      → Holds ledger others s rest
      → IfOk
          (λ (root', s').
            RootMade root' × Holds ledger others s' (λ p. count p (root_addrs root') + rest p))
          (clone_root al clone_item root s)
  unfolding clone_root
  clone_root-RootMade none rest s held = if_ok (tt, Holds-eq ledger others held (λ p. omega arith))
  clone_root-RootMade (some r) rest s held =
      IfOk-bind _ (clone_node-IsMade r.height rest r.node none s held)
        λ (n, leaf, s') made. if_ok made

  -- What `clone` makes: the vector as it was, and beside it a clone with nodes of its own.
  abbrev Cloned : BTreeVec al A → BTreeVec al A × BTreeVec al A → Type 0
  Cloned v (v', w) =
      RootMade w.root
      × Holds ledger others w.alloc (λ p. count p (root_addrs w.root) + count p (root_addrs v.root))

  clone-Cloned :
      (v : BTreeVec al A)
      → HeldVec ledger others v
      → IfOk (Cloned v) (clone al clone_item (λ s. s) v)
  unfolding clone
  clone-Cloned v held =
      IfOk-bind _ (clone_root-RootMade v.root (λ p. count p (root_addrs v.root)) v.alloc held)
        λ (root, s) made. if_ok made

module _ {ℓ} {A : Type ℓ} (B : ℕ) {al : Allocator} (ledger : Ledger al) (others : Ptr → ℕ)
    (clone_item : A → A) where
  -- Let the vector be well formed, and the live blocks be its nodes, each at an address of its own,
  -- and `others`. Then `clone`, with an allocator that is its own clone, and the drop of the clone
  -- return. Between the two, the live blocks are the nodes of the vector, those of the clone and
  -- `others`, each once. After the drop they are the nodes of the vector and `others`: the clone has
  -- shared no node with the vector, and none of its own is lost.
  pub clone-drop :
      (v : BTreeVec al A)
      → IsVec B v
      → HeldVec ledger others v
      → Returns
          (λ (v', w).
            (v'.root ≡ v.root)
            × Holds ledger others w.alloc
                (λ p. count p (root_addrs w.root) + count p (root_addrs v.root))
            × Returns
                (λ s. Holds ledger others s (λ p. count p (root_addrs v.root)))
                (Vec.drop al w))
          (clone al clone_item (λ s. s) v)
  clone-drop v valid held =
      Returns-map
        (Returns-IfOk (clone_lem al clone_item B (λ s. s) v valid)
          (clone-Cloned A ledger others clone_item v held))
        λ (v', w) (same, (made, held')). (
          same.0,
          held',
          drop-RootMade A ledger others w.root (λ p. count p (root_addrs v.root)) w.size w.alloc
              made held',
        )
