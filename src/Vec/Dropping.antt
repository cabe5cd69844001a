-- ===== src/Vec/Dropping.antt =====
-- `Drop` of `BTreeVec`: what `destroy` gives back to the allocator.
use btree_vec.Common.{ℕ, zero, suc, ◌≡◌, refl, ◌∙◌, Option, none, some, List, [], ◌∷◌, ◌++◌, ok}
use btree_vec.Node.{Ptr, Allocator}
use btree_vec.Node.Internal.{Entry}
use btree_vec.Node.Internal.Children.{concat_with}
use btree_vec.Tree.{Body, Tree, Root}
use btree_vec.Tree.Destroy.{destroy, destroy_children}
use btree_vec.Vec.{BTreeVec, drop}
use btree_vec.Vec.Valid.{IsVec, IsRootOption}

-- The addresses of the nodes of a tree, children before their parent and from left to right.
abbrev pub node_addrs {ℓ} : (A : Type ℓ) (h : ℕ) → Ptr → Body A h → List Ptr
node_addrs A zero a b = a ∷ []
node_addrs A (suc h) a b = concat_with (node_addrs A h) b.children ++ (a ∷ [])

abbrev pub root_addrs {ℓ} : {A : Type ℓ} → Option (Root A) → List Ptr
root_addrs none = []
root_addrs {A = A} (some r) = node_addrs A r.height r.node.addr r.node.body

module _ (al : Allocator) where
  -- The allocator's state after these addresses have been given back, one after the other.
  abbrev pub give_back : List Ptr → al.State → al.State
  give_back [] s = s
  give_back (p ∷ ps) s = give_back ps (al.deallocate p s)

  give_back-append :
      (ps qs : List Ptr) (s : al.State) → give_back (ps ++ qs) s ≡ give_back qs (give_back ps s)
  give_back-append [] qs s = refl
  give_back-append (p ∷ ps) qs s = give_back-append ps qs (al.deallocate p s)

module _ {ℓ} (A : Type ℓ) (al : Allocator) where
  destroy_children_lem :
      (h : ℕ)
      → ((c : Tree A h) (s : al.State)
          → c.prefix.parent ≡ none
          → destroy A al h c s ≡ ok (give_back al (node_addrs A h c.addr c.body) s))
      → (es : List (Entry (Body A h))) (s : al.State)
      → destroy_children al (destroy A al h) es s
        ≡ ok (give_back al (concat_with (node_addrs A h) es) s)
  unfolding destroy_children
  destroy_children_lem h ih [] s = refl
  destroy_children_lem h ih ((c, n) ∷ es) s =
      rw (ih (record c { prefix = record { parent = none; index = c.prefix.index } }) s refl) (
        destroy_children_lem h ih es (give_back al (node_addrs A h c.addr c.body) s)
        ∙ rw
            (give_back-append al (node_addrs A h c.addr c.body) (concat_with (node_addrs A h) es) s)
            refl)

  -- A node without a parent is destroyed without a panic.
  pub destroy_lem :
      (h : ℕ) (c : Tree A h) (s : al.State)
      → c.prefix.parent ≡ none
      → destroy A al h c s ≡ ok (give_back al (node_addrs A h c.addr c.body) s)
  unfolding destroy
  destroy_lem zero c s e = rw e
  destroy_lem (suc h) c s e = rw (
    e,
    destroy_children_lem h (destroy_lem h) c.body.children s,
    give_back-append al (concat_with (node_addrs A h) c.body.children) (c.addr ∷ []) s,
  )

module _ {ℓ} {A : Type ℓ} {al : Allocator} (B : ℕ) where
  -- Dropping a well-formed vector returns: no assertion of `destroy` fails. It gives the address of
  -- each node back to the allocator once, children before their parent.
  pub drop_lem :
      (v : BTreeVec al A) → IsVec B v → drop al v ≡ ok (give_back al (root_addrs v.root) v.alloc)
  unfolding drop
  drop_lem v valid = go v.root valid.root_is
    where
      go :
          (root : Option (Root A))
          → IsRootOption B root
          → drop al (record v { root = root }) ≡ ok (give_back al (root_addrs root) v.alloc)
      go none h = refl
      go (some r) h = destroy_lem A al r.height r.node v.alloc h.0.parent_is
