-- ===== src/Memory/Nodes.antt =====
-- What the operations of one node do to the nodes of the tree below it.
use btree_vec.Common.{
  IfOk-if, ℕ, zero, suc, ◌+◌, ◌/◌, ◌≡◌, refl, ap, ◌∙◌, Option, some, List, [], ◌∷◌, ◌++◌, Result,
  IfOk, if_ok, if_err, IfOk-bind, IfOk-any, IfOk-map, arith, length, take, drop, ◌&&◌, leb, ltb,
  ◌==◌,
}
use btree_vec.Node.{Ptr, Allocator, SplitStrategy, sizes}
use btree_vec.Node.Internal
use btree_vec.Node.Internal.{
  Entry, Internal, InternalBody, change, change_spare, change_size, adopt, reindex, inserted,
  halves,
}
use btree_vec.Node.Internal.Children.{
  concat_with, concat_with-append, concat_with-adopt, concat_with-reindex, concat_with-split,
}
use btree_vec.Tree.{Tree}
use btree_vec.Memory.{single, count, below}
use btree_vec.Memory.Blocks.{count-append}
use btree_vec.Vec.Dropping.{node_addrs}

module _ {ℓ} {C : Type ℓ} (L : Ptr → C → List Ptr) where
  -- How many nodes at `p` there are below the children.
  abbrev pub kids : List (Entry C) → Ptr → ℕ
  kids es p = count p (concat_with L es)

  pub kids-append : (es fs : List (Entry C)) (p : Ptr) → kids (es ++ fs) p ≡ kids es p + kids fs p
  kids-append es fs p =
      ap (count p) (concat_with-append L es fs)
      ∙ count-append p (concat_with L es) (concat_with L fs)

  kids-adopt :
      (q : Option Ptr) (i : ℕ) (es : List (Entry C)) (p : Ptr) → kids (adopt q i es) p ≡ kids es p
  kids-adopt q i es p = ap (count p) (concat_with-adopt L q i es)

  kids-reindex : (i : ℕ) (es : List (Entry C)) (p : Ptr) → kids (reindex i es) p ≡ kids es p
  kids-reindex i es p = ap (count p) (concat_with-reindex L i es)

  kids-split :
      (k : ℕ) (es : List (Entry C)) (p : Ptr) → kids es p ≡ kids (take k es) p + kids (drop k es) p
  kids-split k es p =
      ap (count p) (concat_with-split L k es)
      ∙ count-append p (concat_with L (take k es)) (concat_with L (drop k es))

  pub change-kids :
      (f : ℕ → Result ℕ) (i : ℕ) (es : List (Entry C)) (spare : List ℕ)
      → IfOk
          (λ (b : InternalBody C). (p : Ptr) → kids b.children p ≡ kids es p)
          (change f i es spare)
  unfolding change
  change-kids f i [] spare =
      IfOk-bind _ (IfOk-any (change_spare f i spare)) λ ns t. if_ok (λ p. refl)
  change-kids f zero ((c, n) ∷ es) spare = IfOk-bind _ (IfOk-any (f n)) λ n' t. if_ok (λ p. refl)
  change-kids f (suc i) ((c, n) ∷ es) spare = IfOk-bind _ (change-kids f i es spare) λ b same.
      if_ok λ p. omega (
        arith,
        same p,
        count-append p (L c.addr c.body) (concat_with L es),
        count-append p (L c.addr c.body) (concat_with L b.children),
      )

  -- `n'` is the node `n` with other children.
  pub record SamePlace (n n' : Internal C) : Type ℓ where
    pub addr_is : n'.addr ≡ n.addr
    pub prefix_is : n'.prefix ≡ n.prefix

  pub change_size-kids :
      (f : ℕ → Result ℕ) (i : ℕ) (n : Internal C)
      → IfOk
          (λ n'. SamePlace n n' × ((p : Ptr) → kids n'.body.children p ≡ kids n.body.children p))
          (change_size f i n)
  unfolding change_size
  change_size-kids f i n =
      IfOk-bind _ (change-kids f i n.body.children n.body.spare)
        λ b same. if_ok (record { addr_is = refl; prefix_is = refl }, same)

  pub simple_insert-kids :
      (B : ℕ) (n : Internal C) (i : ℕ) (x : Entry C)
      → IfOk
          (λ n'.
            SamePlace n n'
            × ((p : Ptr)
                → kids n'.body.children p ≡ kids n.body.children p + count p (L x.0.addr x.0.body)))
          (Internal.simple_insert B n i x)
  unfolding Internal.simple_insert
  simple_insert-kids B n i x =
      IfOk-if (ltb (length n.body.children) B && leb i (length n.body.children))
        (if_ok (
          record { addr_is = refl; prefix_is = refl },
          λ p. omega (
            arith,
            kids-append (take i n.body.children)
                ((record x.0 { prefix = record { parent = some n.addr; index = i } }, x.1)
                  ∷ reindex (suc i) (drop i n.body.children))
                p,
            count-append p (L x.0.addr x.0.body)
                (concat_with L (reindex (suc i) (drop i n.body.children))),
            kids-reindex (suc i) (drop i n.body.children) p,
            kids-split i n.body.children p,
          ),
        ))
        if_err

  remove_head-kids :
      (n : Internal C) (i : ℕ) (before after : List (Entry C))
      → IfOk
          (λ (n', x).
            SamePlace n n'
            × ((p : Ptr)
                → kids n'.body.children p + count p (L x.0.addr x.0.body)
                  ≡ kids before p + kids after p))
          (Internal.remove_head n i before after)
  unfolding Internal.remove_head
  remove_head-kids n i before [] = if_err
  remove_head-kids n i before ((c, m) ∷ after) = if_ok (
    record { addr_is = refl; prefix_is = refl },
    λ p. omega (
      arith,
      kids-append before (reindex i after) p,
      kids-reindex i after p,
      count-append p (L c.addr c.body) (concat_with L after),
    ),
  )

  pub simple_remove-kids :
      (n : Internal C) (i : ℕ)
      → IfOk
          (λ (n', x).
            SamePlace n n'
            × ((p : Ptr)
                → kids n'.body.children p + count p (L x.0.addr x.0.body) ≡ kids n.body.children p))
          (Internal.simple_remove n i)
  unfolding Internal.simple_remove
  simple_remove-kids n i =
      IfOk-map (remove_head-kids n i (take i n.body.children) (drop i n.body.children))
        λ (n', x) (place, same). (place, λ p. omega (arith, same p, kids-split i n.body.children p))

  -- The children of `other` go to `n`, and `other` is left without any.
  pub merge-kids :
      (B : ℕ) (n other : Internal C)
      → IfOk
          (λ (n', other').
            SamePlace n n'
            × SamePlace other other'
            × ((p : Ptr)
                → kids n'.body.children p ≡ kids n.body.children p + kids other.body.children p)
            × (other'.body.children ≡ []))
          (Internal.merge B n other)
  unfolding Internal.merge
  merge-kids B n other =
      IfOk-if (leb (length n.body.children) (B / 2) && leb (length other.body.children) (B / 2))
        (IfOk-bind _ (IfOk-any (Internal.first_parent n.body.children)) λ q t. if_ok (
          record { addr_is = refl; prefix_is = refl },
          record { addr_is = refl; prefix_is = refl },
          λ p. omega (
            arith,
            kids-append n.body.children (adopt q (length n.body.children) other.body.children) p,
            kids-adopt q (length n.body.children) other.body.children p,
          ),
          refl,
        ))
        if_err

  -- A split hands out one block, for the new node.
  pub split-kids :
      (B : ℕ) (al : Allocator) (strategy : SplitStrategy) (n : Internal C) (s : al.State)
      → IfOk
          (λ (n', new, s').
            SamePlace n n'
            × (new.addr ≡ (al.allocate s).0)
            × (s' ≡ (al.allocate s).1)
            × ((p : Ptr)
                → kids n'.body.children p + kids new.body.children p ≡ kids n.body.children p))
          (Internal.split B al strategy n s)
  unfolding Internal.split
  split-kids B al strategy n s =
      let k = (sizes strategy B).0 in
      IfOk-if (length n.body.children == B)
        (if_ok (
          record { addr_is = refl; prefix_is = refl },
          refl,
          refl,
          λ p. omega (
            arith,
            kids-adopt (some (al.allocate s).0) 0 (drop k n.body.children) p,
            kids-split k n.body.children p,
          ),
        ))
        if_err

module _ {ℓ} (A : Type ℓ) where
  -- The nodes below an internal node are those below its children and itself.
  pub below-kids :
      (h : ℕ) (n : Tree A (suc h)) (p : Ptr)
      → below A (suc h) n p ≡ kids (node_addrs A h) n.body.children p + single p n.addr
  below-kids h n p =
      omega (arith, count-append p (concat_with (node_addrs A h) n.body.children) (n.addr ∷ []))

  pub below-addr :
      (h : ℕ) (n n' : Tree A (suc h)) (p : Ptr)
      → n'.addr ≡ n.addr
      → below A (suc h) n' p ≡ kids (node_addrs A h) n'.body.children p + single p n.addr
  below-addr h n n' p e =
      below-kids h n' p ∙ ap (λ a. kids (node_addrs A h) n'.body.children p + single p a) e
