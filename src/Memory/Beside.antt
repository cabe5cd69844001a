-- ===== src/Memory/Beside.antt =====
-- `siblings_mut`: a write to a sibling changes the nodes above by that sibling alone.
use btree_vec.Common.{
  IfOk-if, ℕ, zero, suc, ◌+◌, ◌-◌, ◌≡◌, refl, ap, ◌∙◌, inl, inr, true, false, subst, Bool-cases,
  Option, none, some, List, [], ◌∷◌, IfOk, if_ok, if_err, IfOk-bind, arith, length, get_elem?, ltb,
  ◌==◌,
}
use btree_vec.Node.{Ptr, Cell}
use btree_vec.Node.Internal.{Entry}
use btree_vec.Node.Internal.Children.{concat_with}
use btree_vec.Tree.{Body, Tree, Frame, Above, top, under}
use btree_vec.Tree.Beside.{
  entry_cell, set_cell, child_at, set_child, left_at, siblings_of, siblings, set_sibling,
}
use btree_vec.Memory.{count, below, above}
use btree_vec.Memory.Ancestors.{AboveLinked, above-under}
use btree_vec.Memory.Blocks.{count-append}
use btree_vec.Memory.Nodes.{kids}
use btree_vec.Vec.Dropping.{node_addrs}

module _ {ℓ} {C : Type ℓ} (L : Ptr → C → List Ptr) where
  abbrev held_by : Option (Cell C) → Ptr → ℕ
  held_by none p = 0
  held_by (some d) p = count p (L d.addr d.body)

  set_cell-kids :
      (es : List (Entry C)) (i : ℕ) (d d' : Cell C)
      → entry_cell (get_elem? es i) ≡ some d
      → (p : Ptr)
      → kids L (set_cell es i d') p + count p (L d.addr d.body)
        ≡ kids L es p + count p (L d'.addr d'.body)
  unfolding set_cell
  set_cell-kids [] i d d' e p = absurd (cc e)
  set_cell-kids ((c, n) ∷ es) zero d d' e p = omega (
    arith,
    count-append p (L c.addr c.body) (concat_with L es),
    count-append p (L d'.addr d'.body) (concat_with L es),
    ap (λ o. held_by o p) e,
  )
  set_cell-kids ((c, n) ∷ es) (suc i) d d' e p = omega (
    arith,
    set_cell-kids es i d d' e p,
    count-append p (L c.addr c.body) (concat_with L es),
    count-append p (L c.addr c.body) (concat_with L (set_cell es i d')),
  )

  -- The nodes below the children of a frame.
  abbrev frame_kids : Cell (Frame C) → Ptr → ℕ
  frame_kids f p = kids L f.body.before p + kids L f.body.after p

  -- A child `o` at `i`, if it is there, is what a write at `i` replaces.
  abbrev ChildIs : Cell (Frame C) → ℕ → Option (Cell C) → Type ℓ
  ChildIs f i o =
      (d : Cell C)
      → o ≡ some d
      → (d' : Cell C) (p : Ptr)
      → frame_kids (set_child f i d') p + count p (L d.addr d.body)
        ≡ frame_kids f p + count p (L d'.addr d'.body)

  frame_kids-before :
      (f : Cell (Frame C)) (i : ℕ) (c : Cell C) (p : Ptr)
      → ltb i (length f.body.before) ≡ true
      → frame_kids (set_child f i c) p
        ≡ kids L (set_cell f.body.before i c) p + kids L f.body.after p
  unfolding set_child
  frame_kids-before f i c p e = rw e

  frame_kids-after :
      (f : Cell (Frame C)) (i : ℕ) (c : Cell C) (p : Ptr)
      → ltb i (length f.body.before) ≡ false
      → frame_kids (set_child f i c) p
        ≡ kids L f.body.before p
          + kids L (set_cell f.body.after (i - suc (length f.body.before)) c) p
  unfolding set_child
  frame_kids-after f i c p e = rw e

  child_at-ChildIs : (f : Cell (Frame C)) (i : ℕ) → IfOk (ChildIs f i) (child_at f i)
  unfolding child_at
  child_at-ChildIs f i = elim (Bool-cases (ltb i (length f.body.before))) [
    | inl e ↦ rw e (
        if_ok λ d q d' p.
          omega (arith, set_cell-kids f.body.before i d d' q p, frame_kids-before f i d' p e))
    | inr e ↦ rw e (
        IfOk-if (i == length f.body.before) if_err (
          if_ok λ d q d' p. omega (
            arith,
            set_cell-kids f.body.after (i - suc (length f.body.before)) d d' q p,
            frame_kids-after f i d' p e,
          )))
  ]

  left_at-ChildIs : (f : Cell (Frame C)) (i : ℕ) → IfOk (ChildIs f (i - 1)) (left_at f i)
  unfolding left_at
  left_at-ChildIs f zero = if_ok λ d q. absurd (cc q)
  left_at-ChildIs f (suc i) =
      subst (λ j. IfOk (ChildIs f j) (child_at f i)) {x = i} (omega arith) (child_at-ChildIs f i)

set_child-same {ℓ} :
    {C : Type ℓ} (f : Cell (Frame C)) (i : ℕ) (c : Cell C)
    → ((set_child f i c).addr ≡ f.addr) × ((set_child f i c).prefix ≡ f.prefix)
unfolding set_child
set_child-same f i c = elim (Bool-cases (ltb i (length f.body.before))) [
  | inl e ↦ rw e (refl, refl)
  | inr e ↦ rw e (refl, refl)
]

module _ {ℓ} {A : Type ℓ} {h : ℕ} where
  -- A write keeps the nodes above linked.
  pub set_sibling-AboveLinked :
      (k : Above A h) (i : ℕ) (c : Tree A h) → AboveLinked k → AboveLinked (set_sibling k i c)
  unfolding set_sibling
  set_sibling-AboveLinked top i c l = tt
  set_sibling-AboveLinked (under f k) i c l =
      (ap (λ q. q.parent) (set_child-same f i c).1 ∙ l.0, l.1)

  -- A sibling `o` at `i`, if there is one, is what a write at `i` replaces.
  abbrev pub SiblingIs : Above A h → ℕ → Option (Tree A h) → Type ℓ
  SiblingIs k i o =
      (d : Tree A h)
      → o ≡ some d
      → (d' : Tree A h) (p : Ptr)
      → above (set_sibling k i d') p + below A h d p ≡ above k p + below A h d' p

  ChildIs-SiblingIs :
      (f : Cell (Frame (Body A h))) (k : Above A (suc h)) (i : ℕ) (o : Option (Tree A h))
      → ChildIs (node_addrs A h) f i o
      → SiblingIs (under f k) i o
  unfolding set_sibling
  ChildIs-SiblingIs f k i o is d e d' p = omega (
    arith,
    is d e d' p,
    above-under f k p,
    above-under (set_child f i d') k p,
    ap (λ a. count p (a ∷ [])) (set_child-same f i d').0,
  )

  siblings_of-SiblingIs :
      (parent : Option Ptr) (i : ℕ) (k : Above A h)
      → IfOk (λ (l, r). SiblingIs k (i - 1) l × SiblingIs k (i + 1) r) (siblings_of parent i k)
  unfolding siblings_of
  siblings_of-SiblingIs none i k = if_ok (λ d q. absurd (cc q), λ d q. absurd (cc q))
  siblings_of-SiblingIs (some p) i top = if_err
  siblings_of-SiblingIs (some p) i (under f k) =
      IfOk-if (p == f.addr)
        (IfOk-bind _ (left_at-ChildIs (node_addrs A h) f i) λ l l_is.
          IfOk-bind _ (child_at-ChildIs (node_addrs A h) f (i + 1)) λ r r_is.
            if_ok (ChildIs-SiblingIs f k (i - 1) l l_is, ChildIs-SiblingIs f k (i + 1) r r_is))
        if_err

  pub siblings-SiblingIs :
      (c : Tree A h) (k : Above A h)
      → IfOk
          (λ (l, r). SiblingIs k (c.prefix.index - 1) l × SiblingIs k (c.prefix.index + 1) r)
          (siblings c k)
  unfolding siblings
  siblings-SiblingIs c k = siblings_of-SiblingIs c.prefix.parent c.prefix.index k
