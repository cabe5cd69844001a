-- ===== src/IntoIter/Valid.antt =====
-- When an iterator that owns its vector is well formed, and which items it has left.
use btree_vec.Common.{
  ℕ, ◌+◌, ◌≡◌, refl, ap, ◌∙◌, Option, none, some, List, [], ◌∷◌, ◌++◌, length, drop, get_elem?, ok,
  ==_self,
}
use btree_vec.Node.{Allocator}
use btree_vec.Node.Leaf.{Leaf, with_children}
use btree_vec.Tree.{Root, Above, rebuild}
use btree_vec.Tree.Chain.{IsChain}
use btree_vec.Tree.Position.{rebuild-parent, rebuild-leaves}
use btree_vec.Tree.Valid.{items, items-append, root_leaves, leaves_before, leaves_after}
use btree_vec.Vec.{BTreeVec}
use btree_vec.Vec.Valid.{contents}
use btree_vec.Iter.NextLeaf.{view}
use btree_vec.IntoIter.{RawLeaf, IntoIter, size_hint, len}
use btree_vec.IntoIter.Fertile.{IsWalked, AllFilled}
use btree_vec.IntoIter.Slots.{HasLeft}

module _ {ℓ} {A : Type ℓ} where
  -- The leaf stands in a tree that may be walked along. There are no items before it, and some in
  -- each leaf after it.
  pub record IsStand (leaf : Leaf A) (k : Above A 0) : Type ℓ where
    pub walked : IsWalked 0 leaf k
    pub chain : IsChain (view leaf ∷ leaves_after k)
    pub before_empty : items (leaves_before k) ≡ []
    pub filled : AllFilled (leaves_after k)

  -- This does not depend on the items of the leaf.
  pub with_children-IsStand :
      (leaf : Leaf A) (k : Above A 0) (xs : List A)
      → IsStand leaf k
      → IsStand (with_children xs leaf) k
  with_children-IsStand leaf k xs v = record {
    walked = record {
      fertile = tt;
      above = v.walked.above;
      no_parent = rebuild-parent (with_children xs leaf) leaf k refl ∙ v.walked.no_parent;
    };
    chain = (v.chain.0, v.chain.1);
    before_empty = v.before_empty;
    filled = v.filled;
  }

  -- The items of the tree in which the leaf stands.
  pub IsStand-items :
      (leaf : Leaf A) (k : Above A 0)
      → IsStand leaf k
      → items (root_leaves (rebuild leaf k)) ≡ leaf.body.children ++ items (leaves_after k)
  IsStand-items leaf k v =
      ap items (rebuild-leaves 0 leaf k)
      ∙ items-append (leaves_before k) (view leaf ∷ leaves_after k)
      ∙ ap (λ xs. xs ++ (leaf.body.children ++ items (leaves_after k))) v.before_empty

  -- The items `xs` are left: those from `index` on of the first `length` slots of the leaf, and
  -- those of the leaves after it.
  pub record HasItems (r : RawLeaf A) (k : Above A 0) (len index : ℕ) (xs : List A) : Type ℓ where
    pub stand : IsStand r.leaf k
    pub here : List A
    pub left : HasLeft r index here
    pub length_is : len ≡ index + length here
    pub items_are : xs ≡ here ++ items (leaves_after k)

  abbrev pub RootFree : Option (Root A) → Type 0
  RootFree none = Unit
  RootFree (some r) = r.node.prefix.parent ≡ none

module _ {ℓ} {A : Type ℓ} {al : Allocator} where
  abbrev pub LeafHas : Option (RawLeaf A × Above A 0) → ℕ → ℕ → BTreeVec al A → List A → Type ℓ
  LeafHas none len index tree xs = (xs ≡ []) × (contents tree ≡ []) × RootFree tree.root
  LeafHas (some p) len index tree xs =
      HasItems p.0 p.1 len index xs
      × (contents tree ≡ p.0.leaf.body.children ++ items (leaves_after p.1))
      × RootFree tree.root

  -- The iterator is well formed and has the items `xs` left.
  pub record IsIntoIter (it : IntoIter al A) (xs : List A) : Type ℓ where
    pub leaf_has : LeafHas it.leaf it.length it.index it.tree xs
    pub remaining_is : it.remaining ≡ length xs

  -- `r` is the first of `xs`, if there is one, with an iterator over the others.
  abbrev pub Yields : List A → Option A × IntoIter al A → Type ℓ
  Yields xs r = (r.0 ≡ get_elem? xs 0) × IsIntoIter r.1 (drop 1 xs)

  pub size_hint_lem :
      (it : IntoIter al A) (xs : List A)
      → IsIntoIter it xs
      → (size_hint it ≡ (length xs, some (length xs))) × (len it ≡ ok (length xs))
  unfolding size_hint len
  size_hint_lem it xs v = (rw (v.remaining_is) refl, rw (v.remaining_is, ==_self (length xs)) refl)
