-- ===== src/Tree/Valid.antt =====
-- When a tree is well formed, and what it holds.
use btree_vec.Common.{
  ℕ, zero, suc, ◌+◌, ◌/◌, ◌≤◌, ◌≡◌, refl, sym, ap, ◌∙◌, Option, none, some, List, [], ◌∷◌, ◌++◌,
  append_assoc, append-nil, length, length-append,
}
use btree_vec.Node.{Ptr, Cell}
use btree_vec.Node.Leaf.{LeafBody}
use btree_vec.Node.Internal.Children.{concat_with, Children}
use btree_vec.Node.Internal.Inserting.{IsNode}
use btree_vec.Tree.{Body, Tree, Frame, Above, top, under, Root}

-- A leaf as the chain of leaves has it: without its parent and index.
abbrev pub LeafView {ℓ} : Type ℓ → Type ℓ
LeafView A = Ptr × LeafBody A

-- The leaves of a tree from left to right.
abbrev pub leaves {ℓ} : (A : Type ℓ) (h : ℕ) → Ptr → Body A h → List (LeafView A)
leaves A zero a b = (a, b) ∷ []
leaves A (suc h) a b = concat_with (leaves A h) b.children

module _ {ℓ} {A : Type ℓ} where
  -- The items in the leaves, from left to right.
  abbrev pub items : List (LeafView A) → List A
  items [] = []
  items ((a, b) ∷ vs) = b.children ++ items vs

  pub items-append : (vs ws : List (LeafView A)) → items (vs ++ ws) ≡ items vs ++ items ws
  items-append [] ws = refl
  items-append ((a, b) ∷ vs) ws =
      rw (items-append vs ws) (sym (append_assoc b.children (items vs) (items ws)))

  unfoldable pub weight : List (LeafView A) → ℕ
  weight vs = length (items vs)

  pub weight-append : (vs ws : List (LeafView A)) → weight (vs ++ ws) ≡ weight vs + weight ws
  unfolding weight
  weight-append vs ws = ap length (items-append vs ws) ∙ length-append (items vs) (items ws)

pub weight-nil {ℓ} : (A : Type ℓ) → weight {A = A} [] ≡ 0
unfolding weight
weight-nil A = refl

-- The items below a node are its weight.
abbrev pub tree_weight {ℓ} : (A : Type ℓ) (h : ℕ) → Ptr → Body A h → ℕ
tree_weight A h a b = weight (leaves A h a b)

-- A leaf weighs as much as it has items.
pub leaf-weight {ℓ} :
    {A : Type ℓ} (a : Ptr) (b : LeafBody A) → tree_weight A 0 a b ≡ length b.children
unfolding weight
leaf-weight a b = ap length (append-nil b.children)

-- The field `length` of a node.
abbrev pub node_length {ℓ} : (A : Type ℓ) (h : ℕ) → Body A h → ℕ
node_length A zero b = length b.children
node_length A (suc h) b = length b.children

-- A well-formed tree, whatever its own prefix and length: its arrays have `B` places, its children
-- know their parent and their index, their sizes are right, and each of them has at least `B / 2`
-- children.
abbrev pub IsTree {ℓ} : (A : Type ℓ) (B h : ℕ) → Ptr → Body A h → Type 0
IsTree A B zero a b = length b.children ≤ B
IsTree A B (suc h) a b =
    IsNode B (λ a' b'. IsTree A B h a' b' × (B / 2 ≤ node_length A h b')) (tree_weight A h) a b

-- A well-formed tree that may stand below another node.
abbrev pub IsSubtree {ℓ} : (A : Type ℓ) (B h : ℕ) → Ptr → Body A h → Type 0
IsSubtree A B h a b = IsTree A B h a b × (B / 2 ≤ node_length A h b)

-- A node without one child.
pub record IsFrame {ℓ} {C : Type ℓ} (B : ℕ) (P : Ptr → C → Type 0) (w : Ptr → C → ℕ)
    (f : Cell (Frame C)) : Type 0 where
  pub capacity : length f.body.before + suc (length f.body.after) + length f.body.spare ≡ B
  pub before_are : Children P w f.addr 0 f.body.before
  pub after_are : Children P w f.addr (suc (length f.body.before)) f.body.after

module _ {ℓ} {A : Type ℓ} where
  -- The prefix that a node below `k` should have.
  abbrev pub parent_of : {h : ℕ} → Above A h → Option Ptr
  parent_of top = none
  parent_of (under f k) = some f.addr

  abbrev pub index_of : {h : ℕ} → Above A h → ℕ
  index_of top = 0
  index_of (under f k) = length f.body.before

  -- An internal root has two children or more, and any other node but the root `B / 2`.
  abbrev pub min_length : (B : ℕ) {h : ℕ} → Above A h → ℕ
  min_length B (top {h = zero}) = 0
  min_length B (top {h = suc h}) = 2
  min_length B (under f k) = B / 2

  -- The number of nodes above.
  abbrev pub depth : {h : ℕ} → Above A h → ℕ
  depth top = 0
  depth (under f k) = suc (depth k)

  -- The leaves to the left and to the right of what stands below `k`.
  abbrev pub leaves_before : {h : ℕ} → Above A h → List (LeafView A)
  leaves_before top = []
  leaves_before (under {h = h} f k) = leaves_before k ++ concat_with (leaves A h) f.body.before

  abbrev pub leaves_after : {h : ℕ} → Above A h → List (LeafView A)
  leaves_after top = []
  leaves_after (under {h = h} f k) = concat_with (leaves A h) f.body.after ++ leaves_after k

  -- The nodes above are well formed if `n` is the number of items below `k`. The whole tree has
  -- `total` items.
  abbrev pub IsAbove : (B total : ℕ) {h : ℕ} → Above A h → ℕ → Type 0
  IsAbove B total top n = n ≡ total
  IsAbove B total (under {h = h} f k) n =
      IsFrame B (IsSubtree A B h) (tree_weight A h) f
      × (f.body.hole ≡ n)
      × (f.prefix.parent ≡ parent_of k)
      × (f.prefix.index ≡ index_of k)
      × (min_length B k ≤ length f.body.before + suc (length f.body.after))
      × IsAbove B total k (
          weight (concat_with (leaves A h) f.body.before)
          + (n + weight (concat_with (leaves A h) f.body.after)))

  -- The node `c` as the child below `k`.
  pub record IsBelow (B : ℕ) (h : ℕ) (k : Above A h) (c : Tree A h) : Type 0 where
    pub parent_is : c.prefix.parent ≡ parent_of k
    pub index_is : c.prefix.index ≡ index_of k
    pub tree : IsTree A B h c.addr c.body
    pub long : min_length B k ≤ node_length A h c.body

  -- A whole tree.
  abbrev pub IsRoot : ℕ → Root A → Type 0
  IsRoot B r = IsBelow B r.height top r.node

  abbrev pub root_leaves : Root A → List (LeafView A)
  root_leaves r = leaves A r.height r.node.addr r.node.body
