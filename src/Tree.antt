-- ===== src/Tree.antt =====
-- The tree of nodes, and the way from a leaf up to the root. A node of height 0 is a leaf, and the
-- children of a node of height `h + 1` have the height `h`: this is what the tag of `ParentPtr`
-- and the casts of src/node/mod.rs distinguish.
pub mod Beside
pub mod Descent
pub mod Destroy
pub mod Find
pub mod Height
pub mod Parents
pub mod Items
pub mod Plug
pub mod Position
pub mod Unplug
pub mod Chain
pub mod Valid
use btree_vec.Common.{
  ℕ, zero, suc, ◌-◌, Option, none, some, List, [], ◌∷◌, ◌++◌, Result, ok, err, Error, ◌>>=◌, ltb,
  ◌==◌, if◌then◌else◌,
}
use btree_vec.Node.{Ptr, Cell}
use btree_vec.Node.Leaf.{Leaf, LeafBody}
use btree_vec.Node.Internal.{Internal, InternalBody, Entry}

abbrev pub Body {ℓ} : Type ℓ → ℕ → Type ℓ
Body A zero = LeafBody A
Body A (suc h) = InternalBody (Body A h)

abbrev pub Tree {ℓ} : Type ℓ → ℕ → Type ℓ
Tree A h = Cell (Body A h)

-- An internal node without one of its children, whose size and place are kept.
pub record Frame {ℓ} (C : Type ℓ) : Type ℓ where
  pub before : List (Entry C)
  pub hole : ℕ
  pub after : List (Entry C)
  pub spare : List ℕ

-- The nodes above a node, from its parent up.
pub data Above {ℓ} (A : Type ℓ) : ℕ → Type ℓ where
  top : {h : ℕ} → Above A h
  under : {h : ℕ} → Cell (Frame (Body A h)) → Above A (suc h) → Above A h

-- A tree of some height: what `BTreeVec.root` points to.
pub record Root {ℓ} (A : Type ℓ) : Type ℓ where
  pub height : ℕ
  pub node : Tree A height

-- The parent with the child in its place again.
abbrev pub plug {ℓ} : {C : Type ℓ} → Cell (Frame C) → Cell C → Internal C
plug f c = record {
  addr = f.addr;
  prefix = f.prefix;
  body = record {
    children = f.body.before ++ ((c, f.body.hole) ∷ f.body.after);
    spare = f.body.spare;
  };
}

-- The internal node `c`, whose children are `before`, a child of size `hole` and `after`, without
-- that child.
abbrev pub frame {ℓ} :
    {C : Type ℓ} → Internal C → List (Entry C) → ℕ → List (Entry C) → Cell (Frame C)
frame c before hole after = record {
  addr = c.addr;
  prefix = c.prefix;
  body = record { before = before; hole = hole; after = after; spare = c.body.spare };
}

-- The search among the first `length - 1` sizes, with the last child as the default. What is
-- returned is the child with what stands before and after it, and the index inside of it.
unfoldable pub find_child {ℓ} :
    {C : Type ℓ}
    → List (Entry C)
    → List (Entry C)
    → ℕ
    → Result (List (Entry C) × Entry C × List (Entry C) × ℕ)
find_child before [] index = err Error.panic
find_child before (e ∷ []) index = ok (before, e, [], index)
find_child before (e ∷ (e' ∷ es)) index =
    let rest = find_child (before ++ (e ∷ [])) (e' ∷ es) (index - e.1) in
    if ltb index e.1 then ok (before, e, e' ∷ es, index) else rest

module _ {ℓ} {A : Type ℓ} where
  -- The node to which a parent pointer points.
  unfoldable pub deref_parent :
      {h : ℕ} → Ptr → Tree A h → Above A h → Result (Option (Tree A (suc h) × Above A (suc h)))
  deref_parent p c top = err Error.dangling
  deref_parent p c (under f k) = if p == f.addr then ok (some (plug f c, k)) else err Error.dangling

  -- `NodeRef::into_parent`
  unfoldable pub into_parent :
      {h : ℕ} → Tree A h → Above A h → Result (Option (Tree A (suc h) × Above A (suc h)))
  unfolding deref_parent
  into_parent c k = elim c.prefix.parent [ none ↦ ok none | some p ↦ deref_parent p c k ]

  -- `leaf_for`: the loop goes down one node in each round.
  unfoldable pub leaf_for : (h : ℕ) → Tree A h → Above A h → ℕ → Result (Leaf A × ℕ × Above A 0)
  unfolding find_child
  leaf_for zero c k index = ok (c, index, k)
  leaf_for (suc h) c k index = do
    (before, e, after, index') ← find_child [] c.body.children index
    leaf_for h e.0 (under (frame c before e.1 after) k) index'

-- The whole tree in which `c` stands below `k`.
unfoldable pub rebuild {ℓ} : {A : Type ℓ} {h : ℕ} → Tree A h → Above A h → Root A
rebuild {h = h} c top = record { height = h; node = c }
rebuild c (under f k) = rebuild (plug f c) k
