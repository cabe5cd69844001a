-- ===== src/Debug.antt =====
-- src/debug.rs: a vector printed as a graph. What is written is a list of lines, each with the
-- values that it shows; the text around them is left out.
pub mod Ids
pub mod Lines
use btree_vec.Common.{
  ℕ, zero, suc, ◌+◌, Option, none, some, List, [], ◌∷◌, ◌++◌, length, ◌==◌, if◌then◌else◌,
}
use btree_vec.Node.{Ptr, Cell, Allocator}
use btree_vec.Node.Leaf.{Leaf}
use btree_vec.Node.Internal.{Entry}
use btree_vec.Tree.{Body, Tree, Root}
use btree_vec.Vec.{BTreeVec, len}

-- `IdMap`, of the addresses of nodes: the entries in the order in which they came in.
abbrev pub IdMap : Type 0
IdMap = List (Ptr × ℕ)

unfoldable pub lookup : IdMap → Ptr → Option ℕ
lookup [] p = none
lookup ((q, n) ∷ m) p = let rest = lookup m p in if p == q then some n else rest

-- `or_insert(len + 1)`
abbrev pub or_insert : Option ℕ → Ptr → IdMap → ℕ × IdMap
or_insert none p m = (length m + 1, m ++ ((p, length m + 1) ∷ []))
or_insert (some n) p m = (n, m)

-- `IdMap::get`, and `State::id`
unfoldable pub get_id : IdMap → Ptr → ℕ × IdMap
get_id m p = or_insert (lookup m p) p m

pub data Line {ℓ} (A : Type ℓ) : Type ℓ where
  open_graph close_graph : Line A
  size_line : ℕ → Line A
  root_edge : ℕ → Line A
  -- `i` or `L`, with the id, the index and the length of the node.
  internal_line leaf_line : ℕ → ℕ → ℕ → Line A
  -- The ids of a node and a child, and the size of the child.
  child_edge : ℕ → ℕ → ℕ → Line A
  -- The id of a leaf and the place of an item, and the item.
  item_edge : ℕ → ℕ → Line A
  item_line : ℕ → ℕ → A → Line A

module _ {ℓ} {A : Type ℓ} where
  -- The loop of `fmt_leaf`, from the item at `i` on.
  unfoldable pub fmt_items : ℕ → ℕ → List A → List (Line A)
  fmt_items id i [] = []
  fmt_items id i (x ∷ xs) = item_edge id i ∷ (item_line id i x ∷ fmt_items id (i + 1) xs)

  unfoldable pub fmt_leaf : IdMap → Leaf A → List (Line A) × IdMap
  fmt_leaf m c =
      let (id, m') = get_id m c.addr in
      (leaf_line id c.prefix.index (length c.body.children) ∷ fmt_items id 0 c.body.children, m')

  -- The loop of `fmt_internal`, where `id` is the id of the node.
  module _ {C : Type ℓ} (fmt_prefix : IdMap → Cell C → List (Line A) × IdMap) where
    unfoldable pub fmt_children : ℕ → IdMap → List (Entry C) → List (Line A) × IdMap
    fmt_children id m [] = ([], m)
    fmt_children id m ((c, n) ∷ es) =
        let (child_id, m1) = get_id m c.addr in
        let (lines, m2) = fmt_prefix m1 c in
        let (rest, m3) = fmt_children id m2 es in (child_edge id child_id n ∷ (lines ++ rest), m3)

  -- `fmt_prefix`, with `fmt_internal`.
  unfoldable pub fmt_prefix : (h : ℕ) → IdMap → Tree A h → List (Line A) × IdMap
  unfolding fmt_leaf fmt_children
  fmt_prefix zero m c = fmt_leaf m c
  fmt_prefix (suc h) m c =
      let (id, m') = get_id m c.addr in
      let (lines, m'') = fmt_children (fmt_prefix h) id m' c.body.children in
      (internal_line id c.prefix.index (length c.body.children) ∷ lines, m'')

  unfoldable pub fmt_root : IdMap → Option (Root A) → List (Line A) × IdMap
  fmt_root m none = ([], m)
  fmt_root m (some r) =
      let (id, m') = get_id m r.node.addr in
      let (lines, m'') = fmt_prefix r.height m' r.node in (root_edge id ∷ lines, m'')

  -- `Display::fmt` of `VecDebug`
  unfoldable pub fmt : {al : Allocator} → IdMap → BTreeVec al A → List (Line A) × IdMap
  fmt m v =
      let (lines, m') = fmt_root m v.root in
      (open_graph ∷ (size_line (len v) ∷ (lines ++ (close_graph ∷ []))), m')
