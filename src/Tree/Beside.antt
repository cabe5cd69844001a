-- ===== src/Tree/Beside.antt =====
-- `siblings_mut` of src/node/mod.rs: the nodes to the left and to the right of a node.
use btree_vec.Common.{
  ℕ, zero, suc, ◌+◌, ◌-◌, Option, none, some, List, [], ◌∷◌, Result, ok, err, Error, ◌>>=◌,
  get_elem?, length, ltb, ◌==◌, if◌then◌else◌,
}
use btree_vec.Node.{Ptr, Cell}
use btree_vec.Node.Internal.{Entry}
use btree_vec.Tree.{Tree, Frame, Above, top, under}

module _ {ℓ} {C : Type ℓ} where
  abbrev pub entry_cell : Option (Entry C) → Option (Cell C)
  entry_cell none = none
  entry_cell (some e) = some e.0

  -- A write to the node of the entry at `i`, which keeps its size.
  unfoldable pub set_cell : List (Entry C) → ℕ → Cell C → List (Entry C)
  set_cell [] i c = []
  set_cell ((d, n) ∷ es) zero c = (c, n) ∷ es
  set_cell (e ∷ es) (suc i) c = e ∷ set_cell es i c

  -- `parent.child_ptr(i)` for the parent of the node at hand. A second reference to that node
  -- itself is not to be had.
  unfoldable pub child_at : Cell (Frame C) → ℕ → Result (Option (Cell C))
  child_at f i =
      if ltb i (length f.body.before)
      then ok (entry_cell (get_elem? f.body.before i))
      else if i == length f.body.before
      then err Error.dangling
      else ok (entry_cell (get_elem? f.body.after (i - suc (length f.body.before))))

  -- A write to the child at `i`.
  unfoldable pub set_child : Cell (Frame C) → ℕ → Cell C → Cell (Frame C)
  set_child f i c =
      if ltb i (length f.body.before)
      then record f { body = record f.body { before = set_cell f.body.before i c } }
      else record f {
        body = record f.body { after = set_cell f.body.after (i - suc (length f.body.before)) c };
      }

  -- The left sibling's place, by `checked_sub(1)`.
  unfoldable pub left_at : Cell (Frame C) → ℕ → Result (Option (Cell C))
  left_at f zero = ok none
  left_at f (suc i) = child_at f i

-- The siblings of a node with this prefix.
unfoldable pub siblings_of {ℓ} :
    {A : Type ℓ} {h : ℕ}
    → Option Ptr
    → ℕ
    → Above A h
    → Result (Option (Tree A h) × Option (Tree A h))
siblings_of none index k = ok (none, none)
siblings_of (some p) index top = err Error.dangling
siblings_of (some p) index (under f k) =
    if p == f.addr
    then (do left ← left_at f index; right ← child_at f (index + 1); ok (left, right))
    else err Error.dangling

-- `siblings_mut`: the left and the right sibling of the node `c` below `k`.
unfoldable pub siblings {ℓ} :
    {A : Type ℓ} {h : ℕ} (c : Tree A h) → Above A h → Result (Option (Tree A h) × Option (Tree A h))
siblings c k = siblings_of c.prefix.parent c.prefix.index k

-- A write to a child of the parent.
unfoldable pub set_sibling {ℓ} : {A : Type ℓ} {h : ℕ} → Above A h → ℕ → Tree A h → Above A h
set_sibling top i c = top
set_sibling (under f k) i c = under (set_child f i c) k
