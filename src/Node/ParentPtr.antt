-- ===== src/Node/ParentPtr.antt =====
-- src/node/parent_ptr.rs and `NodeKind` of src/node/mod.rs: the pointer to a node's parent, which
-- has the kind of the node in its lowest bit. The tagged pointer is a parameter: it is the crate
-- tagged_pointer.
use btree_vec.Common.{
  ℕ, ◌<◌, ◌≡◌, ◌≢◌, Option, none, some, List, [], ◌∷◌, Result, ok, err, Error, get_elem?, ◌==◌,
  if◌then◌else◌, eq→==, ne→==, arith,
}
use btree_vec.Node.{Ptr}

-- `TaggedPtr<InternalNode, 1>`, with what its documentation says of pointers whose lowest bit is
-- free, and of tags that fit in that bit.
pub record TaggedPtr : Type 1 where
  pub Packed : Type 0
  pub IsAligned : Ptr → Type 0
  pub new : Ptr → ℕ → Packed
  pub ptr : Packed → Ptr
  pub tag : Packed → ℕ
  pub set_ptr : Ptr → Packed → Packed
  pub ptr-new : (p : Ptr) (t : ℕ) → IsAligned p → t < 2 → ptr (new p t) ≡ p
  pub tag-new : (p : Ptr) (t : ℕ) → IsAligned p → t < 2 → tag (new p t) ≡ t
  pub ptr-set_ptr : (p : Ptr) (x : Packed) → IsAligned p → ptr (set_ptr p x) ≡ p
  pub tag-set_ptr : (p : Ptr) (x : Packed) → IsAligned p → tag (set_ptr p x) ≡ tag x

pub data NodeKind : Type 0 where
  internal leaf : NodeKind

-- `kind as usize`
abbrev pub to_usize : NodeKind → ℕ
to_usize NodeKind.internal = 0
to_usize NodeKind.leaf = 1

-- `NodeKind::VARIANTS`
abbrev pub variants : List NodeKind
variants = NodeKind.internal ∷ (NodeKind.leaf ∷ [])

-- An index into `VARIANTS`, which panics out of bounds.
abbrev pub variant_at : Option NodeKind → Result NodeKind
variant_at none = err Error.panic
variant_at (some k) = ok k

-- `ptr.unwrap_or_else(Self::sentinel)`
abbrev pub or_sentinel : Ptr → Option Ptr → Ptr
or_sentinel sentinel none = sentinel
or_sentinel sentinel (some p) = p

-- `ParentPtr`, where the static `SENTINEL` is at the address `sentinel`.
module _ (tp : TaggedPtr) (sentinel : Ptr) where
  unfoldable pub new : NodeKind → tp.Packed
  new kind = tp.new sentinel (to_usize kind)

  unfoldable pub get : tp.Packed → Option Ptr
  get x = if tp.ptr x == sentinel then none else some (tp.ptr x)

  unfoldable pub set : Option Ptr → tp.Packed → tp.Packed
  set p x = tp.set_ptr (or_sentinel sentinel p) x

  unfoldable pub kind : tp.Packed → Result NodeKind
  kind x = variant_at (get_elem? variants (tp.tag x))

  -- The address of a node may be put where a parent is.
  abbrev pub IsParent : Option Ptr → Type 0
  IsParent none = Unit
  IsParent (some p) = tp.IsAligned p × (p ≢ sentinel)

  -- The packed pointer `x` of a node of the kind `k` whose parent is `p`.
  abbrev pub Represents : NodeKind → Option Ptr → tp.Packed → Type 0
  Represents k p x = (kind x ≡ ok k) × (get x ≡ p)

  pub new-Represents : tp.IsAligned sentinel → (k : NodeKind) → Represents k none (new k)
  unfolding new get kind
  new-Represents aligned NodeKind.internal = (
    rw (tp.tag-new sentinel 0 aligned (omega arith)),
    rw (eq→== (tp.ptr-new sentinel 0 aligned (omega arith))),
  )
  new-Represents aligned NodeKind.leaf = (
    rw (tp.tag-new sentinel 1 aligned (omega arith)),
    rw (eq→== (tp.ptr-new sentinel 1 aligned (omega arith))),
  )

  pub set-Represents :
      tp.IsAligned sentinel
      → (k : NodeKind) (p q : Option Ptr) (x : tp.Packed) → Represents k p x
      → IsParent q
      → Represents k q (set q x)
  unfolding set get kind
  set-Represents aligned k p none x r h =
      (rw (tp.tag-set_ptr sentinel x aligned) r.0, rw (eq→== (tp.ptr-set_ptr sentinel x aligned)))
  set-Represents aligned k p (some q) x r h =
      (rw (tp.tag-set_ptr q x h.0) r.0, rw (tp.ptr-set_ptr q x h.0, ne→== h.1))

  -- Where the sentinel is aligned, `new` gives a pointer of the kind asked for without a parent; and
  -- `set`, to no parent or to one at an aligned address that is not the sentinel's, is what `get`
  -- then returns, and keeps the kind.
  pub new-set :
      tp.IsAligned sentinel
      → (k : NodeKind) (q : Option Ptr) → IsParent q
      → Represents k none (new k)
        × ((p : Option Ptr) (x : tp.Packed) → Represents k p x → Represents k q (set q x))
  new-set aligned k q h = (new-Represents aligned k, λ p x r. set-Represents aligned k p q x r h)
