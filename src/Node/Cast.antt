-- ===== src/Node/Cast.antt =====
-- `PrefixCast` and `cast` of src/node/mod.rs: which kind of node a pointer to a prefix is taken for.
use btree_vec.Common.{◌≡◌, refl, Option, none, List, [], ◌∷◌, Result, ok, ◌>>=◌}
use btree_vec.Node.{Ptr}
use btree_vec.Node.ParentPtr.{
  TaggedPtr, NodeKind, new, set, get, kind, IsParent, Represents, new-Represents, set-Represents,
}

pub data PrefixCast : Type 0 where
  internal leaf : Ptr → PrefixCast

-- The same address, as a pointer to a node of this kind.
abbrev pub as_kind : Ptr → NodeKind → PrefixCast
as_kind p NodeKind.internal = PrefixCast.internal p
as_kind p NodeKind.leaf = PrefixCast.leaf p

module _ (tp : TaggedPtr) (sentinel : Ptr) where
  -- `cast` of the node at `p`, whose field `parent` is `x`.
  unfoldable pub cast : Ptr → tp.Packed → Result PrefixCast
  cast p x = do k ← kind tp sentinel x; ok (as_kind p k)

  -- The field `parent` after these writes.
  abbrev pub set_all : List (Option Ptr) → tp.Packed → tp.Packed
  set_all [] x = x
  set_all (q ∷ qs) x = set_all qs (set tp sentinel q x)

  abbrev pub AllParents : List (Option Ptr) → Type 0
  AllParents [] = Unit
  AllParents (q ∷ qs) = IsParent tp sentinel q × AllParents qs

  -- What was written last.
  abbrev pub last_parent : Option Ptr → List (Option Ptr) → Option Ptr
  last_parent p [] = p
  last_parent p (q ∷ qs) = last_parent q qs

  set_all-Represents :
      tp.IsAligned sentinel
      → (k : NodeKind) (qs : List (Option Ptr)) (p : Option Ptr) (x : tp.Packed) → AllParents qs
      → Represents tp sentinel k p x
      → Represents tp sentinel k (last_parent p qs) (set_all qs x)
  set_all-Represents aligned k [] p x h r = r
  set_all-Represents aligned k (q ∷ qs) p x h r =
      set_all-Represents aligned k qs q (set tp sentinel q x) h.1
        (set-Represents tp sentinel aligned k p q x r h.0)

  -- Where the sentinel is aligned: a node that was made as one of the kind `k` and whose parent has
  -- been set any number of times, to none or to aligned addresses that are not the sentinel's, is
  -- cast to a node of the kind `k` at the same address without a panic, and its parent is the one
  -- that was set last.
  pub cast-new :
      tp.IsAligned sentinel
      → (k : NodeKind) (p : Ptr) (qs : List (Option Ptr)) → AllParents qs
      → (cast p (set_all qs (new tp sentinel k)) ≡ ok (as_kind p k))
        × (get tp sentinel (set_all qs (new tp sentinel k)) ≡ last_parent none qs)
  unfolding cast
  cast-new aligned k p qs h =
      let r =
        set_all-Represents aligned k qs none (new tp sentinel k) h
          (new-Represents tp sentinel aligned k) in
      (rw (r.0) refl, r.1)
