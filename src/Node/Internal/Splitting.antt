-- ===== src/Node/Internal/Splitting.antt =====
-- `split` of an internal node.
use btree_vec.Common.{
  ℕ, ◌+◌, ◌-◌, ◌/◌, ◌≤◌, ◌≡◌, sym, ap, ◌∙◌, some, List, ◌++◌, ok, arith, length, take, drop,
  length-append, length-take, length-drop, length-replicate, eq→==,
}
use btree_vec.Node.{Ptr, SplitStrategy, sizes, Allocator}
use btree_vec.Node.SplitStrategy.{larger_left, larger_right}
use btree_vec.Node.Internal.{Internal, halves, split, live_sizes}
use btree_vec.Node.Internal.Children.{
  concat_with, concat_with-split, concat_with-adopt, length-adopt, length-live_sizes, Children-take,
  Children-drop, Children-adopt,
}
use btree_vec.Node.Internal.Inserting.{IsNode}

-- The two sizes make up `b`.
pub sizes_total :
    (strategy : SplitStrategy) (b : ℕ) → (sizes strategy b).0 + (sizes strategy b).1 ≡ b
sizes_total larger_left b = omega arith
sizes_total larger_right b = omega arith

-- Each of the two is at least half of `b`, rounded down.
pub sizes_bounds :
    (strategy : SplitStrategy) (b : ℕ)
    → (b / 2 ≤ (sizes strategy b).0) × (b / 2 ≤ (sizes strategy b).1)
sizes_bounds larger_left b = omega arith
sizes_bounds larger_right b = omega arith

module _ {ℓ} {C : Type ℓ} (B : ℕ) (al : Allocator) (strategy : SplitStrategy) (n : Internal C)
    (full : length n.body.children ≡ B) where
  pub split_lem :
      (s : al.State)
      → split B al strategy n s
        ≡ ok (
          (halves B al strategy n (al.allocate s).0).0,
          (halves B al strategy n (al.allocate s).0).1,
          (al.allocate s).1,
        )
  unfolding split
  split_lem s = rw (eq→== full)

  module _ (ptr : Ptr) where
    -- The lengths of the two halves are the strategy's sizes.
    pub length-halves :
        (length (halves B al strategy n ptr).0.body.children ≡ (sizes strategy B).0)
        × (length (halves B al strategy n ptr).1.body.children ≡ (sizes strategy B).1)
    length-halves = (
      omega (arith, length-take (sizes strategy B).0 n.body.children, sizes_total strategy B),
      omega (
        arith,
        length-adopt (some ptr) 0 (drop (sizes strategy B).0 n.body.children),
        length-drop (sizes strategy B).0 n.body.children,
        sizes_total strategy B,
      ),
    )

    -- Nothing below the node is lost or moved past another part.
    pub concat_with-halves {κ} :
        {X : Type κ} (L : Ptr → C → List X)
        → concat_with L n.body.children
          ≡ concat_with L (halves B al strategy n ptr).0.body.children
            ++ concat_with L (halves B al strategy n ptr).1.body.children
    concat_with-halves L =
        concat_with-split L (sizes strategy B).0 n.body.children
        ∙ ap (λ xs. concat_with L (take (sizes strategy B).0 n.body.children) ++ xs)
            (sym (concat_with-adopt L (some ptr) 0 (drop (sizes strategy B).0 n.body.children)))

    module _ (P : Ptr → C → Type 0) (weight : Ptr → C → ℕ)
        (v : IsNode B P weight n.addr n.body) where
      pub left-IsNode :
          IsNode B P weight (halves B al strategy n ptr).0.addr (halves B al strategy n ptr).0.body
      left-IsNode = record {
        capacity = omega (
          arith,
          length-halves.0,
          length-append (live_sizes (drop (sizes strategy B).0 n.body.children)) n.body.spare,
          length-live_sizes (drop (sizes strategy B).0 n.body.children),
          length-drop (sizes strategy B).0 n.body.children,
          sizes_total strategy B,
          v.capacity,
        );
        children_are =
            Children-take P weight n.addr (sizes strategy B).0 n.body.children v.children_are;
      }

      pub right-IsNode :
          IsNode B P weight (halves B al strategy n ptr).1.addr (halves B al strategy n ptr).1.body
      right-IsNode = record {
        capacity = omega (
          arith,
          length-halves.1,
          length-replicate {0} {A = ℕ} (B - (sizes strategy B).1) 0,
          sizes_total strategy B,
        );
        children_are =
            Children-adopt P weight n.addr ptr (sizes strategy B).0 0
              (drop (sizes strategy B).0 n.body.children)
              (Children-drop P weight n.addr (sizes strategy B).0 n.body.children
                (omega (arith, sizes_total strategy B)) v.children_are);
      }
