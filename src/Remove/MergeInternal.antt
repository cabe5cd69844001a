-- ===== src/Remove/MergeInternal.antt =====
-- `merge` of internal nodes, and the laws of internal nodes.
use btree_vec.Common.{
  ℕ, zero, suc, ◌+◌, ◌/◌, ◌≤◌, ◌<◌, ◌≡◌, refl, sym, ap, subst, ◌∙◌, some, List, [], ◌∷◌, ◌++◌, ok,
  arith, length, drop, length-append, length-drop, le→leb, zero-add,
}
use btree_vec.Node.{Ptr, Allocator}
use btree_vec.Node.Internal.{Entry, merge, first_parent, adopt, live_sizes}
use btree_vec.Node.Internal.Children.{
  concat_with-append, concat_with-adopt, length-adopt, Children, Children-append, Children-adopt,
}
use btree_vec.Tree.{Tree}
use btree_vec.Tree.Valid.{leaves, weight, weight-append, tree_weight, IsTree, IsSubtree}
use btree_vec.Tree.Chain.{Follows-of_eq}
use btree_vec.Remove.Laws.{IsMerged, Laws}
use btree_vec.Remove.AtLeaf.{leaf-Laws}
use btree_vec.Remove.AtInternal.{FromLeft-internal, FromRight-internal}

module _ {ℓ} {C : Type ℓ} (P : Ptr → C → Type 0) (w : Ptr → C → ℕ) where
  first_parent_lem :
      (a : Ptr) (es : List (Entry C))
      → Children P w a 0 es
      → 0 < length es
      → first_parent es ≡ ok (some a)
  unfolding first_parent
  first_parent_lem a [] v pos = absurd (omega arith)
  first_parent_lem a ((c, m) ∷ es) v pos = ap ok v.0.parent_is

module _ {ℓ} (A : Type ℓ) (B : ℕ) (al : Allocator) (h : ℕ) where
  abbrev joined : Tree A (suc h) → Tree A (suc h) → Tree A (suc h)
  joined left right = record left {
    body = record {
      children =
          left.body.children
          ++ adopt (some left.addr) (length left.body.children) right.body.children;
      spare = drop (length right.body.children) left.body.spare;
    };
  }

  abbrev emptied : Tree A (suc h) → Tree A (suc h)
  emptied right = record right {
    body = record { children = []; spare = live_sizes right.body.children ++ right.body.spare };
  }

  module _ (left right : Tree A (suc h)) where
    joined-length :
        length (joined left right).body.children
        ≡ length left.body.children + length right.body.children
    joined-length = omega (
      arith,
      length-append left.body.children
          (adopt (some left.addr) (length left.body.children) right.body.children),
      length-adopt (some left.addr) (length left.body.children) right.body.children,
    )

    joined-leaves :
        leaves A (suc h) left.addr (joined left right).body
        ≡ leaves A (suc h) left.addr left.body ++ leaves A (suc h) right.addr right.body
    joined-leaves =
        concat_with-append (leaves A h) left.body.children
          (adopt (some left.addr) (length left.body.children) right.body.children)
        ∙ ap (λ xs. leaves A (suc h) left.addr left.body ++ xs)
            (concat_with-adopt (leaves A h) (some left.addr) (length left.body.children)
              right.body.children)

    joined-IsTree :
        IsTree A B (suc h) left.addr left.body
        → IsTree A B (suc h) right.addr right.body
        → length left.body.children ≤ B / 2
        → length right.body.children ≤ B / 2
        → IsTree A B (suc h) left.addr (joined left right).body
    joined-IsTree lv rv lh rh = record {
      capacity = omega (
        arith,
        lv.capacity,
        joined-length,
        length-drop (length right.body.children) left.body.spare,
      );
      children_are =
          Children-append (IsSubtree A B h) (tree_weight A h) left.addr 0 left.body.children _
            lv.children_are
            (subst
              (λ i.
                Children (IsSubtree A B h) (tree_weight A h) left.addr i
                  (adopt (some left.addr) (length left.body.children) right.body.children))
              (sym (zero-add (length left.body.children)))
              (Children-adopt (IsSubtree A B h) (tree_weight A h) right.addr left.addr 0
                (length left.body.children) right.body.children rv.children_are));
    }

  merge-internal :
      (left right : Tree A (suc h))
      → IsTree A B (suc h) left.addr left.body
      → IsTree A B (suc h) right.addr right.body
      → 0 < length left.body.children
      → length left.body.children ≤ B / 2
      → length right.body.children ≤ B / 2
      → (left' : Tree A (suc h)) × (right' : Tree A (suc h)) × (merge B left right
          ≡ ok (left', right'))
        × IsMerged A B al (suc h) left right left' right'
  unfolding merge
  merge-internal left right lv rv pos lh rh = (
    joined left right,
    emptied right,
    rw (
      le→leb lh,
      le→leb rh,
      first_parent_lem (IsSubtree A B h) (tree_weight A h) left.addr left.body.children
          lv.children_are pos,
    ),
    record {
      left_addr = refl;
      left_prefix = refl;
      left_tree = joined-IsTree left right lv rv lh rh;
      left_length = joined-length left right;
      left_weight =
          ap weight (joined-leaves left right)
          ∙ weight-append (leaves A (suc h) left.addr left.body)
              (leaves A (suc h) right.addr right.body);
      right_prefix = refl;
      right_addr = refl;
      right_empty = refl;
      follows = Follows-of_eq (joined-leaves left right);
    },
  )

  pub internal-Laws : Laws A B al (suc h)
  internal-Laws = record {
    from_left = FromLeft-internal A B al h;
    from_right = FromRight-internal A B al h;
    merge_lem = λ left right lv rv pos lh rh linked. merge-internal left right lv rv pos lh rh;
    length_lem = λ c. refl;
  }

-- At every height, a well-formed node longer than `B / 2` can give its last child to a right
-- neighbour shorter than `B / 2`, and its first child to such a left neighbour; and two well-formed
-- neighbours of at most `B / 2` children merge, where the first is not empty and, for leaves, has
-- the second as its `next`. No step panics, the nodes stay well formed, and the items and the chain
-- of leaves are kept.
pub tree_node-Laws {ℓ} : (A : Type ℓ) (B : ℕ) (al : Allocator) (h : ℕ) → Laws A B al h
tree_node-Laws A B al zero = leaf-Laws A B al
tree_node-Laws A B al (suc h) = internal-Laws A B al h
