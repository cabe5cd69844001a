-- ===== src/Remove/AtInternal.antt =====
-- The laws of internal nodes.
use btree_vec.Common.{
  ℕ, suc, ◌+◌, ◌/◌, ◌≤◌, ◌<◌, ◌≡◌, refl, sym, ap, ap₂, subst, ◌∙◌, none, List, [], ◌∷◌, ◌++◌, ok,
  append-nil, append_assoc, arith, length, length-append, last-eq, take-length, drop-length,
}
use btree_vec.Node.{set_prefix, Allocator}
use btree_vec.Node.Internal.{Entry, simple_remove, inserted}
use btree_vec.Node.Internal.Children.{concat_with, concat_with-append, IsSized}
use btree_vec.Node.Internal.Inserting.{
  simple_insert_lem, length-inserted, concat_with-inserted, inserted-IsNode,
}
use btree_vec.Tree.{Body, Tree, frame}
use btree_vec.Tree.Valid.{leaves, weight, weight-append, weight-nil, tree_weight, IsTree, IsSubtree}
use btree_vec.Tree.Unplug.{
  unplug, simple_remove-plug, length-unplug, concat_with-unplug, as_plug, unplug-IsNode,
  Children-from, frame-IsFrame,
}
use btree_vec.Tree.Chain.{Follows-of_eq}
use btree_vec.Remove.Laws.{FromLeft, FromRight}

module _ {ℓ} {X : Type ℓ} where
  regroup_left : (a b c : List X) → (a ++ []) ++ (b ++ c) ≡ (a ++ (b ++ [])) ++ c
  regroup_left a b c = simp (append_assoc, append-nil)

  regroup_right : (a b c : List X) → (a ++ (b ++ [])) ++ c ≡ a ++ (b ++ c)
  regroup_right a b c = simp (append_assoc, append-nil)

module _ {ℓ} (A : Type ℓ) (B : ℕ) (al : Allocator) (h : ℕ) where
  -- The child `c` between `es` and `fs`, taken out of `n`.
  module _ (n : Tree A (suc h)) (es : List (Entry (Body A h))) (c : Tree A h) (m : ℕ)
      (fs : List (Entry (Body A h))) (e : n.body.children ≡ es ++ ((c, m) ∷ fs)) where
    abbrev pub rest : Tree A (suc h)
    rest = unplug (frame n es m fs)

    pub taken : simple_remove n (length es) ≡ ok (rest, (set_prefix none 0 c, m))
    taken =
        ap (λ n'. simple_remove n' (length es)) (as_plug n es c m fs e)
        ∙ simple_remove-plug (frame n es m fs) c m

    taken-length : suc (length rest.body.children) ≡ length n.body.children
    taken-length =
        omega (arith, length-unplug (frame n es m fs), ap length e, length-append es ((c, m) ∷ fs))

    pub leaves-whole :
        leaves A (suc h) n.addr n.body
        ≡ concat_with (leaves A h) es ++ (leaves A h c.addr c.body ++ concat_with (leaves A h) fs)
    leaves-whole =
        ap (concat_with (leaves A h)) e ∙ concat_with-append (leaves A h) es ((c, m) ∷ fs)

    leaves-rest :
        leaves A (suc h) rest.addr rest.body
        ≡ concat_with (leaves A h) es ++ concat_with (leaves A h) fs
    leaves-rest = concat_with-unplug (leaves A h) (frame n es m fs)

    module _ (v : IsTree A B (suc h) n.addr n.body) where
      rest-IsTree : IsTree A B (suc h) rest.addr rest.body
      rest-IsTree =
          unplug-IsNode B (IsSubtree A B h) (tree_weight A h) (frame n es m fs)
            (frame-IsFrame B (IsSubtree A B h) (tree_weight A h) n es c m fs e v)

      child-IsSized : IsSized (IsSubtree A B h) (tree_weight A h) (set_prefix none 0 c) m
      child-IsSized =
          let child = (Children-from B (IsSubtree A B h) (tree_weight A h) n es c m fs e v).0 in
          record { size_is = child.size_is; is = child.is }

      rest-weight :
          tree_weight A (suc h) rest.addr rest.body + m ≡ tree_weight A (suc h) n.addr n.body
      rest-weight = omega (
        arith,
        ap weight leaves-whole,
        ap weight leaves-rest,
        child-IsSized.size_is,
        weight-append (concat_with (leaves A h) es) (concat_with (leaves A h) fs),
        weight-append (concat_with (leaves A h) es)
            (leaves A h c.addr c.body ++ concat_with (leaves A h) fs),
        weight-append (leaves A h c.addr c.body) (concat_with (leaves A h) fs),
      )

  -- A child put into `n`.
  module _ (n : Tree A (suc h)) (i : ℕ) (x : Entry (Body A h))
      (v : IsTree A B (suc h) n.addr n.body) (room : length n.body.children < B)
      (fits : i ≤ length n.body.children)
      (sized : IsSized (IsSubtree A B h) (tree_weight A h) x.0 x.1) where
    more-IsTree : IsTree A B (suc h) n.addr (inserted B n i x).body
    more-IsTree = inserted-IsNode B n i x (IsSubtree A B h) (tree_weight A h) v room fits sized

  pub FromLeft-internal :
      (left node : Tree A (suc h))
      → IsTree A B (suc h) left.addr left.body
      → IsTree A B (suc h) node.addr node.body
      → B / 2 < length left.body.children
      → length node.body.children < B / 2
      → FromLeft A B al (suc h) left node
  FromLeft-internal left node lv nv long short =
      let (es, x, e, n) = last-eq left.body.children (omega arith) in
      let x' : Entry (Body A h) = (set_prefix none 0 x.0, x.1) in
      let sized = child-IsSized left es x.0 x.1 [] e lv in
      let grown = concat_with-inserted B node 0 x' (leaves A h) in
      (
        rest left es x.0 x.1 [] e,
        x',
        inserted B node 0 x',
        subst (λ i. simple_remove left i ≡ ok (rest left es x.0 x.1 [] e, x')) n
            (taken left es x.0 x.1 [] e),
        simple_insert_lem B node 0 x' (omega arith) (omega arith),
        record {
          source_addr = refl;
          source_prefix = refl;
          source_tree = rest-IsTree left es x.0 x.1 [] e lv;
          source_length = taken-length left es x.0 x.1 [] e;
          source_weight = rest-weight left es x.0 x.1 [] e lv;
          dest_addr = refl;
          dest_prefix = refl;
          dest_tree = more-IsTree node 0 x' nv (omega arith) (omega arith) sized;
          dest_length = length-inserted B node 0 x' (omega arith);
          dest_weight = omega (
            arith,
            ap weight grown,
            weight-append (leaves A h x.0.addr x.0.body) (leaves A (suc h) node.addr node.body),
            sized.size_is,
          );
        },
        Follows-of_eq (
            ap₂ (λ xs ys. xs ++ ys) (leaves-rest left es x.0 x.1 [] e) grown
            ∙ regroup_left (concat_with (leaves A h) es) (leaves A h x.0.addr x.0.body)
                (leaves A (suc h) node.addr node.body)
            ∙ sym (
                ap (λ xs. xs ++ leaves A (suc h) node.addr node.body)
                  (leaves-whole left es x.0 x.1 [] e))),
      )

  -- What stands below `node` with the child `x` at its end.
  leaves-pushed :
      (node : Tree A (suc h)) (x : Entry (Body A h))
      → leaves A (suc h) node.addr (inserted B node (length node.body.children) x).body
        ≡ leaves A (suc h) node.addr node.body ++ (leaves A h x.0.addr x.0.body ++ [])
  leaves-pushed node x =
      concat_with-inserted B node (length node.body.children) x (leaves A h)
      ∙ ap₂
          (λ es fs.
            concat_with (leaves A h) es
            ++ (leaves A h x.0.addr x.0.body ++ concat_with (leaves A h) fs))
          (take-length node.body.children) (drop-length node.body.children)

  pub FromRight-internal :
      (right node : Tree A (suc h))
      → IsTree A B (suc h) right.addr right.body
      → IsTree A B (suc h) node.addr node.body
      → B / 2 < length right.body.children
      → length node.body.children < B / 2
      → FromRight A B al (suc h) right node
  FromRight-internal right node rv nv long short = go right.body.children refl long
    where
      go :
          (es : List (Entry (Body A h)))
          → right.body.children ≡ es
          → B / 2 < length es
          → FromRight A B al (suc h) right node
      go [] e long = absurd (omega arith)
      go ((c, m) ∷ fs) e long =
          let x' : Entry (Body A h) = (set_prefix none 0 c, m) in
          let i = length node.body.children in
          let sized = child-IsSized right [] c m fs e rv in
          (
            rest right [] c m fs e,
            x',
            inserted B node i x',
            taken right [] c m fs e,
            simple_insert_lem B node i x' (omega arith) (omega arith),
            record {
              source_addr = refl;
              source_prefix = refl;
              source_tree = rest-IsTree right [] c m fs e rv;
              source_length = taken-length right [] c m fs e;
              source_weight = rest-weight right [] c m fs e rv;
              dest_addr = refl;
              dest_prefix = refl;
              dest_tree = more-IsTree node i x' nv (omega arith) (omega arith) sized;
              dest_length = length-inserted B node i x' (omega arith);
              dest_weight = omega (
                arith,
                ap weight (leaves-pushed node x'),
                weight-append (leaves A (suc h) node.addr node.body)
                    (leaves A h c.addr c.body ++ []),
                weight-append (leaves A h c.addr c.body) [],
                weight-nil A,
                sized.size_is,
              );
            },
            Follows-of_eq (
                ap₂ (λ xs ys. xs ++ ys) (leaves-pushed node x') (leaves-rest right [] c m fs e)
                ∙ regroup_right (leaves A (suc h) node.addr node.body) (leaves A h c.addr c.body)
                    (concat_with (leaves A h) fs)
                ∙ sym (
                    ap (λ xs. leaves A (suc h) node.addr node.body ++ xs)
                      (leaves-whole right [] c m fs e))),
          )
