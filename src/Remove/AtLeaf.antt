-- ===== src/Remove/AtLeaf.antt =====
-- The laws of leaves.
use btree_vec.Common.{
  length-insert_at, ℕ, ◌+◌, ◌/◌, ◌≤◌, ◌<◌, ◌≡◌, refl, sym, ap, subst, ◌∙◌, Option, none, some, List,
  [], ◌∷◌, ◌++◌, ok, append-nil, append_assoc, arith, length, take, drop, insert_at, length-append,
  take-append, drop-append, last-eq, insert_at-length, lt→ltb, le→leb, ==_self,
}
use btree_vec.Node.{Ptr, Allocator}
use btree_vec.Node.Leaf.{
  Leaf, with_children, simple_remove, simple_insert, merge, remove_head, points_to,
}
use btree_vec.Tree.Valid.{leaf-weight}
use btree_vec.Tree.Chain.{IsChain-append_right, IsChain-replace, Follows}
use btree_vec.Remove.Laws.{IsMerged, FromLeft, FromRight, Laws}

points_to_lem : (p : Option Ptr) (q : Ptr) → p ≡ some q → points_to p q ≡ ok tt
points_to_lem p q e = rw (e, ==_self q)

module _ {ℓ} {A : Type ℓ} where
  pub simple_remove_lem :
      (n : Leaf A) (xs : List A) (x : A) (ys : List A)
      → n.body.children ≡ xs ++ (x ∷ ys)
      → simple_remove n (length xs) ≡ ok (with_children (xs ++ ys) n, x)
  unfolding simple_remove remove_head
  simple_remove_lem n xs x ys e =
      ap (λ zs. remove_head n (take (length xs) zs) (drop (length xs) zs)) e
      ∙ rw (take-append xs (x ∷ ys), drop-append xs (x ∷ ys))

  simple_insert_lem :
      (B : ℕ) (m : Leaf A) (j : ℕ) (x : A)
      → length m.body.children < B
      → j ≤ length m.body.children
      → simple_insert B m j x ≡ ok (with_children (insert_at j x m.body.children) m)
  unfolding simple_insert
  simple_insert_lem B m j x room h = rw (le→leb h, lt→ltb room)

  -- Two neighbours may share out their items anew.
  Follows-pair :
      (a a' : Ptr) (xs ys xs' ys' : List A) (p q : Option Ptr)
      → xs' ++ ys' ≡ xs ++ ys
      → Follows
          ((a, record { children = xs; next = p }) ∷ (a', record { children = ys; next = q }) ∷ [])
          ((a, record { children = xs'; next = p })
            ∷ (a', record { children = ys'; next = q })
            ∷ [])
  Follows-pair a a' xs ys xs' ys' p q e = record {
    same_items =
        ap (λ zs. xs' ++ zs) (append-nil ys') ∙ e ∙ ap (λ zs. xs ++ zs) (sym (append-nil ys));
    chained = λ us ts h.
        let rest =
          IsChain-append_right us
            ((a, record { children = xs; next = p })
              ∷ (a', record { children = ys; next = q })
              ∷ ts)
            h in
        IsChain-replace us _ _ h refl (rest.0, rest.1);
  }

module _ {ℓ} (A : Type ℓ) (B : ℕ) (al : Allocator) where
  FromLeft-leaf :
      (left node : Leaf A)
      → length left.body.children ≤ B
      → length node.body.children ≤ B
      → B / 2 < length left.body.children
      → length node.body.children < B / 2
      → FromLeft A B al 0 left node
  FromLeft-leaf left node lt nt long short =
      let (xs, x, e, n) = last-eq left.body.children (omega arith) in
      (
        with_children xs left,
        x,
        with_children (x ∷ node.body.children) node,
        subst (λ i. simple_remove left i ≡ ok (with_children xs left, x)) n
            (simple_remove_lem left xs x [] e
              ∙ ap (λ ys. ok (with_children ys left, x)) (append-nil xs)),
        simple_insert_lem B node 0 x (omega arith) (omega arith),
        record {
          source_addr = refl;
          source_prefix = refl;
          source_tree = omega (arith, ap length e, length-append xs (x ∷ []));
          source_length = omega (arith, ap length e, length-append xs (x ∷ []));
          source_weight = omega (
            arith,
            leaf-weight left.addr left.body,
            leaf-weight left.addr (with_children xs left).body,
            ap length e,
            length-append xs (x ∷ []),
          );
          dest_addr = refl;
          dest_prefix = refl;
          dest_tree = omega arith;
          dest_length = refl;
          dest_weight = omega (
            arith,
            leaf-weight node.addr node.body,
            leaf-weight node.addr (with_children (x ∷ node.body.children) node).body,
          );
        },
        Follows-pair left.addr node.addr left.body.children node.body.children xs
            (x ∷ node.body.children) left.body.next node.body.next
            (sym (
              ap (λ ys. ys ++ node.body.children) e ∙ append_assoc xs (x ∷ []) node.body.children)),
      )

  FromRight-leaf :
      (right node : Leaf A)
      → length right.body.children ≤ B
      → length node.body.children ≤ B
      → B / 2 < length right.body.children
      → length node.body.children < B / 2
      → FromRight A B al 0 right node
  FromRight-leaf right node rt nt long short = go right.body.children refl long
    where
      go :
          (ys : List A)
          → right.body.children ≡ ys
          → B / 2 < length ys
          → FromRight A B al 0 right node
      go [] e h = absurd (omega arith)
      go (x ∷ ys) e h =
          let longer =
            length-insert_at (length node.body.children) x node.body.children (omega arith) in
          (
            with_children ys right,
            x,
            with_children (insert_at (length node.body.children) x node.body.children) node,
            simple_remove_lem right [] x ys e,
            simple_insert_lem B node (length node.body.children) x (omega arith) (omega arith),
            record {
              source_addr = refl;
              source_prefix = refl;
              source_tree = omega (arith, ap length e);
              source_length = omega (arith, ap length e);
              source_weight = omega (
                arith,
                leaf-weight right.addr right.body,
                leaf-weight right.addr (with_children ys right).body,
                ap length e,
              );
              dest_addr = refl;
              dest_prefix = refl;
              dest_tree = omega (arith, longer);
              dest_length = longer;
              dest_weight = omega (
                arith,
                leaf-weight node.addr node.body,
                leaf-weight node.addr
                    (with_children (insert_at (length node.body.children) x node.body.children)
                      node).body,
                longer,
              );
            },
            Follows-pair node.addr right.addr node.body.children right.body.children
                (insert_at (length node.body.children) x node.body.children) ys node.body.next
                right.body.next
                (ap (λ zs. zs ++ ys) (insert_at-length x node.body.children)
                  ∙ append_assoc node.body.children (x ∷ []) ys
                  ∙ ap (λ zs. node.body.children ++ zs) (sym e)),
          )

  merge-leaf :
      (left right : Leaf A)
      → length left.body.children ≤ B
      → length right.body.children ≤ B
      → 0 < length left.body.children
      → length left.body.children ≤ B / 2
      → length right.body.children ≤ B / 2
      → left.body.next ≡ some right.addr
      → (left' : Leaf A) × (right' : Leaf A) × (merge B left right ≡ ok (left', right'))
        × IsMerged A B al 0 left right left' right'
  unfolding merge
  merge-leaf left right lt rt pos lh rh e = (
    record left {
      body = record {
        children = left.body.children ++ right.body.children;
        next = right.body.next;
      };
    },
    record right { body = record { children = []; next = none } },
    rw (le→leb lh, le→leb rh, points_to_lem left.body.next right.addr e),
    record {
      left_addr = refl;
      left_prefix = refl;
      left_tree = omega (arith, total);
      left_length = total;
      left_weight = omega (
        arith,
        total,
        leaf-weight left.addr left.body,
        leaf-weight right.addr right.body,
        leaf-weight left.addr (record {
          children = left.body.children ++ right.body.children;
          next = right.body.next;
        }),
      );
      right_prefix = refl;
      right_addr = refl;
      right_empty = refl;
      follows = record {
        same_items = append_assoc left.body.children right.body.children [];
        chained = λ us ts h.
            let rest =
              IsChain-append_right us ((left.addr, left.body) ∷ (right.addr, right.body) ∷ ts) h in
            IsChain-replace us ((left.addr, left.body) ∷ (right.addr, right.body) ∷ ts) _ h refl
              (rest.1.0, rest.1.1);
      };
    },
  )
    where
      total :
          length (left.body.children ++ right.body.children)
          ≡ length left.body.children + length right.body.children
      total = length-append left.body.children right.body.children

  pub leaf-Laws : Laws A B al 0
  leaf-Laws = record {
    from_left = FromLeft-leaf;
    from_right = FromRight-leaf;
    merge_lem = merge-leaf;
    length_lem = λ c. refl;
  }
