-- ===== src/Insert/AtInternal.antt =====
-- `insert_once` at an internal node.
use btree_vec.Common.{
  ℕ, zero, suc, ◌+◌, ◌-◌, ◌/◌, ◌≤◌, ◌<◌, ◌≡◌, refl, sym, ap, ap₂, ◌∙◌, inl, inr, Option, none, some,
  List, [], ◌∷◌, ◌++◌, append_assoc, append-nil, Returns, returned, arith, length, take, drop,
  replicate, sum, sum-replicate_zero, eq→==, ne→==, le→leb, lt→leb, le_or_lt, eq_or_ne, take-take,
  drop-take-append, take-add, drop-add,
}
use btree_vec.Node.{Ptr, Allocator}
use btree_vec.Node.SplitStrategy.{larger_left, larger_right}
use btree_vec.Node.Internal.{Internal, Entry, halves, adopt, internal_node}
use btree_vec.Node.Internal.Children.{IsSized, concat_with, concat_with-append, concat_with-adopt}
use btree_vec.Node.Internal.Inserting.{
  IsNode, simple_insert_lem, length-inserted, concat_with-inserted, inserted-IsNode, sum-drop_zero,
}
use btree_vec.Node.Internal.Splitting.{split_lem, length-halves, left-IsNode, right-IsNode}
use btree_vec.Insert.{insert_once, insert_right, insert_left, insert_only}

-- What is left of children after a cut does not turn on who their parent is.
module _ {ℓ κ} {C : Type ℓ} {X : Type κ} (L : Ptr → C → List X) where
  concat_with-take-adopt :
      (k : ℕ) (p : Option Ptr) (i : ℕ) (es : List (Entry C))
      → concat_with L (take k (adopt p i es)) ≡ concat_with L (take k es)
  unfolding adopt
  concat_with-take-adopt zero p i es = refl
  concat_with-take-adopt (suc k) p i [] = refl
  concat_with-take-adopt (suc k) p i ((c, n) ∷ es) =
      ap (λ xs. L c.addr c.body ++ xs) (concat_with-take-adopt k p (suc i) es)

  concat_with-drop-adopt :
      (k : ℕ) (p : Option Ptr) (i : ℕ) (es : List (Entry C))
      → concat_with L (drop k (adopt p i es)) ≡ concat_with L (drop k es)
  unfolding adopt
  concat_with-drop-adopt zero p i es = concat_with-adopt L p i es
  concat_with-drop-adopt (suc k) p i [] = refl
  concat_with-drop-adopt (suc k) p i ((c, n) ∷ es) = concat_with-drop-adopt k p (suc i) es

  -- An insertion before a cut at `k`, and one at `j` after a cut at `k`.
  cut_left :
      (i k : ℕ) (x : List X) (es : List (Entry C))
      → i ≤ k
      → (concat_with L (take i (take k es)) ++ (x ++ concat_with L (drop i (take k es))))
          ++ concat_with L (drop k es)
        ≡ concat_with L (take i es) ++ (x ++ concat_with L (drop i es))
  cut_left i k x es h = rw (take-take i k es h) (
      append_assoc (concat_with L (take i es)) _ _
      ∙ ap (λ ys. concat_with L (take i es) ++ ys)
          (append_assoc x _ _
            ∙ ap (λ ys. x ++ ys)
                (sym (concat_with-append L (drop i (take k es)) (drop k es))
                  ∙ ap (concat_with L) (drop-take-append i k es h))))

  cut_right :
      (j k : ℕ) (x : List X) (es : List (Entry C))
      → concat_with L (take k es)
          ++ (concat_with L (take j (drop k es)) ++ (x ++ concat_with L (drop j (drop k es))))
        ≡ concat_with L (take (k + j) es) ++ (x ++ concat_with L (drop (k + j) es))
  cut_right j k x es =
      rw (take-add k j es, drop-add k j es, concat_with-append L (take k es) (take j (drop k es)))
        (sym (append_assoc (concat_with L (take k es)) (concat_with L (take j (drop k es))) _))

module _ {ℓ} {C : Type ℓ} where
  -- What there is to know about the new node, if there is one, beside the old one.
  abbrev pub NewNode :
      ℕ → (Ptr → C → Type 0) → (Ptr → C → ℕ) → ℕ → Internal C → Option (Internal C) → Type 0
  NewNode B P weight old node none = length node.body.children ≡ suc old
  NewNode B P weight old node (some new) =
      (old ≡ B)
      × IsNode B P weight new.addr new.body
      × (B / 2 ≤ length node.body.children)
      × (B / 2 ≤ length new.body.children)
      × (sum new.body.spare ≡ 0)

  abbrev pub concat_new {κ} : {X : Type κ} → (Ptr → C → List X) → Option (Internal C) → List X
  concat_new L none = []
  concat_new L (some new) = concat_with L new.body.children

  -- The outcome of an insertion of `item` at `i` into `n`.
  pub record IsOutcome {κ} {X : Type κ} (B : ℕ) (P : Ptr → C → Type 0) (weight : Ptr → C → ℕ)
      (L : Ptr → C → List X) (n : Internal C) (i : ℕ) (item : Entry C) (node : Internal C)
      (new : Option (Internal C)) : Type κ where
    pub same_addr : node.addr ≡ n.addr
    pub same_prefix : node.prefix ≡ n.prefix
    pub node_is : IsNode B P weight node.addr node.body
    pub new_is : NewNode B P weight (length n.body.children) node new
    pub content :
        concat_with L node.body.children ++ concat_new L new
        ≡ concat_with L (take i n.body.children)
          ++ (L item.0.addr item.0.body ++ concat_with L (drop i n.body.children))

module _ {ℓ κ} {C : Type ℓ} {X : Type κ} (B : ℕ) (al : Allocator) (P : Ptr → C → Type 0)
    (weight : Ptr → C → ℕ) (L : Ptr → C → List X) (n : Internal C) (i : ℕ) (item : Entry C)
    (s : al.State) (v : IsNode B P weight n.addr n.body)
    (sized : IsSized P weight item.0 item.1) where
  only_IsOutcome :
      length n.body.children < B
      → i ≤ length n.body.children
      → Returns
          (λ r. IsOutcome B P weight L n i item r.0 r.1)
          (insert_only B al (internal_node B al) n i item s)
  unfolding insert_only
  only_IsOutcome room h = rw (simple_insert_lem B n i item room h) (
      returned (record {
        same_addr = refl;
        same_prefix = refl;
        node_is = inserted-IsNode B n i item P weight v room h sized;
        new_is = length-inserted B n i item h;
        content = append-nil _ ∙ concat_with-inserted B n i item L;
      }))

  module _ (full : length n.body.children ≡ B) (big : 3 ≤ B) where
    left_IsOutcome :
        i < B - B / 2
        → Returns
            (λ r. IsOutcome B P weight L n i item r.0 r.1)
            (insert_left B al (internal_node B al) n i item s)
    unfolding insert_left
    left_IsOutcome h =
        let ptr : Ptr = (al.allocate s).0 in
        let node : Internal C = (halves B al larger_right n ptr).0 in
        let room : length node.body.children < B =
          omega (arith, length-halves B al larger_right n full ptr) in
        let fits : i ≤ length node.body.children =
          omega (arith, length-halves B al larger_right n full ptr) in
        rw (split_lem B al larger_right n full s, simple_insert_lem B node i item room fits)
          (returned (record {
            same_addr = refl;
            same_prefix = refl;
            node_is =
                inserted-IsNode B node i item P weight
                  (left-IsNode B al larger_right n full ptr P weight v) room fits sized;
            new_is = (
              full,
              right-IsNode B al larger_right n full ptr P weight v,
              omega (
                arith,
                length-inserted B node i item fits,
                length-halves B al larger_right n full ptr,
              ),
              omega (arith, length-halves B al larger_right n full ptr),
              sum-replicate_zero _,
            );
            content =
                ap₂ (λ xs ys. xs ++ ys) (concat_with-inserted B node i item L)
                  (concat_with-adopt L (some ptr) 0 (drop (B / 2) n.body.children))
                ∙ cut_left L i (B / 2) (L item.0.addr item.0.body) n.body.children (omega arith);
          }))

    right_IsOutcome :
        (j : ℕ)
        → j ≤ B / 2
        → i ≡ B - B / 2 + j
        → Returns
            (λ r. IsOutcome B P weight L n i item r.0 r.1)
            (insert_right B al (internal_node B al) n j item s)
    unfolding insert_right
    right_IsOutcome j h e =
        let ptr : Ptr = (al.allocate s).0 in
        let new : Internal C = (halves B al larger_left n ptr).1 in
        let room : length new.body.children < B =
          omega (arith, length-halves B al larger_left n full ptr) in
        let fits : j ≤ length new.body.children =
          omega (arith, length-halves B al larger_left n full ptr) in
        rw (split_lem B al larger_left n full s, simple_insert_lem B new j item room fits)
          (returned (record {
            same_addr = refl;
            same_prefix = refl;
            node_is = left-IsNode B al larger_left n full ptr P weight v;
            new_is = (
              full,
              inserted-IsNode B new j item P weight
                  (right-IsNode B al larger_left n full ptr P weight v) room fits sized,
              omega (arith, length-halves B al larger_left n full ptr),
              omega (
                arith,
                length-inserted B new j item fits,
                length-halves B al larger_left n full ptr,
              ),
              sum-drop_zero (replicate (B - B / 2) 0) (sum-replicate_zero (B - B / 2)),
            );
            content =
                ap (λ xs. concat_with L (take (B - B / 2) n.body.children) ++ xs)
                  (concat_with-inserted B new j item L
                    ∙ ap₂ (λ xs ys. xs ++ (L item.0.addr item.0.body ++ ys))
                        (concat_with-take-adopt L j (some ptr) 0 (drop (B - B / 2) n.body.children))
                        (concat_with-drop-adopt L j (some ptr) 0
                          (drop (B - B / 2) n.body.children)))
                ∙ rw e (cut_right L j (B - B / 2) (L item.0.addr item.0.body) n.body.children);
          }))

  pub insert_once-IsOutcome :
      3 ≤ B
      → length n.body.children ≤ B
      → i ≤ length n.body.children
      → Returns
          (λ r. IsOutcome B P weight L n i item r.0 r.1)
          (insert_once B al (internal_node B al) n i item s)
  unfolding insert_once
  insert_once-IsOutcome big cap h = elim (eq_or_ne (length n.body.children) B) [
    | inl full ↦ elim (le_or_lt (B - B / 2) i) [
      | inl right ↦
          rw (eq→== full, le→leb right)
            (right_IsOutcome full big (i - (B - B / 2)) (omega arith) (omega arith))
      | inr left ↦ rw (eq→== full, lt→leb left) (left_IsOutcome full big left)
    ]
    | inr room ↦ rw (ne→== room) (only_IsOutcome (omega arith) h)
  ]
