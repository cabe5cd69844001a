-- ===== src/Insert/AtLeaf.antt =====
-- `insert_once` at a leaf.
use btree_vec.Common.{
  ℕ, suc, ◌+◌, ◌-◌, ◌/◌, ◌≤◌, ◌<◌, ◌≡◌, refl, sym, ap, ◌∙◌, inl, inr, Option, none, some, List, [],
  ◌∷◌, ◌++◌, append_assoc, append-nil, ok, Returns, returned, arith, length, take, drop, insert_at,
  length-take, length-drop, length-insert_at, eq→==, ne→==, le→leb, lt→leb, lt→ltb, le_or_lt,
  eq_or_ne, take-take, drop-take-append, take-add, drop-add,
}
use btree_vec.Node.{SplitStrategy, Allocator}
use btree_vec.Node.SplitStrategy.{larger_left, larger_right}
use btree_vec.Node.Leaf.{Leaf, halves, split, simple_insert, with_children, leaf_node}
use btree_vec.Insert.{insert_once, insert_right, insert_left, insert_only}

module _ {ℓ} {A : Type ℓ} where
  -- An insertion before a cut at `k`, and one at `j` after a cut at `k`.
  cut_left :
      (i k : ℕ) (x : A) (xs : List A)
      → i ≤ k
      → insert_at i x (take k xs) ++ drop k xs ≡ insert_at i x xs
  cut_left i k x xs h =
      rw (take-take i k xs h) (
        append_assoc (take i xs) _ _ ∙ ap (λ ys. take i xs ++ (x ∷ ys)) (drop-take-append i k xs h))

  cut_right :
      (j k : ℕ) (x : A) (xs : List A)
      → take k xs ++ insert_at j x (drop k xs) ≡ insert_at (k + j) x xs
  cut_right j k x xs =
      rw (take-add k j xs, drop-add k j xs) (sym (append_assoc (take k xs) (take j (drop k xs)) _))

  -- What there is to know about the new leaf, if there is one, beside the old one: how long they
  -- are, and that the chain of the leaves goes through both.
  abbrev pub NewLeaf : ℕ → Leaf A → Leaf A → Option (Leaf A) → Type 0
  NewLeaf B n node none =
      (length node.body.children ≡ suc (length n.body.children)) × (node.body.next ≡ n.body.next)
  NewLeaf B n node (some new) =
      (length new.body.children ≤ B)
      × (B / 2 ≤ length node.body.children)
      × (B / 2 ≤ length new.body.children)
      × (node.body.next ≡ some new.addr)
      × (new.body.next ≡ n.body.next)

  abbrev pub new_children : Option (Leaf A) → List A
  new_children none = []
  new_children (some new) = new.body.children

  -- The outcome of an insertion of `item` at `i` into `n`.
  pub record IsOutcome (B : ℕ) (n : Leaf A) (i : ℕ) (item : A) (node : Leaf A)
      (new : Option (Leaf A)) : Type ℓ where
    pub same_addr : node.addr ≡ n.addr
    pub same_prefix : node.prefix ≡ n.prefix
    pub fits : length node.body.children ≤ B
    pub new_is : NewLeaf B n node new
    pub content : node.body.children ++ new_children new ≡ insert_at i item n.body.children

module _ {ℓ} {A : Type ℓ} (B : ℕ) (al : Allocator) (n : Leaf A) (i : ℕ) (item : A)
    (s : al.State) where
  simple_insert_lem :
      (m : Leaf A) (j : ℕ)
      → length m.body.children < B
      → j ≤ length m.body.children
      → simple_insert B m j item ≡ ok (with_children (insert_at j item m.body.children) m)
  unfolding simple_insert
  simple_insert_lem m j room h = rw (le→leb h, lt→ltb room)

  split_lem :
      (strategy : SplitStrategy)
      → length n.body.children ≡ B
      → split B al strategy n s
        ≡ ok (
          (halves B al strategy n (al.allocate s).0).0,
          (halves B al strategy n (al.allocate s).0).1,
          (al.allocate s).1,
        )
  unfolding split
  split_lem strategy full = rw (eq→== full)

  only_IsOutcome :
      length n.body.children < B
      → i ≤ length n.body.children
      → Returns (λ r. IsOutcome B n i item r.0 r.1) (insert_only B al (leaf_node B al) n i item s)
  unfolding insert_only
  only_IsOutcome room h = rw (simple_insert_lem n i room h) (
      returned (record {
        same_addr = refl;
        same_prefix = refl;
        fits = omega (arith, length-insert_at i item n.body.children h);
        new_is = (length-insert_at i item n.body.children h, refl);
        content = append-nil _;
      }))

  module _ (full : length n.body.children ≡ B) (big : 3 ≤ B) where
    left_IsOutcome :
        i < B - B / 2
        → Returns (λ r. IsOutcome B n i item r.0 r.1) (insert_left B al (leaf_node B al) n i item s)
    unfolding insert_left
    left_IsOutcome h =
        let node : Leaf A = (halves B al larger_right n (al.allocate s).0).0 in
        let long : length node.body.children ≡ B / 2 =
          omega (arith, length-take (B / 2) n.body.children) in
        let within : i ≤ length node.body.children = omega arith in
        rw (split_lem larger_right full, simple_insert_lem node i (omega arith) within)
          (returned (record {
            same_addr = refl;
            same_prefix = refl;
            fits = omega (arith, length-insert_at i item node.body.children within);
            new_is = (
              omega (arith, length-drop (B / 2) n.body.children),
              omega (arith, length-insert_at i item node.body.children within),
              omega (arith, length-drop (B / 2) n.body.children),
              refl,
              refl,
            );
            content = cut_left i (B / 2) item n.body.children (omega arith);
          }))

    right_IsOutcome :
        (j : ℕ)
        → j ≤ B / 2
        → i ≡ B - B / 2 + j
        → Returns
            (λ r. IsOutcome B n i item r.0 r.1)
            (insert_right B al (leaf_node B al) n j item s)
    unfolding insert_right
    right_IsOutcome j h e =
        let new : Leaf A = (halves B al larger_left n (al.allocate s).0).1 in
        let long : length new.body.children ≡ B / 2 =
          omega (arith, length-drop (B - B / 2) n.body.children) in
        let within : j ≤ length new.body.children = omega arith in
        rw (split_lem larger_left full, simple_insert_lem new j (omega arith) within)
          (returned (record {
            same_addr = refl;
            same_prefix = refl;
            fits = omega (arith, length-take (B - B / 2) n.body.children);
            new_is = (
              omega (arith, length-insert_at j item new.body.children within),
              omega (arith, length-take (B - B / 2) n.body.children),
              omega (arith, length-insert_at j item new.body.children within),
              refl,
              refl,
            );
            content = rw e (cut_right j (B - B / 2) item n.body.children);
          }))

  pub insert_once-IsOutcome :
      3 ≤ B
      → length n.body.children ≤ B
      → i ≤ length n.body.children
      → Returns (λ r. IsOutcome B n i item r.0 r.1) (insert_once B al (leaf_node B al) n i item s)
  unfolding insert_once
  insert_once-IsOutcome big cap h = elim (eq_or_ne (length n.body.children) B) [
    | inl full ↦ elim (le_or_lt (B - B / 2) i) [
      | inl right ↦
          rw (eq→== full, le→leb right)
            (right_IsOutcome full big (i - (B - B / 2)) (omega arith) (omega arith))
      | inr left ↦ rw (eq→== full, lt→leb left) (left_IsOutcome full big left)
    ]
    | inr room ↦ rw (ne→== room) (only_IsOutcome (omega arith) h)
  ]
