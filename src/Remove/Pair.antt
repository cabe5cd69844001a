-- ===== src/Remove/Pair.antt =====
-- A parent with two neighbours among its children, and the changes that a removal makes to their
-- sizes.
use btree_vec.Common.{
  ℕ, suc, ◌+◌, ◌-◌, ◌≤◌, ◌≡◌, refl, sym, ap, subst, ◌∙◌, List, [], ◌∷◌, ◌++◌, Result, ok,
  append_assoc, arith, length, length-append, le→leb, zero-add,
}
use btree_vec.Node.{Ptr, Cell}
use btree_vec.Node.Internal.{Internal, Entry, change_size, plus, minus}
use btree_vec.Node.Internal.Children.{
  Children, IsChild, Children-append, Children-append_left, Children-append_right,
}
use btree_vec.Tree.{Frame}
use btree_vec.Tree.Valid.{IsFrame}
use btree_vec.Tree.Plug.{plug_sized, change_size-plug}
use btree_vec.Remove.{size_at, sizes_merged, sizes_moved}

module _ {ℓ} {C : Type ℓ} where
  -- The node of the frame `g` with the neighbours `a` and `b`, of the sizes `x` and `y`, in the place
  -- of one child.
  abbrev pub pair : Cell (Frame C) → Cell C → ℕ → Cell C → ℕ → Internal C
  pair g a x b y = record {
    addr = g.addr;
    prefix = g.prefix;
    body = record {
      children = g.body.before ++ ((a, x) ∷ (b, y) ∷ g.body.after);
      spare = g.body.spare;
    };
  }

  -- The frame around the left of the two, of the size `n`.
  abbrev pub around_left : Cell (Frame C) → ℕ → Cell C → ℕ → Cell (Frame C)
  around_left g n b y = record {
    addr = g.addr;
    prefix = g.prefix;
    body = record {
      before = g.body.before;
      hole = n;
      after = (b, y) ∷ g.body.after;
      spare = g.body.spare;
    };
  }

  -- The frame around the right of the two, of the size `n`.
  abbrev pub around_right : Cell (Frame C) → Cell C → ℕ → ℕ → Cell (Frame C)
  around_right g a x n = record {
    addr = g.addr;
    prefix = g.prefix;
    body = record {
      before = g.body.before ++ ((a, x) ∷ []);
      hole = n;
      after = g.body.after;
      spare = g.body.spare;
    };
  }

  module _ (g : Cell (Frame C)) where
    pub plug-around_right :
        (a : Cell C) (x : ℕ) (b : Cell C) (y n : ℕ)
        → plug_sized (around_right g a x n) b y ≡ pair g a x b y
    plug-around_right a x b y n = λ i. record {
      addr = g.addr;
      prefix = g.prefix;
      body = record {
        children = append_assoc g.body.before ((a, x) ∷ []) ((b, y) ∷ g.body.after) i;
        spare = g.body.spare;
      };
    }

    pub length-snoc :
        (e : Entry C) → length (g.body.before ++ (e ∷ [])) ≡ suc (length g.body.before)
    length-snoc e = omega (arith, length-append g.body.before (e ∷ []))

    change-left :
        (f : ℕ → Result ℕ) (a : Cell C) (x : ℕ) (b : Cell C) (y x' : ℕ)
        → f x ≡ ok x'
        → change_size f (length g.body.before) (pair g a x b y) ≡ ok (pair g a x' b y)
    change-left f a x b y x' e = change_size-plug f (around_left g x b y) a x x' e

    change-right :
        (f : ℕ → Result ℕ) (a : Cell C) (x : ℕ) (b : Cell C) (y y' : ℕ)
        → f y ≡ ok y'
        → change_size f (suc (length g.body.before)) (pair g a x b y) ≡ ok (pair g a x b y')
    change-right f a x b y y' e =
        ap (λ i. change_size f i (pair g a x b y)) (sym (length-snoc (a, x)))
        ∙ ap (change_size f (length (g.body.before ++ ((a, x) ∷ []))))
            (sym (plug-around_right a x b y y))
        ∙ change_size-plug f (around_right g a x y) b y y' e
        ∙ ap ok (plug-around_right a x b y' y)

    size_at-right :
        (es : List (Entry C)) (a : Cell C) (x : ℕ) (b : Cell C) (y : ℕ) (fs : List (Entry C))
        (ns : List ℕ)
        → size_at (es ++ ((a, x) ∷ (b, y) ∷ fs)) ns (suc (length es)) ≡ ok y
    unfolding size_at
    size_at-right [] a x b y fs ns = refl
    size_at-right (e ∷ es) a x b y fs ns = size_at-right es a x b y fs ns

    -- The left neighbour has given an item of the size `z` to the right one, which has lost an item.
    pub sizes_moved-right :
        (a : Cell C) (x : ℕ) (b : Cell C) (y z : ℕ)
        → z ≤ x
        → 1 ≤ y + z
        → sizes_moved (length g.body.before) (suc (length g.body.before)) z (pair g a x b y)
          ≡ ok (pair g a (x - z) b (y + z - 1))
    unfolding sizes_moved
    sizes_moved-right a x b y z h k = rw (
      change-left (minus z) a x b y (x - z) (rw (le→leb h)),
      change-right (plus z) a (x - z) b y (y + z) refl,
      change-right (minus 1) a (x - z) b (y + z) (y + z - 1) (rw (le→leb k)),
    )

    -- The right neighbour has given an item of the size `z` to the left one, which has lost an item.
    pub sizes_moved-left :
        (a : Cell C) (x : ℕ) (b : Cell C) (y z : ℕ)
        → z ≤ y
        → 1 ≤ x + z
        → sizes_moved (suc (length g.body.before)) (length g.body.before) z (pair g a x b y)
          ≡ ok (pair g a (x + z - 1) b (y - z))
    unfolding sizes_moved
    sizes_moved-left a x b y z h k = rw (
      change-right (minus z) a x b y (y - z) (rw (le→leb h)),
      change-left (plus z) a x b (y - z) (x + z) refl,
      change-left (minus 1) a (x + z) b (y - z) (x + z - 1) (rw (le→leb k)),
    )

    -- The right neighbour has been merged into the left one, after an item has been lost.
    pub sizes_merged_lem :
        (a : Cell C) (x : ℕ) (b : Cell C) (y : ℕ)
        → 1 ≤ x + y
        → sizes_merged (suc (length g.body.before)) (length g.body.before) (pair g a x b y)
          ≡ ok (pair g a (x + y - 1) b 0)
    unfolding sizes_merged
    sizes_merged_lem a x b y k = rw (
      size_at-right g.body.before a x b y g.body.after g.body.spare,
      change-right (λ _. ok 0) a x b y 0 refl,
      change-left (plus y) a x b 0 (x + y) refl,
      change-left (minus 1) a (x + y) b 0 (x + y - 1) (rw (le→leb k)),
    )

module _ {ℓ} {C : Type ℓ} (B : ℕ) (P : Ptr → C → Type 0) (w : Ptr → C → ℕ)
    (g : Cell (Frame C)) where
  -- The node of `g` is well formed but for two children that stand in the place of one.
  pub record IsAround : Type 0 where
    pub capacity : length g.body.before + suc (suc (length g.body.after)) + length g.body.spare ≡ B
    pub before_are : Children P w g.addr 0 g.body.before
    pub after_are : Children P w g.addr (suc (suc (length g.body.before))) g.body.after

  pub around_left-IsAround :
      (n : ℕ) (b : Cell C) (y : ℕ) → IsFrame B P w (around_left g n b y) → IsAround
  around_left-IsAround n b y v = record {
    capacity = v.capacity;
    before_are = v.before_are;
    after_are = v.after_are.1;
  }

  pub around_left-IsFrame :
      (n : ℕ) (b : Cell C) (y : ℕ)
      → IsAround
      → IsChild P w g.addr (suc (length g.body.before)) b y
      → IsFrame B P w (around_left g n b y)
  around_left-IsFrame n b y v c = record {
    capacity = v.capacity;
    before_are = v.before_are;
    after_are = (c, v.after_are);
  }

  pub around_right-IsAround :
      (a : Cell C) (x n : ℕ)
      → IsFrame B P w (around_right g a x n)
      → IsAround × IsChild P w g.addr (length g.body.before) a x
  around_right-IsAround a x n v = (
    record {
      capacity = omega (arith, v.capacity, length-snoc g (a, x));
      before_are = Children-append_left P w g.addr 0 g.body.before ((a, x) ∷ []) v.before_are;
      after_are =
          subst (λ i. Children P w g.addr (suc i) g.body.after) (length-snoc g (a, x)) v.after_are;
    },
    subst (λ i. IsChild P w g.addr i a x) (zero-add (length g.body.before))
        (Children-append_right P w g.addr 0 g.body.before ((a, x) ∷ []) v.before_are).0,
  )

  pub around_right-IsFrame :
      (a : Cell C) (x n : ℕ)
      → IsAround
      → IsChild P w g.addr (length g.body.before) a x
      → IsFrame B P w (around_right g a x n)
  around_right-IsFrame a x n v c = record {
    capacity = omega (arith, v.capacity, length-snoc g (a, x));
    before_are =
        Children-append P w g.addr 0 g.body.before ((a, x) ∷ []) v.before_are
          (subst (λ i. IsChild P w g.addr i a x) (sym (zero-add (length g.body.before))) c, tt);
    after_are =
        subst (λ i. Children P w g.addr (suc i) g.body.after) (sym (length-snoc g (a, x)))
          v.after_are;
  }
