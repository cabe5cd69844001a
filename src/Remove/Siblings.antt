-- ===== src/Remove/Siblings.antt =====
-- `siblings_mut`: which nodes it finds, and how a sibling is written back.
use btree_vec.Common.{
  ℕ, suc, ◌+◌, ◌-◌, ◌≡◌, refl, ap, ap₂, subst, ◌∙◌, none, some, List, [], ◌∷◌, ◌++◌, ok, arith,
  length, get_elem?, lt→ltb, le→ltb, ne→==, ==_self,
}
use btree_vec.Node.{Cell}
use btree_vec.Node.Internal.{Entry}
use btree_vec.Tree.{Body, Tree, Frame, Above, under}
use btree_vec.Tree.Beside.{
  entry_cell, set_cell, child_at, set_child, left_at, siblings_of, siblings, set_sibling,
}
use btree_vec.Remove.Pair.{around_left, around_right, length-snoc}

module _ {ℓ} {C : Type ℓ} where
  get_elem?-middle :
      (es : List (Entry C)) (e : Entry C) (fs : List (Entry C))
      → get_elem? (es ++ (e ∷ fs)) (length es) ≡ some e
  get_elem?-middle [] e fs = refl
  get_elem?-middle (x ∷ es) e fs = get_elem?-middle es e fs

  set_cell-middle :
      (es : List (Entry C)) (d c : Cell C) (n : ℕ) (fs : List (Entry C))
      → set_cell (es ++ ((d, n) ∷ fs)) (length es) c ≡ es ++ ((c, n) ∷ fs)
  unfolding set_cell
  set_cell-middle [] d c n fs = refl
  set_cell-middle (x ∷ es) d c n fs = ap (λ ys. x ∷ ys) (set_cell-middle es d c n fs)

  module _ (f : Cell (Frame C)) where
    child_at-after :
        child_at f (length f.body.before + 1) ≡ ok (entry_cell (get_elem? f.body.after 0))
    unfolding child_at
    child_at-after =
        rw
          (
            le→ltb {a = length f.body.before + 1} {b = length f.body.before} (omega arith),
            ne→== {a = length f.body.before + 1} {b = length f.body.before}
                (λ e. absurd (omega arith)),
          )
          (ap (λ i. ok (entry_cell (get_elem? f.body.after i))) zero_is)
      where
        zero_is : length f.body.before + 1 - suc (length f.body.before) ≡ 0
        zero_is = omega arith

  child_at-left :
      (g : Cell (Frame C)) (a : Cell C) (x n : ℕ)
      → child_at (around_right g a x n) (length g.body.before) ≡ ok (some a)
  unfolding child_at
  child_at-left g a x n = rw (
    lt→ltb {a = length g.body.before} {b = length (g.body.before ++ ((a, x) ∷ []))}
        (omega (arith, length-snoc g (a, x))),
    get_elem?-middle g.body.before (a, x) [],
  )

  set_child-left :
      (g : Cell (Frame C)) (a a' : Cell C) (x n : ℕ)
      → set_child (around_right g a x n) (length g.body.before) a' ≡ around_right g a' x n
  unfolding set_child
  set_child-left g a a' x n = rw (
    lt→ltb {a = length g.body.before} {b = length (g.body.before ++ ((a, x) ∷ []))}
        (omega (arith, length-snoc g (a, x))),
    set_cell-middle g.body.before a a' x [],
  )

  set_child-right :
      (g : Cell (Frame C)) (n : ℕ) (b b' : Cell C) (y : ℕ)
      → set_child (around_left g n b y) (length g.body.before + 1) b' ≡ around_left g n b' y
  unfolding set_child
  set_child-right g n b b' y =
      rw (le→ltb {a = length g.body.before + 1} {b = length g.body.before} (omega arith)) (
        ap
          (λ i. record (around_left g n b y) {
            body = record {
              before = g.body.before;
              hole = n;
              after = set_cell ((b, y) ∷ g.body.after) i b';
              spare = g.body.spare;
            };
          })
          zero_is
        ∙ ap
            (λ es. record (around_left g n b y) {
              body = record { before = g.body.before; hole = n; after = es; spare = g.body.spare };
            })
            (set_cell-middle [] b b' y g.body.after))
    where
      zero_is : length g.body.before + 1 - suc (length g.body.before) ≡ 0
      zero_is = omega arith

module _ {ℓ} {A : Type ℓ} {h : ℕ} (c : Tree A h) (k : Above A (suc h)) where
  -- The first child has no left sibling.
  pub siblings-first :
      (f : Cell (Frame (Body A h)))
      → f.body.before ≡ []
      → c.prefix.parent ≡ some f.addr
      → c.prefix.index ≡ length f.body.before
      → siblings c (under f k) ≡ ok (none, entry_cell (get_elem? f.body.after 0))
  unfolding siblings siblings_of left_at
  siblings-first f z e i =
      ap₂ (λ p j. siblings_of p j (under f k)) e (i ∙ ap length z) ∙ rw (==_self f.addr, none_after)
    where
      none_after : child_at f 1 ≡ ok (entry_cell (get_elem? f.body.after 0))
      none_after =
          subst (λ n. child_at f (n + 1) ≡ ok (entry_cell (get_elem? f.body.after 0))) (ap length z)
            (child_at-after f)

  -- Any other has the child before it as its left sibling.
  pub siblings-later :
      (g : Cell (Frame (Body A h))) (a : Tree A h) (x n : ℕ)
      → c.prefix.parent ≡ some g.addr
      → c.prefix.index ≡ length (g.body.before ++ ((a, x) ∷ []))
      → siblings c (under (around_right g a x n) k)
        ≡ ok (some a, entry_cell (get_elem? g.body.after 0))
  unfolding siblings siblings_of left_at
  siblings-later g a x n e i =
      ap₂ (λ p j. siblings_of p j (under (around_right g a x n) k)) e (i ∙ length-snoc g (a, x))
      ∙ rw (==_self g.addr, child_at-left g a x n, none_after)
    where
      none_after :
          child_at (around_right g a x n) (suc (length g.body.before) + 1)
          ≡ ok (entry_cell (get_elem? g.body.after 0))
      none_after =
          subst
            (λ m.
              child_at (around_right g a x n) (m + 1) ≡ ok (entry_cell (get_elem? g.body.after 0)))
            (length-snoc g (a, x)) (child_at-after (around_right g a x n))

  pub set_sibling-left :
      (g : Cell (Frame (Body A h))) (a a' : Tree A h) (x n : ℕ)
      → c.prefix.index ≡ length (g.body.before ++ ((a, x) ∷ []))
      → set_sibling (under (around_right g a x n) k) (c.prefix.index - 1) a'
        ≡ under (around_right g a' x n) k
  unfolding set_sibling
  set_sibling-left g a a' x n i =
      ap (λ j. under (set_child (around_right g a x n) j a') k) place
      ∙ ap (λ f. under f k) (set_child-left g a a' x n)
    where
      place : c.prefix.index - 1 ≡ length g.body.before
      place = omega (arith, i, length-snoc g (a, x))

  pub set_sibling-right :
      (g : Cell (Frame (Body A h))) (n : ℕ) (b b' : Tree A h) (y : ℕ)
      → c.prefix.index ≡ length g.body.before
      → set_sibling (under (around_left g n b y) k) (c.prefix.index + 1) b'
        ≡ under (around_left g n b' y) k
  unfolding set_sibling
  set_sibling-right g n b b' y i =
      ap (λ j. under (set_child (around_left g n b y) (j + 1) b') k) i
      ∙ ap (λ f. under f k) (set_child-right g n b b' y)
