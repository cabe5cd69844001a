-- ===== src/Remove/Correct.antt =====
-- `remove_once` and the loop of `remove`, by induction on the nodes above.
use btree_vec.Common.{
  ℕ, suc, ◌/◌, ◌≤◌, ◌≡◌, inl, inr, refl, sym, ap, subst, Option, none, some, List, [], ◌∷◌, ok,
  Returns, returned, arith, length, le_or_lt, last-eq, get_elem?, if◌then◌else◌, leb, Bool, true,
  false,
}
use btree_vec.Node.{Cell, Allocator}
use btree_vec.Node.Internal.{Entry}
use btree_vec.Tree.{Body, Tree, Frame, Above, top, under}
use btree_vec.Tree.Valid.{node_length, min_length}
use btree_vec.Tree.Beside.{siblings, siblings_of, entry_cell}
use btree_vec.Remove.{absorb, rebalance, from_siblings, tree_node}
use btree_vec.Remove.Absorbed.{IsShrunk}
use btree_vec.Remove.Neighbours.{Continues}
use btree_vec.Remove.Rebalance.{ChainAt, absorb_lem, rebalance-long}
use btree_vec.Remove.Siblings.{siblings-first, siblings-later}
use btree_vec.Remove.Turns.{top-near, any_child}

module _ {ℓ} (A : Type ℓ) (B total : ℕ) (al : Allocator) (big : 4 ≤ B) where
  siblings-top : (h : ℕ) (c : Tree A h) → c.prefix.parent ≡ none → siblings c top ≡ ok (none, none)
  unfolding siblings siblings_of
  siblings-top h c e = rw e

  siblings-any :
      (h : ℕ) (k : Above A (suc h)) (c : Tree A h) (f : Cell (Frame (Body A h)))
      → c.prefix.parent ≡ some f.addr
      → c.prefix.index ≡ length f.body.before
      → (x : Option (Tree A h)) × (y : Option (Tree A h)) × (siblings c (under f k) ≡ ok (x, y))
  siblings-any h k c f = go f.body.before refl
    where
      Found : Cell (Frame (Body A h)) → Type ℓ
      Found f' =
          c.prefix.parent ≡ some f'.addr
          → c.prefix.index ≡ length f'.body.before
          → (x : Option (Tree A h)) × (y : Option (Tree A h)) × (siblings c (under f' k)
              ≡ ok (x, y))

      go : (es : List (Entry (Body A h))) → f.body.before ≡ es → Found f
      go [] z = λ e i. (none, entry_cell (get_elem? f.body.after 0), siblings-first c k f z e i)
      go (e ∷ es) z =
          let (before, (a, x), q, m) = last-eq f.body.before (omega (arith, ap length z)) in
          subst Found
            (λ i. record {
              addr = f.addr;
              prefix = f.prefix;
              body = record {
                before = sym q i;
                hole = f.body.hole;
                after = f.body.after;
                spare = f.body.spare;
              };
            })
            (λ e i. (
              some a,
              entry_cell (get_elem? f.body.after 0),
              siblings-later c k
                  (record {
                    addr = f.addr;
                    prefix = f.prefix;
                    body = record {
                      before = before;
                      hole = f.body.hole;
                      after = f.body.after;
                      spare = f.body.spare;
                    };
                  })
                  a x f.body.hole e i,
            ))

  rebalance-top :
      (h : ℕ) (c : Tree A h) (n : ℕ)
      → IsShrunk B total h top c n
      → min_length {A = A} B (top {h = h}) ≤ suc (node_length A h c.body)
      → Returns (Continues A B al h c top) (rebalance A B al h c top)
  unfolding rebalance from_siblings
  rebalance-top h c n v near =
      rw (siblings-top h c v.parent_is) (whichever (leb (B / 2) ((tree_node A B al h).length c)))
    where
      whichever :
          (t : Bool)
          → Returns
              (Continues A B al h c top)
              (if t then ok (absorb A B al h c top) else ok (absorb A B al h c top))
      whichever true =
          returned (absorb_lem A B total al big h top c n v (top-near A B total al big h c near))
      whichever false =
          returned (absorb_lem A B total al big h top c n v (top-near A B total al big h c near))

  pub rebalance_lem :
      (h : ℕ) (k : Above A h) (c : Tree A h) (n : ℕ)
      → IsShrunk B total h k c n
      → min_length B k ≤ suc (node_length A h c.body)
      → ChainAt A h c k
      → Returns (Continues A B al h c k) (rebalance A B al h c k)
  rebalance_lem h top c n v near chain = rebalance-top h c n v near
  rebalance_lem h (under f k) c n v near chain = elim (le_or_lt (B / 2) (node_length A h c.body)) [
    | inl long ↦
        let (x, y, e) = siblings-any h k c f v.parent_is v.index_is in
        rw (rebalance-long A B total al big h (under f k) c x y e long)
          (returned (absorb_lem A B total al big h (under f k) c n v long))
    | inr short ↦
        any_child A B total al big h k (λ c' n' v' near'. rebalance_lem (suc h) k c' n' v' near' tt)
          c n short near f v chain
  ]
