-- ===== src/Memory/Blocks.antt =====
-- What an allocation and the return of blocks do to the live blocks.
use btree_vec.Common.{
  ℕ, ◌+◌, ◌≤◌, ◌<◌, ◌≡◌, ◌≢◌, ap, inl, inr, List, [], ◌∷◌, ◌++◌, arith, ne→==, ==_self, eq_or_ne,
}
use btree_vec.Node.{Ptr, Allocator}
use btree_vec.Vec.Dropping.{give_back}
use btree_vec.Memory.{single, count, Ledger, Holds}

pub single_self : (p : Ptr) → single p p ≡ 1
unfolding single
single_self p = rw (==_self p)

single-le : (p q : Ptr) → single p q ≤ 1
unfolding single
single-le p q = ground arith

apart : (p q : Ptr) → q ≢ p → single p q ≡ 0
unfolding single
apart p q ne = rw (ne→== ne)

pub count-append : (p : Ptr) (xs ys : List Ptr) → count p (xs ++ ys) ≡ count p xs + count p ys
count-append p [] ys = omega arith
count-append p (x ∷ xs) ys = omega (arith, count-append p xs ys)

module _ {al : Allocator} (ledger : Ledger al) (others : Ptr → ℕ) where
  pub Holds-eq :
      {s : al.State} {f g : Ptr → ℕ}
      → Holds ledger others s f
      → ((p : Ptr) → f p ≡ g p)
      → Holds ledger others s g
  Holds-eq h e = record {
    counts = λ p. omega (arith, h.counts p, e p);
    once = h.once;
    sound = h.sound;
  }

  pub Holds-allocate :
      (s : al.State) (f : Ptr → ℕ)
      → Holds ledger others s f
      → Holds ledger others (al.allocate s).1 (λ p. f p + single p (al.allocate s).0)
  Holds-allocate s f h = record {
    counts = λ p. omega (arith, h.counts p, ledger.live-allocate s p);
    once = once;
    sound = ledger.allocate-IsSound s h.sound;
  }
    where
      once : (p : Ptr) → ledger.live (al.allocate s).1 p ≤ 1
      once p = elim (eq_or_ne (al.allocate s).0 p) [
        | inl e ↦ omega (
          arith,
          ledger.live-allocate s p,
          ap (ledger.live s) e,
          ledger.fresh s,
          single-le p (al.allocate s).0,
        )
        | inr ne ↦ omega (arith, ledger.live-allocate s p, h.once p, apart p (al.allocate s).0 ne)
      ]

  -- The blocks `ps` are given back one after the other, and the others stay live.
  pub Holds-give_back :
      (ps : List Ptr) (s : al.State) (f : Ptr → ℕ)
      → Holds ledger others s (λ p. count p ps + f p)
      → Holds ledger others (give_back al ps s) f
  Holds-give_back [] s f h = Holds-eq h (λ p. omega arith)
  Holds-give_back (q ∷ ps) s f h =
      let live : 0 < ledger.live s q = omega (arith, h.counts q, single_self q) in
      Holds-give_back ps (al.deallocate q s) f (record {
        counts = λ p. omega (arith, h.counts p, ledger.live-deallocate s q live p);
        once = λ p. omega (arith, h.once p, ledger.live-deallocate s q live p);
        sound = ledger.deallocate-IsSound s q live h.sound;
      })
