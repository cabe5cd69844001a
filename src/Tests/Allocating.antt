-- ===== src/Tests/Allocating.antt =====
-- A system allocator that hands out the addresses in order, and keeps the layouts of the blocks in
-- use; and a node whose parent pointer is written twice.
use btree_vec.Common.{
  ℕ, suc, ◌≡◌, refl, Option, none, some, List, [], ◌∷◌, ok, arith, ltb, ◌==◌, ◌>>=◌, if◌then◌else◌,
}
use btree_vec.Node.{Ptr}
use btree_vec.Alloc.{
  Layout, System, SystemLaws, alloc_node, allocate, non_null, unwrap_block, deallocate,
}
use btree_vec.Alloc.Runs.{
  Op, Ends, NoMemory, IsFresh, layout_at, give_all, run_op, run_ops, run_ops-give_all,
}
use btree_vec.Node.Cast.{PrefixCast, cast, set_all, cast-new}
use btree_vec.Node.ParentPtr.{NodeKind, new, get}
use btree_vec.Tests.Comparing.{pair_ptr}

-- The number of addresses that have been handed out, and the layout of the block at each address.
abbrev ordered : System
ordered = record {
  State = ℕ × (Ptr → Option Layout);
  alloc = λ l s. (suc s.0, (suc s.0, λ q. if q == suc s.0 then some l else s.1 q));
  dealloc = λ p l s. (s.0, λ q. if q == p then none else s.1 q);
}

abbrev in_use : ℕ × (Ptr → Option Layout) → Ptr → Option Layout
in_use s q = if ltb s.0 q then none else s.1 q

in_use-alloc :
    (l : Layout) (n : ℕ) (m : Ptr → Option Layout) (q : Ptr)
    → in_use (ordered.alloc l (n, m)).1 q ≡ (if q == suc n then some l else in_use (n, m) q)
in_use-alloc l n m q = ground arith

in_use-dealloc :
    (p : Ptr) (l : Layout) (n : ℕ) (m : Ptr → Option Layout) (q : Ptr)
    → in_use (ordered.dealloc p l (n, m)) q ≡ (if q == p then none else in_use (n, m) q)
in_use-dealloc p l n m q = ground arith

in_use-fresh : (n : ℕ) (m : Ptr → Option Layout) → in_use (n, m) (suc n) ≡ none
in_use-fresh n m = ground arith

ordered-SystemLaws : SystemLaws ordered
ordered-SystemLaws = record {
  live = in_use;
  null_lem = λ l s more null. absurd (omega arith);
  fresh = λ l s more some_block. in_use-fresh s.0 s.1;
  live-alloc = λ l s more some_block q. in_use-alloc l s.0 s.1 q;
  live-dealloc = λ p l s used q. in_use-dealloc p l s.0 s.1 q;
}

abbrev page : Layout
page = record { size = 64; align = 8 }

abbrev start : ℕ × (Ptr → Option Layout)
start = (3, λ q. none)

-- Two pages are allocated, the first is given back, and another is allocated.
abbrev page_ops : List Op
page_ops = Op.alloc page ∷ (Op.alloc page ∷ (Op.dealloc 1 ∷ (Op.alloc page ∷ [])))

run_ops-give_all_example :
    Ends
      (NoMemory ordered)
      (λ (bs, s).
        IsFresh (in_use start) bs
        × ((q : Ptr) → in_use s q ≡ layout_at bs q (in_use start q))
        × ((q : Ptr) → in_use (give_all ordered bs s) q ≡ in_use start q))
      (run_ops ordered page_ops ([], start))
unfolding ordered-SystemLaws
run_ops-give_all_example =
    run_ops-give_all ordered ordered-SystemLaws page_ops start
      (λ e. absurd (omega arith), (λ e. absurd (omega arith), (λ e. absurd (omega arith), tt)))

-- The blocks of two pages are left.
page_ops_run :
    (run_ops ordered page_ops ([], start) >>= λ (bs, s). ok bs) ≡ ok ((6, page) ∷ ((5, page) ∷ []))
unfolding run_ops run_op alloc_node allocate non_null unwrap_block deallocate
page_ops_run = refl

abbrev two_parents : List (Option Ptr)
two_parents = some 7 ∷ (some 9 ∷ [])

cast-new_example :
    (cast pair_ptr 0 5 (set_all pair_ptr 0 two_parents (new pair_ptr 0 NodeKind.leaf))
      ≡ ok (PrefixCast.leaf 5))
    × (get pair_ptr 0 (set_all pair_ptr 0 two_parents (new pair_ptr 0 NodeKind.leaf)) ≡ some 9)
cast-new_example =
    cast-new pair_ptr 0 tt NodeKind.leaf 5 two_parents
      ((tt, λ e. absurd (omega arith)), ((tt, λ e. absurd (omega arith)), tt))
