-- ===== src/Tests/Comparing.antt =====
-- Comparisons, parent pointers and the printer at concrete inputs.
use btree_vec.Common.{
  ℕ, ◌≡◌, refl, none, some, Option, [], ◌∷◌, ok, ◌==◌, ltb, if◌then◌else◌, arith,
}
use btree_vec.Node.{Ptr}
use btree_vec.Node.ParentPtr
use btree_vec.Node.ParentPtr.{TaggedPtr, NodeKind}
use btree_vec.Debug
use btree_vec.Debug.Ids
use btree_vec.Debug.Lines as DebugLines
use btree_vec.Vec.Valid.{contents}
use btree_vec.Compare
use btree_vec.Compare.{Order}
use btree_vec.Compare.Lists
use btree_vec.Tests.{sample, sample-IsVec, nothing, nothing-IsVec}

abbrev nat_cmp : ℕ → ℕ → Order
nat_cmp x y = if ltb x y then Order.less else (if x == y then Order.equal else Order.greater)

eq_lem_example :
    Compare.eq (λ x y. x == y) sample sample
    ≡ ok (Lists.equal_lists (λ x y. x == y) (contents sample) (contents sample))
eq_lem_example = Lists.eq_lem 3 (λ x y. x == y) sample sample sample-IsVec sample-IsVec

partial_cmp_lem_example :
    Compare.partial_cmp (λ x y. some (nat_cmp x y)) sample nothing
    ≡ ok (Lists.partial_lists (λ x y. some (nat_cmp x y)) (contents sample) (contents nothing))
partial_cmp_lem_example =
    Lists.partial_cmp_lem 3 (λ x y. some (nat_cmp x y)) sample nothing sample-IsVec
      (nothing-IsVec 3 (omega arith))

cmp_lem_example :
    Compare.cmp nat_cmp sample nothing
    ≡ ok (Lists.order_lists nat_cmp (contents sample) (contents nothing))
cmp_lem_example =
    Lists.cmp_lem 3 nat_cmp sample nothing sample-IsVec (nothing-IsVec 3 (omega arith))

-- A tagged pointer as a pointer and a tag beside it.
abbrev pub pair_ptr : TaggedPtr
pair_ptr = record {
  Packed = ℕ × ℕ;
  IsAligned = λ p. Unit;
  new = λ p t. (p, t);
  ptr = λ x. x.0;
  tag = λ x. x.1;
  set_ptr = λ p x. (p, x.1);
  ptr-new = λ p t a h. refl;
  tag-new = λ p t a h. refl;
  ptr-set_ptr = λ p x a. refl;
  tag-set_ptr = λ p x a. refl;
}

new-set_example :
    ParentPtr.Represents pair_ptr 0 NodeKind.leaf none (ParentPtr.new pair_ptr 0 NodeKind.leaf)
    × ((p : Option Ptr) (x : ℕ × ℕ)
        → ParentPtr.Represents pair_ptr 0 NodeKind.leaf p x
        → ParentPtr.Represents pair_ptr 0 NodeKind.leaf
            (some 7)
            (ParentPtr.set pair_ptr 0 (some 7) x))
new-set_example =
    ParentPtr.new-set pair_ptr 0 tt NodeKind.leaf (some 7) (tt, λ e. absurd (omega (arith, e)))

-- The ids of two nodes.
abbrev two_ids : Debug.IdMap
two_ids = (40, 1) ∷ ((7, 2) ∷ [])

get_id_lem_example :
    Ids.Numbered 0 (Debug.get_id two_ids 9).1
    × (Debug.get_id (Debug.get_id two_ids 9).1 9 ≡ Debug.get_id two_ids 9)
    × ((q : Ptr) (i : ℕ)
        → Debug.lookup two_ids q ≡ some i
        → Debug.lookup (Debug.get_id two_ids 9).1 q ≡ some i)
    × ((q : Ptr)
        → Debug.lookup (Debug.get_id two_ids 9).1 q ≡ some (Debug.get_id two_ids 9).0
        → q ≡ 9)
get_id_lem_example = Ids.get_id_lem two_ids 9 (omega arith, (omega arith, tt))

fmt_lem_example : DebugLines.shown (Debug.fmt two_ids sample).0 ≡ contents sample
fmt_lem_example = DebugLines.fmt_lem two_ids sample
