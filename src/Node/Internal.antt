-- ===== src/Node/Internal.antt =====
-- src/node/internal.rs: `InternalNode`. The first `length` places of the arrays `children` and
-- `sizes` are one list of pairs; `spare` is what `sizes` holds at the places after them, where
-- earlier children have left their sizes.
pub mod Children
pub mod Inserting
pub mod Splitting
use btree_vec.Common.{
  ℕ, zero, suc, ◌+◌, ◌-◌, ◌/◌, ◌&&◌, Option, none, some, List, [], ◌∷◌, ◌++◌, Result, ok, err,
  Error, ◌>>=◌, length, take, drop, replicate, sum, ltb, leb, ◌==◌, if◌then◌else◌,
}
use btree_vec.Node.{
  Ptr, Cell, new_prefix, set_prefix, set_index, SplitStrategy, sizes, Allocator, Node,
}

-- A child and its size.
abbrev pub Entry {ℓ} : Type ℓ → Type ℓ
Entry C = Cell C × ℕ

pub record InternalBody {ℓ} (C : Type ℓ) : Type ℓ where
  pub children : List (Entry C)
  pub spare : List ℕ

abbrev pub Internal {ℓ} : Type ℓ → Type ℓ
Internal C = Cell (InternalBody C)

-- `InternalRef::alloc` at the address that the allocator gave: `InternalNode::new`.
abbrev pub new_internal {ℓ} : {C : Type ℓ} → ℕ → Ptr → Internal C
new_internal B ptr = record {
  addr = ptr;
  prefix = new_prefix;
  body = record { children = []; spare = replicate B 0 };
}

-- `+=` and `-=` on a size; `usize` underflow panics.
abbrev pub plus : ℕ → ℕ → Result ℕ
plus k n = ok (n + k)

abbrev pub minus : ℕ → ℕ → Result ℕ
minus k n = if leb k n then ok (n - k) else err Error.panic

-- `sizes[i] = f(sizes[i])`, with a panic where `f` has one or `i` is out of the array's bounds.
unfoldable pub change_spare : (ℕ → Result ℕ) → ℕ → List ℕ → Result (List ℕ)
change_spare f i [] = err Error.panic
change_spare f zero (n ∷ ns) = do n' ← f n; ok (n' ∷ ns)
change_spare f (suc i) (n ∷ ns) = do ns' ← change_spare f i ns; ok (n ∷ ns')

module _ {ℓ} {C : Type ℓ} where
  -- The array of sizes of the live children.
  abbrev pub live_sizes : List (Entry C) → List ℕ
  live_sizes [] = []
  live_sizes ((c, n) ∷ es) = n ∷ live_sizes es

  -- Children moved below the node `p`, the first of them at index `i`.
  unfoldable pub adopt : Option Ptr → ℕ → List (Entry C) → List (Entry C)
  adopt p i [] = []
  adopt p i ((c, n) ∷ es) = (set_prefix p i c, n) ∷ adopt p (suc i) es

  -- `for i in i.. { child_mut(i).index = i }` over the children from index `i` on.
  unfoldable pub reindex : ℕ → List (Entry C) → List (Entry C)
  reindex i [] = []
  reindex i ((c, n) ∷ es) = (set_index i c, n) ∷ reindex (suc i) es

  -- `self.sizes.iter().sum()`: over the whole array.
  unfoldable pub size : Internal C → ℕ
  size n = sum (live_sizes n.body.children ++ n.body.spare)

  unfoldable pub change : (ℕ → Result ℕ) → ℕ → List (Entry C) → List ℕ → Result (InternalBody C)
  unfolding change_spare
  change f i [] spare = do
    spare' ← change_spare f i spare
    ok (record { children = []; spare = spare' })
  change f zero ((c, n) ∷ es) spare = do
    n' ← f n
    ok (record { children = (c, n') ∷ es; spare = spare })
  change f (suc i) (e ∷ es) spare = do
    b ← change f i es spare
    ok (record { children = e ∷ b.children; spare = b.spare })

  unfoldable pub change_size : (ℕ → Result ℕ) → ℕ → Internal C → Result (Internal C)
  unfolding change
  change_size f i n = do b ← change f i n.body.children n.body.spare; ok (record n { body = b })

  -- `self.child(0).parent`
  unfoldable pub first_parent : List (Entry C) → Result (Option Ptr)
  first_parent [] = err Error.panic
  first_parent ((c, n) ∷ es) = ok c.prefix.parent

  -- The child at the head of what follows index `i` is taken out of its place.
  unfoldable pub remove_head :
      Internal C → ℕ → List (Entry C) → List (Entry C) → Result (Internal C × Entry C)
  unfolding reindex
  remove_head n i before [] = err Error.panic
  remove_head n i before ((c, m) ∷ after) = ok (
    record n { body = record { children = before ++ reindex i after; spare = 0 ∷ n.body.spare } },
    (set_prefix none 0 c, m),
  )

  unfoldable pub simple_remove : Internal C → ℕ → Result (Internal C × Entry C)
  unfolding remove_head
  simple_remove n i = remove_head n i (take i n.body.children) (drop i n.body.children)

module _ {ℓ} {C : Type ℓ} (B : ℕ) where
  -- The node with `item` put in front of the child at `i`.
  abbrev pub inserted : Internal C → ℕ → Entry C → Internal C
  inserted n i item = record n {
    body = record {
      children =
          take i n.body.children
          ++ ((set_prefix (some n.addr) i item.0, item.1)
              ∷ reindex (suc i) (drop i n.body.children));
      spare = drop 1 n.body.spare;
    };
  }

  -- `rotate_right(1)` panics on the empty slice at `i = length + 1`.
  unfoldable pub simple_insert : Internal C → ℕ → Entry C → Result (Internal C)
  unfolding reindex
  simple_insert n i item =
      if ltb (length n.body.children) B && leb i (length n.body.children)
      then ok (inserted n i item)
      else err Error.panic

  unfoldable pub merge : Internal C → Internal C → Result (Internal C × Internal C)
  unfolding adopt first_parent
  merge n other =
      if leb (length n.body.children) (B / 2) && leb (length other.body.children) (B / 2)
      then (do
        parent ← first_parent n.body.children
        ok (
          record n {
            body = record {
              children =
                  n.body.children ++ adopt parent (length n.body.children) other.body.children;
              spare = drop (length other.body.children) n.body.spare;
            };
          },
          record other {
            body = record {
              children = [];
              spare = live_sizes other.body.children ++ other.body.spare;
            };
          },
        ))
      else err Error.panic

module _ {ℓ} {C : Type ℓ} (B : ℕ) (al : Allocator) where
  -- The two halves of a full node, with the new node at `ptr`. The sizes of the children that
  -- move stay behind in the old array.
  abbrev pub halves : SplitStrategy → Internal C → Ptr → Internal C × Internal C
  halves strategy n ptr =
      let (left, right) = sizes strategy B in
      (
        record n {
          body = record {
            children = take left n.body.children;
            spare = live_sizes (drop left n.body.children) ++ n.body.spare;
          };
        },
        record (new_internal B ptr) {
          body = record {
            children = adopt (some ptr) 0 (drop left n.body.children);
            spare = replicate (B - right) 0;
          };
        },
      )

  unfoldable pub split :
      SplitStrategy → Internal C → al.State → Result (Internal C × Internal C × al.State)
  unfolding adopt
  split strategy n s =
      if length n.body.children == B
      then (let (ptr, s') = al.allocate s in
          let (left, right) = halves strategy n ptr in ok (left, right, s'))
      else err Error.panic

  -- `impl Node for InternalNode`
  abbrev pub internal_node : Node al (Internal C) (Entry C)
  internal_node = record {
    item_size = λ item. item.1;
    size = size;
    length = λ n. length n.body.children;
    simple_insert = simple_insert B;
    simple_remove = simple_remove;
    split = split;
    merge = merge B;
  }
