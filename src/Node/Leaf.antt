-- ===== src/Node/Leaf.antt =====
-- src/node/leaf.rs: `LeafNode`. The first `length` places of `children` are the list of items, and
-- the places after them are uninitialised memory, of which the model keeps nothing.
use btree_vec.Common.{
  ℕ, ◌/◌, ◌&&◌, Option, none, some, List, [], ◌∷◌, ◌++◌, Result, ok, err, Error, ◌>>=◌, length,
  take, drop, insert_at, ltb, leb, ◌==◌, if◌then◌else◌,
}
use btree_vec.Node.{Ptr, Cell, new_prefix, SplitStrategy, sizes, Allocator, Node}

pub record LeafBody {ℓ} (A : Type ℓ) : Type ℓ where
  pub children : List A
  pub next : Option Ptr

abbrev pub Leaf {ℓ} : Type ℓ → Type ℓ
Leaf A = Cell (LeafBody A)

-- `LeafRef::alloc` at the address that the allocator gave: `LeafNode::new`.
abbrev pub new_leaf {ℓ} : {A : Type ℓ} → Ptr → Leaf A
new_leaf ptr = record {
  addr = ptr;
  prefix = new_prefix;
  body = record { children = []; next = none };
}

-- `self.next == Some(other)`
abbrev pub points_to : Option Ptr → Ptr → Result (Unit {0})
points_to none q = err Error.panic
points_to (some p) q = if p == q then ok tt else err Error.panic

module _ {ℓ} {A : Type ℓ} where
  unfoldable pub size : Leaf A → ℕ
  size n = length n.body.children

  -- A write of new children.
  abbrev pub with_children : List A → Leaf A → Leaf A
  with_children xs n = record n { body = record { children = xs; next = n.body.next } }

  -- The item at the head of what follows index `i` is moved out.
  unfoldable pub remove_head : Leaf A → List A → List A → Result (Leaf A × A)
  remove_head n before [] = err Error.panic
  remove_head n before (x ∷ after) = ok (with_children (before ++ after) n, x)

  -- The slice `i..length` is empty at `i = length`, and `rotate_left(1)` panics on it.
  unfoldable pub simple_remove : Leaf A → ℕ → Result (Leaf A × A)
  unfolding remove_head
  simple_remove n i = remove_head n (take i n.body.children) (drop i n.body.children)

module _ {ℓ} {A : Type ℓ} (B : ℕ) where
  -- The slice `i..length + 1` panics past the capacity, and `rotate_right(1)` on an empty slice.
  unfoldable pub simple_insert : Leaf A → ℕ → A → Result (Leaf A)
  simple_insert n i item =
      if leb i (length n.body.children) && ltb (length n.body.children) B
      then ok (with_children (insert_at i item n.body.children) n)
      else err Error.panic

  unfoldable pub merge : Leaf A → Leaf A → Result (Leaf A × Leaf A)
  merge n other =
      if leb (length n.body.children) (B / 2) && leb (length other.body.children) (B / 2)
      then (do
        _ ← points_to n.body.next other.addr
        ok (
          record n {
            body = record {
              children = n.body.children ++ other.body.children;
              next = other.body.next;
            };
          },
          record other { body = record { children = []; next = none } },
        ))
      else err Error.panic

module _ {ℓ} {A : Type ℓ} (B : ℕ) (al : Allocator) where
  -- The two halves of a full node, with the new node at `ptr`.
  abbrev pub halves : SplitStrategy → Leaf A → Ptr → Leaf A × Leaf A
  halves strategy n ptr =
      let k = (sizes strategy B).0 in
      (
        record n { body = record { children = take k n.body.children; next = some ptr } },
        record (new_leaf ptr) {
          body = record { children = drop k n.body.children; next = n.body.next };
        },
      )

  unfoldable pub split : SplitStrategy → Leaf A → al.State → Result (Leaf A × Leaf A × al.State)
  split strategy n s =
      if length n.body.children == B
      then (let (ptr, s') = al.allocate s in
          let (left, right) = halves strategy n ptr in ok (left, right, s'))
      else err Error.panic

  -- `impl Node for LeafNode`
  abbrev pub leaf_node : Node al (Leaf A) A
  leaf_node = record {
    item_size = λ _. 1;
    size = size;
    length = λ n. length n.body.children;
    simple_insert = simple_insert B;
    simple_remove = simple_remove;
    split = split;
    merge = merge B;
  }
