-- ===== src/Tests/Accounting.antt =====
-- An allocator that keeps the list of its live blocks, and the theorems on memory at it.
use Prim.Native.Nat.{◌^◌}
use btree_vec.Common.{
  ◌*◌, ◌/◌, ◌-◌, length, ℕ, suc, ◌+◌, ◌≤◌, ◌<◌, ◌≡◌, refl, inl, inr, Bool, true, false, ◌&&◌, ◌||◌,
  none, some, List, [], ◌∷◌, Returns, ◌>>=◌, arith, ◌==◌, if◌then◌else◌, eq→==, ne→==, eq_or_ne,
}
use btree_vec.Node.{Ptr, Allocator, new_prefix}
use btree_vec.Memory.{single, count, Ledger, Holds}
use btree_vec.Memory.Cloning.{clone-drop}
use btree_vec.Memory.Draining.{into_iter-Holds}
use btree_vec.Memory.Numbers.{calls-live}
use btree_vec.Memory.Traces.{calls-HeldVec, calls-drop, lifetime}
use btree_vec.Memory.Vectors.{HeldVec}
use btree_vec.Clone.{clone}
use btree_vec.IntoIter.{into_iter, take_then_drop}
use btree_vec.Tree.Valid.{depth, weight}
use btree_vec.Tree.{Root, top, leaf_for}
use btree_vec.Vec
use btree_vec.Vec.Height.{few_rounds}
use btree_vec.Vec.Inserting.{Inserted, insert_within}
use btree_vec.Vec.Removing.{RootRemoved, remove_within}
use btree_vec.Vec.{BTreeVec, create_in}
use btree_vec.Vec.Dropping.{root_addrs}
use btree_vec.Vec.Traces.{Call, vec_calls}
use btree_vec.Vec.Valid.{IsVec}

-- An address larger than those of `ps`.
abbrev beyond : List Ptr → Ptr
beyond [] = 1
beyond (p ∷ ps) = p + beyond ps

abbrev without : Ptr → List Ptr → List Ptr
without q [] = []
without q (p ∷ ps) = if p == q then ps else p ∷ without q ps

abbrev is_in : Ptr → List Ptr → Bool
is_in q [] = false
is_in q (p ∷ ps) = (p == q) || is_in q ps

-- The live blocks, and whether only live blocks have been given back.
abbrev tracking : Allocator
tracking = record {
  State = List Ptr × Bool;
  allocate = λ s. (beyond s.0, (beyond s.0 ∷ s.0, s.1));
  deallocate = λ q s. (without q s.0, s.1 && is_in q s.0);
}

beyond_positive : (ps : List Ptr) → 0 < beyond ps
beyond_positive [] = omega arith
beyond_positive (p ∷ ps) = omega (arith, beyond_positive ps)

count-beyond : (q : Ptr) (ps : List Ptr) → beyond ps ≤ q → count q ps ≡ 0
unfolding single
count-beyond q [] h = refl
count-beyond q (p ∷ ps) h = ground (arith, count-beyond q ps (omega arith), beyond_positive ps)

count-without :
    (q : Ptr) (ps : List Ptr)
    → 0 < count q ps
    → (p : Ptr) → count p (without q ps) + single p q ≡ count p ps
unfolding single
count-without q [] h p = absurd (omega arith)
count-without q (x ∷ ps) h p = elim (eq_or_ne x q) [
  | inl e ↦ rw (eq→== e, e) (omega arith)
  | inr ne ↦
      let h' : 0 < count q ps = omega (arith, rw (ne→== ne) at h) in
      rw (ne→== ne) (omega (arith, count-without q ps h' p))
]

count-is_in : (q : Ptr) (ps : List Ptr) → 0 < count q ps → is_in q ps ≡ true
unfolding single
count-is_in q [] h = absurd (omega arith)
count-is_in q (x ∷ ps) h = elim (eq_or_ne x q) [
  | inl e ↦ rw (eq→== e) refl
  | inr ne ↦
      let h' : 0 < count q ps = omega (arith, rw (ne→== ne) at h) in
      rw (ne→== ne) (count-is_in q ps h')
]

and-true : (a b : Bool) → a ≡ true → b ≡ true → a && b ≡ true
and-true true b e f = f
and-true false b e f = e

tracked : Ledger tracking
tracked = record {
  live = λ s p. count p s.0;
  IsSound = λ s. s.1 ≡ true;
  fresh = λ s. count-beyond (beyond s.0) s.0 (omega arith);
  live-allocate = λ s p. omega arith;
  live-deallocate = λ s q h p. count-without q s.0 h p;
  allocate-IsSound = λ s e. e;
  deallocate-IsSound = λ s q h e. and-true s.1 (is_in q s.0) e (count-is_in q s.0 h);
}

abbrev empty_vec : BTreeVec tracking ℕ
empty_vec = record { root = none; size = 0; alloc = (7 ∷ [], true) }

-- A block that is not the vector's.
abbrev seven : Ptr → ℕ
seven p = count p (7 ∷ [])

empty_vec-IsVec : IsVec 4 empty_vec
empty_vec-IsVec = record { branching = omega arith; root_is = tt; size_is = refl }

empty_vec-HeldVec : HeldVec tracked seven empty_vec
unfolding single tracked
empty_vec-HeldVec = record { counts = λ p. omega arith; once = λ p. ground arith; sound = refl }

abbrev six_calls : List (Call ℕ)
six_calls =
    Call.push 1
    ∷ (Call.push 2 ∷ (Call.push 3 ∷ (Call.push 4 ∷ (Call.insert 2 5 ∷ (Call.remove 0 ∷ [])))))

calls-HeldVec_example :
    Returns
      (λ (v', os). IsVec 4 v' × HeldVec tracked seven v')
      (vec_calls 4 tracking six_calls empty_vec)
calls-HeldVec_example =
    calls-HeldVec 4 tracked seven six_calls empty_vec
      (2 ∷ (5 ∷ (3 ∷ (4 ∷ []))), none ∷ (none ∷ (none ∷ (none ∷ (none ∷ (some 1 ∷ []))))))
      (omega arith) empty_vec-IsVec empty_vec-HeldVec refl

calls-drop_example :
    Returns
      (λ s. tracked.IsSound s × ((p : Ptr) → tracked.live s p ≡ tracked.live (7 ∷ [], true) p))
      (lifetime ℕ 4 tracking six_calls (7 ∷ [], true))
unfolding tracked
calls-drop_example =
    calls-drop 4 tracked six_calls (7 ∷ [], true)
      (2 ∷ (5 ∷ (3 ∷ (4 ∷ []))), none ∷ (none ∷ (none ∷ (none ∷ (none ∷ (some 1 ∷ []))))))
      (omega arith) empty_vec-HeldVec.once refl refl

-- Four items below an internal root.
abbrev two_root : Root ℕ
two_root = record {
  height = 1;
  node = record {
    addr = 3;
    prefix = new_prefix;
    body = record {
      children =
          (
            record {
              addr = 1;
              prefix = record { parent = some 3; index = 0 };
              body = record { children = 10 ∷ (11 ∷ []); next = some 2 };
            },
            2,
          )
          ∷ ((
            record {
              addr = 2;
              prefix = record { parent = some 3; index = 1 };
              body = record { children = 12 ∷ (13 ∷ []); next = none };
            },
            2,
          )
              ∷ []);
      spare = 0 ∷ (0 ∷ []);
    };
  };
}

abbrev two_leaves : BTreeVec tracking ℕ
two_leaves = record { root = some two_root; size = 4; alloc = (1 ∷ (2 ∷ (3 ∷ (7 ∷ []))), true) }

two_leaves-IsVec : IsVec 4 two_leaves
unfolding weight
two_leaves-IsVec = record {
  branching = omega arith;
  root_is = (
    record {
      parent_is = refl;
      index_is = refl;
      tree = record {
        capacity = refl;
        children_are = (
          record {
            parent_is = refl;
            index_is = refl;
            sized = record { size_is = refl; is = (omega arith, omega arith) };
          },
          (
            record {
              parent_is = refl;
              index_is = refl;
              sized = record { size_is = refl; is = (omega arith, omega arith) };
            },
            tt,
          ),
        );
      };
      long = omega arith;
    },
    (refl, (refl, tt)),
  );
  size_is = refl;
}

two_leaves-HeldVec : HeldVec tracked seven two_leaves
unfolding single tracked
two_leaves-HeldVec = record { counts = λ p. omega arith; once = λ p. ground arith; sound = refl }

clone-drop_example :
    Returns
      (λ (v', w).
        (v'.root ≡ two_leaves.root)
        × Holds tracked seven w.alloc
            (λ p. count p (root_addrs w.root) + count p (root_addrs two_leaves.root))
        × Returns
            (λ s. Holds tracked seven s (λ p. count p (root_addrs two_leaves.root)))
            (Vec.drop tracking w))
      (clone tracking suc (λ s. s) two_leaves)
clone-drop_example = clone-drop 4 tracked seven suc two_leaves two_leaves-IsVec two_leaves-HeldVec

into_iter-Holds_example :
    Returns
      (λ (xs, ys, s). Holds tracked seven s (λ _. 0))
      (into_iter 4 two_leaves >>= take_then_drop 4 3)
into_iter-Holds_example =
    into_iter-Holds 4 tracked seven two_leaves 3 two_leaves-IsVec two_leaves-HeldVec

few_rounds_example :
    (2 ≤ Vec.len two_leaves
      → Returns
          (λ (leaf, j, k). 2 ^ depth k ≤ Vec.len two_leaves + 2)
          (leaf_for two_root.height two_root.node top 2))
    × (2 ≤ Vec.len two_leaves
        → 2 * (Vec.len two_leaves + 2) < 2 ^ 5
        → Returns
            (Inserted 4 tracking two_root 2 9)
            (insert_within 4 tracking 5 two_root two_leaves.alloc 2 9 (Vec.len two_leaves)))
    × (2 < Vec.len two_leaves
        → Vec.len two_leaves + 2 < 2 ^ 5
        → Returns
            (RootRemoved 4 tracking two_root 2)
            (remove_within 4 tracking 5 two_root two_leaves.alloc 2))
few_rounds_example = few_rounds 4 two_leaves two_root 2 9 5 (omega arith) two_leaves-IsVec refl

calls-live_example :
    Returns
      (λ (v, os).
        (ps : List Ptr) × ((p : Ptr)
          → tracked.live v.alloc p ≡ count p ps + tracked.live (7 ∷ [], true) p)
        × ((length ps - 1) * (4 / 2 - 1) ≤ 4)
        × (length ps ≤ 4 + 1))
      (create_in {A = ℕ} 4 tracking (7 ∷ [], true) >>= vec_calls 4 tracking six_calls)
unfolding tracked
calls-live_example =
    calls-live 4 tracked six_calls (7 ∷ [], true)
      (2 ∷ (5 ∷ (3 ∷ (4 ∷ []))), none ∷ (none ∷ (none ∷ (none ∷ (none ∷ (some 1 ∷ []))))))
      (omega arith) empty_vec-HeldVec.once refl refl
