-- ===== src/Alloc.antt =====
-- src/alloc_fallback.rs and src/verified_alloc.rs, with `node_ref_alloc::alloc` of src/node/mod.rs.
pub mod Runs
use btree_vec.Common.{
  ℕ, ◌≡◌, ◌≢◌, refl, sym, ap, ◌∙◌, inl, inr, Option, none, some, Result, ok, err, Error, ◌>>=◌,
  Returns, returned, ◌==◌, if◌then◌else◌, eq→==, ne→==, eq_or_ne, ==_self,
}
use btree_vec.Node.{Ptr}

-- `core::alloc::Layout`
pub record Layout : Type 0 where
  pub size : ℕ
  pub align : ℕ

-- The functions `alloc` and `dealloc` of the crate `alloc`, which is not part of this one. The null
-- pointer is 0.
pub record System : Type 1 where
  pub State : Type 0
  pub alloc : Layout → State → Ptr × State
  pub dealloc : Ptr → Layout → State → State

-- What their documentation says: for a layout whose size is not 0, `alloc` returns null or a block
-- that is not in use; `dealloc` ends the use of a block, which must be given its layout.
pub record SystemLaws (sys : System) : Type 0 where
  pub live : sys.State → Ptr → Option Layout
  pub null_lem :
      (l : Layout) (s : sys.State)
      → l.size ≢ 0
      → (sys.alloc l s).0 ≡ 0
      → (q : Ptr) → live (sys.alloc l s).1 q ≡ live s q
  pub fresh :
      (l : Layout) (s : sys.State)
      → l.size ≢ 0
      → (sys.alloc l s).0 ≢ 0
      → live s (sys.alloc l s).0 ≡ none
  pub live-alloc :
      (l : Layout) (s : sys.State)
      → l.size ≢ 0
      → (sys.alloc l s).0 ≢ 0
      → (q : Ptr) → live (sys.alloc l s).1 q ≡ (if q == (sys.alloc l s).0 then some l else live s q)
  pub live-dealloc :
      (p : Ptr) (l : Layout) (s : sys.State)
      → live s p ≡ some l
      → (q : Ptr) → live (sys.dealloc p l s) q ≡ (if q == p then none else live s q)

-- `NonNull::new`
unfoldable pub non_null : Ptr → Option Ptr
non_null p = if p == 0 then none else some p

module _ (sys : System) where
  -- `Allocator::allocate`; `none` is `Err(())`.
  unfoldable pub allocate : Layout → sys.State → Result (Option Ptr × sys.State)
  unfolding non_null
  allocate layout s =
      if layout.size == 0
      then err Error.panic
      else (let (p, s') = sys.alloc layout s in ok (non_null p, s'))

  -- `Allocator::deallocate`
  unfoldable pub deallocate : Ptr → Layout → sys.State → sys.State
  deallocate p layout s = sys.dealloc p layout s

  -- `unwrap_or_else(|_| handle_alloc_error(layout))`
  unfoldable pub unwrap_block : Option Ptr × sys.State → Result (Ptr × sys.State)
  unwrap_block (none, s) = err Error.abort
  unwrap_block (some p, s) = ok (p, s)

  -- `alloc`, up to the write to the new node.
  unfoldable pub alloc_node : Layout → sys.State → Result (Ptr × sys.State)
  unfolding allocate unwrap_block
  alloc_node layout s = allocate layout s >>= unwrap_block

  module _ (laws : SystemLaws sys) where
    -- The block at `p` was free before, has this layout now, and nothing else has changed; to give it
    -- back with this layout undoes that.
    pub record IsBlock (l : Layout) (s : sys.State) (p : Ptr) (s' : sys.State) : Type 0 where
      pub not_null : p ≢ 0
      pub was_free : laws.live s p ≡ none
      pub in_use : laws.live s' p ≡ some l
      pub others : (q : Ptr) → q ≢ p → laws.live s' q ≡ laws.live s q
      pub undone : (q : Ptr) → laws.live (deallocate p l s') q ≡ laws.live s q

    alloc-IsBlock :
        (l : Layout) (s : sys.State)
        → l.size ≢ 0
        → (sys.alloc l s).0 ≢ 0
        → IsBlock l s (sys.alloc l s).0 (sys.alloc l s).1
    unfolding deallocate
    alloc-IsBlock l s more some_block =
        let here : laws.live (sys.alloc l s).1 (sys.alloc l s).0 ≡ some l =
          rw (==_self (sys.alloc l s).0) at
            (laws.live-alloc l s more some_block (sys.alloc l s).0) in
        let others = λ (q : Ptr) (ne : q ≢ (sys.alloc l s).0).
          rw (ne→== ne) at (laws.live-alloc l s more some_block q) in
        record {
          not_null = some_block;
          was_free = laws.fresh l s more some_block;
          in_use = here;
          others = others;
          undone = λ q. elim (eq_or_ne q (sys.alloc l s).0) [
            | inl e ↦
                laws.live-dealloc (sys.alloc l s).0 l (sys.alloc l s).1 here q
                ∙ rw (eq→== e) (sym (laws.fresh l s more some_block) ∙ ap (laws.live s) (sym e))
            | inr ne ↦
                laws.live-dealloc (sys.alloc l s).0 l (sys.alloc l s).1 here q
                ∙ rw (ne→== ne) (others q ne)
          ];
        }

    -- For a layout whose size is not 0, `alloc` aborts where the system has no memory, which is then
    -- unchanged, and else returns a block that was free, has the layout now and is free again after
    -- `deallocate` with that layout, while no other block changes. For the size 0 it panics.
    pub alloc_node-deallocate :
        (l : Layout) (s : sys.State)
        → (l.size ≡ 0 → alloc_node l s ≡ err Error.panic)
          × (l.size ≢ 0
              → (sys.alloc l s).0 ≡ 0
              → (alloc_node l s ≡ err Error.abort)
                × ((q : Ptr) → laws.live (sys.alloc l s).1 q ≡ laws.live s q))
          × (l.size ≢ 0
              → (sys.alloc l s).0 ≢ 0
              → Returns (λ (p, s'). IsBlock l s p s') (alloc_node l s))
    unfolding alloc_node allocate non_null unwrap_block
    alloc_node-deallocate l s = (
      λ zero_size. rw (eq→== zero_size) refl,
      λ more null. (rw (ne→== more, eq→== null) refl, laws.null_lem l s more null),
      λ more some_block.
          rw (ne→== more, ne→== some_block) (returned (alloc-IsBlock l s more some_block)),
    )
