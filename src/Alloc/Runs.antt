-- ===== src/Alloc/Runs.antt =====
-- Nodes allocated and given back in any order, over src/alloc_fallback.rs.
use btree_vec.Common.{
  ℕ, zero, suc, ◌≡◌, ◌≢◌, refl, sym, ap, ◌∙◌, inl, inr, Option, none, some, List, [], ◌∷◌, Result,
  ok, err, Error, ◌>>=◌, Returns, returned, ◌==◌, if◌then◌else◌, eq→==, ne→==, eq_or_ne, ==_self,
}
use btree_vec.Node.{Ptr}
use btree_vec.Alloc.{Layout, System, SystemLaws, deallocate, alloc_node, alloc_node-deallocate}

-- The blocks that are held, each with its layout.
abbrev pub Held : Type 0
Held = List (Ptr × Layout)

-- An allocation, or the return of the block at an index among those that are held.
pub data Op : Type 0 where
  alloc : Layout → Op
  dealloc : ℕ → Op

abbrev pub AllSized : List Op → Type 0
AllSized [] = Unit
AllSized (Op.alloc l ∷ ops) = (l.size ≢ 0) × AllSized ops
AllSized (Op.dealloc i ∷ ops) = AllSized ops

-- The layout of the block at `q`, if it is held, or else `o`.
abbrev pub layout_at : Held → Ptr → Option Layout → Option Layout
layout_at [] q o = o
layout_at ((p, l) ∷ bs) q o = if q == p then some l else layout_at bs q o

-- The blocks are not null, each is at an address of its own, and none was in use by `base`.
abbrev pub IsFresh : (Ptr → Option Layout) → Held → Type 0
IsFresh base [] = Unit
IsFresh base ((p, l) ∷ bs) = (p ≢ 0) × (layout_at bs p (base p) ≡ none) × IsFresh base bs

abbrev pub put_back : Ptr × Layout → Option ((Ptr × Layout) × Held) → Option ((Ptr × Layout) × Held)
put_back b none = none
put_back b (some (c, bs)) = some (c, b ∷ bs)

-- The block at an index, and the others.
abbrev pub take_out : Held → ℕ → Option ((Ptr × Layout) × Held)
take_out [] i = none
take_out (b ∷ bs) zero = some (b, bs)
take_out (b ∷ bs) (suc i) = put_back b (take_out bs i)

-- The call returns a value of which `P` holds, or it aborts, for the reason `R`.
pub data Ends {ℓ κ κ'} {A : Type ℓ} (R : Type κ') (P : A → Type κ)
    : Result A → Type (ℓ ⊔ κ ⊔ κ') where
  ends : {a : A} → P a → Ends R P (ok a)
  aborts : R → Ends R P (err Error.abort)

Ends-bind {ℓ ℓ' κ κ' κ''} :
    {A : Type ℓ} {B : Type ℓ'} {R : Type κ''} {P : A → Type κ} {Q : B → Type κ'} {m : Result A}
    (f : A → Result B)
    → Ends R P m
    → ((a : A) → P a → Ends R Q (f a))
    → Ends R Q (m >>= f)
Ends-bind f (ends p) next = next _ p
Ends-bind f (aborts r) next = aborts r

Ends-map {ℓ κ κ' κ''} :
    {A : Type ℓ} {R : Type κ''} {P : A → Type κ} {Q : A → Type κ'} {m : Result A}
    → Ends R P m
    → ((a : A) → P a → Q a)
    → Ends R Q m
Ends-map (ends p) f = ends (f _ p)
Ends-map (aborts r) f = aborts r

Returns-Ends {ℓ κ κ'} :
    {A : Type ℓ} {R : Type κ'} {P : A → Type κ} {m : Result A} → Returns P m → Ends R P m
Returns-Ends (returned p) = ends p

module _ (base : Ptr → Option Layout) where
  -- The block that is taken out of `bs`, and what is left.
  abbrev IsTaken : Held → Option ((Ptr × Layout) × Held) → Type 0
  IsTaken bs none = Unit
  IsTaken bs (some ((p, l), rest)) =
      (layout_at bs p (base p) ≡ some l)
      × ((q : Ptr) → layout_at rest q (base q) ≡ (if q == p then none else layout_at bs q (base q)))
      × IsFresh base rest

  put_back-IsTaken :
      (p : Ptr) (l : Layout) (bs : Held) (o : Option ((Ptr × Layout) × Held))
      → IsFresh base ((p, l) ∷ bs)
      → IsTaken bs o
      → IsTaken ((p, l) ∷ bs) (put_back (p, l) o)
  put_back-IsTaken p l bs none fresh taken = tt
  put_back-IsTaken p l bs (some ((p', l'), rest)) fresh (here, others, rest_fresh) =
      let apart : p' ≢ p = λ e.
        let clash : some l' ≡ none = sym here ∙ ap (λ x. layout_at bs x (base x)) e ∙ fresh.1 in
        cc clash in
      let apart' : p ≢ p' = λ e. apart (sym e) in
      (
        rw (ne→== apart) here,
        λ q. elim (eq_or_ne q p) [
          | inl e ↦ let ne : q ≢ p' = λ e'. apart' (sym e ∙ e') in rw (eq→== e, ne→== ne) refl
          | inr ne ↦ rw (ne→== ne) (others q)
        ],
        (fresh.0, others p ∙ rw (ne→== apart') (fresh.1), rest_fresh),
      )

  take_out-IsTaken : (bs : Held) (i : ℕ) → IsFresh base bs → IsTaken bs (take_out bs i)
  take_out-IsTaken [] i fresh = tt
  take_out-IsTaken ((p, l) ∷ bs) zero fresh = (
    rw (==_self p) refl,
    λ q. elim (eq_or_ne q p) [
      | inl e ↦ rw (eq→== e) (ap (λ x. layout_at bs x (base x)) e ∙ fresh.1)
      | inr ne ↦ rw (ne→== ne) refl
    ],
    fresh.2,
  )
  take_out-IsTaken ((p, l) ∷ bs) (suc i) fresh =
      put_back-IsTaken p l bs (take_out bs i) fresh (take_out-IsTaken bs i fresh.2)

module _ (sys : System) where
  -- One call of `alloc`, or of `deallocate` with a block that is held and its layout.
  unfoldable pub run_op : Op → Held × sys.State → Result (Held × sys.State)
  run_op (Op.alloc l) (bs, s) = do (p, s') ← alloc_node sys l s; ok ((p, l) ∷ bs, s')
  run_op (Op.dealloc i) (bs, s) = elim (take_out bs i) [
    | none ↦ ok (bs, s)
    | some ((p, l), rest) ↦ ok (rest, deallocate sys p l s)
  ]

  unfoldable pub run_ops : List Op → Held × sys.State → Result (Held × sys.State)
  run_ops [] x = ok x
  run_ops (op ∷ ops) x = do x' ← run_op op x; run_ops ops x'

  -- `deallocate` with each block that is held and its layout.
  unfoldable pub give_all : Held → sys.State → sys.State
  give_all [] s = s
  give_all ((p, l) ∷ bs) s = give_all bs (deallocate sys p l s)

  -- The system has no memory for a layout.
  pub record NoMemory : Type 0 where
    pub layout : Layout
    pub state : sys.State
    pub more : layout.size ≢ 0
    pub null : (sys.alloc layout state).0 ≡ 0

  module _ (laws : SystemLaws sys) (base : Ptr → Option Layout) where
    -- The blocks in use are those of `base` and those that are held, with their layouts.
    abbrev Owns : Held × sys.State → Type 0
    Owns (bs, s) = IsFresh base bs × ((q : Ptr) → laws.live s q ≡ layout_at bs q (base q))

    alloc-Owns :
        (l : Layout) (bs : Held) (s : sys.State)
        → l.size ≢ 0
        → Owns (bs, s)
        → Ends NoMemory Owns (run_op (Op.alloc l) (bs, s))
    unfolding run_op
    alloc-Owns l bs s more (fresh, owns) =
        let (_, empty, full) = alloc_node-deallocate sys laws l s in
        elim (eq_or_ne (sys.alloc l s).0 0) [
          | inl null ↦
              rw ((empty more null).0)
                (aborts (record { layout = l; state = s; more = more; null = null }))
          | inr some_block ↦ Ends-bind _ (Returns-Ends (full more some_block)) λ x b. ends (
            (b.not_null, sym (owns x.0) ∙ b.was_free, fresh),
            λ q. elim (eq_or_ne q x.0) [
              | inl e ↦ rw (eq→== e) (ap (laws.live x.1) e ∙ b.in_use)
              | inr ne ↦ rw (ne→== ne) (b.others q ne ∙ owns q)
            ],
          )
        ]

    deallocate-Owns :
        (p : Ptr) (l : Layout) (bs rest : Held) (s : sys.State)
        → Owns (bs, s)
        → IsTaken base bs (some ((p, l), rest))
        → Owns (rest, deallocate sys p l s)
    unfolding deallocate
    deallocate-Owns p l bs rest s (fresh, owns) (here, others, rest_fresh) = (
      rest_fresh,
      λ q.
          laws.live-dealloc p l s (owns p ∙ here) q
          ∙ ap (λ o. if q == p then none else o) (owns q)
          ∙ sym (others q),
    )

    dealloc-Owns :
        (i : ℕ) (bs : Held) (s : sys.State)
        → Owns (bs, s)
        → Ends NoMemory Owns (run_op (Op.dealloc i) (bs, s))
    unfolding run_op
    dealloc-Owns i bs s owned = step (take_out bs i) (take_out-IsTaken base bs i owned.0)
      where
        step :
            (o : Option ((Ptr × Layout) × Held))
            → IsTaken base bs o
            → Ends NoMemory Owns (elim o [
              | none ↦ ok (bs, s)
              | some ((p, l), rest) ↦ ok (rest, deallocate sys p l s)
            ])
        step none taken = ends owned
        step (some ((p, l), rest)) taken = ends (deallocate-Owns p l bs rest s owned taken)

    run_ops-Owns :
        (ops : List Op) (x : Held × sys.State)
        → AllSized ops
        → Owns x
        → Ends NoMemory Owns (run_ops ops x)
    unfolding run_ops
    run_ops-Owns [] x sized owned = ends owned
    run_ops-Owns (Op.alloc l ∷ ops) (bs, s) sized owned =
        Ends-bind _ (alloc-Owns l bs s sized.0 owned)
          λ x' owned'. run_ops-Owns ops x' sized.1 owned'
    run_ops-Owns (Op.dealloc i ∷ ops) (bs, s) sized owned =
        Ends-bind _ (dealloc-Owns i bs s owned) λ x' owned'. run_ops-Owns ops x' sized owned'

    give_all-Owns :
        (bs : Held) (s : sys.State)
        → Owns (bs, s)
        → (q : Ptr) → laws.live (give_all bs s) q ≡ base q
    unfolding give_all
    give_all-Owns [] s owned = owned.1
    give_all-Owns ((p, l) ∷ bs) s owned = give_all-Owns bs (deallocate sys p l s) (
        deallocate-Owns p l ((p, l) ∷ bs) bs s owned
          (take_out-IsTaken base ((p, l) ∷ bs) zero owned.0))

  -- Any sequence of node allocations, each of a layout whose size is not 0, and returns of blocks
  -- that are held, from any state `s`, either comes to its end, or aborts because the system has no
  -- memory for a layout. It never panics. At its end the blocks that are held are not null, at
  -- addresses of their own that were not in use at `s`; the blocks in use are these, with the
  -- layouts they were allocated with, and those in use at `s`, unchanged; and when all that are
  -- held are given back, the blocks in use are those at `s` again.
  pub run_ops-give_all :
      (laws : SystemLaws sys) (ops : List Op) (s : sys.State)
      → AllSized ops
      → Ends NoMemory
          (λ (bs, s').
            IsFresh (laws.live s) bs
            × ((q : Ptr) → laws.live s' q ≡ layout_at bs q (laws.live s q))
            × ((q : Ptr) → laws.live (give_all bs s') q ≡ laws.live s q))
          (run_ops ops ([], s))
  run_ops-give_all laws ops s sized =
      Ends-map (run_ops-Owns laws (laws.live s) ops ([], s) sized (tt, λ q. refl))
        λ (bs, s') owned. (owned.0, owned.1, give_all-Owns laws (laws.live s) bs s' owned)
