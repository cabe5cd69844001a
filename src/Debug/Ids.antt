-- ===== src/Debug/Ids.antt =====
-- The ids of nodes: different nodes have different ids.
use btree_vec.Common.{
  ℕ, ◌+◌, ◌<◌, ◌≡◌, refl, sym, ap, subst, ◌∙◌, inl, inr, Option, none, some, [], ◌∷◌, ◌++◌, length,
  arith, eq→==, ne→==, ==_self, eq_or_ne,
}
use btree_vec.Node.{Ptr}
use btree_vec.Debug.{IdMap, lookup, or_insert, get_id}

some_eq : {x y : ℕ} → some x ≡ some y → x ≡ y
some_eq e = cc

some-none : {x : ℕ} → some x ≡ none → ⊥
some-none e = cc

above_first : (from : ℕ) {i k : ℕ} → from + 1 < i → k ≡ from + 1 → k ≡ i → ⊥
above_first from h e f = omega arith

-- The ids are the numbers from `from + 1` on, in order.
abbrev pub Numbered : ℕ → IdMap → Type 0
Numbered from [] = Unit
Numbered from ((q, n) ∷ m) = (n ≡ from + 1) × Numbered (from + 1) m

Numbered-append :
    (from : ℕ) (m : IdMap) (p : Ptr)
    → Numbered from m
    → Numbered from (m ++ ((p, from + length m + 1) ∷ []))
Numbered-append from [] p h = (omega arith, tt)
Numbered-append from ((q, n) ∷ m) p h = (
  h.0,
  subst (λ k. Numbered (from + 1) (m ++ ((p, k) ∷ []))) (omega arith)
      (Numbered-append (from + 1) m p h.1),
)

lookup-append :
    (m : IdMap) (p q : Ptr) (n : ℕ)
    → (i : ℕ) → lookup m q ≡ some i
    → lookup (m ++ ((p, n) ∷ [])) q ≡ some i
unfolding lookup
lookup-append [] p q n i e = absurd cc
lookup-append ((r, k) ∷ m) p q n i e = elim (eq_or_ne q r) [
  | inl same ↦ rw (eq→== same) (rw (eq→== same) at e)
  | inr other ↦ rw (ne→== other) (lookup-append m p q n i (rw (ne→== other) at e))
]

lookup-new :
    (m : IdMap) (p : Ptr) (n : ℕ) → lookup m p ≡ none → lookup (m ++ ((p, n) ∷ [])) p ≡ some n
unfolding lookup
lookup-new [] p n e = rw (==_self p)
lookup-new ((r, k) ∷ m) p n e = elim (eq_or_ne p r) [
  | inl same ↦ absurd (some-none (rw (eq→== same) at e))
  | inr other ↦ rw (ne→== other) (lookup-new m p n (rw (ne→== other) at e))
]

-- An id that is found is above `from`.
lookup-bound :
    (from : ℕ) (m : IdMap) (p : Ptr) (i : ℕ) → Numbered from m → lookup m p ≡ some i → from < i
unfolding lookup
lookup-bound from [] p i h e = absurd cc
lookup-bound from ((r, k) ∷ m) p i h e = elim (eq_or_ne p r) [
  | inl same ↦ omega (arith, h.0, some_eq (rw (eq→== same) at e))
  | inr other ↦ omega (arith, lookup-bound (from + 1) m p i h.1 (rw (ne→== other) at e))
]

lookup-injective :
    (from : ℕ) (m : IdMap) (p q : Ptr) (i : ℕ)
    → Numbered from m
    → lookup m p ≡ some i
    → lookup m q ≡ some i
    → p ≡ q
unfolding lookup
lookup-injective from [] p q i h e e' = absurd cc
lookup-injective from ((r, k) ∷ m) p q i h e e' = elim (eq_or_ne p r) [
  | inl p_first ↦ elim (eq_or_ne q r) [
    | inl q_first ↦ p_first ∙ sym q_first
    | inr q_later ↦ absurd (
        above_first from (lookup-bound (from + 1) m q i h.1 (rw (ne→== q_later) at e')) h.0
          (some_eq (rw (eq→== p_first) at e)))
  ]
  | inr p_later ↦ elim (eq_or_ne q r) [
    | inl q_first ↦ absurd (
        above_first from (lookup-bound (from + 1) m p i h.1 (rw (ne→== p_later) at e)) h.0
          (some_eq (rw (eq→== q_first) at e')))
    | inr q_later ↦
        lookup-injective (from + 1) m p q i h.1 (rw (ne→== p_later) at e) (rw (ne→== q_later) at e')
  ]
]

-- Where the ids are numbers in order, `get` keeps them so. It gives the node an id that a second call
-- gives again, that no other node has, and keeps the ids of the other nodes.
pub get_id_lem :
    (m : IdMap) (p : Ptr)
    → Numbered 0 m
    → Numbered 0 (get_id m p).1
      × (get_id (get_id m p).1 p ≡ get_id m p)
      × ((q : Ptr) (i : ℕ) → lookup m q ≡ some i → lookup (get_id m p).1 q ≡ some i)
      × ((q : Ptr) → lookup (get_id m p).1 q ≡ some (get_id m p).0 → q ≡ p)
unfolding get_id
get_id_lem m p h = go (lookup m p) refl
  where
    go :
        (o : Option ℕ)
        → lookup m p ≡ o
        → Numbered 0 (or_insert o p m).1
          × (or_insert (lookup (or_insert o p m).1 p) p (or_insert o p m).1 ≡ or_insert o p m)
          × ((q : Ptr) (i : ℕ) → lookup m q ≡ some i → lookup (or_insert o p m).1 q ≡ some i)
          × ((q : Ptr) → lookup (or_insert o p m).1 q ≡ some (or_insert o p m).0 → q ≡ p)
    go none e =
        let new : lookup (m ++ ((p, length m + 1) ∷ [])) p ≡ some (length m + 1) =
          lookup-new m p (length m + 1) e in
        let numbered : Numbered 0 (m ++ ((p, length m + 1) ∷ [])) =
          subst (λ k. Numbered 0 (m ++ ((p, k) ∷ []))) (omega arith) (Numbered-append 0 m p h) in
        (
          numbered,
          ap (λ o. or_insert o p (m ++ ((p, length m + 1) ∷ []))) new,
          λ q i f. lookup-append m p q (length m + 1) i f,
          λ q f. lookup-injective 0 (m ++ ((p, length m + 1) ∷ [])) q p _ numbered f new,
        )
    go (some n) e =
        (h, ap (λ o. or_insert o p m) e, λ q i f. f, λ q f. lookup-injective 0 m q p n h f e)
