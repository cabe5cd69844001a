-- ===== src/Tree/Chain.antt =====
-- The chain of leaves: each leaf's `next` points to the leaf that follows it.
use btree_vec.Common.{
  ◌≡◌, refl, sym, ap, subst, ◌∙◌, Option, none, some, List, [], ◌∷◌, ◌++◌, append_assoc,
}
use btree_vec.Node.{Ptr}
use btree_vec.Tree.Valid.{LeafView, items, items-append}

module _ {ℓ} {A : Type ℓ} where
  abbrev pub first_addr : List (LeafView A) → Option Ptr
  first_addr [] = none
  first_addr ((a, b) ∷ vs) = some a

  abbrev pub IsChain : List (LeafView A) → Type 0
  IsChain [] = Unit
  IsChain ((a, b) ∷ vs) = (b.next ≡ first_addr vs) × IsChain vs

  pub IsChain-append_right : (us vs : List (LeafView A)) → IsChain (us ++ vs) → IsChain vs
  IsChain-append_right [] vs h = h
  IsChain-append_right ((a, b) ∷ us) vs h = IsChain-append_right us vs h.1

  first_addr-append :
      (us vs ws : List (LeafView A))
      → first_addr vs ≡ first_addr ws
      → first_addr (us ++ vs) ≡ first_addr (us ++ ws)
  first_addr-append [] vs ws e = e
  first_addr-append ((a, b) ∷ us) vs ws e = refl

  -- A tail of the chain may be replaced by a chain that begins at the same leaf.
  pub IsChain-replace :
      (us vs ws : List (LeafView A))
      → IsChain (us ++ vs)
      → first_addr vs ≡ first_addr ws
      → IsChain ws
      → IsChain (us ++ ws)
  IsChain-replace [] vs ws h e k = k
  IsChain-replace ((a, b) ∷ us) vs ws h e k =
      (h.0 ∙ first_addr-append us vs ws e, IsChain-replace us vs ws h.1 e k)

  -- `ws` may take the place of `vs` in a chain of leaves: it holds the same items.
  pub record Follows (vs ws : List (LeafView A)) : Type ℓ where
    pub same_items : items ws ≡ items vs
    pub chained :
        (us ts : List (LeafView A)) → IsChain (us ++ (vs ++ ts)) → IsChain (us ++ (ws ++ ts))

  pub Follows-of_eq : {vs ws : List (LeafView A)} → ws ≡ vs → Follows vs ws
  Follows-of_eq e = record {
    same_items = ap items e;
    chained = λ us ts h. subst (λ xs. IsChain (us ++ (xs ++ ts))) (sym e) h;
  }

  pub Follows-trans : {us vs ws : List (LeafView A)} → Follows us vs → Follows vs ws → Follows us ws
  Follows-trans p q = record {
    same_items = q.same_items ∙ p.same_items;
    chained = λ us ts h. q.chained us ts (p.chained us ts h);
  }

  -- What stands around may be put on.
  pub Follows-within :
      (us : List (LeafView A)) {vs ws : List (LeafView A)} (ts : List (LeafView A))
      → Follows vs ws
      → Follows (us ++ (vs ++ ts)) (us ++ (ws ++ ts))
  Follows-within us {vs} {ws} ts p = record {
    same_items =
        items-append us (ws ++ ts)
        ∙ ap (λ xs. items us ++ xs)
            (items-append ws ts ∙ ap (λ xs. xs ++ items ts) p.same_items ∙ sym (items-append vs ts))
        ∙ sym (items-append us (vs ++ ts));
    chained = λ us' ts' h.
        subst IsChain (sym (regroup us' ts' ws))
          (p.chained (us' ++ us) (ts ++ ts') (subst IsChain (regroup us' ts' vs) h));
  }
    where
      regroup :
          (us' ts' xs : List (LeafView A))
          → us' ++ ((us ++ (xs ++ ts)) ++ ts') ≡ (us' ++ us) ++ (xs ++ (ts ++ ts'))
      regroup us' ts' xs = simp append_assoc
