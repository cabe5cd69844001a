-- ===== src/Vec/Traces.antt =====
-- Sequences of calls on a vector, against the same operations on a list: the list is what a vector
-- promises to be.
use btree_vec.Common.{
  ℕ, ◌+◌, ◌-◌, ◌≤◌, ◌<◌, ◌≡◌, refl, sym, ap, ap₂, subst, ◌≢◌, ◌∙◌, inl, inr, Option, none, some,
  List, [], ◌∷◌, ◌++◌, Result, ok, err, Error, ◌>>=◌, Returns, returned, Returns-bind, Returns-map,
  arith, length, take, drop, get_elem?, insert_at, ltb, leb, ◌==◌, if◌then◌else◌, le→leb, lt→leb,
  lt→ltb, le→ltb, eq→==, ne→==, le_or_lt, eq_or_ne, take-append, get_elem?-append_right,
  length-append,
}
use btree_vec.Node.{Allocator}
use btree_vec.Vec
use btree_vec.Vec.{BTreeVec}
use btree_vec.Vec.Valid.{IsVec, contents}
use btree_vec.Vec.Get.{get_lem}
use btree_vec.Vec.Inserting.{insert_lem, push_lem}
use btree_vec.Vec.Removing.{remove_lem, pop_lem}

some_more : {n : ℕ} → n ≢ 0 → 0 < n
some_more h = grind arith

returned_value {ℓ κ} : {X : Type ℓ} {P : X → Type κ} {x : X} → Returns P (ok x) → P x
returned_value (returned p) = p

pub data Call {ℓ} (A : Type ℓ) : Type ℓ where
  insert : ℕ → A → Call A
  remove : ℕ → Call A
  push : A → Call A
  pop : Call A
  get : ℕ → Call A

module _ {ℓ} {A : Type ℓ} where
  -- The call on a list: the new list and what is returned, or `none` for a panic.
  abbrev pub list_call : Call A → List A → Option (List A × Option A)
  list_call (insert i x) xs = if leb i (length xs) then some (insert_at i x xs, none) else none
  list_call (remove i) xs =
      if ltb i (length xs) then some (take i xs ++ drop (i + 1) xs, get_elem? xs i) else none
  list_call (push x) xs = some (xs ++ (x ∷ []), none)
  list_call pop xs =
      some
        (take (length xs - 1) xs, (if length xs == 0 then none else get_elem? xs (length xs - 1)))
  list_call (get i) xs = some (xs, get_elem? xs i)

  abbrev and_return :
      Option A → Option (List A × List (Option A)) → Option (List A × List (Option A))
  and_return o none = none
  and_return o (some (xs, os)) = some (xs, o ∷ os)

  abbrev and_then :
      Option (List A × Option A)
      → (List A → Option (List A × List (Option A)))
      → Option (List A × List (Option A))
  and_then none rest = none
  and_then (some (xs, o)) rest = and_return o (rest xs)

  take_nothing : (xs : List A) → length xs ≡ 0 → xs ≡ take (length xs - 1) xs
  take_nothing [] e = refl
  take_nothing (x ∷ xs) e = absurd (omega arith)

  last_parts :
      (xs ys : List A) (x : A)
      → xs ≡ ys ++ (x ∷ [])
      → (ys ≡ take (length xs - 1) xs) × (some x ≡ get_elem? xs (length xs - 1))
  last_parts xs ys x e =
      let n : length xs - 1 ≡ length ys + 0 =
        omega (arith, ap length e, length-append ys (x ∷ [])) in
      let n' : length xs - 1 ≡ length ys = omega (arith, n) in
      (
        sym (ap (λ m. take m xs) n' ∙ ap (take (length ys)) e ∙ take-append ys (x ∷ [])),
        sym (
            ap (get_elem? xs) n
            ∙ ap (λ zs. get_elem? zs (length ys + 0)) e
            ∙ get_elem?-append_right ys (x ∷ []) 0),
      )

  -- The calls one after the other, with what they return. A panic ends them.
  abbrev pub list_calls : List (Call A) → List A → Option (List A × List (Option A))
  list_calls [] xs = some (xs, [])
  list_calls (c ∷ cs) xs = and_then (list_call c xs) (list_calls cs)

module _ {ℓ} {A : Type ℓ} (B : ℕ) (al : Allocator) where
  -- The call on a vector.
  abbrev pub vec_call : Call A → BTreeVec al A → Result (BTreeVec al A × Option A)
  vec_call (insert i x) v = do v' ← Vec.insert B al v i x; ok (v', none)
  vec_call (remove i) v = do (v', x) ← Vec.remove B al v i; ok (v', some x)
  vec_call (push x) v = do v' ← Vec.push B al v x; ok (v', none)
  vec_call pop v = Vec.pop B al v
  vec_call (get i) v = do o ← Vec.get v i; ok (v, o)

  abbrev pub vec_calls : List (Call A) → BTreeVec al A → Result (BTreeVec al A × List (Option A))
  vec_calls [] v = ok (v, [])
  vec_calls (c ∷ cs) v = do (v', o) ← vec_call c v; (v'', os) ← vec_calls cs v'; ok (v'', o ∷ os)

  -- The call on a vector does what that on a list does.
  abbrev pub Matches : {O : Type ℓ} → Result (BTreeVec al A × O) → Option (List A × O) → Type ℓ
  Matches r none = r ≡ err Error.panic
  Matches r (some (ys, o)) = Returns (λ q. IsVec B q.0 × (contents q.0 ≡ ys) × (q.1 ≡ o)) r

  pub call-Matches :
      (big : 4 ≤ B) (c : Call A) (v : BTreeVec al A)
      → IsVec B v
      → Matches (vec_call c v) (list_call c (contents v))
  call-Matches big (insert i x) v valid = elim (le_or_lt i (length (contents v))) [
    | inl h ↦
        rw (le→leb h)
          (Returns-bind _ ((insert_lem B al v i x valid).0 h) λ v' q. returned (q.0, q.1, refl))
    | inr h ↦ rw (lt→leb h, (insert_lem B al v i x valid).1 h) refl
  ]
  call-Matches big (remove i) v valid = elim (le_or_lt (length (contents v)) i) [
    | inl h ↦ rw (le→ltb h, (remove_lem B al v i big valid).1 h) refl
    | inr h ↦ rw (lt→ltb h) (
        Returns-bind _ ((remove_lem B al v i big valid).0 h)
          λ r q. returned (q.0, q.1.others, sym q.1.item_is))
  ]
  call-Matches big (push x) v valid =
      Returns-bind _ (push_lem B al v x valid) λ v' q. returned (q.0, q.1, refl)
  call-Matches big pop v valid = elim (eq_or_ne (length (contents v)) 0) [
    | inl e ↦
        rw (eq→== e, (pop_lem B al v big valid).0 e)
          (returned (valid, take_nothing (contents v) e, refl))
    | inr more ↦ rw (ne→== more) (
        Returns-map ((pop_lem B al v big valid).1 (some_more more)) λ q (w, x, e, same).
          let (p, l) = last_parts (contents v) (contents q.0) x same in (w, p, e ∙ l))
  ]
  call-Matches big (get i) v valid = rw (get_lem B v i valid) (returned (valid, refl, refl))

  and_return-Matches :
      (r : Result (BTreeVec al A × List (Option A))) (o o' : Option A)
      (m : Option (List A × List (Option A)))
      → Matches r m
      → o ≡ o'
      → Matches (r >>= λ q. ok (q.0, o ∷ q.1)) (and_return o' m)
  and_return-Matches r o o' none e same = rw e refl
  and_return-Matches r o o' (some (xs, os)) h same =
      Returns-bind _ h λ q w. returned (w.0, w.1, ap₂ (λ x ys. x ∷ ys) same w.2)

  -- For a `B` of at least 4 and a well-formed vector, any sequence of calls of `insert`, `remove`,
  -- `push`, `pop` and `get` returns what it returns on the list of the items, leaves a well-formed
  -- vector of the items that it leaves of the list, and panics exactly where an index is out of
  -- bounds there.
  pub calls-Matches :
      (cs : List (Call A)) (v : BTreeVec al A)
      → 4 ≤ B
      → IsVec B v
      → Matches (vec_calls cs v) (list_calls cs (contents v))
  calls-Matches [] v big valid = returned (valid, refl, refl)
  calls-Matches (c ∷ cs) v big valid =
      go (vec_call c v) (list_call c (contents v)) (call-Matches big c v valid) (calls-Matches cs)
    where
      go :
          (r : Result (BTreeVec al A × Option A)) (m : Option (List A × Option A))
          → Matches r m
          → ((w : BTreeVec al A)
              → 4 ≤ B
              → IsVec B w
              → Matches (vec_calls cs w) (list_calls cs (contents w)))
          → Matches
              (r >>= λ q. vec_calls cs q.0 >>= λ s. ok (s.0, q.1 ∷ s.1))
              (and_then m (list_calls cs))
      go r none e ih = rw e refl
      go (ok (w, o)) (some (xs, o')) h ih =
          let (w_is, same, o_is) = returned_value h in
          and_return-Matches (vec_calls cs w) o o' (list_calls cs xs)
            (subst (λ zs. Matches (vec_calls cs w) (list_calls cs zs)) same (ih w big w_is)) o_is
      go (err e) (some (xs, o')) h ih = elim h [ ]
