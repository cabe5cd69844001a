-- ===== src/Common/Lists.antt =====
-- Lists measured and indexed by native numbers, under the library's names.
use Prim.Native.Nat.{ℕ, zero, suc, ◌+◌, ◌-◌, ◌≤◌, ◌<◌, min}
use mathlib.Core.Path.{◌≡◌, refl, ap}
use mathlib.Core.List.{List, [], ◌∷◌, ◌++◌}
use mathlib.Core.Option.{Option, none, some}
use native.Mathlib.Nat.{zero-add, suc-add}
use native.Mathlib.Omega.{arith}

module _ {ℓ} {A : Type ℓ} where
  abbrev pub length : List A → ℕ
  length [] = 0
  length (x ∷ xs) = suc (length xs)

  abbrev pub get_elem? : List A → ℕ → Option A
  get_elem? [] i = none
  get_elem? (x ∷ xs) zero = some x
  get_elem? (x ∷ xs) (suc i) = get_elem? xs i

  abbrev pub take : ℕ → List A → List A
  take zero xs = []
  take (suc n) [] = []
  take (suc n) (x ∷ xs) = x ∷ take n xs

  abbrev pub drop : ℕ → List A → List A
  drop zero xs = xs
  drop (suc n) [] = []
  drop (suc n) (x ∷ xs) = drop n xs

  -- A write out of bounds changes nothing.
  abbrev pub set : List A → ℕ → A → List A
  set [] i y = []
  set (x ∷ xs) zero y = y ∷ xs
  set (x ∷ xs) (suc i) y = x ∷ set xs i y

  abbrev pub replicate : ℕ → A → List A
  replicate zero a = []
  replicate (suc n) a = a ∷ replicate n a

module _ {ℓ} {A : Type ℓ} where
  -- The list with `x` put in front of the item at `i`.
  abbrev pub insert_at : ℕ → A → List A → List A
  insert_at i x xs = take i xs ++ (x ∷ drop i xs)

  pub length-append : (xs ys : List A) → length (xs ++ ys) ≡ length xs + length ys
  length-append [] ys = omega arith
  length-append (x ∷ xs) ys = omega (arith, length-append xs ys)

  pub take-append-drop : (n : ℕ) (xs : List A) → take n xs ++ drop n xs ≡ xs
  take-append-drop zero xs = refl
  take-append-drop (suc n) [] = refl
  take-append-drop (suc n) (x ∷ xs) = ap (λ ys. x ∷ ys) (take-append-drop n xs)

  pub length-take : (n : ℕ) (xs : List A) → length (take n xs) ≡ min n (length xs)
  length-take zero xs = omega arith
  length-take (suc n) [] = omega arith
  length-take (suc n) (x ∷ xs) = omega (arith, length-take n xs)

  pub length-drop : (n : ℕ) (xs : List A) → length (drop n xs) ≡ length xs - n
  length-drop zero xs = omega arith
  length-drop (suc n) [] = omega arith
  length-drop (suc n) (x ∷ xs) = omega (arith, length-drop n xs)

  pub length-replicate : (n : ℕ) (a : A) → length (replicate n a) ≡ n
  length-replicate zero a = refl
  length-replicate (suc n) a = ap suc (length-replicate n a)

  -- The part before `ys` and `ys` itself, as the code cuts them off.
  pub take-append : (xs ys : List A) → take (length xs) (xs ++ ys) ≡ xs
  take-append [] ys = refl
  take-append (x ∷ xs) ys = ap (λ zs. x ∷ zs) (take-append xs ys)

  pub drop-append : (xs ys : List A) → drop (length xs) (xs ++ ys) ≡ ys
  drop-append [] ys = refl
  drop-append (x ∷ xs) ys = drop-append xs ys

  pub take-length : (xs : List A) → take (length xs) xs ≡ xs
  take-length [] = refl
  take-length (x ∷ xs) = ap (λ ys. x ∷ ys) (take-length xs)

  pub drop-length : (xs : List A) → drop (length xs) xs ≡ []
  drop-length [] = refl
  drop-length (x ∷ xs) = drop-length xs

  -- An insertion into the second part of a list.
  pub insert_at-append_right :
      (xs ys : List A) (i : ℕ) (x : A)
      → insert_at (length xs + i) x (xs ++ ys) ≡ xs ++ insert_at i x ys
  insert_at-append_right [] ys i x = rw zero-add
  insert_at-append_right (y ∷ xs) ys i x =
      rw suc-add (ap (λ zs. y ∷ zs) (insert_at-append_right xs ys i x))

  -- An insertion into the first part of a list, or at its end.
  pub insert_at-append_left :
      (xs ys : List A) (i : ℕ) (x : A)
      → i ≤ length xs
      → insert_at i x (xs ++ ys) ≡ insert_at i x xs ++ ys
  insert_at-append_left xs ys zero x h = refl
  insert_at-append_left [] ys (suc i) x h = absurd (omega arith)
  insert_at-append_left (y ∷ xs) ys (suc i) x h =
      ap (λ zs. y ∷ zs) (insert_at-append_left xs ys i x (omega arith))

  -- An insertion at the end.
  pub insert_at-length : (x : A) (xs : List A) → insert_at (length xs) x xs ≡ xs ++ (x ∷ [])
  insert_at-length x [] = refl
  insert_at-length x (y ∷ xs) = ap (λ ys. y ∷ ys) (insert_at-length x xs)

  pub length-insert_at :
      (i : ℕ) (x : A) (xs : List A) → i ≤ length xs → length (insert_at i x xs) ≡ suc (length xs)
  length-insert_at zero x xs h = refl
  length-insert_at (suc i) x [] h = absurd (omega arith)
  length-insert_at (suc i) x (y ∷ xs) h = ap suc (length-insert_at i x xs (omega arith))

module _ {ℓ} {A : Type ℓ} where
  pub take-take : (i k : ℕ) (xs : List A) → i ≤ k → take i (take k xs) ≡ take i xs
  take-take zero k xs h = refl
  take-take (suc i) zero xs h = absurd (omega arith)
  take-take (suc i) (suc k) [] h = refl
  take-take (suc i) (suc k) (x ∷ xs) h = ap (λ ys. x ∷ ys) (take-take i k xs (omega arith))

  pub drop-take-append :
      (i k : ℕ) (xs : List A) → i ≤ k → drop i (take k xs) ++ drop k xs ≡ drop i xs
  drop-take-append zero k xs h = take-append-drop k xs
  drop-take-append (suc i) zero xs h = absurd (omega arith)
  drop-take-append (suc i) (suc k) [] h = refl
  drop-take-append (suc i) (suc k) (x ∷ xs) h = drop-take-append i k xs (omega arith)

  pub take-add : (k i : ℕ) (xs : List A) → take (k + i) xs ≡ take k xs ++ take i (drop k xs)
  take-add zero i xs = rw zero-add
  take-add (suc k) zero [] = rw suc-add
  take-add (suc k) (suc i) [] = rw suc-add
  take-add (suc k) i (x ∷ xs) = rw suc-add (ap (λ ys. x ∷ ys) (take-add k i xs))

  pub drop-add : (k i : ℕ) (xs : List A) → drop (k + i) xs ≡ drop i (drop k xs)
  drop-add zero i xs = rw zero-add
  drop-add (suc k) zero [] = rw suc-add
  drop-add (suc k) (suc i) [] = rw suc-add
  drop-add (suc k) i (x ∷ xs) = rw suc-add (drop-add k i xs)

module _ {ℓ} {A : Type ℓ} where
  pub get_elem?-append_right :
      (xs ys : List A) (i : ℕ) → get_elem? (xs ++ ys) (length xs + i) ≡ get_elem? ys i
  get_elem?-append_right [] ys i = rw zero-add
  get_elem?-append_right (x ∷ xs) ys i = rw suc-add (get_elem?-append_right xs ys i)

  pub get_elem?-append_left :
      (xs ys : List A) (i : ℕ) → i < length xs → get_elem? (xs ++ ys) i ≡ get_elem? xs i
  get_elem?-append_left [] ys i h = absurd (omega arith)
  get_elem?-append_left (x ∷ xs) ys zero h = refl
  get_elem?-append_left (x ∷ xs) ys (suc i) h = get_elem?-append_left xs ys i (omega arith)

  pub get_elem?-some : (xs : List A) (i : ℕ) → i < length xs → (x : A) × (get_elem? xs i ≡ some x)
  get_elem?-some [] i h = absurd (omega arith)
  get_elem?-some (x ∷ xs) zero h = (x, refl)
  get_elem?-some (x ∷ xs) (suc i) h = get_elem?-some xs i (omega arith)

  pub get_elem?-none : (xs : List A) (i : ℕ) → length xs ≤ i → get_elem? xs i ≡ none
  get_elem?-none [] i h = refl
  get_elem?-none (x ∷ xs) zero h = absurd (omega arith)
  get_elem?-none (x ∷ xs) (suc i) h = get_elem?-none xs i (omega arith)

-- A list that is not empty has a last item.
pub last-eq {ℓ} :
    {A : Type ℓ} (xs : List A)
    → 0 < length xs
    → (ys : List A) × (y : A) × (xs ≡ ys ++ (y ∷ [])) × (length ys ≡ length xs - 1)
last-eq [] h = absurd (omega arith)
last-eq (x ∷ []) h = ([], x, refl, refl)
last-eq (x ∷ (y ∷ xs)) h =
    let (ys, z, e, n) = last-eq (y ∷ xs) (omega arith) in
    (x ∷ ys, z, ap (λ zs. x ∷ zs) e, omega arith)

abbrev pub sum : List ℕ → ℕ
sum [] = 0
sum (x ∷ xs) = x + sum xs

pub sum-replicate_zero : (n : ℕ) → sum (replicate n 0) ≡ 0
sum-replicate_zero zero = refl
sum-replicate_zero (suc n) = omega (arith, sum-replicate_zero n)

pub sum-append : (xs ys : List ℕ) → sum (xs ++ ys) ≡ sum xs + sum ys
sum-append [] ys = omega arith
sum-append (x ∷ xs) ys = omega (arith, sum-append xs ys)

module _ {ℓ} {A : Type ℓ} where
  pub length-set : (xs : List A) (i : ℕ) (y : A) → length (set xs i y) ≡ length xs
  length-set [] i y = refl
  length-set (x ∷ xs) zero y = refl
  length-set (x ∷ xs) (suc i) y = ap suc (length-set xs i y)

  pub set-append_left :
      (xs ys : List A) (i : ℕ) (y : A) → i < length xs → set (xs ++ ys) i y ≡ set xs i y ++ ys
  set-append_left [] ys i y h = absurd (omega arith)
  set-append_left (x ∷ xs) ys zero y h = refl
  set-append_left (x ∷ xs) ys (suc i) y h =
      ap (λ zs. x ∷ zs) (set-append_left xs ys i y (omega arith))

  pub set-append_right :
      (xs ys : List A) (i : ℕ) (y : A) → set (xs ++ ys) (length xs + i) y ≡ xs ++ set ys i y
  set-append_right [] ys i y = rw zero-add
  set-append_right (x ∷ xs) ys i y = rw suc-add (ap (λ zs. x ∷ zs) (set-append_right xs ys i y))

pub length-zero {ℓ} : {A : Type ℓ} (xs : List A) → length xs ≡ 0 → xs ≡ []
length-zero [] e = refl
length-zero (x ∷ xs) e = absurd (omega arith)
