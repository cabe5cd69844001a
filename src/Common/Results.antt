-- ===== src/Common/Results.antt =====
-- What a call returns, or how it stops.
use mathlib.Core.Path.{◌≡◌, refl}
use mathlib.Core.Bool.{Bool, true, false}
use btree_vec.Common.Tests.{if◌then◌else◌}

-- A panic (a failed `assert!`, a slice or index out of range, an `unwrap` of `None`, an arithmetic
-- underflow), the use of a pointer that points to no live node, the use of memory that has not been
-- initialised or has been moved out of, a loop cut off by its fuel, and the end of the process for
-- want of memory (`handle_alloc_error`).
pub data Error : Type 0 where
  panic dangling uninit out_of_fuel abort : Error

pub data Result {ℓ} (A : Type ℓ) : Type ℓ where
  ok : A → Result A
  err : Error → Result A

infixl 5 ◌>>=◌
abbrev pub ◌>>=◌ {ℓ κ} : {A : Type ℓ} {B : Type κ} → Result A → (A → Result B) → Result B
ok a >>= f = f a
err e >>= f = err e

-- The call returns normally, with a value of which `P` holds.
pub data Returns {ℓ κ} {A : Type ℓ} (P : A → Type κ) : Result A → Type (ℓ ⊔ κ) where
  returned : {a : A} → P a → Returns P (ok a)

pub Returns-bind {ℓ ℓ' κ κ'} :
    {A : Type ℓ} {B : Type ℓ'} {P : A → Type κ} {Q : B → Type κ'} {m : Result A} (f : A → Result B)
    → Returns P m
    → ((a : A) → P a → Returns Q (f a))
    → Returns Q (m >>= f)
Returns-bind f (returned p) next = next _ p

pub Returns-map {ℓ κ κ'} :
    {A : Type ℓ} {P : A → Type κ} {Q : A → Type κ'} {m : Result A}
    → Returns P m
    → ((a : A) → P a → Q a)
    → Returns Q m
Returns-map (returned p) f = returned (f _ p)

pub Returns-eq {ℓ κ} :
    {A : Type ℓ} {P : A → Type κ} {m : Result A} → Returns P m → (a : A) × (m ≡ ok a) × P a
Returns-eq (returned p) = (_, refl, p)

-- If the call returns normally, then `P` holds of its value.
pub data IfOk {ℓ κ} {A : Type ℓ} (P : A → Type κ) : Result A → Type (ℓ ⊔ κ) where
  if_ok : {a : A} → P a → IfOk P (ok a)
  if_err : {e : Error} → IfOk P (err e)

pub IfOk-bind {ℓ ℓ' κ κ'} :
    {A : Type ℓ} {B : Type ℓ'} {P : A → Type κ} {Q : B → Type κ'} {m : Result A} (f : A → Result B)
    → IfOk P m
    → ((a : A) → P a → IfOk Q (f a))
    → IfOk Q (m >>= f)
IfOk-bind f (if_ok p) next = next _ p
IfOk-bind f if_err next = if_err

pub IfOk-map {ℓ κ κ'} :
    {A : Type ℓ} {P : A → Type κ} {Q : A → Type κ'} {m : Result A}
    → IfOk P m
    → ((a : A) → P a → Q a)
    → IfOk Q m
IfOk-map (if_ok p) f = if_ok (f _ p)
IfOk-map if_err f = if_err

-- Where nothing is needed of the value.
pub IfOk-any {ℓ} : {A : Type ℓ} (m : Result A) → IfOk (λ _. Unit {0}) m
IfOk-any (ok a) = if_ok tt
IfOk-any (err e) = if_err

pub Returns→IfOk {ℓ κ} : {A : Type ℓ} {P : A → Type κ} {m : Result A} → Returns P m → IfOk P m
Returns→IfOk (returned p) = if_ok p

pub Returns-IfOk {ℓ κ κ'} :
    {A : Type ℓ} {P : A → Type κ} {Q : A → Type κ'} {m : Result A}
    → Returns P m
    → IfOk Q m
    → Returns (λ a. P a × Q a) m
Returns-IfOk (returned p) (if_ok q) = returned (p, q)

pub IfOk-both {ℓ κ κ'} :
    {A : Type ℓ} {P : A → Type κ} {Q : A → Type κ'} {m : Result A}
    → IfOk P m
    → IfOk Q m
    → IfOk (λ a. P a × Q a) m
IfOk-both (if_ok p) (if_ok q) = if_ok (p, q)
IfOk-both if_err q = if_err

pub IfOk-if {ℓ κ} :
    {A : Type ℓ} {P : A → Type κ} {m n : Result A} (b : Bool)
    → IfOk P m
    → IfOk P n
    → IfOk P (if b then m else n)
IfOk-if true p q = p
IfOk-if false p q = q
