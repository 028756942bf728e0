-- ===== src/Errors.antt =====
-- quant_data/errors.py, and the built-in exceptions that the modelled code raises or catches.
-- Exceptions are values; messages and issue lists, which no caller branches on, are left out.
use mathlib.Core.Path.{subst}
use quant_data_infra.Prelude.{◌≡◌, ◌⊎◌, inl, inr, refl, Bool, true, false}

pub data Failure : Type 0 where
  validation_error conflict_error resource_limit_error store_unavailable_error : Failure
  os_error runtime_error key_error storage_error other_error : Failure
  -- `ingestion._PartialPublication`, a `ValidationError`
  partial_publication : Failure

-- A call returns a value or raises.
pub data Result {ℓ} (Value : Type ℓ) : Type ℓ where
  err : Failure → Result Value
  ok : Value → Result Value

infixl 5 ◌>>◌ ◌>>=◌
-- The first exception ends the chain; the statement after it sees the value.
abbrev pub ◌>>=◌ {ℓ μ} :
    {Value : Type ℓ} {Next : Type μ} → Result Value → (Value → Result Next) → Result Next
err failure >>= next = err failure
ok value >>= next = next value

abbrev pub ◌>>◌ {ℓ μ} : {Value : Type ℓ} {Next : Type μ} → Result Value → Result Next → Result Next
first >> second = first >>= λ _. second

-- `if test: raise failure`
abbrev pub raise_if : Bool → Failure → Result (Unit {0})
raise_if true e = err e
raise_if false e = ok tt

abbrev pub is_ok {ℓ} : {A : Type ℓ} → Result A → Bool
is_ok (ok a) = true
is_ok (err e) = false

-- A chain that returns had a first part that returned.
pub >>=-eq-ok {ℓ μ} :
    {Value : Type ℓ} {Next : Type μ} (first : Result Value) (next : Value → Result Next)
    {end : Next}
    → (first >>= next) ≡ ok end
    → (v : Value) × (first ≡ ok v) × (next v ≡ ok end)
>>=-eq-ok (err failure) next e = cc
>>=-eq-ok (ok value) next e = (value, refl, e)

pub raise_if-eq-ok :
    {A : Type 0} (b : Bool) (e : Failure) (m : Result A) {a : A}
    → (raise_if b e >> m) ≡ ok a
    → (b ≡ false) × (m ≡ ok a)
raise_if-eq-ok true e m h = cc
raise_if-eq-ok false e m h = (refl, h)

pub ok-injective {ℓ} : {A : Type ℓ} {a b : A} → ok a ≡ ok b → a ≡ b
ok-injective h = cc

-- A postcondition: the result, if there is one, satisfies `P`. The rules bind what was returned to a
-- variable, so that a proof follows the code statement by statement.
abbrev pub Ensures {ℓ κ} : {A : Type ℓ} → (A → Type κ) → Result A → Type κ
Ensures P (ok a) = P a
Ensures P (err e) = Unit

pub Ensures-bind {ℓ κ μ} :
    {A : Type ℓ} {B : Type κ} (P : B → Type μ) (m : Result A) (f : A → Result B)
    → ((a : A) → m ≡ ok a → Ensures P (f a))
    → Ensures P (m >>= f)
Ensures-bind P (ok a) f h = h a refl
Ensures-bind P (err e) f h = tt

pub Ensures-guard {ℓ κ} :
    {A : Type ℓ} (P : A → Type κ) (b : Bool) (e : Failure) (m : Result A)
    → (b ≡ false → Ensures P m)
    → Ensures P (raise_if b e >> m)
Ensures-guard P true e m h = tt
Ensures-guard P false e m h = h refl

pub Ensures-ok {ℓ κ} :
    {A : Type ℓ} (P : A → Type κ) (m : Result A) (a : A) → Ensures P m → m ≡ ok a → P a
Ensures-ok P (ok b) a h e = subst P (ok-injective e) h
Ensures-ok P (err f) a h e = absurd (cc e)

pub Ensures-weaken {ℓ κ μ} :
    {A : Type ℓ} (P : A → Type κ) (Q : A → Type μ) (m : Result A)
    → ((a : A) → P a → Q a)
    → Ensures P m
    → Ensures Q m
Ensures-weaken P Q (ok a) f h = f a h
Ensures-weaken P Q (err e) f h = tt

-- The exception that a call raises, if it raises one, satisfies `Q`.
abbrev pub Raises {ℓ} : {A : Type ℓ} → (Failure → Type 0) → Result A → Type 0
Raises Q (ok a) = Unit
Raises Q (err e) = Q e

pub Raises-bind {ℓ κ} :
    {A : Type ℓ} {B : Type κ} (Q : Failure → Type 0) (m : Result A) (f : A → Result B)
    → Raises Q m
    → ((a : A) → Raises Q (f a))
    → Raises Q (m >>= f)
Raises-bind Q (ok a) f h k = k a
Raises-bind Q (err e) f h k = h

pub Raises-guard {ℓ} :
    {A : Type ℓ} (Q : Failure → Type 0) (b : Bool) (e : Failure) (m : Result A)
    → Q e
    → Raises Q m
    → Raises Q (raise_if b e >> m)
Raises-guard Q true e m h k = h
Raises-guard Q false e m h k = k

pub Raises-weaken {ℓ} :
    {A : Type ℓ} (Q R : Failure → Type 0) (m : Result A)
    → ((e : Failure) → Q e → R e)
    → Raises Q m
    → Raises R m
Raises-weaken Q R (ok a) f h = tt
Raises-weaken Q R (err e) f h = f e h

-- To split on what a call did and keep the equation.
pub Result-cases {ℓ} :
    {A : Type ℓ} (m : Result A) → ((e : Failure) × (m ≡ err e)) ⊎ ((a : A) × (m ≡ ok a))
Result-cases (err e) = inl (e, refl)
Result-cases (ok a) = inr (a, refl)
