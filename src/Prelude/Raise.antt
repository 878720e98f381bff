-- ===== src/Prelude/Raise.antt =====
-- Python's exceptions as values: an `HTTPException` with its status and detail, and a `ValueError`.
use Prim.Native.Nat.{ℕ}
use Prim.Native.String.{String}
use mathlib.Core.Path.{◌≡◌, refl}
use mathlib.Core.Logic.{◌⊎◌, inl, inr}
use mathlib.Core.Bool.{Bool, true, false}
use mathlib.Core.Option.{Option, none, some}

pub data Error : Type 0 where
  http : ℕ → String → Error
  value_error : String → Error
  external : String → Error

pub data Result {ℓ} (A : Type ℓ) : Type ℓ where
  err : Error → Result A
  ok : A → Result A

-- A statement after one that may raise.
infixl 5 ◌>>◌ ◌>>=◌
abbrev pub ◌>>=◌ {ℓ κ} :
    {Before : Type ℓ} {After : Type κ} → Result Before → (Before → Result After) → Result After
err raised >>= rest = err raised
ok result >>= rest = rest result

abbrev pub ◌>>◌ {ℓ} : {After : Type ℓ} → Result (Unit {0}) → Result After → Result After
check >> rest = check >>= λ passed. rest

-- `if test: raise e`.
abbrev pub raise_if : Bool → Error → Result (Unit {0})
raise_if true e = err e
raise_if false e = ok tt

-- `if x is None: raise e`.
abbrev pub or_raise {ℓ} : {A : Type ℓ} → Option A → Error → Result A
or_raise none e = err e
or_raise (some a) e = ok a

-- `except ValueError as exc: raise e`.
abbrev pub on_value_error {ℓ} : {A : Type ℓ} → Result A → (String → Error) → Result A
on_value_error (ok a) handler = ok a
on_value_error (err (value_error m)) handler = err (handler m)
on_value_error (err (http c m)) handler = err (http c m)
on_value_error (err (external m)) handler = err (external m)

-- The value of an option, or a default.
abbrev pub or_else {ℓ} : {A : Type ℓ} → Option A → A → A
or_else none d = d
or_else (some a) d = a

module _ {ℓ κ} {A : Type ℓ} {B : Type κ} where
  -- What a successful chain has gone through.
  pub bind-ok :
      (m : Result A) {f : A → Result B} {b : B}
      → (m >>= f) ≡ ok b
      → (a : A) × (m ≡ ok a) × (f a ≡ ok b)
  bind-ok (ok a) h = (a, refl, h)
  bind-ok (err e) h = cc

pub or_raise-ok {ℓ} :
    {A : Type ℓ} (o : Option A) (e : Error) {a : A} → or_raise o e ≡ ok a → o ≡ some a
or_raise-ok none e h = cc
or_raise-ok (some x) e h = cc

pub on_value_error-ok {ℓ} :
    {A : Type ℓ} (r : Result A) (handler : String → Error) {a : A}
    → on_value_error r handler ≡ ok a
    → r ≡ ok a
on_value_error-ok (ok x) handler h = h
on_value_error-ok (err (value_error m)) handler h = cc
on_value_error-ok (err (http c m)) handler h = cc
on_value_error-ok (err (external m)) handler h = cc

pub raise_if-ok : (b : Bool) (e : Error) {u : Unit} → raise_if b e ≡ ok u → b ≡ false
raise_if-ok true e h = cc
raise_if-ok false e h = refl

pub ok-injective {ℓ} : {A : Type ℓ} {x y : A} → ok x ≡ ok y → x ≡ y
ok-injective h = cc

pub Result-cases {ℓ} :
    {A : Type ℓ} (r : Result A) → ((e : Error) × (r ≡ err e)) ⊎ ((a : A) × (r ≡ ok a))
Result-cases (ok a) = inr (a, refl)
Result-cases (err e) = inl (e, refl)
