-- ===== src/Base/Results.antt =====
-- Computations that raise. An exception is one of the kinds that the program raises or lets pass.
use mathlib.Core.Path.{◌≡◌, refl, ap}
use mathlib.Core.Logic.{◌⊎◌, inl, inr}
use mathlib.Core.Bool.{Bool, true, false}

pub data Error : Type 0 where
  -- `ValueError` of the program's own `raise` statements
  value_error : Error
  -- `decimal.DivisionByZero` and `decimal.InvalidOperation`
  zero_division : Error
  invalid_operation : Error
  -- `pydantic.ValidationError`
  validation_error : Error
  -- `TypeError`, and the database's `IntegrityError` and `PendingRollbackError`
  type_error : Error
  integrity_error : Error
  pending_rollback : Error
  -- an exception of a collaborator that nothing catches
  uncaught : Error

-- What a call brings: the exception that it raises, or its value.
pub data Result {ℓ} (V : Type ℓ) : Type ℓ where
  err : Error → Result V
  ok : V → Result V

-- `if c: raise e`
abbrev pub raise_if : Bool → Error → Result (Unit {0})
raise_if false why = ok tt
raise_if true why = err why

-- The statements behind a call run only if it did not raise.
infixl 5 ◌>>=◌
abbrev pub ◌>>=◌ {ℓ κ} : {V : Type ℓ} {W : Type κ} → Result V → (V → Result W) → Result W
err why >>= rest = err why
ok v >>= rest = rest v

infixl 5 ◌>>◌
abbrev pub ◌>>◌ {ℓ} : {W : Type ℓ} → Result (Unit {0}) → Result W → Result W
first >> second = first >>= λ done. second

-- If two calls in a row returned, the first did, and the second did with its value.
pub >>=-eq-ok {ℓ κ} :
    {V : Type ℓ} {W : Type κ} (first : Result V) (rest : V → Result W) {w : W}
    → (first >>= rest) ≡ ok w
    → (v : V) × (first ≡ ok v) × (rest v ≡ ok w)
>>=-eq-ok (err why) rest h = cc
>>=-eq-ok (ok v) rest h = (v, refl, h)

-- To split on a computed result and keep the equation.
pub Result-cases {ℓ} :
    {A : Type ℓ} (m : Result A) → ((a : A) × (m ≡ ok a)) ⊎ ((e : Error) × (m ≡ err e))
Result-cases (ok a) = inl (a, refl)
Result-cases (err e) = inr (e, refl)

-- The value of a call, or another value if it raised.
abbrev ok_or {ℓ} : {V : Type ℓ} → V → Result V → V
ok_or other (err why) = other
ok_or other (ok v) = v

pub ok_inj {ℓ} : {V : Type ℓ} {v w : V} → ok v ≡ ok w → v ≡ w
ok_inj {v} h = ap (ok_or v) h
