-- ===== src/Common/Errors.antt =====
-- The exceptions that the modelled code raises or catches, and the results of calls that may raise.
use mathlib.Core.Option.{Option, none, some}

pub data Error : Type 0 where
  does_not_exist type_error value_error redis_error integrity_error locked operational : Error

pub data Result {ℓ} (A : Type ℓ) : Type ℓ where
  ok : A → Result A
  err : Error → Result A

infixl 5 ◌>>=◌
abbrev pub ◌>>=◌ {ℓ κ} : {A : Type ℓ} {B : Type κ} → Result A → (A → Result B) → Result B
ok a >>= f = f a
err e >>= f = err e

abbrev pub or_raise {ℓ} : {A : Type ℓ} → Option A → Error → Result A
or_raise none e = err e
or_raise (some a) e = ok a
