-- ===== src/Base/Result.antt =====
-- Python's exceptions as values: an operation returns a value or raises.
use mathlib.Core.Bool.{Bool, true, false}
use mathlib.Core.Option.{Option, none, some}
use Prim.Native.String.{String}
use mathlib.Core.Path.{◌≡◌, refl}
use mathlib.Core.Logic.{◌⊎◌, inl, inr}

-- The exception's class and the constant part of its message.
pub data Error : Type 0 where
  value_error : String → Error
  runtime_error : String → Error
  type_error : String → Error
  index_error : String → Error
  attribute_error : String → Error
  programming_error : String → Error

pub data Result {ℓ} (A : Type ℓ) : Type ℓ where
  ok : A → Result A
  err : Error → Result A

module _ {ℓ κ} {A : Type ℓ} {B : Type κ} where
  infixl 5 ◌>>=◌
  abbrev pub ◌>>=◌ : Result A → (A → Result B) → Result B
  (err raised) >>= rest = err raised
  (ok value) >>= rest = rest value

module _ {ℓ} {A : Type ℓ} where
  infixl 5 ◌>>◌
  abbrev pub ◌>>◌ : Result (Unit {0}) → Result A → Result A
  (err raised) >> rest = err raised
  (ok done) >> rest = rest

  -- `if value is None: raise raised`
  abbrev pub require : Option A → Error → Result A
  require none raised = err raised
  require (some value) raised = ok value

-- `if bad: raise raised`
abbrev pub raise_if : Bool → Error → Result (Unit {0})
raise_if true raised = err raised
raise_if false raised = ok tt

pub ok_or_err {ℓ} :
    {A : Type ℓ} (r : Result A) → ((a : A) × (r ≡ ok a)) ⊎ ((e : Error) × (r ≡ err e))
ok_or_err (ok a) = inl (a, refl)
ok_or_err (err e) = inr (e, refl)
