-- ===== src/Base/Errors.antt =====
-- Code that may raise: a result, or one of the exceptions that the package raises, with the
-- fixed part of its message; `value_error_quoting` has the values that the message quotes as well.
use Prim.Native.String.{String}
use mathlib.Core.Path.{◌≡◌, refl, subst}
use mathlib.Core.List.{List}
use mathlib.Core.Bool.{Bool, true, false}
use prometheist.Base.Tests.{if◌then◌else◌}

pub data Error : Type 0 where
  value_error runtime_error resource_observation_error : String → Error
  worker_protocol_error worker_launch_denied permission_error : String → Error
  key_error type_error integrity_error overflow_error : Error
  value_error_quoting : String → List String → Error

-- What a call comes to: a value, or what it raised.
pub data Result {ℓ} (Value : Type ℓ) : Type ℓ where
  ok : Value → Result Value
  err : Error → Result Value

-- A raise skips the rest.
infixl 10 ◌>>=◌ ◌>>◌
abbrev pub ◌>>=◌ {ℓ κ} :
    {Value : Type ℓ} {Next : Type κ} → Result Value → (Value → Result Next) → Result Next
ok value >>= rest = rest value
err raised >>= rest = err raised

abbrev pub ◌>>◌ {ℓ} : {Next : Type ℓ} → Result (Unit {0}) → Result Next → Result Next
first >> second = first >>= λ _. second

-- if b: raise e
abbrev pub raise_if : Bool → Error → Result (Unit {0})
raise_if true e = err e
raise_if false e = ok tt

module _ {ℓ κ} {Value : Type ℓ} {Next : Type κ} where
  -- Where both parts return, the first returned a value that the second went on from.
  pub >>=-eq-ok :
      (first : Result Value) (second : Value → Result Next) {final : Next}
      → (first >>= second) ≡ ok final
      → (value : Value) × (first ≡ ok value) × (second value ≡ ok final)
  >>=-eq-ok (ok value) second returned = (value, refl, returned)
  >>=-eq-ok (err raised) second returned = cc

pub ok-injective {ℓ} : {A : Type ℓ} {a b : A} → ok a ≡ ok b → a ≡ b
ok-injective h = cc

-- Where code behind a guard returns, the guard did not raise.
pub guarded {ℓ} :
    {Value : Type ℓ} (test : Bool) (e : Error) (rest : Result Value) {final : Value}
    → (raise_if test e >> rest) ≡ ok final
    → rest ≡ ok final
guarded true e rest returned = absurd (cc returned)
guarded false e rest returned = returned

-- What holds of the value, where code returns one.
module _ {ℓ κ} {Value : Type ℓ} (P : Value → Type κ) where
  abbrev pub OnOk : Result Value → Type κ
  OnOk (ok value) = P value
  OnOk (err raised) = Unit

  pub OnOk-bind {μ} :
      {First : Type μ} (first : Result First) (rest : First → Result Value)
      → ((value : First) → first ≡ ok value → OnOk (rest value))
      → OnOk (first >>= rest)
  OnOk-bind (ok value) rest h = h value refl
  OnOk-bind (err raised) rest h = tt

  pub OnOk-raise :
      (test : Bool) (e : Error) (rest : Result Value)
      → (test ≡ false → OnOk rest)
      → OnOk (raise_if test e >> rest)
  OnOk-raise true e rest h = tt
  OnOk-raise false e rest h = h refl

  pub OnOk-if :
      (test : Bool) (x y : Result Value)
      → (test ≡ true → OnOk x)
      → (test ≡ false → OnOk y)
      → OnOk (if test then x else y)
  OnOk-if true x y h k = h refl
  OnOk-if false x y h k = k refl

  pub OnOk_value :
      (result : Result Value) {value : Value} → OnOk result → result ≡ ok value → P value
  OnOk_value (ok value) p h = subst P (ok-injective h) p
  OnOk_value (err raised) p h = absurd (cc h)

pub OnOk-imp {ℓ κ μ} :
    {Value : Type ℓ} (P : Value → Type κ) (Q : Value → Type μ) (result : Result Value)
    → ((value : Value) → P value → Q value)
    → OnOk P result
    → OnOk Q result
OnOk-imp P Q (ok value) f p = f value p
OnOk-imp P Q (err raised) f p = tt
