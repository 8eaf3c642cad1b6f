-- ===== src/Base/Results.antt =====
-- Results of code that throws: the thrown value is the error.
use mathlib.Core.Path.{◌≡◌, refl, ap}
use mathlib.Core.Bool.{Bool, true, false}

pub data Result {ℓ κ} (E : Type ℓ) (A : Type κ) : Type (ℓ ⊔ κ) where
  ok : A → Result E A
  err : E → Result E A

module _ {ℓ} {Thrown : Type ℓ} where
  -- `if (test) throw error`.
  abbrev pub throw_if : Bool → Thrown → Result Thrown (Unit {0})
  throw_if false error = ok tt
  throw_if true error = err error

  -- `if (!test) throw error`.
  abbrev pub guard : Bool → Thrown → Result Thrown (Unit {0})
  guard false error = err error
  guard true error = ok tt

  infixl 5 ◌>>=◌ ◌>>◌
  -- The rest of the code runs with the value, unless something was thrown.
  abbrev pub ◌>>=◌ {κ μ} :
      {Value : Type κ} {Answer : Type μ}
      → Result Thrown Value
      → (Value → Result Thrown Answer)
      → Result Thrown Answer
  err error >>= rest = err error
  ok value >>= rest = rest value

  abbrev pub ◌>>◌ {μ} :
      {Answer : Type μ} → Result Thrown (Unit {0}) → Result Thrown Answer → Result Thrown Answer
  check >> rest = check >>= λ _. rest

  pub >>=-eq-ok {κ μ} :
      {Value : Type κ} {Answer : Type μ} (m : Result Thrown Value)
      (rest : Value → Result Thrown Answer) {answer : Answer}
      → (m >>= rest) ≡ ok answer
      → (value : Value) × (m ≡ ok value) × (rest value ≡ ok answer)
  >>=-eq-ok (err error) rest h = cc
  >>=-eq-ok (ok value) rest h = (value, refl, h)

  abbrev pub value_or {κ} : {Value : Type κ} → Value → Result Thrown Value → Value
  value_or d (err error) = d
  value_or d (ok value) = value

  -- Equal results have equal values.
  pub ok-eq {κ} :
      {Value : Type κ} {a b : Value} → ◌≡◌ {A = Result Thrown Value} (ok a) (ok b) → a ≡ b
  ok-eq {a = a} h = ap (value_or a) h
