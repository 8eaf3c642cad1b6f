-- ===== src/Base/Tasks.antt =====
-- Async code: a task runs in the world outside the program, which it takes and returns, and answers
-- or throws.
use mathlib.Core.Path.{◌≡◌, refl, ap}
use mathlib.Core.Bool.{Bool, true, false}
use phalnx.Base.Results.{Result, ok, err, value_or}
use phalnx.Base.Tests.{if◌then◌else◌}

abbrev pub Task {ℓ κ μ} : Type ℓ → Type κ → Type μ → Type (ℓ ⊔ κ ⊔ μ)
Task World E A = World → Result E A × World

module _ {ℓ κ} {World : Type ℓ} {Thrown : Type κ} where
  -- A value, with no effect.
  abbrev pub pure {μ} : {Value : Type μ} → Value → Task World Thrown Value
  pure value w = (ok value, w)

  abbrev pub throw {μ} : {Value : Type μ} → Thrown → Task World Thrown Value
  throw error w = (err error, w)

  -- A computation without effect that may throw.
  abbrev pub lift {μ} : {Value : Type μ} → Result Thrown Value → Task World Thrown Value
  lift result w = (result, w)

  abbrev pub continue {μ ν} :
      {Value : Type μ} {Answer : Type ν}
      → Result Thrown Value × World
      → (Value → Task World Thrown Answer)
      → Result Thrown Answer × World
  continue (err error, w) rest = (err error, w)
  continue (ok value, w) rest = rest value w

  infixl 5 ◌>=>◌
  -- `await`: the rest runs with the answer, unless something was thrown.
  abbrev pub ◌>=>◌ {μ ν} :
      {Value : Type μ} {Answer : Type ν}
      → Task World Thrown Value
      → (Value → Task World Thrown Answer)
      → Task World Thrown Answer
  (task >=> rest) w = continue (task w) rest

  continue-eq-ok {μ ν} :
      {Value : Type μ} {Answer : Type ν} (r : Result Thrown Value × World)
      (rest : Value → Task World Thrown Answer) {answer : Answer} {w' : World}
      → continue r rest ≡ (ok answer, w')
      → (value : Value) × (w1 : World) × (r ≡ (ok value, w1)) × (rest value w1 ≡ (ok answer, w'))
  continue-eq-ok (err error, w) rest h = cc
  continue-eq-ok (ok value, w) rest h = (value, w, refl, h)

  -- What was answered went through an answer of the first part.
  pub >=>-eq-ok {μ ν} :
      {Value : Type μ} {Answer : Type ν} (task : Task World Thrown Value)
      (rest : Value → Task World Thrown Answer) {answer : Answer} {w w' : World}
      → (task >=> rest) w ≡ (ok answer, w')
      → (value : Value) × (w1 : World) × (task w ≡ (ok value, w1))
        × (rest value w1 ≡ (ok answer, w'))
  >=>-eq-ok task rest {w = w} h = continue-eq-ok (task w) rest h

  pub lift-eq-ok {μ ν} :
      {Value : Type μ} {Answer : Type ν} (r : Result Thrown Value)
      (rest : Value → Task World Thrown Answer) {answer : Answer} {w w' : World}
      → (lift r >=> rest) w ≡ (ok answer, w')
      → (value : Value) × (r ≡ ok value) × (rest value w ≡ (ok answer, w'))
  lift-eq-ok (err error) rest h = cc
  lift-eq-ok (ok value) rest h = (value, refl, h)

  -- An answer came from the branch that answers.
  pub if-eq-ok {μ} :
      {Value : Type μ} (test : Bool) (value answer : Value) (error : Thrown) (w w1 w' : World)
      → ◌≡◌ {A = Result Thrown Value × World}
          (if test then (ok value, w) else (err error, w1))
          (ok answer, w')
      → (test ≡ true) × (value ≡ answer)
  if-eq-ok true value answer error w w1 w' h = (refl, ap (λ r. value_or value r.0) h)
  if-eq-ok false value answer error w w1 w' h = cc (ap (λ r. r.0) h)
