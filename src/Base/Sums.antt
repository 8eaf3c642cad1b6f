-- ===== src/Base/Sums.antt =====
-- Sums over lists: the source's `reduce((sum, e) => sum + e.amount, 0n)`.
use Prim.Native.Nat.{ℕ, ◌+◌, ◌≤◌}
use mathlib.Core.Path.{◌≡◌, refl}
use mathlib.Core.Bool.{Bool}
use mathlib.Core.List.{List, [], ◌∷◌, ◌++◌}
use native.Mathlib.Omega.{arith}
use phalnx.Base.Lists.{filter_by}

module _ {ℓ} {A : Type ℓ} where
  abbrev pub sum_by : (A → ℕ) → List A → ℕ
  sum_by f [] = 0
  sum_by f (x ∷ xs) = f x + sum_by f xs

  pub sum_by-append : (f : A → ℕ) (xs ys : List A) → sum_by f (xs ++ ys) ≡ sum_by f xs + sum_by f ys
  sum_by-append f [] ys = omega arith
  sum_by-append f (x ∷ xs) ys = omega (arith, sum_by-append f xs ys)

  -- Keeping fewer entries cannot raise the sum.
  pub sum_by-filter_by-le :
      (f : A → ℕ) (p : A → Bool) (xs : List A) → sum_by f (filter_by p xs) ≤ sum_by f xs
  sum_by-filter_by-le f p [] = omega arith
  sum_by-filter_by-le f p (x ∷ xs) = ground (arith, sum_by-filter_by-le f p xs)

  pub filter_by-append :
      (p : A → Bool) (xs ys : List A) → filter_by p (xs ++ ys) ≡ filter_by p xs ++ filter_by p ys
  filter_by-append p [] ys = refl
  filter_by-append p (x ∷ xs) ys = ground (arith, filter_by-append p xs ys)
