-- ===== src/Base/Lists.antt =====
-- Lists measured by native numbers, and the Boolean list operations of the source's arrays and sets.
use Prim.Native.Nat.{ℕ, zero, suc, ◌+◌, ◌-◌, ◌≤◌}
use Prim.Native.String.{String}
use mathlib.Core.Path.{◌≡◌, refl, sym, ap, ◌∙◌, subst}
use mathlib.Core.Logic.{◌↔◌}
use mathlib.Core.Bool.{Bool, true, false, ◌||◌}
use mathlib.Core.List.{List, [], ◌∷◌, ◌++◌}
use mathlib.Core.Option.{Option, none, some}
use native.Mathlib.Omega.{arith}
use text.Mathlib.Text.{◌==◌ as str_eq}
use text.Mathlib.TextEquality.{eq_iff}
use phalnx.Base.Tests.{if◌then◌else◌}

module _ {ℓ} {A : Type ℓ} where
  abbrev pub length : List A → ℕ
  length [] = 0
  length (x ∷ xs) = suc (length xs)

  abbrev pub get_elem? : List A → ℕ → Option A
  get_elem? [] i = none
  get_elem? (x ∷ xs) zero = some x
  get_elem? (x ∷ xs) (suc i) = get_elem? xs i

  abbrev pub get_or : List A → ℕ → A → A
  get_or [] i d = d
  get_or (x ∷ xs) zero d = x
  get_or (x ∷ xs) (suc i) d = get_or xs i d

  -- A write out of bounds changes nothing.
  abbrev pub set : List A → ℕ → A → List A
  set [] i v = []
  set (x ∷ xs) zero v = v ∷ xs
  set (x ∷ xs) (suc i) v = x ∷ set xs i v

  abbrev pub drop : ℕ → List A → List A
  drop zero xs = xs
  drop (suc n) [] = []
  drop (suc n) (x ∷ xs) = drop n xs

  -- `Array.prototype.filter`.
  abbrev pub filter_by : (A → Bool) → List A → List A
  filter_by p [] = []
  filter_by p (x ∷ xs) = let rest = filter_by p xs in if p x then x ∷ rest else rest

  -- `Array.prototype.find`.
  abbrev pub find_by : (A → Bool) → List A → Option A
  find_by p [] = none
  find_by p (x ∷ xs) = let rest = find_by p xs in if p x then some x else rest

  -- A predicate on every entry.
  abbrev pub All {κ} : (A → Type κ) → List A → Type κ
  All P [] = Unit
  All P (x ∷ xs) = P x × All P xs

  -- An entry of the list, with its position.
  pub data In (a : A) : List A → Type ℓ where
    here : {x : A} {xs : List A} → a ≡ x → In a (x ∷ xs)
    there : {x : A} {xs : List A} → In a xs → In a (x ∷ xs)

  pub length-append : (xs ys : List A) → length (xs ++ ys) ≡ length xs + length ys
  length-append [] ys = omega arith
  length-append (x ∷ xs) ys = omega (arith, length-append xs ys)

  pub length-filter_by-le : (p : A → Bool) (xs : List A) → length (filter_by p xs) ≤ length xs
  length-filter_by-le p [] = omega arith
  length-filter_by-le p (x ∷ xs) = ground (arith, length-filter_by-le p xs)

  pub length-drop : (n : ℕ) (xs : List A) → length (drop n xs) ≡ length xs - n
  length-drop zero xs = omega arith
  length-drop (suc n) [] = omega arith
  length-drop (suc n) (x ∷ xs) = omega (arith, length-drop n xs)

  pub append-eq-nil : (xs ys : List A) → xs ++ ys ≡ [] → (xs ≡ []) × (ys ≡ [])
  append-eq-nil [] ys h = (refl, h)
  append-eq-nil (x ∷ xs) ys h = cc

  pub append-eq-nil_iff : (xs ys : List A) → (xs ++ ys ≡ []) ↔ ((xs ≡ []) × (ys ≡ []))
  append-eq-nil_iff xs ys = (append-eq-nil xs ys, λ h. rw h.0 h.1)

module _ {ℓ} {A : Type ℓ} (test : A → Bool) where
  found-first :
      (x a : A) (xs : List A) (rest : Option A) (passed : Bool)
      → test x ≡ passed
      → (rest ≡ some a → In a xs × (test a ≡ true))
      → (if passed then some x else rest) ≡ some a
      → In a (x ∷ xs) × (test a ≡ true)
  found-first x a xs rest true same later h =
      let first : a ≡ x = cc in (here first, ap test first ∙ same)
  found-first x a xs rest false different later h =
      let (inside, passes) = later h in (there inside, passes)

  -- What is found is an entry that passes the test.
  pub find_by-eq-some : (xs : List A) (a : A) → find_by test xs ≡ some a → In a xs × (test a ≡ true)
  find_by-eq-some [] a h = cc
  find_by-eq-some (x ∷ xs) a h = found-first x a xs _ (test x) refl (find_by-eq-some xs a) h

module _ {ℓ κ} {A : Type ℓ} (P : A → Type κ) where
  pub All-In : (xs : List A) (a : A) → All P xs → In a xs → P a
  All-In [] a all inside = elim inside [ ]
  All-In (x ∷ xs) a (first, rest) (here same) = subst P (sym same) first
  All-In (x ∷ xs) a (first, rest) (there inside) = All-In xs a rest inside

module _ {ℓ κ μ} {A : Type ℓ} {P : A → Type κ} {Q : A → Type μ} where
  pub All-map : ((a : A) → P a → Q a) → (xs : List A) → All P xs → All Q xs
  All-map f [] h = tt
  All-map f (x ∷ xs) (first, rest) = (f x first, All-map f xs rest)

-- `Set.prototype.has` on a set of strings.
abbrev pub has : List String → String → Bool
has [] a = false
has (x ∷ xs) a = str_eq x a || has xs a

-- `Set.prototype.add`: insertion order, no repeats.
abbrev pub add : List String → String → List String
add s a = if has s a then s else s ++ a ∷ []

module _ {ℓ} {Value : Type ℓ} where
  -- `Map.prototype.set`: a present key keeps its place.
  abbrev pub insert : String → Value → List (String × Value) → List (String × Value)
  insert key value [] = (key, value) ∷ []
  insert key value ((k, old) ∷ entries) =
      let rest = insert key value entries in
      if str_eq k key then (k, value) ∷ entries else (k, old) ∷ rest

  -- `Map.prototype.get` on a map with string keys, in insertion order.
  abbrev pub lookup : String → List (String × Value) → Option Value
  lookup key [] = none
  lookup key ((k, value) ∷ entries) =
      let rest = lookup key entries in if str_eq k key then some value else rest

  pub lookup-insert :
      (key other : String) (value : Value) (entries : List (String × Value))
      → lookup other (insert key value entries)
        ≡ (if str_eq key other then some value else lookup other entries)
  lookup-insert key other value [] = refl
  lookup-insert key other value ((k, old) ∷ entries) =
      ground (
        arith,
        lookup-insert key other value entries,
        eq_iff k key,
        eq_iff k other,
        eq_iff key other,
      )
