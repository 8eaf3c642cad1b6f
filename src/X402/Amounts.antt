-- ===== src/X402/Amounts.antt =====
-- sdk/kit/src/x402/amount-guard.ts: the amount of a payment, and the history of recent payments, the
-- module's array, which the operations take and return.
use phalnx.Base.{
  ℕ, ◌+◌, ◌-◌, ◌*◌, ◌/◌, ◌%◌, ◌≤◌, ◌<◌, ◌≡◌, ◌↔◌, ◌⊎◌, refl, sym, Bool, false, ◌&&◌, List, [], ◌∷◌,
  ◌++◌, Option, none, some, String, Result, ok, err, ltb, leb, ◌==◌, if◌then◌else◌, length, get_or,
  drop, arith, length-append, length-drop,
}
use phalnx.X402.{X402Config, ℤ, pos, negsuc}

abbrev pub max_recent : ℕ
max_recent = 20

abbrev pub spike_multiplier : ℕ
spike_multiplier = 10

-- X402PaymentError, by the check that throws it.
pub data AmountError : Type 0 where
  not_an_integer not_positive above_ceiling suspicious_spike : AmountError

unfoldable pub insert_amount : ℕ → List ℕ → List ℕ
insert_amount a [] = a ∷ []
insert_amount a (b ∷ bs) = let rest = insert_amount a bs in if leb a b then a ∷ b ∷ bs else b ∷ rest

unfoldable pub sort_amounts : List ℕ → List ℕ
sort_amounts [] = []
sort_amounts (a ∷ rest) = insert_amount a (sort_amounts rest)

unfoldable pub get_median : List ℕ → ℕ
get_median amounts =
    let sorted = sort_amounts amounts in
    let mid = length sorted / 2 in
    if length sorted % 2 == 0
    then (get_or sorted (mid - 1) 0 + get_or sorted mid 0) / 2
    else get_or sorted mid 0

abbrev exceeds : Option ℕ → ℕ → Bool
exceeds none n = false
exceeds (some ceiling) n = ltb ceiling n

abbrev is_spike : List ℕ → ℕ → Bool
is_spike recent n =
    leb 3 (length recent)
    && (ltb 0 (get_median recent) && ltb (get_median recent * spike_multiplier) n)

unfoldable pub check_parsed : X402Config → List ℕ → Option ℤ → Result AmountError ℕ
check_parsed config recent none = err not_an_integer
check_parsed config recent (some (negsuc n)) = err not_positive
check_parsed config recent (some (pos n)) =
    if n == 0
    then err not_positive
    else if exceeds config.max_payment_per_request n
    then err above_ceiling
    else if is_spike recent n
    then err suspicious_spike
    else ok n

unfoldable pub record_payment_amount : ℕ → List ℕ → List ℕ
record_payment_amount amount recent =
    let pushed = recent ++ amount ∷ [] in
    if ltb max_recent (length pushed) then drop 1 pushed else pushed

module _ (big_int : String → Option ℤ) where
  -- (The amount is a text by its type.)
  unfoldable pub validate_payment_amount : X402Config → List ℕ → String → Result AmountError ℕ
  unfolding check_parsed
  validate_payment_amount config recent amount = check_parsed config recent (big_int amount)

-- Recording an amount keeps a history of at most 20 amounts at no more than 20.
pub length-record_payment_amount-le :
    (amount : ℕ) (recent : List ℕ)
    → length recent ≤ max_recent
    → length (record_payment_amount amount recent) ≤ max_recent
unfolding record_payment_amount
length-record_payment_amount-le amount recent h =
    ground (arith, length-append recent (amount ∷ []), length-drop 1 (recent ++ amount ∷ []))

abbrev pub WithinCeiling : Option ℕ → ℕ → Type 0
WithinCeiling none n = Unit
WithinCeiling (some ceiling) n = n ≤ ceiling

-- With three recent payments, an amount is at most ten times a median that is above 0.
abbrev pub NoSpike : List ℕ → ℕ → Type 0
NoSpike recent n = (length recent < 3) ⊎ ((get_median recent ≡ 0) ⊎ (n ≤ get_median recent * 10))

ceiling_iff : (ceiling : Option ℕ) (n : ℕ) → (exceeds ceiling n ≡ false) ↔ WithinCeiling ceiling n
ceiling_iff none n = ground arith
ceiling_iff (some c) n = ground arith

spike_iff : (recent : List ℕ) (n : ℕ) → (is_spike recent n ≡ false) ↔ NoSpike recent n
spike_iff recent n = ground arith

pos-eq : {m n : ℕ} → some (pos m) ≡ some (pos n) → m ≡ n
pos-eq h = ground (arith, h)

check_accepts :
    (config : X402Config) (recent : List ℕ) (n : ℕ)
    → 0 < n
    → WithinCeiling config.max_payment_per_request n
    → NoSpike recent n
    → check_parsed config recent (some (pos n)) ≡ ok n
unfolding check_parsed
check_accepts config recent n h c s =
    ground (arith, (ceiling_iff config.max_payment_per_request n).1 c, (spike_iff recent n).1 s)

check_refuses :
    (config : X402Config) (recent : List ℕ) (m n : ℕ)
    → check_parsed config recent (some (pos m)) ≡ ok n
    → (m ≡ n)
      × (0 < m)
      × (exceeds config.max_payment_per_request m ≡ false)
      × (is_spike recent m ≡ false)
unfolding check_parsed
check_refuses config recent m n h = ground (arith, h)

check_parsed_iff :
    (config : X402Config) (recent : List ℕ) (parsed : Option ℤ) (n : ℕ)
    → (check_parsed config recent parsed ≡ ok n) ↔ (
        (parsed ≡ some (pos n))
        × (0 < n)
        × WithinCeiling config.max_payment_per_request n
        × NoSpike recent n)
unfolding check_parsed
check_parsed_iff config recent none n = ground arith
check_parsed_iff config recent (some (negsuc m)) n = ground arith
check_parsed_iff config recent (some (pos m)) n = (
  λ h.
      let (e, positive, below, calm) = check_refuses config recent m n h in
      rw (sym e) (
        refl,
        positive,
        (ceiling_iff config.max_payment_per_request m).0 below,
        (spike_iff recent m).0 calm,
      ),
  λ (e, positive, below, calm). rw (pos-eq e) (check_accepts config recent n positive below calm),
)

-- An amount is accepted exactly if BigInt reads a positive number from it that is within the
-- configured ceiling and, where three payments or more are recent and their median is above 0, at
-- most ten times that median; the answer is then that number.
pub validate_payment_amount_iff :
    (big_int : String → Option ℤ) (config : X402Config) (recent : List ℕ) (amount : String) (n : ℕ)
    → (validate_payment_amount big_int config recent amount ≡ ok n) ↔ (
        (big_int amount ≡ some (pos n))
        × (0 < n)
        × WithinCeiling config.max_payment_per_request n
        × NoSpike recent n)
unfolding validate_payment_amount
validate_payment_amount_iff big_int config recent amount n =
    check_parsed_iff config recent (big_int amount) n
