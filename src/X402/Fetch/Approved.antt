-- ===== src/X402/Fetch/Approved.antt =====
-- What each check of shieldedFetch says of a payment, apart from the code of the check.
use text.Mathlib.Text.{starts_with}
use phalnx.Base.{
  ℕ, ◌<◌, ◌≡◌, ◌≢◌, ◌⊎◌, inl, inr, refl, sym, ap, ◌∙◌, Bool, true, false, List, [], ◌∷◌, Option,
  none, some, String, str_eq, eq_iff, Result, ok, err, ok-eq, >>=-eq-ok, ltb, has, In, here, there,
  All, filter_by, lookup, arith, Bool-cases,
}
use phalnx.Core.Policies.{or_default, day_ms}
use phalnx.Shield.State.{get_total_spend_in_window}
use phalnx.Shield.Context.{Context}
use phalnx.X402.{PaymentRequirements, X402Config}
use phalnx.X402.Selector.{is_allowed, is_eligible}
use phalnx.X402.Nonces.{
  NonceTracker, is_live, is_stored, build_key, gc, is_duplicate, check_or_throw,
}
use phalnx.X402.Amounts.{WithinCeiling}
use phalnx.X402.Bridge.{PaymentViolation, evaluate_x402_payment}
use phalnx.X402.Bridge.Laws.{
  WithinCumulative, WithinPayment, ShieldAllows, evaluate_x402_payment_iff,
}
use phalnx.X402.Fetch.{replayed, FetchError, FetchServices, not_evaluated}
use phalnx.X402.Fetch.Checks.{
  no_external, unchanged, mapped, check_url, check_nonce, check_max, none_found, evaluated,
}

-- A URL of HTTPS, or of HTTP where that is allowed.
abbrev pub IsSecure : Bool → String → Type 0
IsSecure insecure url =
    (starts_with url "https://" ≡ true) ⊎ ((insecure ≡ true) × (starts_with url "http://" ≡ true))

-- One of the allowed, where there is a list of them.
abbrev pub OneOf : Option (List String) → String → Type 0
OneOf none a = Unit
OneOf (some allowed) a = In a allowed

has-In : (xs : List String) (a : String) → has xs a ≡ true → In a xs
has-In [] a h = cc
has-In (x ∷ xs) a h = elim (Bool-cases (str_eq x a)) [
  | inl same ↦ here (sym ((eq_iff x a).0 same))
  | inr other ↦ there (has-In xs a (ground (arith, h, other)))
]

is_allowed-OneOf :
    (allowed : Option (List String)) (a : String) → is_allowed allowed a ≡ true → OneOf allowed a
is_allowed-OneOf none a h = tt
is_allowed-OneOf (some allowed) a h = has-In allowed a h

pub eligible-parts :
    (config : X402Config) (o : PaymentRequirements)
    → is_eligible config o ≡ true
    → (starts_with o.network "solana:" ≡ true)
      × OneOf config.allowed_tokens o.asset
      × OneOf config.allowed_destinations o.pay_to
eligible-parts config o h = (
  ground (arith, h),
  is_allowed-OneOf config.allowed_tokens o.asset (ground (arith, h)),
  is_allowed-OneOf config.allowed_destinations o.pay_to (ground (arith, h)),
)

-- No record of the payment that has not expired.
abbrev pub IsFresh : String → ℕ → List (String × ℕ) → Type 0
IsFresh key now records = All (λ entry. (entry.0 ≢ key) ⊎ (entry.1 < now)) records

not_stored-IsFresh :
    (key : String) (now : ℕ) (records : List (String × ℕ))
    → is_stored (lookup key (filter_by (is_live now) records)) ≡ false
    → IsFresh key now records
not_stored-IsFresh key now [] h = tt
not_stored-IsFresh key now ((k, expires) ∷ records) h = elim (Bool-cases (ltb expires now)) [
  | inl gone ↦
      (inr (ground (arith, gone)), not_stored-IsFresh key now records (ground (arith, h, gone)))
  | inr live ↦ elim (Bool-cases (str_eq k key)) [
    | inl same ↦ ground (arith, h, live, same)
    | inr other ↦ (
      inl (λ e. let equal = (eq_iff k key).1 e in cc),
      not_stored-IsFresh key now records (ground (arith, h, live, other)),
    )
  ]
]

module _ {World : Type 0} (s : FetchServices World) where
  pub check_url-IsSecure :
      (insecure : Bool) (url : String) → check_url s insecure url ≡ ok tt → IsSecure insecure url
  unfolding check_url
  check_url-IsSecure insecure url h = elim (Bool-cases (starts_with url "https://")) [
    | inl secure ↦ inl secure
    | inr plain ↦ inr (ground (arith, h, plain), ground (arith, h, plain))
  ]

  pub check_max-within :
      (given : Option ℕ) (amount : ℕ)
      → check_max s given amount ≡ ok tt
      → WithinCeiling given amount
  check_max-within none amount h = tt
  check_max-within (some ceiling) amount h = ground (arith, h)

  -- The protection against replays is off, or there is no record of the payment.
  abbrev pub IsUnseen : Bool → String → PaymentRequirements → ℕ → NonceTracker (Unit {0}) → Type 0
  IsUnseen protected url selected now tracker =
      (protected ≡ false)
      ⊎ IsFresh (build_key s.without_query url selected.pay_to selected.amount) now tracker.storage

  not_duplicate :
      (url : String) (selected : PaymentRequirements) (now : ℕ) (tracker : NonceTracker (Unit {0}))
      → (mapped s replayed
          (check_or_throw s.without_query
            (no_external s)
            (unchanged s)
            url
            selected.pay_to
            selected.amount
            now
            tracker).0)
        ≡ ok tt
      → is_stored (
          lookup
            (build_key s.without_query url selected.pay_to selected.amount)
            (filter_by (is_live now) tracker.storage))
        ≡ false
  unfolding check_or_throw is_duplicate gc
  not_duplicate url selected now tracker h = ground (arith, h)

  pub check_nonce-IsUnseen :
      (protected : Bool) (url : String) (selected : PaymentRequirements) (now : ℕ)
      (tracker : NonceTracker (Unit {0}))
      → (check_nonce s protected url selected now tracker).0 ≡ ok tt
      → IsUnseen protected url selected now tracker
  check_nonce-IsUnseen false url selected now tracker h = inl refl
  check_nonce-IsUnseen true url selected now tracker h =
      inr (not_stored-IsFresh _ now tracker.storage (not_duplicate url selected now tracker h))

  -- Where the caller has a shield, it is not paused, and the payment is within its limits and allowed.
  abbrev pub ShieldPermits : Option Context → X402Config → PaymentRequirements → ℕ → Type 0
  ShieldPermits none config selected now = Unit
  ShieldPermits (some c) config selected now =
      (c.is_paused ≡ false)
      × WithinCumulative config.max_cumulative_spend (s.big_int selected.amount)
          (get_total_spend_in_window (or_default config.cumulative_window_ms day_ms) now c.state)
      × WithinPayment config.max_payment_per_request (s.big_int selected.amount)
      × ShieldAllows (some s.signer) selected c now

  none_found-ok : (vs : List PaymentViolation) → none_found s vs ≡ ok tt → vs ≡ []
  none_found-ok [] h = refl
  none_found-ok (v ∷ vs) h = cc

  pub mapped-ok {κ ν} :
      {E : Type κ} {A : Type ν} (f : E → FetchError) (r : Result E A) (a : A)
      → mapped s f r ≡ ok a
      → r ≡ ok a
  mapped-ok f (err e) a h = cc
  mapped-ok f (ok b) a h = ap (λ x. ok x) (ok-eq h)

  pub evaluated-permits :
      (context : Option Context) (config : X402Config) (selected : PaymentRequirements) (now : ℕ)
      → evaluated s context config selected now ≡ ok tt
      → ShieldPermits context config selected now
  evaluated-permits none config selected now h = tt
  evaluated-permits (some c) config selected now h =
      let (vs, found, silent) =
        >>=-eq-ok
          (mapped s not_evaluated
            (evaluate_x402_payment s.big_int selected c config (some s.signer) now))
          (none_found s) h in
      let result = mapped-ok not_evaluated _ vs found in
      (evaluate_x402_payment_iff s.big_int selected c config (some s.signer) now).0
        (result ∙ ap (λ x. ok x) (none_found-ok vs silent))
