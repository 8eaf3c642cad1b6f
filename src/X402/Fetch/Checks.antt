-- ===== src/X402/Fetch/Checks.antt =====
-- shielded-fetch.ts, steps 1 and 9 to 11: what is checked before a payment is made.
use text.Mathlib.Text.{starts_with}
use phalnx.Base.{
  ℕ, Bool, true, false, ◌&&◌, List, [], ◌∷◌, ◌++◌, Option, none, some, String, Result, ok, err,
  ◌>>=◌, Task, throw_if, if◌then◌else◌, ltb,
}
use phalnx.X402.{PaymentRequirements, X402Config}
use phalnx.X402.Nonces.{NonceTracker, check_or_throw}
use phalnx.X402.Amounts.{validate_payment_amount}
use phalnx.X402.Bridge.{PaymentViolation, evaluate_x402_payment}
use phalnx.Shield.Context.{Context}
use phalnx.X402.Fetch.{
  FetchError, FetchConfig, FetchOptions, PaymentState, FetchServices, insecure_url,
  above_max_payment, replayed, bad_amount, not_evaluated, denied_by_policy, external,
}

module _ {World : Type 0} (s : FetchServices World) where
  abbrev pub Step {κ} : Type κ → Type κ
  Step A = Task (PaymentState World) FetchError A

  abbrev pub answered {κ} :
      {A : Type κ}
      → PaymentState World
      → Result String A × World
      → Result FetchError A × PaymentState World
  answered st (err message, w) = (err (external message), record st { world = w })
  answered st (ok a, w) = (ok a, record st { world = w })

  -- A call outside: what it throws is passed on.
  abbrev pub outside {κ} : {A : Type κ} → Task World String A → Step A
  outside task st = answered st (task st.world)

  abbrev pub no_external : Unit {0} → String → Bool
  no_external x key = false

  abbrev pub unchanged : Unit {0} → String → ℕ → Unit {0}
  unchanged x key expires_at = x

  -- An error of a part is one of the flow.
  abbrev pub mapped {κ ν} :
      {E : Type κ} {A : Type ν} → (E → FetchError) → Result E A → Result FetchError A
  mapped f (err e) = err (f e)
  mapped f (ok a) = ok a

  unfoldable pub check_url : Bool → String → Result FetchError (Unit {0})
  check_url insecure url =
      if starts_with url "https://"
      then ok tt
      else if insecure && starts_with url "http://"
      then ok tt
      else err insecure_url

  abbrev pub check_nonce :
      Bool
      → String
      → PaymentRequirements
      → ℕ
      → NonceTracker (Unit {0})
      → Result FetchError (Unit {0}) × NonceTracker (Unit {0})
  check_nonce false url selected now tracker = (ok tt, tracker)
  check_nonce true url selected now tracker =
      let (checked, tracker') =
        check_or_throw s.without_query no_external unchanged url selected.pay_to selected.amount now
          tracker in
      (mapped replayed checked, tracker')

  -- Step 9: a payment that is still recorded is not made again.
  unfoldable pub check_replay : FetchConfig → String → PaymentRequirements → Step (Unit {0})
  check_replay config url selected st =
      let (checked, tracker) =
        check_nonce config.enable_replay_protection url selected (s.now_ms st.world) st.tracker in
      (checked, record st { tracker = tracker })

  abbrev pub check_max : Option ℕ → ℕ → Result FetchError (Unit {0})
  check_max none amount = ok tt
  check_max (some ceiling) amount = throw_if (ltb ceiling amount) above_max_payment

  -- Step 10.
  unfoldable pub check_amount :
      FetchConfig → FetchOptions → PaymentRequirements → PaymentState World → Result FetchError ℕ
  check_amount config options selected st =
      mapped bad_amount
        (validate_payment_amount s.big_int config.config st.recent_amounts selected.amount)
      >>= λ amount. check_max options.max_payment amount >>= λ _. ok amount

  abbrev pub none_found : List PaymentViolation → Result FetchError (Unit {0})
  none_found [] = ok tt
  none_found (v ∷ vs) = err (denied_by_policy (v ∷ vs))

  abbrev pub evaluated :
      Option Context → X402Config → PaymentRequirements → ℕ → Result FetchError (Unit {0})
  evaluated none config selected now = ok tt
  evaluated (some c) config selected now =
      mapped not_evaluated (evaluate_x402_payment s.big_int selected c config (some s.signer) now)
      >>= none_found

  abbrev pub is_denial : Result FetchError (Unit {0}) → Bool
  is_denial (err (denied_by_policy vs)) = true
  is_denial _ = false

  -- Step 11: a denial is reported, and thrown.
  unfoldable pub check_policy : FetchConfig → PaymentRequirements → Step (Unit {0})
  check_policy config selected st =
      let result = evaluated st.context config.config selected (s.now_ms st.world) in
      (
        result,
        if is_denial result
            then record st { events = st.events ++ ((false, selected) ∷ []) }
            else st,
      )
