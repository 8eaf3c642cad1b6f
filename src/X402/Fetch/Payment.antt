-- ===== src/X402/Fetch/Payment.antt =====
-- shielded-fetch.ts, steps 12 to 17: the payment, its attempts, and what is recorded of it.
pub mod Laws
use text.Mathlib.Text.{starts_with}
use phalnx.Base.{
  ℕ, zero, suc, ◌+◌, ◌-◌, Bool, true, false, not, ◌&&◌, ◌||◌, List, [], ◌∷◌, ◌++◌, Option, none,
  some, String, str_eq, min, max, Result, ok, err, ◌>>=◌, Task, throw_if, guard, lift, ◌>=>◌,
  if◌then◌else◌, ltb, leb, ◌==◌, length,
}
use phalnx.X402.{PaymentRequirements, X402Config, ℤ, pos, negsuc}
use phalnx.X402.Selector.{SelectionError, select_payment_option}
use phalnx.X402.Nonces.{NonceTracker, check_or_throw, record_payment}
use phalnx.X402.Amounts.{AmountError, validate_payment_amount, record_payment_amount}
use phalnx.X402.Bridge.{BridgeError, PaymentViolation, evaluate_x402_payment, record_x402_spend}
use phalnx.X402.Codec.{ParseError, ParsedHeader, decode_payment_required_header}
use phalnx.Shield.Context.{Context}
use phalnx.X402.Fetch.{
  FetchError, FetchConfig, FetchOptions, Response, Settled, Confirmation, PaymentState,
  FetchServices, insecure_url, already_attempted, above_max_payment, no_rpc, not_parsed,
  not_selected, replayed, bad_amount, not_evaluated, denied_by_policy, external, passed_through,
  dry, paid, not_paid, confirmed, failed, timeout,
}
use phalnx.X402.Fetch.Checks.{
  Step, answered, outside, no_external, unchanged, mapped, check_url, check_nonce, check_replay,
  check_max, check_amount, none_found, evaluated, is_denial, check_policy,
}

module _ {World : Type 0} (s : FetchServices World) where
  abbrev pub is_success : Response → Bool
  is_success response = leb 200 response.status && ltb response.status 300

  -- The further attempts of step 15, while the answer is no success.
  unfoldable pub retry : ℕ → String → String → Response → Step s Response
  retry zero url payment response st = (ok response, st)
  retry (suc left) url payment response st =
      if is_success response
      then (ok response, st)
      else (outside s (s.request url (some payment)) >=> λ again. retry left url payment again) st

  abbrev pub tries : Option ℕ → ℕ
  tries none = 1
  tries (some n) = min (max n 1) 3

  -- Steps 13 to 15.
  unfoldable pub pay :
      FetchConfig → FetchOptions → String → PaymentRequirements → ℕ → Step s Response
  unfolding retry
  pay config options url selected amount = lift (guard options.has_rpc no_rpc) >=> λ _.
      outside s (s.sign selected amount) >=> λ payment.
      outside s (s.request url (some payment)) >=> λ response.
      retry (tries config.max_retries - 1) url payment response

  abbrev pub record_nonce :
      Bool → String → PaymentRequirements → ℕ → NonceTracker (Unit {0}) → NonceTracker (Unit {0})
  record_nonce false url selected now tracker = tracker
  record_nonce true url selected now tracker =
      record_payment s.without_query (no_external s) (unchanged s) url selected.pay_to
        selected.amount now tracker

  -- The part of step 17 before the confirmation.
  unfoldable pub record_attempt :
      FetchConfig → String → PaymentRequirements → ℕ → PaymentState World → PaymentState World
  record_attempt config url selected amount st = record st {
    tracker =
        record_nonce config.enable_replay_protection url selected (s.now_ms st.world) st.tracker;
    recent_amounts = record_payment_amount amount st.recent_amounts;
  }

  abbrev pub confirmation : Bool → Option String → Step s Confirmation
  confirmation true (some transaction) = outside s (s.confirm transaction)
  confirmation _ _ = λ st. (ok confirmed, st)

  abbrev pub spent : Option Context → Confirmation → String → ℕ → ℕ → Option Context
  spent none c asset amount now = none
  spent (some context) failed asset amount now = some context
  spent (some context) _ asset amount now = some (record_x402_spend asset amount now context)

  abbrev pub report : PaymentRequirements → ℕ → Confirmation → Step s Settled
  report selected amount c st = (
    ok (paid selected),
    record st {
      context = spent st.context c selected.asset amount (s.now_ms st.world);
      events = st.events ++ ((true, selected) ∷ []);
    },
  )

  -- Step 17: what is recorded of a payment that the server accepted.
  unfoldable pub settle : FetchConfig → String → PaymentRequirements → ℕ → Response → Step s Settled
  unfolding record_attempt
  settle config url selected amount response st =
      if is_success response
      then (confirmation config.confirm_payment (s.settlement response.payment_response)
            >=> report selected amount)
          (record_attempt config url selected amount st)
      else (ok (not_paid selected), record st { events = st.events ++ ((false, selected) ∷ []) })

  abbrev pub finish : FetchConfig → FetchOptions → String → PaymentRequirements → ℕ → Step s Settled
  finish config options url selected amount =
      if options.dry_run
      then (λ st. (ok (dry selected), st))
      else pay config options url selected amount >=> settle config url selected amount
