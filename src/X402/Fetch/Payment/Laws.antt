-- ===== src/X402/Fetch/Payment/Laws.antt =====
-- What is reported as paid is the selected option, and no dry run.
use phalnx.Base.{
  ℕ, ◌≡◌, refl, ap, Bool, true, false, [], ◌∷◌, ◌++◌, String, Result, ok, ◌>=>◌, >=>-eq-ok,
  if◌then◌else◌,
}
use phalnx.X402.{PaymentRequirements}
use phalnx.X402.Fetch.{
  FetchError, FetchConfig, FetchOptions, Response, Settled, Confirmation, PaymentState,
  FetchServices, dry, paid, not_paid,
}
use phalnx.X402.Fetch.Checks.{Step}
use phalnx.X402.Fetch.Payment.{
  is_success, pay, record_attempt, confirmation, report, settle, finish,
}

module _ {World : Type 0} (s : FetchServices World) (config : FetchConfig) (options : FetchOptions)
    (url : String) where
  settled-paid :
      (test : Bool) (selected answered : PaymentRequirements) (amount : ℕ)
      (task : Step s Confirmation) (st1 st2 st' : PaymentState World)
      → ◌≡◌ {A = Result FetchError Settled × PaymentState World}
          (if test then (task >=> report s selected amount) st1 else (ok (not_paid selected), st2))
          (ok (paid answered), st')
      → selected ≡ answered
  settled-paid true selected answered amount task st1 st2 st' h =
      let (c, st3, _, r) = >=>-eq-ok task (report s selected amount) h in
      let ends : ◌≡◌ {A = Result FetchError Settled} (ok (paid selected)) (ok (paid answered)) =
        ap (λ x. x.0) r in
      cc
  settled-paid false selected answered amount task st1 st2 st' h = cc (ap (λ x. x.0) h)

  settle-paid :
      (selected answered : PaymentRequirements) (amount : ℕ) (response : Response)
      (st st' : PaymentState World)
      → settle s config url selected amount response st ≡ (ok (paid answered), st')
      → selected ≡ answered
  unfolding settle
  settle-paid selected answered amount response st st' h =
      settled-paid (is_success s response) selected answered amount
        (confirmation s config.confirm_payment (s.settlement response.payment_response))
        (record_attempt s config url selected amount st)
        (record st { events = st.events ++ ((false, selected) ∷ []) }) st' h

  finished-paid :
      (test : Bool) (selected answered : PaymentRequirements) (st st' : PaymentState World)
      (pay : Step s Response) (settle : Response → Step s Settled)
      → ((response : Response) (st1 : PaymentState World)
          → settle response st1 ≡ (ok (paid answered), st')
          → selected ≡ answered)
      → (if test then (λ st. (ok (dry selected), st)) else pay >=> settle) st
        ≡ (ok (paid answered), st')
      → (test ≡ false) × (selected ≡ answered)
  finished-paid true selected answered st st' pay settle same h = cc (ap (λ x. x.0) h)
  finished-paid false selected answered st st' pay settle same h =
      let (response, st1, _, r) = >=>-eq-ok pay settle h in (refl, same response st1 r)

  pub finish-paid :
      (selected answered : PaymentRequirements) (amount : ℕ) (st st' : PaymentState World)
      → finish s config options url selected amount st ≡ (ok (paid answered), st')
      → (options.dry_run ≡ false) × (selected ≡ answered)
  finish-paid selected answered amount st st' h =
      finished-paid options.dry_run selected answered st st'
        (pay s config options url selected amount) (settle s config url selected amount)
        (λ response st1. settle-paid selected answered amount response st1 st') h
