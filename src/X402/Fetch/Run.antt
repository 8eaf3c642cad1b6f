-- ===== src/X402/Fetch/Run.antt =====
-- shielded-fetch.ts: the flow of shieldedFetch.
use phalnx.Base.{not, ◌||◌, none, String, str_eq, ok, throw_if, lift, ◌>=>◌, if◌then◌else◌, ◌==◌}
use phalnx.X402.{PaymentRequirements}
use phalnx.X402.Selector.{select_payment_option}
use phalnx.X402.Codec.{decode_payment_required_header}
use phalnx.X402.Fetch.{
  FetchConfig, FetchOptions, Settled, FetchServices, already_attempted, not_parsed, not_selected,
  passed_through,
}
use phalnx.X402.Fetch.Checks.{
  Step, outside, mapped, check_url, check_replay, check_amount, check_policy,
}
use phalnx.X402.Fetch.Payment.{pay, settle, finish}

module _ {World : Type 0} (s : FetchServices World) where
  -- Steps 10 to 17.
  unfoldable pub make_payment :
      FetchConfig → FetchOptions → String → PaymentRequirements → Step s Settled
  unfolding check_amount check_policy pay settle
  make_payment config options url selected st =
      (lift (check_amount s config options selected st) >=> λ amount.
      check_policy s config selected >=> λ _. finish s config options url selected amount)
        st

  -- Steps 6 to 17.
  unfoldable pub answer_402 : FetchConfig → FetchOptions → String → String → Step s Settled
  unfolding check_replay make_payment
  answer_402 config options url header =
      lift (throw_if options.sends_signature already_attempted) >=> λ _.
      lift (
        mapped s not_parsed
          (decode_payment_required_header s.base64_decode s.parse_json s.big_int header))
      >=> λ accepts.
          lift (mapped s not_selected (select_payment_option config.config accepts)) >=> λ selected.
          check_replay s config url selected >=> λ _. make_payment config options url selected

  unfoldable pub shielded_fetch : FetchConfig → FetchOptions → String → Step s Settled
  unfolding check_url answer_402
  shielded_fetch config options url = lift (check_url s config.allow_insecure_urls url) >=> λ _.
      outside s (s.request url none) >=> λ response.
      if not (response.status == 402) || str_eq response.payment_required ""
      then (λ st. (ok passed_through, st))
      else answer_402 config options url response.payment_required
