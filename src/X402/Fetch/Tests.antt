-- ===== src/X402/Fetch/Tests.antt =====
-- A request that is answered 402, paid, and accepted.
use phalnx.Base.{ℕ, suc, ◌+◌, ◌≡◌, refl, ap, true, false, [], ◌∷◌, none, some, ok}
use phalnx.Core.Policies.{or_default, day_ms}
use phalnx.Policies.{resolve_policies}
use phalnx.Inspector.{analyze_instructions}
use phalnx.Shield.State.{initial, get_total_spend_in_window}
use phalnx.Shield.Context.{Context}
use phalnx.X402.{PaymentRequirements, X402Config, ℤ, pos, negsuc}
use phalnx.X402.Selector.{
  select_payment_option, answer, is_eligible, is_payable, select_payment_option-eq,
}
use phalnx.X402.Amounts.{
  WithinCeiling, NoSpike, validate_payment_amount, validate_payment_amount_iff,
}
use phalnx.X402.Nonces.{drop_last_slash, check_or_throw, build_key, gc, is_duplicate}
use phalnx.X402.Codec.{ParsedHeader, check_entries, decode_payment_required_header}
use phalnx.X402.Fetch.Approved.{IsSecure}
use phalnx.X402.Fetch.{
  Response, FetchConfig, FetchOptions, PaymentState, FetchServices, paid, confirmed,
}
use phalnx.X402.Fetch.Checks.{check_url, check_replay, check_amount, check_policy}
use phalnx.X402.Fetch.Payment.{retry, pay, record_attempt, settle}
use phalnx.X402.Fetch.Run.{make_payment, answer_402, shielded_fetch}
use phalnx.X402.Fetch.Laws.{IsApproved, shielded_fetch-IsApproved}
use phalnx.X402.Bridge.{
  synthetic_instruction, check_cumulative, check_per_request, check_shield, evaluate_x402_payment,
}
use phalnx.X402.Tests.{config, big_int, recent, without_query, context, selected}

abbrev header : ParsedHeader
header = record {
  version_is_number = true;
  accepts = some (
      some record {
        scheme = some "exact";
        network = some "solana:main";
        asset = some "usdc";
        amount = some "300";
        pay_to = some "shop";
        max_timeout_seconds = 60;
      }
      ∷ []);
}

-- A server that asks for a payment until it gets one; the world counts the calls.
abbrev services : FetchServices ℕ
services = record {
  now_ms = λ calls. 1000 + calls;
  request = λ url payment calls. elim payment [
    | none ↦
        (ok record { status = 402; payment_required = "header"; payment_response = "" }, suc calls)
    | some signed ↦
        (ok record { status = 200; payment_required = ""; payment_response = "tx" }, suc calls)
  ];
  sign = λ selected amount calls. (ok "signed", suc calls);
  settlement = λ response. some response;
  confirm = λ transaction calls. (ok confirmed, suc calls);
  without_query = without_query;
  base64_decode = λ text. some text;
  parse_json = λ json. some (some header);
  big_int = big_int;
  signer = "agent";
}

abbrev fetch_config : FetchConfig
fetch_config = record {
  config = config;
  max_retries = none;
  enable_replay_protection = true;
  allow_insecure_urls = false;
  confirm_payment = true;
}

abbrev fetch_options : FetchOptions
fetch_options = record {
  max_payment = some 400;
  dry_run = false;
  sends_signature = false;
  has_rpc = true;
}

abbrev at_start : PaymentState ℕ
at_start = record {
  tracker = record { storage = []; external_storage = none; ttl_ms = 1000 };
  recent_amounts = recent;
  context = some context;
  events = [];
  world = 0;
}

answers :
    (shielded_fetch services fetch_config fetch_options "https://api/x" at_start).0
    ≡ ok (paid selected)
unfolding shielded_fetch check_url answer_402 check_replay make_payment check_amount check_policy
    pay retry settle record_attempt decode_payment_required_header check_entries
    phalnx.X402.Codec.check_entry select_payment_option phalnx.X402.Selector.select_from
    check_or_throw is_duplicate build_key gc validate_payment_amount evaluate_x402_payment
    check_cumulative check_per_request check_shield get_total_spend_in_window initial
    phalnx.X402.Amounts.get_median phalnx.X402.Amounts.sort_amounts
    phalnx.X402.Amounts.insert_amount phalnx.X402.Amounts.check_parsed phalnx.Shield.Context.check
    phalnx.Shield.Context.evaluate phalnx.Shield.Evaluate.evaluate_instructions
    phalnx.Shield.Evaluate.violations_of phalnx.Shield.Evaluate.check_programs resolve_policies
    phalnx.Core.Policies.resolve_policies phalnx.Shield.Evaluate.check_spend_limits
    phalnx.Shield.Evaluate.check_spend_limit phalnx.Shield.State.get_spend_in_window
    phalnx.Shield.Evaluate.tx_spend analyze_instructions phalnx.Shield.Evaluate.check_rate_limit
    phalnx.Shield.State.get_transaction_count_in_window phalnx.Core.Policies.default_max_spend
    phalnx.Core.Policies.default_rate_limit phalnx.Inspector.analyze_from
    phalnx.Inspector.analyze_instruction phalnx.Inspector.transfer_of
    phalnx.Network.is_stablecoin_mint phalnx.Shield.Evaluate.check_allowed
    phalnx.Shield.Evaluate.check_allowlist phalnx.Shield.Evaluate.check_caps
    phalnx.Shield.Evaluate.check_custom phalnx.Shield.Evaluate.check_on_chain
    phalnx.Shield.Evaluate.check_synced phalnx.Shield.Evaluate.compute_stablecoin_usd
    phalnx.Shield.Evaluate.system_programs synthetic_instruction drop_last_slash
answers = refl

fetched : shielded_fetch services fetch_config fetch_options "https://api/x" at_start ≡ (
  ok (paid selected),
  (shielded_fetch services fetch_config fetch_options "https://api/x" at_start).1,
)
fetched =
    ap
      (λ answer.
        (answer, (shielded_fetch services fetch_config fetch_options "https://api/x" at_start).1))
      answers

shielded_fetch-IsApproved_example :
    (response : Response) × (w : ℕ) × IsSecure false "https://api/x"
    × (services.request "https://api/x" none 0 ≡ (ok response, w))
    × (response.status ≡ 402)
    × IsApproved services fetch_config fetch_options "https://api/x" response.payment_required
        (1000 + w)
        at_start.tracker
        recent
        (some context)
        selected
shielded_fetch-IsApproved_example =
    shielded_fetch-IsApproved services fetch_config fetch_options "https://api/x" selected at_start
      (shielded_fetch services fetch_config fetch_options "https://api/x" at_start).1 fetched
