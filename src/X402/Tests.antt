-- ===== src/X402/Tests.antt =====
-- A payment for a resource, with concrete functions for the parameters.
use phalnx.Base.{
  ℕ, ◌≤◌, ◌<◌, ◌≡◌, ◌↔◌, refl, Bool, true, false, List, [], ◌∷◌, Option, none, some, String, str_eq,
  ok, if◌then◌else◌, find_by, filter_by, arith, has,
}
use phalnx.Core.Policies.{or_default, day_ms}
use phalnx.Policies.{resolve_policies}
use phalnx.Shield.State.{initial, get_total_spend_in_window}
use phalnx.Shield.Context.{Context}
use phalnx.X402.{PaymentRequirements, X402Config, ℤ, pos, negsuc}
use phalnx.X402.Selector.{
  select_payment_option, answer, is_eligible, is_payable, select_payment_option-eq,
}
use phalnx.X402.Amounts.{
  WithinCeiling, NoSpike, validate_payment_amount, validate_payment_amount_iff,
}
use phalnx.X402.Nonces.{
  NonceTracker, NonceCall, checking, recording, sizing, is_duplicate, record_payment, run,
}
use phalnx.X402.Nonces.Laws.{IsOrdered, is_duplicate-record_payment}
use phalnx.X402.Bridge.{
  check_cumulative, check_per_request, check_shield, evaluate_x402_payment, record_x402_spend,
}
use phalnx.X402.Bridge.Laws.{
  WithinCumulative, WithinPayment, ShieldAllows, evaluate_x402_payment_iff,
  record_x402_spend-within,
}

abbrev pub option : String → String → PaymentRequirements
option network pay_to = record {
  scheme = "exact";
  network = network;
  asset = "usdc";
  amount = "300";
  pay_to = pay_to;
  max_timeout_seconds = 60;
}

abbrev accepts : List PaymentRequirements
accepts = option "eip155:1" "shop" ∷ option "solana:main" "thief" ∷ option "solana:main" "shop" ∷ []

abbrev pub config : X402Config
config = record {
  allowed_destinations = some ("shop" ∷ []);
  allowed_tokens = none;
  max_payment_per_request = some 500;
  max_cumulative_spend = some 1000;
  cumulative_window_ms = none;
}

selects : select_payment_option config accepts ≡ ok (option "solana:main" "shop")
unfolding select_payment_option phalnx.X402.Selector.select_from
selects = refl

select_payment_option-eq_example :
    select_payment_option config accepts
    ≡ answer (find_by (is_eligible config) accepts) (filter_by (is_payable config) accepts)
select_payment_option-eq_example = select_payment_option-eq config accepts

abbrev pub big_int : String → Option ℤ
big_int s =
    if str_eq s "300" then some (pos 300) else if str_eq s "-1" then some (negsuc 0) else none

abbrev pub recent : List ℕ
recent = 40 ∷ 20 ∷ 50 ∷ []

validate_payment_amount_iff_example :
    (validate_payment_amount big_int config recent "300" ≡ ok 300) ↔ (
      (big_int "300" ≡ some (pos 300))
      × (0 < 300)
      × WithinCeiling config.max_payment_per_request 300
      × NoSpike recent 300)
validate_payment_amount_iff_example = validate_payment_amount_iff big_int config recent "300" 300

abbrev pub without_query : String → Option String
without_query url = if str_eq url "https://api/x?q=1" then some "https://api/x/" else none

-- An external storage that lists its keys.
abbrev has_key : List String → String → Bool
has_key = has

abbrev set_key : List String → String → ℕ → List String
set_key keys key expires_at = key ∷ keys

abbrev tracker : NonceTracker (List String)
tracker = record { storage = []; external_storage = some []; ttl_ms = 1000 }

abbrev calls : List (ℕ × NonceCall)
calls =
    (50, checking "https://api/x" "shop" "300")
    ∷ (60, recording "https://api/y" "shop" "300")
    ∷ (70, sizing)
    ∷ []

ordered : IsOrdered 40 calls 1040
ordered = (omega arith, (omega arith, (omega arith, omega arith)))

is_duplicate-record_payment_example :
    (is_duplicate without_query has_key set_key "https://api/x" "shop" "300" 1040 (
      run without_query has_key set_key calls
        (record_payment without_query has_key set_key "https://api/x" "shop" "300" 40 tracker))).0
    ≡ true
is_duplicate-record_payment_example =
    is_duplicate-record_payment without_query has_key set_key "https://api/x" "shop" "300" 40 1040
      calls tracker ordered (omega arith)

abbrev pub context : Context
context = record {
  resolved = resolve_policies none;
  state = initial;
  is_paused = false;
  sync_network = none;
}

abbrev pub selected : PaymentRequirements
selected = option "solana:main" "shop"

evaluate_x402_payment_iff_example :
    (evaluate_x402_payment big_int selected context config (some "agent") 1000 ≡ ok []) ↔ (
      (context.is_paused ≡ false)
      × WithinCumulative config.max_cumulative_spend (big_int selected.amount) (
          get_total_spend_in_window
            (or_default config.cumulative_window_ms day_ms)
            1000
            context.state)
      × WithinPayment config.max_payment_per_request (big_int selected.amount)
      × ShieldAllows (some "agent") selected context 1000)
evaluate_x402_payment_iff_example =
    evaluate_x402_payment_iff big_int selected context config (some "agent") 1000

passes : evaluate_x402_payment big_int selected context config none 1000 ≡ ok []
unfolding evaluate_x402_payment check_cumulative check_per_request check_shield
    get_total_spend_in_window initial
passes = refl

record_x402_spend-within_example :
    get_total_spend_in_window
      (or_default config.cumulative_window_ms day_ms)
      1000
      (record_x402_spend selected.asset 300 1000 context).state
    ≤ 1000
record_x402_spend-within_example =
    record_x402_spend-within big_int selected context config none 1000 1000 300 refl refl passes
