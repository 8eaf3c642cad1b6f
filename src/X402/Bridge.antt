-- ===== src/X402/Bridge.antt =====
-- sdk/kit/src/x402/policy-bridge.ts: a payment against the shield's context.
pub mod Laws
use phalnx.Base.{
  ℕ, ◌+◌, ◌≡◌, refl, ap, Bool, true, false, List, [], ◌∷◌, ◌++◌, map, Option, none, some, String,
  Result, ok, err, ◌>>=◌, ltb, if◌then◌else◌,
}
use phalnx.X402.{PaymentRequirements, X402Config, ℤ, pos, negsuc}
use phalnx.Violations.{PolicyViolation}
use phalnx.Core.Policies.{or_default, day_ms}
use phalnx.Inspector.{InspectableInstruction, token_program_address}
use phalnx.Shield.State.{ShieldState, get_total_spend_in_window, record_spend, record_transaction}
use phalnx.Shield.Context.{Context, check, ShieldCheckResult}

pub data BridgeError : Type 0 where
  shield_paused syntax_error : BridgeError

pub data PaymentViolation : Type 0 where
  above_cumulative above_per_request : PaymentViolation
  denied : PolicyViolation → PaymentViolation

-- `currentSpend + paymentAmount > limit`; a negative amount is `pos`'s difference from the spend.
abbrev pub sum_exceeds : ℕ → ℤ → ℕ → Bool
sum_exceeds spend (pos n) limit = ltb limit (spend + n)
sum_exceeds spend (negsuc n) limit = ltb (limit + n + 1) spend

abbrev pub exceeds : ℤ → ℕ → Bool
exceeds (pos n) ceiling = ltb ceiling n
exceeds (negsuc n) ceiling = false

-- The transfer instruction that stands for the payment. It has no data.
unfoldable pub synthetic_instruction : PaymentRequirements → String → InspectableInstruction
synthetic_instruction selected signer = record {
  program_address = token_program_address;
  accounts = signer ∷ selected.asset ∷ selected.pay_to ∷ signer ∷ [];
  bytes = [];
}

module _ (big_int : String → Option ℤ) where
  -- A text that is no integer makes BigInt throw.
  abbrev pub parsed : Option ℤ → Result BridgeError ℤ
  parsed none = err syntax_error
  parsed (some n) = ok n

  abbrev pub found : Bool → PaymentViolation → List PaymentViolation
  found true v = v ∷ []
  found false v = []

  unfoldable pub check_cumulative :
      Option ℕ → ℕ → Context → ℕ → String → Result BridgeError (List PaymentViolation)
  check_cumulative none window_ms c now amount = ok []
  check_cumulative (some limit) window_ms c now amount = parsed (big_int amount) >>= λ n. ok (
      found (sum_exceeds (get_total_spend_in_window window_ms now c.state) n limit)
        above_cumulative)

  unfoldable pub check_per_request : Option ℕ → String → Result BridgeError (List PaymentViolation)
  check_per_request none amount = ok []
  check_per_request (some ceiling) amount =
      parsed (big_int amount) >>= λ n. ok (found (exceeds n ceiling) above_per_request)

  unfoldable pub check_shield :
      Option String → PaymentRequirements → Context → ℕ → List PaymentViolation
  unfolding synthetic_instruction
  check_shield none selected c now = []
  check_shield (some signer) selected c now =
      let result = check (synthetic_instruction selected signer ∷ []) signer now c in
      if result.allowed then [] else map denied result.violations

  unfoldable pub evaluate_x402_payment :
      PaymentRequirements
      → Context
      → X402Config
      → Option String
      → ℕ
      → Result BridgeError (List PaymentViolation)
  unfolding check_cumulative check_per_request check_shield
  evaluate_x402_payment selected c config signer now =
      let window_ms = or_default config.cumulative_window_ms day_ms in
      let evaluated =
        check_cumulative config.max_cumulative_spend window_ms c now selected.amount
        >>= λ cumulative.
            check_per_request config.max_payment_per_request selected.amount >>= λ per_request.
            ok (cumulative ++ (per_request ++ check_shield signer selected c now)) in
      if c.is_paused then err shield_paused else evaluated

unfoldable pub record_x402_spend : String → ℕ → ℕ → Context → Context
record_x402_spend asset amount now c = record c {
  state = record_transaction now (record_spend asset amount now c.state);
}
