-- ===== src/X402/Fetch.antt =====
-- sdk/kit/src/x402/shielded-fetch.ts, shieldedFetch: a request that pays where the server answers 402.
-- The module's state, the nonce tracker and the recent amounts, and the shield's context are part of
-- the world that a task takes and returns. Warnings, durations and the check of the settlement, which
-- only warns, are left out. Here are the types; the children are the steps and the whole.
pub mod Checks
pub mod Payment
pub mod Run
pub mod Approved
pub mod Laws
mod Tests
use text.Mathlib.Text.{starts_with}
use phalnx.Base.{
  ℕ, zero, suc, ◌+◌, ◌-◌, Bool, true, false, not, ◌&&◌, ◌||◌, List, [], ◌∷◌, ◌++◌, Option, none,
  some, String, str_eq, min, max, Result, ok, err, ◌>>=◌, Task, throw_if, guard, lift, ◌>=>◌,
  if◌then◌else◌, ltb, leb, ◌==◌, length,
}
use phalnx.X402.{PaymentRequirements, X402Config, ℤ, pos, negsuc}
use phalnx.X402.Selector.{SelectionError, select_payment_option}
use phalnx.X402.Nonces.{NonceTracker, check_or_throw, record_payment}
use phalnx.X402.Amounts.{AmountError, validate_payment_amount, record_payment_amount}
use phalnx.X402.Bridge.{BridgeError, PaymentViolation, evaluate_x402_payment, record_x402_spend}
use phalnx.X402.Codec.{ParseError, ParsedHeader, decode_payment_required_header}
use phalnx.Shield.Context.{Context}

pub data FetchError : Type 0 where
  insecure_url already_attempted above_max_payment no_rpc : FetchError
  not_parsed : ParseError → FetchError
  not_selected : SelectionError → FetchError
  replayed : String → FetchError
  bad_amount : AmountError → FetchError
  not_evaluated : BridgeError → FetchError
  denied_by_policy : List PaymentViolation → FetchError
  external : String → FetchError

-- The options of X402Config that the flow itself reads, and those of its parts.
pub record FetchConfig : Type 0 where
  pub config : X402Config
  pub max_retries : Option ℕ
  pub enable_replay_protection : Bool
  pub allow_insecure_urls : Bool
  pub confirm_payment : Bool

-- `sends_signature`: the caller's headers already have PAYMENT-SIGNATURE.
pub record FetchOptions : Type 0 where
  pub max_payment : Option ℕ
  pub dry_run : Bool
  pub sends_signature : Bool
  pub has_rpc : Bool

-- A missing header is the empty text.
pub record Response : Type 0 where
  pub status : ℕ
  pub payment_required : String
  pub payment_response : String

pub data Settled : Type 0 where
  passed_through : Settled
  dry paid not_paid : PaymentRequirements → Settled

pub data Confirmation : Type 0 where
  confirmed failed timeout : Confirmation

pub record PaymentState (World : Type 0) : Type 0 where
  pub tracker : NonceTracker (Unit {0})
  pub recent_amounts : List ℕ
  pub context : Option Context
  pub events : List (Bool × PaymentRequirements)
  pub world : World

-- `settlement` decodes the PAYMENT-RESPONSE header to its transaction, if there is one; `sign` builds,
-- signs and encodes the transfer; `confirm` is confirmSettlementOnChain.
pub record FetchServices (World : Type 0) : Type 0 where
  pub now_ms : World → ℕ
  pub request : String → Option String → Task World String Response
  pub sign : PaymentRequirements → ℕ → Task World String String
  pub settlement : String → Option String
  pub confirm : String → Task World String Confirmation
  pub without_query : String → Option String
  pub base64_decode : String → Option String
  pub parse_json : String → Option (Option ParsedHeader)
  pub big_int : String → Option ℤ
  pub signer : String
