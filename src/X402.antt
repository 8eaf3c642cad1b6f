-- ===== src/X402.antt =====
-- sdk/kit/src/x402: payments for a resource that answers 402. Shared here are the types of types.ts
-- that the children read; BigInt, which parses an amount, is their parameter.
pub mod Selector
pub mod Nonces
pub mod Amounts
pub mod Bridge
pub mod Codec
pub mod Fetch
mod Tests
use phalnx.Base.{ℕ, List, Option, String}

-- (`extra`, which nothing here reads, is left out.)
pub record PaymentRequirements : Type 0 where
  pub scheme : String
  pub network : String
  pub asset : String
  pub amount : String
  pub pay_to : String
  pub max_timeout_seconds : ℕ

-- The part that the selection, the amounts and the policies read. A missing configuration is the one
-- with every field missing, which the code treats alike.
pub record X402Config : Type 0 where
  pub allowed_destinations : Option (List String)
  pub allowed_tokens : Option (List String)
  pub max_payment_per_request : Option ℕ
  pub max_cumulative_spend : Option ℕ
  pub cumulative_window_ms : Option ℕ

-- What BigInt reads from a text.
pub data ℤ : Type 0 where
  pos : ℕ → ℤ
  negsuc : ℕ → ℤ
