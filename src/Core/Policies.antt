-- ===== src/Core/Policies.antt =====
-- sdk/kit/src/core/policies.ts: the configuration of the engine and its normal form. Spend limits
-- stand as objects: the text form ("500 USDC/day"), which is parsed into one, is left out.
use phalnx.Base.{ℕ, Bool, true, List, [], ◌∷◌, Option, none, some, String}

pub record SpendLimit : Type 0 where
  pub mint : String
  pub amount : ℕ
  pub window_ms : Option ℕ

pub record RateLimitConfig : Type 0 where
  pub max_transactions : ℕ
  pub window_ms : Option ℕ

-- `Required<RateLimitConfig>`.
pub record RateLimit : Type 0 where
  pub max_transactions : ℕ
  pub window_ms : ℕ

pub data Direction : Type 0 where
  outgoing incoming unknown : Direction

pub record TokenTransfer : Type 0 where
  pub mint : String
  pub amount : ℕ
  pub direction : Direction
  pub destination : Option String

pub record TransactionAnalysis : Type 0 where
  pub program_ids : List String
  pub transfers : List TokenTransfer
  pub estimated_value_lamports : ℕ

pub record PolicyCheckResult : Type 0 where
  pub allowed : Bool
  pub reason : Option String

pub record ShieldPolicies : Type 0 where
  pub max_spend : Option (List SpendLimit)
  pub max_transaction_size : Option ℕ
  pub allowed_protocols : Option (List String)
  pub allowed_tokens : Option (List String)
  pub block_unknown_programs : Option Bool
  pub rate_limit : Option RateLimitConfig

pub record ResolvedPolicies : Type 0 where
  pub spend_limits : List SpendLimit
  pub max_transaction_size : Option ℕ
  pub allowed_protocols : Option (List String)
  pub allowed_tokens : Option (List String)
  pub block_unknown_programs : Bool
  pub rate_limit : RateLimit

abbrev pub day_ms : ℕ
day_ms = 86400000

abbrev pub hour_ms : ℕ
hour_ms = 3600000

abbrev pub or_default {ℓ} : {A : Type ℓ} → Option A → A → A
or_default none d = d
or_default (some a) d = a

abbrev cap : String → ℕ → SpendLimit
cap mint amount = record { mint = mint; amount = amount; window_ms = some day_ms }

-- The part of DEFAULT_POLICIES that limits spending.
unfoldable pub default_max_spend : List SpendLimit
default_max_spend =
    cap "EPjFWdd5AufqSSqeM2qN1xzybapC8G4wEGGkZwyTDt1v" 1000000000
    ∷ cap "Es9vMFrzaCERmJfrF4H2FYD4KCoNkY11McCe8BenwNYB" 1000000000
    ∷ cap "So11111111111111111111111111111111111111112" 10000000000
    ∷ []

-- The same for its rate limit.
unfoldable pub default_rate_limit : RateLimit
default_rate_limit = record { max_transactions = 60; window_ms = hour_ms }

abbrev required_rate_limit : Option RateLimitConfig → RateLimit
required_rate_limit none = default_rate_limit
required_rate_limit (some r) = record {
  max_transactions = r.max_transactions;
  window_ms = or_default r.window_ms hour_ms;
}

unfoldable pub resolve_policies : Option ShieldPolicies → ResolvedPolicies
unfolding default_max_spend default_rate_limit
resolve_policies none = record {
  spend_limits = default_max_spend;
  max_transaction_size = none;
  allowed_protocols = none;
  allowed_tokens = none;
  block_unknown_programs = true;
  rate_limit = default_rate_limit;
}
resolve_policies (some input) = record {
  spend_limits = or_default input.max_spend default_max_spend;
  max_transaction_size = input.max_transaction_size;
  allowed_protocols = input.allowed_protocols;
  allowed_tokens = input.allowed_tokens;
  block_unknown_programs = or_default input.block_unknown_programs true;
  rate_limit = required_rate_limit input.rate_limit;
}
