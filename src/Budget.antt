-- ===== src/Budget.antt =====
-- sdk/kit/src/state-resolver.ts: the account data that the budgets are computed from, and the
-- constants of sdk/kit/src/types.ts. Amounts, epochs and times are natural numbers: the accounts
-- hold u64 values, and i64 values that the program never makes negative. Fields that no budget
-- reads (discriminators, bumps, padding) are left out.
pub mod Rolling
pub mod OnChain
pub mod Agent
pub mod Protocol
pub mod Resolve
mod Tests
use phalnx.Base.{ℕ, ◌+◌, ◌-◌, ◌*◌, ◌/◌, ◌^◌, Bool, List, String, ltb, leb, if◌then◌else◌}

-- Seconds in an epoch of the tracker, and its number of buckets.
abbrev pub epoch_duration : ℕ
epoch_duration = 600

abbrev pub num_epochs : ℕ
num_epochs = 144

-- The same for one agent's overlay entry.
abbrev pub overlay_epoch_duration : ℕ
overlay_epoch_duration = 3600

abbrev pub overlay_num_epochs : ℕ
overlay_num_epochs = 24

abbrev pub rolling_window_seconds : ℕ
rolling_window_seconds = 86400

abbrev pub u64_max : ℕ
u64_max = 18446744073709551615

pub record EpochBucket : Type 0 where
  pub epoch_id : ℕ
  pub usd_amount : ℕ

-- `protocol` is the raw key, 32 bytes.
pub record ProtocolSpendCounter : Type 0 where
  pub protocol : List ℕ
  pub window_start : ℕ
  pub window_spend : ℕ

pub record SpendTracker : Type 0 where
  pub buckets : List EpochBucket
  pub protocol_counters : List ProtocolSpendCounter
  pub last_write_epoch : ℕ

pub record AgentContributionEntry : Type 0 where
  pub agent : List ℕ
  pub last_write_epoch : ℕ
  pub contributions : List ℕ

pub record AgentSpendOverlay : Type 0 where
  pub entries : List AgentContributionEntry
  pub lifetime_spend : List ℕ
  pub lifetime_tx_count : List ℕ

pub record AgentEntry : Type 0 where
  pub pubkey : String
  pub capability : ℕ
  pub spending_limit_usd : ℕ
  pub paused : Bool

pub record PolicyConfig : Type 0 where
  pub daily_spending_cap_usd : ℕ
  pub max_transaction_size_usd : ℕ
  pub protocols : List String
  pub has_protocol_caps : Bool
  pub protocol_caps : List ℕ

-- `spent24h`, `cap` and `remaining`, in USD with 6 decimals.
pub record EffectiveBudget : Type 0 where
  pub spent_24h : ℕ
  pub cap : ℕ
  pub remaining : ℕ

pub record ProtocolBudget : Type 0 where
  pub protocol : String
  pub budget : EffectiveBudget

-- The start of the 24 hour window: 0 in the first day of Unix time.
abbrev pub window_start_at : ℕ → ℕ
window_start_at now = if ltb rolling_window_seconds now then now - rolling_window_seconds else 0

-- The amount that a bucket from `start` on counts for: all of it if the bucket lies in the window,
-- and otherwise the share of the bucket's time that does, rounded down.
abbrev pub scaled_amount : ℕ → ℕ → ℕ → ℕ → ℕ
scaled_amount duration window_start start amount =
    if leb window_start start then amount else amount * (start + duration - window_start) / duration

-- The clamp to the largest u64.
abbrev pub clamp_u64 : ℕ → ℕ
clamp_u64 total = if ltb u64_max total then u64_max else total
