-- ===== src/Budget/Tests.antt =====
-- Concrete vaults: runs of the budget's definitions, and its theorems applied to them.
use phalnx.Base.{
  ℕ, zero, suc, ◌+◌, ◌-◌, ◌≤◌, ◌≡◌, ◌/◌, refl, min, true, false, List, [], ◌∷◌, ◌++◌, none, some,
  String, str_eq, eq_iff, if◌then◌else◌, ok, ◌>>=◌, length, sum_by, lookup, All, arith,
}
use phalnx.Budget.{
  EpochBucket, ProtocolSpendCounter, SpendTracker, AgentContributionEntry, AgentSpendOverlay,
  AgentEntry, PolicyConfig, EffectiveBudget, epoch_duration, num_epochs, overlay_epoch_duration,
  overlay_num_epochs, u64_max, window_start_at,
}
use phalnx.Budget.Rolling.{get_spending_history, get_rolling_24h_usd, is_expired}
use phalnx.Budget.Rolling.Laws.{get_rolling_bounds, inside_amount, touching_amount}
use phalnx.Budget.Rolling.Mirror.{IsU64Bucket, get_rolling-eq-chain}
use phalnx.Budget.Rolling.Writes.{raw_total, stale_share, get_rolling-record_spend}
use phalnx.Budget.OnChain.{chain_get_rolling_24h_usd, record_spend, bucket_at, empty_bucket}
use phalnx.Budget.Agent.{get_agent_rolling_24h_usd}
use phalnx.Budget.Agent.Laws.{share_sum, get_agent_rolling-eq-sum}
use phalnx.Budget.Protocol.{bytes_match_address, get_protocol_spend}
use phalnx.Budget.Resolve.{
  Fetched, ResolvedVaultState, ResolvedBudget, resolve_vault_state, resolve_vault_budget,
}
use phalnx.Budget.Resolve.Laws.{IsBudget, resolve_vault_state_agent}
use phalnx.Budget.Resolve.Single.{IsKeyed, resolve_vault_budget-eq}

abbrev repeat {ℓ} : {A : Type ℓ} → ℕ → A → List A
repeat zero a = []
repeat (suc n) a = a ∷ repeat n a

-- 300 seconds into epoch 1008, whose slot is 0.
abbrev now : ℕ
now = 605100

-- Slot 0 still holds epoch 864, half of which lies in the window; slot 1 holds epoch 865.
abbrev tracker : SpendTracker
tracker = record {
  buckets =
      record { epoch_id = 864; usd_amount = 100 }
      ∷ record { epoch_id = 865; usd_amount = 7 }
      ∷ repeat 142 empty_bucket;
  protocol_counters =
      record { protocol = repeat 32 9; window_start = 1000; window_spend = 42 } ∷ [];
  last_write_epoch = 865;
}

tracker-rolls : get_rolling_24h_usd tracker now ≡ 57
unfolding get_rolling_24h_usd phalnx.Budget.Rolling.add_buckets phalnx.Budget.Rolling.add_bucket
tracker-rolls = refl

in_use : is_expired tracker (now / epoch_duration) ≡ false
in_use = refl

get_rolling_bounds_example :
    (min u64_max
        (sum_by (inside_amount (now / epoch_duration) (window_start_at now)) tracker.buckets)
      ≤ get_rolling_24h_usd tracker now)
    × (get_rolling_24h_usd tracker now
        ≤ min u64_max
            (sum_by (touching_amount (now / epoch_duration) (window_start_at now)) tracker.buckets))
get_rolling_bounds_example = get_rolling_bounds tracker now (omega arith) in_use

u64_buckets : (n : ℕ) → All IsU64Bucket (repeat n empty_bucket)
u64_buckets zero = tt
u64_buckets (suc n) = (omega arith, u64_buckets n)

get_rolling-eq-chain_example :
    get_rolling_24h_usd tracker now ≡ chain_get_rolling_24h_usd tracker now
get_rolling-eq-chain_example =
    get_rolling-eq-chain tracker now (omega arith) refl
      (omega arith, (omega arith, u64_buckets 142))

abbrev after : SpendTracker
after = record {
  buckets =
      record { epoch_id = 1008; usd_amount = 30 }
      ∷ record { epoch_id = 865; usd_amount = 7 }
      ∷ repeat 142 empty_bucket;
  protocol_counters = tracker.protocol_counters;
  last_write_epoch = 1008;
}

recorded : record_spend tracker now 30 ≡ ok after
unfolding record_spend
recorded = refl

-- The write evicts the 50 that epoch 864 still counted for.
evicted : stale_share (bucket_at tracker now) now ≡ 50
unfolding phalnx.Budget.Rolling.add_bucket
evicted = refl

get_rolling-record_spend_example :
    (get_rolling_24h_usd after now
      ≡ min u64_max (raw_total tracker now + 30 - stale_share (bucket_at tracker now) now))
    × (30 ≤ get_rolling_24h_usd after now)
get_rolling-record_spend_example = get_rolling-record_spend tracker after now 30 refl recorded

-- Hour 168 is the present; the agent spent in it and in the hour before.
abbrev entry : AgentContributionEntry
entry = record {
  agent = repeat 32 5;
  last_write_epoch = 168;
  contributions = 11 ∷ repeat 22 0 ++ 13 ∷ [];
}

get_agent_rolling-eq-sum_example :
    get_agent_rolling_24h_usd entry now
    ≡ min u64_max
        (share_sum (now / overlay_epoch_duration) (window_start_at now) entry overlay_num_epochs 0)
get_agent_rolling-eq-sum_example = get_agent_rolling-eq-sum entry now (omega arith) (omega arith)

-- An encoder into 32 bytes.
abbrev encode : String → List ℕ
encode a = if str_eq a "jupiter" then repeat 32 9 else repeat 32 5

encode-length : (a : String) → length (encode a) ≡ 32
encode-length a = ground arith

abbrev agents : List AgentEntry
agents =
    record { pubkey = "alice"; capability = 2; spending_limit_usd = 500; paused = false }
    ∷ record { pubkey = "bob"; capability = 2; spending_limit_usd = 90; paused = false }
    ∷ []

abbrev fetched : Fetched
fetched = record {
  vault = some agents;
  policy = some (record {
    daily_spending_cap_usd = 1000;
    max_transaction_size_usd = 400;
    protocols = "jupiter" ∷ [];
    has_protocol_caps = true;
    protocol_caps = 60 ∷ [];
  });
  tracker = some tracker;
  overlay = some (record { entries = entry ∷ []; lifetime_spend = []; lifetime_tx_count = [] });
  usdc_data = none;
  usdt_data = none;
}

keyed : IsKeyed agents
keyed = ((λ h. ground (arith, (eq_iff "bob" "alice").1 h), tt), (tt, tt))

resolve_vault_budget-eq_example : resolve_vault_budget encode fetched "alice" now ≡ (
    resolve_vault_state encode fetched "alice" now >>= λ s.
    ok (record { global_budget = s.global_budget; agent_budget = s.agent_budget }))
resolve_vault_budget-eq_example =
    resolve_vault_budget-eq encode fetched "alice" now agents refl keyed

abbrev budget : ℕ → ℕ → ℕ → EffectiveBudget
budget spent cap remaining = record { spent_24h = spent; cap = cap; remaining = remaining }

abbrev resolved : ResolvedVaultState
resolved = record {
  global_budget = budget 57 1000 943;
  agent_budget = some (budget 24 500 476);
  all_agent_budgets = ("alice", budget 24 500 476) ∷ ("bob", budget 24 90 66) ∷ [];
  protocol_budgets = record { protocol = "jupiter"; budget = budget 42 60 18 } ∷ [];
  max_transaction_usd = 400;
  usdc = 0;
  usdt = 0;
  resolved_at_timestamp = now;
}

resolves : resolve_vault_state encode fetched "alice" now ≡ ok resolved
unfolding resolve_vault_state phalnx.Budget.Resolve.agent_budgets
    phalnx.Budget.Resolve.agent_budget_of phalnx.Budget.Resolve.agent_spent
    phalnx.Budget.Resolve.overlay_entry bytes_match_address get_agent_rolling_24h_usd
    phalnx.Budget.Agent.add_contributions phalnx.Budget.Agent.add_contribution
    phalnx.Budget.Resolve.global_spent get_rolling_24h_usd phalnx.Budget.Rolling.add_buckets
    phalnx.Budget.Rolling.add_bucket phalnx.Budget.Resolve.protocol_budgets_of
    phalnx.Budget.Resolve.protocol_budgets_from get_protocol_spend
    phalnx.Budget.Protocol.counted_spend phalnx.Budget.Resolve.token_balance
resolves = refl

resolve_vault_state_agent_example :
    (resolved.agent_budget ≡ lookup "alice" resolved.all_agent_budgets)
    × IsBudget resolved.global_budget
    × All (λ b. IsBudget b.1) resolved.all_agent_budgets
resolve_vault_state_agent_example = resolve_vault_state_agent encode fetched "alice" now resolves
