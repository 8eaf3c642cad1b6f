-- ===== src/Shield/Tests.antt =====
-- Concrete contexts: an agent under the default policies, and one synced with its vault.
use phalnx.Base.{
  ℕ, zero, suc, ◌+◌, ◌*◌, ◌≤◌, ◌<◌, ◌≡◌, ◌↔◌, refl, false, List, [], ◌∷◌, none, some, ok, length,
  All, In, here, arith,
}
use phalnx.Core.Policies.{SpendLimit, day_ms}
use phalnx.Core.State.{SpendEntry}
use phalnx.Inspector.{InspectableInstruction, analyze_instructions, token_program_address}
use phalnx.Inspector.Tests.{usdc, payment}
use phalnx.Network.{Network, mainnet_beta}
use phalnx.Policies.{resolve_policies}
use phalnx.Budget.Resolve.{ResolvedVaultState}
use phalnx.Shield.State.{
  ShieldState, initial, get_spend_in_window, get_transaction_count_in_window, record_spend,
  get_effective_global_spent_24h, prune_threshold,
}
use phalnx.Shield.State.Laws.{get_spend_in_window-record_spend, counted}
use phalnx.Shield.State.Pruning.{long_window_collapses}
use phalnx.Shield.Evaluate.{window_of, tx_spend, violations_of, compute_stablecoin_usd}
use phalnx.Shield.Evaluate.Laws.{violations_of_iff, IsApproved}
use phalnx.Shield.Context.{Context, shield, enforce, record_analysis}
use phalnx.Shield.Context.PlainTransfers.{record_analysis-plain}
use phalnx.Shield.Context.Recording.{spent}
use phalnx.Shield.Context.Safety.{enforce-eq-ok_iff, enforce-caps, recorded}
use phalnx.Shield.Context.Added.{IsNamed, enforce-added}
use phalnx.Shield.Context.History.{
  Call, enforcing, pausing, resuming, syncing, run, IsOrdered, IsCapped, run-IsCapped,
}

abbrev fresh : Context
fresh = record {
  resolved = resolve_policies none;
  state = initial;
  is_paused = false;
  sync_network = none;
}

abbrev vault : ResolvedVaultState
vault = record {
  global_budget = record { spent_24h = 400; cap = 1000; remaining = 600 };
  agent_budget = some (record { spent_24h = 100; cap = 700; remaining = 600 });
  all_agent_budgets = [];
  protocol_budgets = [];
  max_transaction_usd = 500;
  usdc = 0;
  usdt = 0;
  resolved_at_timestamp = 0;
}

abbrev synced : Context
synced = record {
  resolved = resolve_policies none;
  state = record {
    spend_entries = [];
    tx_entries = [];
    resolved_state = some vault;
    local_usd_additions = 0;
    network = some mainnet_beta;
    enforce_used = false;
  };
  is_paused = false;
  sync_network = some mainnet_beta;
}

abbrev pay : List InspectableInstruction
pay = payment ∷ []

abbrev after : Context
after = recorded pay "agent" 1000 synced

-- The payment is within the limits, the vault's cap and the agent's.
paid : enforce pay "agent" 1000 synced ≡ ok after
unfolding enforce phalnx.Shield.Context.evaluate phalnx.Shield.Evaluate.evaluate_instructions
    violations_of phalnx.Shield.Evaluate.check_programs phalnx.Shield.Evaluate.check_spend_limits
    phalnx.Shield.Evaluate.check_spend_limit phalnx.Shield.Evaluate.check_rate_limit
    phalnx.Shield.Evaluate.check_custom phalnx.Shield.Evaluate.check_on_chain
    phalnx.Shield.Evaluate.check_caps phalnx.Shield.Evaluate.check_agent_cap
    phalnx.Shield.Evaluate.tx_spend compute_stablecoin_usd analyze_instructions resolve_policies
    get_spend_in_window get_transaction_count_in_window get_effective_global_spent_24h
    phalnx.Shield.State.get_effective_agent_spent_24h phalnx.Core.Policies.resolve_policies
    phalnx.Network.is_stablecoin_mint
paid = refl

enforce-eq-ok_iff_example : (enforce pay "agent" 1000 synced ≡ ok after) ↔ (
    (synced.is_paused ≡ false)
    × IsApproved
        (analyze_instructions pay "agent")
        "agent"
        synced.resolved
        synced.state
        synced.sync_network
        1000
    × (after ≡ recorded pay "agent" 1000 synced))
enforce-eq-ok_iff_example = enforce-eq-ok_iff pay "agent" 1000 synced after

violations_of_iff_example :
    (violations_of
        (analyze_instructions pay "agent")
        "agent"
        synced.resolved
        synced.state
        synced.sync_network
        1000
      ≡ [])
    ↔ IsApproved
        (analyze_instructions pay "agent")
        "agent"
        synced.resolved
        synced.state
        synced.sync_network
        1000
violations_of_iff_example =
    violations_of_iff (analyze_instructions pay "agent") "agent" synced.resolved synced.state
      synced.sync_network 1000

abbrev first_limit : List SpendLimit → SpendLimit
first_limit [] = record { mint = usdc; amount = 0; window_ms = none }
first_limit (l ∷ ls) = l

abbrev limit : SpendLimit
limit = first_limit synced.resolved.spend_limits

limited : In limit synced.resolved.spend_limits
unfolding resolve_policies phalnx.Core.Policies.resolve_policies
    phalnx.Core.Policies.default_max_spend
limited = here refl

short : window_of limit ≤ day_ms
unfolding resolve_policies phalnx.Core.Policies.resolve_policies
    phalnx.Core.Policies.default_max_spend
short = omega arith

short_rate : synced.resolved.rate_limit.window_ms ≤ day_ms
unfolding resolve_policies phalnx.Core.Policies.resolve_policies
    phalnx.Core.Policies.default_rate_limit
short_rate = omega arith

named : All IsNamed (analyze_instructions pay "agent").token_transfers
unfolding analyze_instructions
named = ((usdc, refl), tt)

enforce-added_example :
    (spent limit 1000 after.state
      ≡ spent limit 1000 synced.state
        + tx_spend (analyze_instructions pay "agent").token_transfers "agent" limit.mint)
    × (spent limit 1000 after.state ≤ limit.amount)
    × (get_transaction_count_in_window synced.resolved.rate_limit.window_ms 1000 after.state
        ≡ get_transaction_count_in_window synced.resolved.rate_limit.window_ms 1000 synced.state
          + 1)
    × (get_transaction_count_in_window synced.resolved.rate_limit.window_ms 1000 after.state
        ≤ synced.resolved.rate_limit.max_transactions)
enforce-added_example =
    enforce-added limit pay "agent" 1000 synced after limited short short_rate named paid

leaves_usd :
    0
    < compute_stablecoin_usd (analyze_instructions pay "agent").token_transfers "agent" mainnet_beta
unfolding compute_stablecoin_usd analyze_instructions phalnx.Network.is_stablecoin_mint
leaves_usd = omega arith

enforce-caps_example :
    (get_effective_global_spent_24h after.state
      ≡ get_effective_global_spent_24h synced.state
        + compute_stablecoin_usd
            (analyze_instructions pay "agent").token_transfers
            "agent"
            mainnet_beta)
    × (get_effective_global_spent_24h after.state ≤ 1000)
    × (compute_stablecoin_usd
          (analyze_instructions pay "agent").token_transfers
          "agent"
          mainnet_beta
        ≤ 500)
enforce-caps_example =
    enforce-caps vault mainnet_beta pay "agent" 1000 synced after paid refl refl leaves_usd

-- 500 units by a Transfer, which names no mint.
abbrev plain : List InspectableInstruction
plain =
    record {
      program_address = token_program_address;
      accounts = "source" ∷ "shop" ∷ "agent" ∷ [];
      bytes = 3 ∷ 244 ∷ 1 ∷ 0 ∷ 0 ∷ 0 ∷ 0 ∷ 0 ∷ 0 ∷ [];
    }
    ∷ []

abbrev usdc_limit : SpendLimit
usdc_limit = record { mint = usdc; amount = 1000000000; window_ms = none }

no_mint : All (λ t. t.mint ≡ none) (analyze_instructions plain "agent").token_transfers
unfolding analyze_instructions
no_mint = (refl, tt)

record_analysis-plain_example :
    spent usdc_limit 1000
      (record_analysis (analyze_instructions plain "agent") "agent" none 1000 synced.state)
    ≤ spent usdc_limit 1000 synced.state
record_analysis-plain_example =
    record_analysis-plain usdc_limit (analyze_instructions plain "agent") "agent" none 1000
      synced.state refl no_mint

abbrev calls : List (ℕ × Call)
calls =
    (1000, enforcing pay "agent")
    ∷ (1000, syncing vault)
    ∷ (2000, pausing)
    ∷ (2500, enforcing pay "agent")
    ∷ (3000, resuming)
    ∷ (90000000, enforcing pay "agent")
    ∷ []

ordered : IsOrdered 0 calls 90000001
ordered = (
  omega arith,
  (omega arith, (omega arith, (omega arith, (omega arith, (omega arith, omega arith))))),
)

run-IsCapped_example :
    ((run calls (shield none (some mainnet_beta))).resolved
      ≡ (shield none (some mainnet_beta)).resolved)
    × IsCapped 90000001
        (shield none (some mainnet_beta)).resolved
        (run calls (shield none (some mainnet_beta))).state
run-IsCapped_example = run-IsCapped none (some mainnet_beta) 0 90000001 calls ordered

get_spend_in_window-record_spend_example :
    get_spend_in_window usdc 5000 2000 (record_spend usdc 500 1000 synced.state)
    ≡ get_spend_in_window usdc 5000 2000 synced.state + counted usdc 500 1000 usdc 5000 2000
get_spend_in_window-record_spend_example =
    get_spend_in_window-record_spend usdc usdc 500 1000 2000 5000 synced.state (omega arith)
      (omega arith)

old_spends : ℕ → List SpendEntry
old_spends zero = []
old_spends (suc n) = record { mint = usdc; amount = 1; timestamp = 0 } ∷ old_spends n

length-old_spends : (n : ℕ) → length (old_spends n) ≡ n
unfolding old_spends
length-old_spends zero = refl
length-old_spends (suc n) = omega (arith, length-old_spends n)

-- 10000 spends of two days ago.
abbrev crowded : ShieldState
crowded = record {
  spend_entries = old_spends 10000;
  tx_entries = [];
  resolved_state = none;
  local_usd_additions = 0;
  network = none;
  enforce_used = false;
}

long_window_collapses_example :
    get_spend_in_window usdc (7 * day_ms) (2 * day_ms) (record_spend usdc 5 (2 * day_ms) crowded)
    ≡ get_spend_in_window usdc day_ms (2 * day_ms) crowded
      + counted usdc 5 (2 * day_ms) usdc day_ms (2 * day_ms)
long_window_collapses_example =
    long_window_collapses usdc usdc 5 (2 * day_ms) (7 * day_ms) crowded (omega arith)
      (omega (arith, length-old_spends 10000))
