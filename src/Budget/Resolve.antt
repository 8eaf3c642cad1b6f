-- ===== src/Budget/Resolve.antt =====
-- sdk/kit/src/state-resolver.ts, resolveVaultState and resolveVaultBudget, behind the fetch: the
-- RPC call and the generated decoders hand over the decoded accounts, `none` where one is missing.
pub mod Laws
pub mod Single
use Prim.Native.Nat.{bit_or}
use phalnx.Base.{
  ℕ, zero, suc, ◌+◌, ◌-◌, ◌*◌, ◌^◌, Bool, true, false, List, [], ◌∷◌, ◌++◌, Option, none, some,
  String, str_eq, ltb, leb, ◌==◌, if◌then◌else◌, Result, ok, err, ◌>>=◌, find_by, insert, get_elem?,
  get_or, length,
}
use phalnx.Budget.{
  AgentContributionEntry, AgentSpendOverlay, AgentEntry, EffectiveBudget, PolicyConfig,
  ProtocolBudget, SpendTracker,
}
use phalnx.Budget.Rolling.{get_rolling_24h_usd}
use phalnx.Budget.Agent.{get_agent_rolling_24h_usd}
use phalnx.Budget.Protocol.{bytes_match_address, get_protocol_spend}

pub data ResolveError : Type 0 where
  vault_not_found policy_not_found : ResolveError

-- The seven accounts of the batch, decoded; the constraints account enters no budget. The last two
-- hold the bytes of the stablecoin accounts.
pub record Fetched : Type 0 where
  pub vault : Option (List AgentEntry)
  pub policy : Option PolicyConfig
  pub tracker : Option SpendTracker
  pub overlay : Option AgentSpendOverlay
  pub usdc_data : Option (List ℕ)
  pub usdt_data : Option (List ℕ)

pub record ResolvedVaultState : Type 0 where
  pub global_budget : EffectiveBudget
  pub agent_budget : Option EffectiveBudget
  pub all_agent_budgets : List (String × EffectiveBudget)
  pub protocol_budgets : List ProtocolBudget
  pub max_transaction_usd : ℕ
  pub usdc : ℕ
  pub usdt : ℕ
  pub resolved_at_timestamp : ℕ

pub record ResolvedBudget : Type 0 where
  pub global_budget : EffectiveBudget
  pub agent_budget : Option EffectiveBudget

-- `remaining: cap > spent ? cap - spent : 0n`.
abbrev pub budget_of : ℕ → ℕ → EffectiveBudget
budget_of spent cap = record {
  spent_24h = spent;
  cap = cap;
  remaining = if ltb spent cap then cap - spent else 0;
}

unfoldable pub global_spent : Option SpendTracker → ℕ → ℕ
global_spent none now = 0
global_spent (some tracker) now = get_rolling_24h_usd tracker now

-- The loop over the 8 bytes of the amount at offset 64: `balance |= data[64 + i] << (8 * i)`.
unfoldable pub or_bytes : ℕ → ℕ → List ℕ → ℕ → ℕ
or_bytes zero i data' balance = balance
or_bytes (suc rounds) i data' balance =
    or_bytes rounds (i + 1) data' (bit_or balance (get_or data' (64 + i) 0 * 2 ^ (i * 8)))

-- 0 for a missing or a short account.
unfoldable pub token_balance : Option (List ℕ) → ℕ
unfolding or_bytes
token_balance none = 0
token_balance (some data') = if leb 72 (length data') then or_bytes 8 0 data' 0 else 0

-- The variables of the loop over the agents: the budget of the one asked for, and the map.
abbrev pub AgentBudgets : Type 0
AgentBudgets = Option EffectiveBudget × List (String × EffectiveBudget)

-- `encode` is the address encoder of @solana/kit.
module _ (encode : String → List ℕ) where
  -- The entry whose key is the agent's.
  unfoldable pub overlay_entry :
      List AgentContributionEntry → String → Option AgentContributionEntry
  overlay_entry entries agent = find_by (λ e. bytes_match_address encode e.agent agent) entries

  unfoldable pub agent_spent : Option AgentSpendOverlay → String → ℕ → Option ℕ
  agent_spent none agent now = none
  agent_spent (some overlay) agent now = elim (overlay_entry overlay.entries agent) [
    | none ↦ none
    | some e ↦ some (get_agent_rolling_24h_usd e now)
  ]

  -- The budget of an agent with the limit `cap`: nothing spent where the overlay does not know it.
  unfoldable pub agent_budget_of : Option AgentSpendOverlay → String → ℕ → ℕ → EffectiveBudget
  agent_budget_of overlay agent cap now = elim (agent_spent overlay agent now) [
    | none ↦ record { spent_24h = 0; cap = cap; remaining = cap }
    | some spent ↦ budget_of spent cap
  ]

  -- Its body.
  unfoldable pub add_agent :
      Option AgentSpendOverlay → String → ℕ → AgentEntry → AgentBudgets → AgentBudgets
  add_agent overlay agent now entry (mine, all_budgets) =
      let budget = agent_budget_of overlay entry.pubkey entry.spending_limit_usd now in
      let next : AgentBudgets = (
        (if str_eq entry.pubkey agent then some budget else mine),
        insert entry.pubkey budget all_budgets,
      ) in
      if entry.spending_limit_usd == 0 then (mine, all_budgets) else next

  unfoldable pub agent_budgets :
      Option AgentSpendOverlay → String → ℕ → List AgentEntry → AgentBudgets → AgentBudgets
  unfolding add_agent
  agent_budgets overlay agent now [] acc = acc
  agent_budgets overlay agent now (entry ∷ entries) acc =
      agent_budgets overlay agent now entries (add_agent overlay agent now entry acc)

  -- The loop over the protocols: a missing cap, or one of 0, is no limit.
  unfoldable pub protocol_budgets_from :
      SpendTracker → ℕ → List String → List ℕ → List ProtocolBudget
  protocol_budgets_from tracker now [] caps = []
  protocol_budgets_from tracker now (p ∷ protocols) [] = []
  protocol_budgets_from tracker now (p ∷ protocols) (cap ∷ caps) =
      let rest = protocol_budgets_from tracker now protocols caps in
      if cap == 0
      then rest
      else record { protocol = p; budget = budget_of (get_protocol_spend encode tracker p now) cap }
        ∷ rest

  unfoldable pub protocol_budgets_of : PolicyConfig → Option SpendTracker → ℕ → List ProtocolBudget
  protocol_budgets_of policy none now = []
  protocol_budgets_of policy (some tracker) now =
      if policy.has_protocol_caps
      then protocol_budgets_from tracker now policy.protocols policy.protocol_caps
      else []

  unfoldable pub resolve_vault_state : Fetched → String → ℕ → Result ResolveError ResolvedVaultState
  resolve_vault_state fetched agent now = elim fetched.vault [
    | none ↦ err vault_not_found
    | some agents ↦ elim fetched.policy [
      | none ↦ err policy_not_found
      | some policy ↦
          let budgets = agent_budgets fetched.overlay agent now agents (none, []) in
          ok (record {
            global_budget =
                budget_of (global_spent fetched.tracker now) policy.daily_spending_cap_usd;
            agent_budget = budgets.0;
            all_agent_budgets = budgets.1;
            protocol_budgets = protocol_budgets_of policy fetched.tracker now;
            max_transaction_usd = policy.max_transaction_size_usd;
            usdc = token_balance fetched.usdc_data;
            usdt = token_balance fetched.usdt_data;
            resolved_at_timestamp = now;
          })
    ]
  ]

  -- The budget of the agent's first entry, if that has a limit.
  unfoldable pub single_budget :
      Option AgentSpendOverlay → String → ℕ → Option AgentEntry → Option EffectiveBudget
  single_budget overlay agent now none = none
  single_budget overlay agent now (some entry) =
      if entry.spending_limit_usd == 0
      then none
      else some (agent_budget_of overlay agent entry.spending_limit_usd now)

  unfoldable pub resolve_vault_budget : Fetched → String → ℕ → Result ResolveError ResolvedBudget
  resolve_vault_budget fetched agent now = elim fetched.vault [
    | none ↦ err vault_not_found
    | some agents ↦ elim fetched.policy [
      | none ↦ err policy_not_found
      | some policy ↦ ok (record {
        global_budget = budget_of (global_spent fetched.tracker now) policy.daily_spending_cap_usd;
        agent_budget =
            single_budget fetched.overlay agent now (find_by (λ a. str_eq a.pubkey agent) agents);
      })
    ]
  ]
