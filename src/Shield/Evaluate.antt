-- ===== src/Shield/Evaluate.antt =====
-- sdk/kit/src/shield.ts, evaluateInstructions and computeStablecoinUsd.
pub mod Laws
use phalnx.Base.{
  ℕ, ◌+◌, ◌≤◌, Bool, true, false, not, ◌&&◌, ◌||◌, List, [], ◌∷◌, ◌++◌, map, Option, none, some,
  String, str_eq, ltb, leb, ◌==◌, if◌then◌else◌, has, sum_by, filter_by,
}
use phalnx.Violations.{
  PolicyViolation, program_allowlist, spend_limit, rate_limit, custom, on_chain_tx_size,
  on_chain_vault_cap, on_chain_agent_cap,
}
use phalnx.Core.Policies.{
  SpendLimit, RateLimit, TokenTransfer, TransactionAnalysis, PolicyCheckResult, outgoing, unknown,
  or_default, day_ms,
}
use phalnx.Network.{Network, is_stablecoin_mint}
use phalnx.Policies.{ResolvedPolicies}
use phalnx.Inspector.{
  InspectableInstruction, InstructionAnalysis, TokenTransferInfo, analyze_instructions,
}
use phalnx.Budget.{EffectiveBudget}
use phalnx.Budget.Resolve.{ResolvedVaultState}
use phalnx.Shield.State.{
  ShieldState, get_spend_in_window, get_transaction_count_in_window, get_effective_global_spent_24h,
  get_effective_agent_spent_24h,
}

-- SYSTEM_PROGRAMS of shield.ts: the system, compute budget and associated token programs.
unfoldable pub system_programs : List String
system_programs =
    "11111111111111111111111111111111" ∷ "ComputeBudget111111111111111111111111111111"
    ∷ "ATokenGPvbdGVxr1b2hvZbsiqW5xWH25efTNsLJA8knL" ∷ []

abbrev pub mint_or_empty : Option String → String
mint_or_empty none = ""
mint_or_empty (some mint) = mint

abbrev pub is_of_mint : String → Option String → Bool
is_of_mint mint none = true
is_of_mint mint (some m) = str_eq m mint

abbrev pub amount_of : TokenTransferInfo → ℕ
amount_of t = t.amount

abbrev is_stablecoin : Network → Option String → Bool
is_stablecoin network none = false
is_stablecoin network (some mint) = is_stablecoin_mint mint network

unfoldable pub compute_stablecoin_usd : List TokenTransferInfo → String → Network → ℕ
compute_stablecoin_usd transfers signer network =
    sum_by amount_of
      (filter_by (λ t. str_eq t.authority signer && is_stablecoin network t.mint) transfers)

-- Check 1, for the programs of the transaction and an explicit allowlist.
unfoldable pub check_allowlist : List String → List String → List PolicyViolation
check_allowlist allowed [] = []
check_allowlist allowed (pid ∷ pids) =
    let rest = check_allowlist allowed pids in
    if not (has system_programs pid) && not (has allowed pid)
    then program_allowlist pid ∷ rest
    else rest

unfoldable pub check_allowed : Option (List String) → Bool → List String → List PolicyViolation
check_allowed none block pids = []
check_allowed (some allowed) block pids = if block then check_allowlist allowed pids else []

unfoldable pub check_programs : ResolvedPolicies → List String → List PolicyViolation
unfolding check_allowed
check_programs resolved pids =
    check_allowed resolved.allowed_protocols resolved.block_unknown_programs pids

-- What the transaction spends of a limit's token: transfers of no known mint count for every limit.
unfoldable pub tx_spend : List TokenTransferInfo → String → String → ℕ
tx_spend transfers signer mint =
    sum_by amount_of
      (filter_by (λ t. str_eq t.authority signer && is_of_mint mint t.mint) transfers)

abbrev pub window_of : SpendLimit → ℕ
window_of limit = or_default limit.window_ms day_ms

-- Check 2, for one limit.
unfoldable pub check_spend_limit :
    List TokenTransferInfo → String → ShieldState → ℕ → SpendLimit → List PolicyViolation
check_spend_limit transfers signer state now limit =
    let total =
      get_spend_in_window limit.mint (window_of limit) now state
      + tx_spend transfers signer limit.mint in
    if ltb limit.amount total then spend_limit limit.mint total limit.amount ∷ [] else []

unfoldable pub check_spend_limits :
    List TokenTransferInfo → String → ShieldState → ℕ → List SpendLimit → List PolicyViolation
check_spend_limits transfers signer state now [] = []
check_spend_limits transfers signer state now (limit ∷ limits) =
    check_spend_limit transfers signer state now limit
    ++ check_spend_limits transfers signer state now limits

-- Check 3.
unfoldable pub check_rate_limit : RateLimit → ShieldState → ℕ → List PolicyViolation
check_rate_limit rate state now =
    let count = get_transaction_count_in_window rate.window_ms now state in
    if leb rate.max_transactions count then rate_limit count rate.max_transactions ∷ [] else []

-- The form in which a custom check sees the transaction.
unfoldable pub custom_analysis : InstructionAnalysis → String → TransactionAnalysis
custom_analysis analysis signer = record {
  program_ids = analysis.program_ids;
  transfers =
      map
        (λ t. record {
          mint = mint_or_empty t.mint;
          amount = t.amount;
          direction = (if str_eq t.authority signer then outgoing else unknown);
          destination = some t.destination;
        })
        analysis.token_transfers;
  estimated_value_lamports = analysis.estimated_value;
}

-- Check 4.
unfoldable pub check_custom :
    Option (TransactionAnalysis → PolicyCheckResult) → TransactionAnalysis → List PolicyViolation
check_custom none analysis = []
check_custom (some check) analysis =
    if (check analysis).allowed then [] else custom (check analysis).reason ∷ []

unfoldable pub check_agent_cap : Option ℕ → Option EffectiveBudget → ℕ → List PolicyViolation
check_agent_cap none budget usd = []
check_agent_cap (some spent) none usd = []
check_agent_cap (some spent) (some budget) usd =
    if ltb budget.cap (spent + usd) then on_chain_agent_cap (spent + usd) budget.cap ∷ [] else []

-- Check 5, for an amount above 0 and a synced state.
unfoldable pub check_caps : ResolvedVaultState → ShieldState → ℕ → List PolicyViolation
check_caps rs state usd =
    let spent = get_effective_global_spent_24h state in
    (if ltb rs.max_transaction_usd usd
      then on_chain_tx_size usd rs.max_transaction_usd ∷ []
      else [])
    ++ ((if ltb rs.global_budget.cap (spent + usd)
          then on_chain_vault_cap (spent + usd) rs.global_budget.cap ∷ []
          else [])
        ++ check_agent_cap (get_effective_agent_spent_24h state) rs.agent_budget usd)

-- `network ?? state.network`.
abbrev pub effective_network : Option Network → ShieldState → Option Network
effective_network none state = state.network
effective_network (some network) state = some network

-- The check needs a synced state and a network.
unfoldable pub check_synced :
    Option ResolvedVaultState
    → Option Network
    → List TokenTransferInfo
    → String
    → ShieldState
    → List PolicyViolation
check_synced none network transfers signer state = []
check_synced (some rs) none transfers signer state = []
check_synced (some rs) (some n) transfers signer state =
    let usd = compute_stablecoin_usd transfers signer n in
    if usd == 0 then [] else check_caps rs state usd

unfoldable pub check_on_chain :
    List TokenTransferInfo → String → ShieldState → Option Network → List PolicyViolation
unfolding check_synced
check_on_chain transfers signer state network =
    check_synced state.resolved_state (effective_network network state) transfers signer state

unfoldable pub violations_of :
    InstructionAnalysis
    → String
    → ResolvedPolicies
    → ShieldState
    → Option Network
    → ℕ
    → List PolicyViolation
violations_of analysis signer resolved state network now =
    check_programs resolved analysis.program_ids
    ++ (check_spend_limits analysis.token_transfers signer state now resolved.spend_limits
        ++ (check_rate_limit resolved.rate_limit state now
            ++ (check_custom resolved.custom_check (custom_analysis analysis signer)
                ++ check_on_chain analysis.token_transfers signer state network)))

-- `evaluateInstructions`: the violations and the analysis. (The network is a value of its type, so
-- that `validateNetwork` accepts it.)
unfoldable pub evaluate_instructions :
    List InspectableInstruction
    → String
    → ResolvedPolicies
    → ShieldState
    → Option Network
    → ℕ
    → List PolicyViolation × InstructionAnalysis
evaluate_instructions instructions signer resolved state network now =
    let analysis = analyze_instructions instructions signer in
    (violations_of analysis signer resolved state network now, analysis)
