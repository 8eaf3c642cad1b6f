-- ===== src/Shield/Evaluate/Laws.antt =====
-- evaluateInstructions decides what the policies allow.
use phalnx.Base.{
  ℕ, ◌+◌, ◌≤◌, ◌<◌, ◌≡◌, ◌↔◌, ◌⊎◌, Bool, true, false, ◌||◌, List, [], ◌∷◌, Option, none, some,
  String, has, All, arith, append-eq-nil,
}
use phalnx.Core.Policies.{SpendLimit, RateLimit, TransactionAnalysis, PolicyCheckResult}
use phalnx.Network.{Network}
use phalnx.Policies.{ResolvedPolicies}
use phalnx.Inspector.{InstructionAnalysis, TokenTransferInfo}
use phalnx.Budget.{EffectiveBudget}
use phalnx.Budget.Resolve.{ResolvedVaultState}
use phalnx.Shield.State.{
  ShieldState, get_spend_in_window, get_transaction_count_in_window, get_effective_global_spent_24h,
  get_effective_agent_spent_24h,
}
use phalnx.Shield.Evaluate.{
  system_programs, compute_stablecoin_usd, check_allowlist, check_allowed, check_programs,
  check_synced, tx_spend, window_of, check_spend_limit, check_spend_limits, check_rate_limit,
  custom_analysis, check_custom, check_agent_cap, check_caps, effective_network, check_on_chain,
  violations_of,
}

-- With an allowlist and blocking on, each program is a system program or listed.
abbrev pub ProgramsAllowed : Option (List String) → Bool → List String → Type 0
ProgramsAllowed none block pids = Unit
ProgramsAllowed (some allowed) false pids = Unit
ProgramsAllowed (some allowed) true pids =
    All (λ p. (has system_programs p || has allowed p) ≡ true) pids

-- The token's spend in the window, this transaction included, is within the limit.
abbrev pub WithinLimits :
    List TokenTransferInfo → String → ShieldState → ℕ → List SpendLimit → Type 0
WithinLimits transfers signer state now limits =
    All
      (λ l.
        get_spend_in_window l.mint (window_of l) now state + tx_spend transfers signer l.mint
        ≤ l.amount)
      limits

abbrev pub WithinRate : RateLimit → ShieldState → ℕ → Type 0
WithinRate rate state now =
    get_transaction_count_in_window rate.window_ms now state < rate.max_transactions

abbrev pub CustomAllows :
    Option (TransactionAnalysis → PolicyCheckResult) → TransactionAnalysis → Type 0
CustomAllows none analysis = Unit
CustomAllows (some check) analysis = (check analysis).allowed ≡ true

abbrev pub WithinAgentCap : Option ℕ → Option EffectiveBudget → ℕ → Type 0
WithinAgentCap none budget usd = Unit
WithinAgentCap (some spent) none usd = Unit
WithinAgentCap (some spent) (some budget) usd = spent + usd ≤ budget.cap

-- An amount of stablecoins is within the transaction size, the vault's cap and the agent's.
abbrev pub WithinCaps : ResolvedVaultState → ShieldState → ℕ → Type 0
WithinCaps rs state usd =
    (usd ≤ rs.max_transaction_usd)
    × (get_effective_global_spent_24h state + usd ≤ rs.global_budget.cap)
    × WithinAgentCap (get_effective_agent_spent_24h state) rs.agent_budget usd

-- Without a synced state or a network there is nothing to check, nor without stablecoins.
abbrev pub OnChainAllows :
    Option ResolvedVaultState
    → Option Network
    → List TokenTransferInfo
    → String
    → ShieldState
    → Type 0
OnChainAllows none network transfers signer state = Unit
OnChainAllows (some rs) none transfers signer state = Unit
OnChainAllows (some rs) (some n) transfers signer state =
    (compute_stablecoin_usd transfers signer n ≡ 0)
    ⊎ WithinCaps rs state (compute_stablecoin_usd transfers signer n)

check_allowlist_iff :
    (allowed pids : List String)
    → (check_allowlist allowed pids ≡ [])
      ↔ All (λ p. (has system_programs p || has allowed p) ≡ true) pids
unfolding check_allowlist
check_allowlist_iff allowed [] = ground arith
check_allowlist_iff allowed (p ∷ pids) =
    ground (arith, (check_allowlist_iff allowed pids).0, (check_allowlist_iff allowed pids).1)

check_allowed_iff :
    (allowed : Option (List String)) (block : Bool) (pids : List String)
    → (check_allowed allowed block pids ≡ []) ↔ ProgramsAllowed allowed block pids
unfolding check_allowed
check_allowed_iff none block pids = ground arith
check_allowed_iff (some allowed) false pids = ground arith
check_allowed_iff (some allowed) true pids = check_allowlist_iff allowed pids

check_spend_limits_iff :
    (transfers : List TokenTransferInfo) (signer : String) (state : ShieldState) (now : ℕ)
    (limits : List SpendLimit)
    → (check_spend_limits transfers signer state now limits ≡ [])
      ↔ WithinLimits transfers signer state now limits
unfolding check_spend_limits check_spend_limit
check_spend_limits_iff transfers signer state now [] = ground arith
check_spend_limits_iff transfers signer state now (l ∷ ls) = ground (
  arith,
  (check_spend_limits_iff transfers signer state now ls).0,
  (check_spend_limits_iff transfers signer state now ls).1,
)

check_rate_limit_iff :
    (rate : RateLimit) (state : ShieldState) (now : ℕ)
    → (check_rate_limit rate state now ≡ []) ↔ WithinRate rate state now
unfolding check_rate_limit
check_rate_limit_iff rate state now = ground arith

check_custom_iff :
    (check : Option (TransactionAnalysis → PolicyCheckResult)) (analysis : TransactionAnalysis)
    → (check_custom check analysis ≡ []) ↔ CustomAllows check analysis
unfolding check_custom
check_custom_iff none analysis = ground arith
check_custom_iff (some check) analysis = ground arith

check_agent_cap_iff :
    (spent : Option ℕ) (budget : Option EffectiveBudget) (usd : ℕ)
    → (check_agent_cap spent budget usd ≡ []) ↔ WithinAgentCap spent budget usd
unfolding check_agent_cap
check_agent_cap_iff none budget usd = ground arith
check_agent_cap_iff (some spent) none usd = ground arith
check_agent_cap_iff (some spent) (some budget) usd = ground arith

check_caps_iff :
    (rs : ResolvedVaultState) (state : ShieldState) (usd : ℕ)
    → (check_caps rs state usd ≡ []) ↔ WithinCaps rs state usd
unfolding check_caps
check_caps_iff rs state usd =
    let agent = check_agent_cap_iff (get_effective_agent_spent_24h state) rs.agent_budget usd in
    ground (arith, agent.0, agent.1)

check_synced_iff :
    (rs : Option ResolvedVaultState) (network : Option Network) (transfers : List TokenTransferInfo)
    (signer : String) (state : ShieldState)
    → (check_synced rs network transfers signer state ≡ [])
      ↔ OnChainAllows rs network transfers signer state
unfolding check_synced
check_synced_iff none network transfers signer state = ground arith
check_synced_iff (some rs) none transfers signer state = ground arith
check_synced_iff (some rs) (some n) transfers signer state =
    let usd = compute_stablecoin_usd transfers signer n in
    ground (arith, (check_caps_iff rs state usd).0, (check_caps_iff rs state usd).1)

-- A transaction meets the policies.
pub record IsApproved (analysis : InstructionAnalysis) (signer : String)
    (resolved : ResolvedPolicies) (state : ShieldState) (network : Option Network) (now : ℕ)
    : Type 0 where
  pub programs :
      ProgramsAllowed resolved.allowed_protocols resolved.block_unknown_programs
        analysis.program_ids
  pub limits : WithinLimits analysis.token_transfers signer state now resolved.spend_limits
  pub rate : WithinRate resolved.rate_limit state now
  pub custom : CustomAllows resolved.custom_check (custom_analysis analysis signer)
  pub caps :
      OnChainAllows state.resolved_state
        (effective_network network state)
        analysis.token_transfers
        signer
        state

-- The evaluation finds no violation exactly if the transaction meets the allowlist, every spend
-- limit, the rate limit, the custom check and the on-chain caps.
pub violations_of_iff :
    (analysis : InstructionAnalysis) (signer : String) (resolved : ResolvedPolicies)
    (state : ShieldState) (network : Option Network) (now : ℕ)
    → (violations_of analysis signer resolved state network now ≡ [])
      ↔ IsApproved analysis signer resolved state network now
unfolding violations_of check_programs check_on_chain
violations_of_iff analysis signer resolved state network now =
    let transfers = analysis.token_transfers in
    let limits = resolved.spend_limits in
    let programs =
      check_allowed_iff resolved.allowed_protocols resolved.block_unknown_programs
        analysis.program_ids in
    let within = check_spend_limits_iff transfers signer state now limits in
    let rate = check_rate_limit_iff resolved.rate_limit state now in
    let custom = check_custom_iff resolved.custom_check (custom_analysis analysis signer) in
    let caps =
      check_synced_iff state.resolved_state (effective_network network state) transfers signer
        state in
    (
      λ h.
          let (p, h₁) = append-eq-nil (check_programs resolved analysis.program_ids) _ h in
          let (l, h₂) = append-eq-nil (check_spend_limits transfers signer state now limits) _ h₁ in
          let (r, h₃) = append-eq-nil (check_rate_limit resolved.rate_limit state now) _ h₂ in
          let (x, c) =
            append-eq-nil (check_custom resolved.custom_check (custom_analysis analysis signer)) _
              h₃ in
          record {
            programs = programs.0 p;
            limits = within.0 l;
            rate = rate.0 r;
            custom = custom.0 x;
            caps = caps.0 c;
          },
      λ a. rw (
        programs.1 a.programs,
        within.1 a.limits,
        rate.1 a.rate,
        custom.1 a.custom,
        caps.1 a.caps,
      ),
    )
