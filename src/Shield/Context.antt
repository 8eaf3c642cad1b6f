-- ===== src/Shield/Context.antt =====
-- sdk/kit/src/shield.ts, shield(): the context that a caller holds. Its two variables and its state
-- form the record; callbacks and log lines, which change nothing, are left out. `sync` is the method
-- behind the RPC read, which hands over the resolved state.
pub mod Recording
pub mod Safety
pub mod Added
pub mod History
pub mod PlainTransfers
use phalnx.Base.{
  ℕ, ◌+◌, ◌-◌, ◌/◌, Bool, true, false, not, List, [], ◌∷◌, map, Option, none, some, String, str_eq,
  ltb, ◌==◌, if◌then◌else◌, Result, ok, err,
}
use phalnx.Violations.{PolicyViolation, paused}
use phalnx.Core.Policies.{SpendLimit}
use phalnx.Network.{Network}
use phalnx.Policies.{ShieldPolicies, ResolvedPolicies, resolve_policies}
use phalnx.Inspector.{InspectableInstruction, InstructionAnalysis, TokenTransferInfo}
use phalnx.Budget.Resolve.{ResolvedVaultState}
use phalnx.Shield.State.{
  ShieldState, initial, record_spend, record_transaction, record_usd_spend, mark_enforce_used,
  reset, sync_from_on_chain, get_spend_in_window, get_transaction_count_in_window,
}
use phalnx.Shield.Evaluate.{evaluate_instructions, compute_stablecoin_usd, mint_or_empty, window_of}

-- `sync_network` is the network of `onChainSync`, `none` where that is not configured.
pub record Context : Type 0 where
  pub resolved : ResolvedPolicies
  pub state : ShieldState
  pub is_paused : Bool
  pub sync_network : Option Network

unfoldable pub shield : Option ShieldPolicies → Option Network → Context
shield policies sync_network = record {
  resolved = resolve_policies policies;
  state = initial;
  is_paused = false;
  sync_network = sync_network;
}

pub record ShieldCheckResult : Type 0 where
  pub allowed : Bool
  pub violations : List PolicyViolation

abbrev pub is_empty {ℓ} : {A : Type ℓ} → List A → Bool
is_empty [] = true
is_empty (x ∷ xs) = false

unfoldable pub evaluate :
    Context → List InspectableInstruction → String → ℕ → List PolicyViolation × InstructionAnalysis
evaluate c instructions signer now =
    evaluate_instructions instructions signer c.resolved c.state c.sync_network now

unfoldable pub check : List InspectableInstruction → String → ℕ → Context → ShieldCheckResult
check instructions signer now c =
    let found = (evaluate c instructions signer now).0 in
    if c.is_paused
    then record { allowed = false; violations = paused ∷ [] }
    else record { allowed = is_empty found; violations = found }

-- `if (transfer.authority === signer) state.recordSpend(transfer.mint ?? "", transfer.amount)`.
unfoldable pub record_outgoing : String → ℕ → List TokenTransferInfo → ShieldState → ShieldState
record_outgoing signer now [] s = s
record_outgoing signer now (t ∷ ts) s =
    record_outgoing signer now ts
      (if str_eq t.authority signer then record_spend (mint_or_empty t.mint) t.amount now s else s)

abbrev pub record_stablecoins :
    List TokenTransferInfo
    → String
    → Option ResolvedVaultState
    → Option Network
    → ShieldState
    → ShieldState
record_stablecoins transfers signer none network s = s
record_stablecoins transfers signer (some rs) none s = s
record_stablecoins transfers signer (some rs) (some network) s =
    let usd = compute_stablecoin_usd transfers signer network in
    if usd == 0 then s else record_usd_spend usd s

-- What `enforce` and the signer record of a transaction that they let through.
unfoldable pub record_analysis :
    InstructionAnalysis → String → Option Network → ℕ → ShieldState → ShieldState
record_analysis analysis signer network now s =
    let counted = record_transaction now (record_outgoing signer now analysis.token_transfers s) in
    record_stablecoins analysis.token_transfers signer counted.resolved_state network counted

-- The error is ShieldDeniedError with its violations; the state is then as it was.
unfoldable pub enforce :
    List InspectableInstruction → String → ℕ → Context → Result (List PolicyViolation) Context
enforce instructions signer now c =
    let (found, analysis) = evaluate c instructions signer now in
    let done : Result (List PolicyViolation) Context = ok (record c {
      state = mark_enforce_used (record_analysis analysis signer c.sync_network now c.state);
    }) in
    if c.is_paused then err (paused ∷ []) else if not (is_empty found) then err found else done

unfoldable pub update_policies : ShieldPolicies → Context → Context
update_policies policies c = record c { resolved = resolve_policies (some policies) }

unfoldable pub reset_state : Context → Context
reset_state c = record c { state = reset c.state }

unfoldable pub pause : Context → Context
pause c = record c { is_paused = true }

unfoldable pub resume : Context → Context
resume c = record c { is_paused = false }

pub data SyncError : Type 0 where
  sync_not_configured : SyncError

-- `sync` with the state that the RPC read resolved.
unfoldable pub sync : ResolvedVaultState → Context → Result SyncError Context
sync resolved_state c = elim c.sync_network [
  | none ↦ err sync_not_configured
  | some n ↦ ok (record c { state = sync_from_on_chain resolved_state (some n) c.state })
]

pub record TokenSummary : Type 0 where
  pub mint : String
  pub spent : ℕ
  pub limit : ℕ
  pub remaining : ℕ
  pub window_ms : ℕ

unfoldable pub token_summary : ShieldState → ℕ → SpendLimit → TokenSummary
token_summary state now limit =
    let spent = get_spend_in_window limit.mint (window_of limit) now state in
    record {
      mint = limit.mint;
      spent = spent;
      limit = limit.amount;
      remaining = (if ltb spent limit.amount then limit.amount - spent else 0);
      window_ms = window_of limit;
    }

pub record RateSummary : Type 0 where
  pub count : ℕ
  pub limit : ℕ
  pub remaining : ℕ
  pub window_ms : ℕ

unfoldable pub rate_summary : Context → ℕ → RateSummary
rate_summary c now =
    let rate = c.resolved.rate_limit in
    let count = get_transaction_count_in_window rate.window_ms now c.state in
    record {
      count = count;
      limit = rate.max_transactions;
      remaining = rate.max_transactions - count;
      window_ms = rate.window_ms;
    }
