-- ===== src/Core/Engine.antt =====
-- sdk/kit/src/core/engine.ts: the check of a transaction against the policies, and its record.
pub mod Laws
use phalnx.Base.{
  ℕ, ◌+◌, ◌-◌, ◌≤◌, Bool, true, false, not, ◌&&◌, ◌||◌, List, [], ◌∷◌, ◌++◌, Option, none, some,
  String, str_eq, ltb, leb, ◌==◌, if◌then◌else◌, has, sum_by, Result, ok, err,
}
use phalnx.Violations.{
  PolicyViolation, protocol_not_allowed, unknown_program, token_not_allowed, spending_cap,
  transaction_size, rate_limit,
}
use phalnx.Core.Registry.{is_system_program, is_known_protocol}
use phalnx.Core.Policies.{
  SpendLimit, TokenTransfer, TransactionAnalysis, ResolvedPolicies, RateLimit, Direction, outgoing,
  incoming, unknown, or_default, day_ms,
}
use phalnx.Core.State.{
  ShieldState, get_spend_in_window, get_transaction_count_in_window, record_spend,
  record_transaction,
}

-- DEFAULT_ADDRESS.
abbrev pub default_address : String
default_address = "11111111111111111111111111111111"

abbrev pub is_outgoing : Direction → Bool
is_outgoing outgoing = true
is_outgoing incoming = false
is_outgoing unknown = false

-- `transfer.mint === DEFAULT_ADDRESS || transfer.mint === ""`.
abbrev pub is_unnamed : String → Bool
is_unnamed mint = str_eq mint default_address || str_eq mint ""

abbrev pub mint_key : String → String
mint_key mint = if is_unnamed mint then "unknown" else mint

-- One program of the transaction.
unfoldable pub check_program : ResolvedPolicies → String → List PolicyViolation
check_program policies program_id =
    if is_system_program program_id then [] else elim policies.allowed_protocols [
      | some allowed ↦ if has allowed program_id then [] else protocol_not_allowed program_id ∷ []
      | none ↦
          if policies.block_unknown_programs && not (is_known_protocol program_id)
          then unknown_program program_id ∷ []
          else []
    ]

unfoldable pub check_programs : List String → ResolvedPolicies → List PolicyViolation
check_programs [] policies = []
check_programs (p ∷ ps) policies = check_program policies p ++ check_programs ps policies

unfoldable pub check_token : List String → TokenTransfer → List PolicyViolation
check_token allowed t =
    if not (is_outgoing t.direction) || is_unnamed t.mint || has allowed t.mint
    then []
    else token_not_allowed t.mint ∷ []

unfoldable pub check_token_list : List String → List TokenTransfer → List PolicyViolation
check_token_list allowed [] = []
check_token_list allowed (t ∷ ts) = check_token allowed t ++ check_token_list allowed ts

unfoldable pub check_tokens : List TokenTransfer → ResolvedPolicies → List PolicyViolation
check_tokens transfers policies = elim policies.allowed_tokens [
  | none ↦ []
  | some allowed ↦ check_token_list allowed transfers
]

-- What a transfer spends of the token with the key `key`.
abbrev pub spend_of : String → TokenTransfer → ℕ
spend_of key t = if is_outgoing t.direction && str_eq (mint_key t.mint) key then t.amount else 0

abbrev pub window_of : SpendLimit → ℕ
window_of limit = or_default limit.window_ms day_ms

-- One spend limit.
unfoldable pub check_spending_cap :
    List TokenTransfer → ShieldState → ℕ → SpendLimit → List PolicyViolation
check_spending_cap transfers state now limit =
    let tx_spend = sum_by (spend_of limit.mint) transfers in
    let current_spend = get_spend_in_window limit.mint (window_of limit) now state in
    let remaining = if ltb current_spend limit.amount then limit.amount - current_spend else 0 in
    if tx_spend == 0
    then []
    else if ltb limit.amount (current_spend + tx_spend)
    then spending_cap limit.amount tx_spend remaining limit.mint ∷ []
    else []

unfoldable pub check_spending_caps :
    List TokenTransfer → ShieldState → ℕ → List SpendLimit → List PolicyViolation
check_spending_caps transfers state now [] = []
check_spending_caps transfers state now (limit ∷ limits) =
    check_spending_cap transfers state now limit ++ check_spending_caps transfers state now limits

-- A size of 0 is no limit: the source tests `!policies.maxTransactionSize`.
unfoldable pub check_transaction_size : ℕ → Option ℕ → List PolicyViolation
check_transaction_size value none = []
check_transaction_size value (some size) =
    if size == 0 then [] else if ltb size value then transaction_size size value ∷ [] else []

unfoldable pub check_rate_limit : RateLimit → ShieldState → ℕ → List PolicyViolation
check_rate_limit rate state now =
    let count = get_transaction_count_in_window rate.window_ms now state in
    if leb rate.max_transactions count then rate_limit count rate.max_transactions ∷ [] else []

unfoldable pub evaluate_policy :
    TransactionAnalysis → ResolvedPolicies → ShieldState → ℕ → List PolicyViolation
evaluate_policy analysis policies state now =
    check_programs analysis.program_ids policies
    ++ (check_tokens analysis.transfers policies
        ++ (check_spending_caps analysis.transfers state now policies.spend_limits
            ++ (check_transaction_size analysis.estimated_value_lamports
                  policies.max_transaction_size
                ++ check_rate_limit policies.rate_limit state now)))

-- The error is ShieldDeniedError with its violations.
unfoldable pub enforce_policy :
    TransactionAnalysis
    → ResolvedPolicies
    → ShieldState
    → ℕ
    → Result (List PolicyViolation) (Unit {0})
enforce_policy analysis policies state now = elim (evaluate_policy analysis policies state now) [
  | [] ↦ ok tt
  | v ∷ vs ↦ err (v ∷ vs)
]

-- The loop of recordTransaction.
unfoldable pub record_transfers : ℕ → List TokenTransfer → ShieldState → ShieldState
record_transfers now [] state = state
record_transfers now (t ∷ ts) state =
    record_transfers now ts
      (if is_outgoing t.direction then record_spend (mint_key t.mint) t.amount now state else state)

-- `recordTransaction` of the engine; the method of that name counts the transaction.
unfoldable pub record_analysis : TransactionAnalysis → ℕ → ShieldState → ShieldState
record_analysis analysis now state =
    record_transaction now (record_transfers now analysis.transfers state)
