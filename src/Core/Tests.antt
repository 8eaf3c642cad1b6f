-- ===== src/Core/Tests.antt =====
-- A concrete transaction under the default policies of the engine.
use phalnx.Base.{◌≤◌, ◌≡◌, refl, [], ◌∷◌, none, String, ok, All, arith}
use phalnx.Core.Policies.{
  TransactionAnalysis, ResolvedPolicies, outgoing, resolve_policies, default_max_spend,
  default_rate_limit,
}
use phalnx.Core.State.{ShieldState, get_spend_in_window, get_transaction_count_in_window}
use phalnx.Core.Engine.{window_of, enforce_policy, record_analysis}
use phalnx.Core.Engine.Laws.{size_bound, enforce_policy-record_analysis}

abbrev sol : String
sol = "So11111111111111111111111111111111111111112"

abbrev policies : ResolvedPolicies
policies = resolve_policies none

abbrev state : ShieldState
state = record {
  spend_entries = record { mint = sol; amount = 20; timestamp = 100 } ∷ [];
  tx_entries = record { timestamp = 100 } ∷ [];
}

abbrev transfer : TransactionAnalysis
transfer = record {
  program_ids = "11111111111111111111111111111111" ∷ [];
  transfers = record { mint = sol; amount = 500; direction = outgoing; destination = none } ∷ [];
  estimated_value_lamports = 500;
}

allowed : enforce_policy transfer policies state 1000 ≡ ok tt
unfolding enforce_policy phalnx.Core.Engine.evaluate_policy phalnx.Core.Engine.check_programs
    phalnx.Core.Engine.check_program phalnx.Core.Registry.is_system_program
    phalnx.Core.Registry.system_programs phalnx.Core.Engine.check_tokens resolve_policies
    phalnx.Core.Engine.check_spending_caps phalnx.Core.Engine.check_spending_cap get_spend_in_window
    phalnx.Core.Engine.check_rate_limit get_transaction_count_in_window default_max_spend
    default_rate_limit phalnx.Core.Engine.check_transaction_size
allowed = refl

kept :
    All (λ l. get_spend_in_window l.mint (window_of l) 1000 state ≤ l.amount) policies.spend_limits
unfolding resolve_policies default_max_spend get_spend_in_window
kept = (omega arith, (omega arith, (omega arith, tt)))

enforce_policy-record_analysis_example :
    All
      (λ l.
        get_spend_in_window l.mint (window_of l) 1000 (record_analysis transfer 1000 state)
        ≤ l.amount)
      policies.spend_limits
    × (get_transaction_count_in_window policies.rate_limit.window_ms 1000
          (record_analysis transfer 1000 state)
        ≤ policies.rate_limit.max_transactions)
    × (transfer.estimated_value_lamports
        ≤ size_bound policies.max_transaction_size transfer.estimated_value_lamports)
enforce_policy-record_analysis_example =
    enforce_policy-record_analysis transfer policies state 1000 allowed kept
