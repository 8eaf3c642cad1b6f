-- ===== src/Shield/State.antt =====
-- sdk/kit/src/shield.ts, the class ShieldState. Each method that reads the clock takes its value, in
-- milliseconds. The entries are those of the core's state, which the source declares again.
pub mod Laws
pub mod Pruning
use phalnx.Base.{
  ℕ, ◌+◌, ◌-◌, Bool, true, false, ◌&&◌, List, [], ◌∷◌, ◌++◌, Option, none, some, String, str_eq,
  ltb, leb, if◌then◌else◌, length, filter_by, sum_by,
}
use phalnx.Core.State.{SpendEntry, TxEntry}
use phalnx.Core.Policies.{day_ms}
use phalnx.Network.{Network}
use phalnx.Budget.Resolve.{ResolvedVaultState}

pub record ShieldState : Type 0 where
  pub spend_entries : List SpendEntry
  pub tx_entries : List TxEntry
  pub resolved_state : Option ResolvedVaultState
  pub local_usd_additions : ℕ
  pub network : Option Network
  pub enforce_used : Bool

unfoldable pub initial : ShieldState
initial = record {
  spend_entries = [];
  tx_entries = [];
  resolved_state = none;
  local_usd_additions = 0;
  network = none;
  enforce_used = false;
}

abbrev pub is_since : ℕ → SpendEntry → Bool
is_since cutoff e = leb cutoff e.timestamp

abbrev pub tx_is_since : ℕ → TxEntry → Bool
tx_is_since cutoff e = leb cutoff e.timestamp

abbrev pub amount_of : SpendEntry → ℕ
amount_of e = e.amount

-- The cutoff `now - window_ms` is 0 where it is negative in the source, which no timestamp is.
unfoldable pub get_spend_in_window : String → ℕ → ℕ → ShieldState → ℕ
get_spend_in_window mint window_ms now s =
    sum_by amount_of
      (filter_by (λ e. str_eq e.mint mint && is_since (now - window_ms) e) s.spend_entries)

unfoldable pub get_total_spend_in_window : ℕ → ℕ → ShieldState → ℕ
get_total_spend_in_window window_ms now s =
    sum_by amount_of (filter_by (is_since (now - window_ms)) s.spend_entries)

unfoldable pub get_transaction_count_in_window : ℕ → ℕ → ShieldState → ℕ
get_transaction_count_in_window window_ms now s =
    length (filter_by (tx_is_since (now - window_ms)) s.tx_entries)

abbrev pub prune_threshold : ℕ
prune_threshold = 10000

unfoldable pub prune_spends : ℕ → List SpendEntry → List SpendEntry
prune_spends now es =
    if ltb prune_threshold (length es) then filter_by (is_since (now - day_ms)) es else es

unfoldable pub prune_txs : ℕ → List TxEntry → List TxEntry
prune_txs now es =
    if ltb prune_threshold (length es) then filter_by (tx_is_since (now - day_ms)) es else es

unfoldable pub prune : ℕ → ShieldState → ShieldState
unfolding prune_spends prune_txs
prune now s = record s {
  spend_entries = prune_spends now s.spend_entries;
  tx_entries = prune_txs now s.tx_entries;
}

unfoldable pub record_spend : String → ℕ → ℕ → ShieldState → ShieldState
record_spend mint amount now s = prune now (record s {
  spend_entries = s.spend_entries ++ record { mint = mint; amount = amount; timestamp = now } ∷ [];
})

unfoldable pub record_transaction : ℕ → ShieldState → ShieldState
record_transaction now s =
    prune now (record s { tx_entries = s.tx_entries ++ record { timestamp = now } ∷ [] })

abbrev or_keep : Option Network → Option Network → Option Network
or_keep none old = old
or_keep (some n) old = some n

unfoldable pub sync_from_on_chain : ResolvedVaultState → Option Network → ShieldState → ShieldState
sync_from_on_chain state network s = record s {
  resolved_state = some state;
  local_usd_additions = 0;
  network = or_keep network s.network;
}

unfoldable pub record_usd_spend : ℕ → ShieldState → ShieldState
record_usd_spend amount s = record s { local_usd_additions = s.local_usd_additions + amount }

unfoldable pub get_effective_global_spent_24h : ShieldState → ℕ
get_effective_global_spent_24h s = elim s.resolved_state [
  | none ↦ s.local_usd_additions
  | some rs ↦ rs.global_budget.spent_24h + s.local_usd_additions
]

abbrev left_of : ℕ → ℕ → ℕ
left_of cap spent = if ltb spent cap then cap - spent else 0

unfoldable pub get_effective_global_remaining : ShieldState → Option ℕ
unfolding get_effective_global_spent_24h
get_effective_global_remaining s = elim s.resolved_state [
  | none ↦ none
  | some rs ↦ some (left_of rs.global_budget.cap (get_effective_global_spent_24h s))
]

unfoldable pub get_effective_agent_spent_24h : ShieldState → Option ℕ
get_effective_agent_spent_24h s = elim s.resolved_state [
  | none ↦ none
  | some rs ↦ elim rs.agent_budget [
    | none ↦ none
    | some b ↦ some (b.spent_24h + s.local_usd_additions)
  ]
]

unfoldable pub get_effective_agent_remaining : ShieldState → Option ℕ
get_effective_agent_remaining s = elim s.resolved_state [
  | none ↦ none
  | some rs ↦ elim rs.agent_budget [
    | none ↦ none
    | some b ↦ some (left_of b.cap (b.spent_24h + s.local_usd_additions))
  ]
]

unfoldable pub mark_enforce_used : ShieldState → ShieldState
mark_enforce_used s = record s { enforce_used = true }

-- A checkpoint holds a copy of every field, and a rollback writes all of them back.
unfoldable pub checkpoint : ShieldState → ShieldState
checkpoint s = record {
  spend_entries = s.spend_entries;
  tx_entries = s.tx_entries;
  resolved_state = s.resolved_state;
  local_usd_additions = s.local_usd_additions;
  network = s.network;
  enforce_used = s.enforce_used;
}

unfoldable pub rollback : ShieldState → ShieldState → ShieldState
rollback cp s = record s {
  spend_entries = cp.spend_entries;
  tx_entries = cp.tx_entries;
  resolved_state = cp.resolved_state;
  local_usd_additions = cp.local_usd_additions;
  network = cp.network;
  enforce_used = cp.enforce_used;
}

unfoldable pub reset : ShieldState → ShieldState
unfolding initial
reset s = initial
