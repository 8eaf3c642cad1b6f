-- ===== src/Core/State.antt =====
-- sdk/kit/src/core/state.ts, ShieldState: the engine's own rolling windows. Times are milliseconds;
-- each method takes the clock's value. The storage, which mirrors the two arrays, is left out, so a
-- state is the one that a tracker without storage holds.
pub mod Laws
use phalnx.Base.{
  ℕ, ◌+◌, ◌-◌, Bool, ◌&&◌, List, [], ◌∷◌, ◌++◌, String, str_eq, ltb, leb, if◌then◌else◌, length,
  drop, filter_by, sum_by,
}

pub record SpendEntry : Type 0 where
  pub mint : String
  pub amount : ℕ
  pub timestamp : ℕ

pub record TxEntry : Type 0 where
  pub timestamp : ℕ

pub record ShieldState : Type 0 where
  pub spend_entries : List SpendEntry
  pub tx_entries : List TxEntry

abbrev pub max_spend_entries : ℕ
max_spend_entries = 5000

abbrev pub max_tx_entries : ℕ
max_tx_entries = 5000

-- `if (xs.length > n) xs = xs.slice(-n)`.
unfoldable pub keep_last {ℓ} : {A : Type ℓ} → ℕ → List A → List A
keep_last n xs = if ltb n (length xs) then drop (length xs - n) xs else xs

unfoldable pub record_spend : String → ℕ → ℕ → ShieldState → ShieldState
unfolding keep_last
record_spend mint amount now s = record s {
  spend_entries =
      keep_last max_spend_entries
        (s.spend_entries ++ record { mint = mint; amount = amount; timestamp = now } ∷ []);
}

unfoldable pub record_transaction : ℕ → ShieldState → ShieldState
unfolding keep_last
record_transaction now s = record s {
  tx_entries = keep_last max_tx_entries (s.tx_entries ++ record { timestamp = now } ∷ []);
}

-- What an entry adds to the spend of `mint` since `cutoff`.
abbrev pub spend_since : String → ℕ → SpendEntry → ℕ
spend_since mint cutoff e = if str_eq e.mint mint && leb cutoff e.timestamp then e.amount else 0

abbrev pub tx_since : ℕ → TxEntry → ℕ
tx_since cutoff e = if leb cutoff e.timestamp then 1 else 0

-- The loop `for (entry of entries) if (...) total += entry.amount`. The cutoff `now - window_ms` is
-- 0 where it is negative in the source, which no timestamp is.
unfoldable pub get_spend_in_window : String → ℕ → ℕ → ShieldState → ℕ
get_spend_in_window mint window_ms now s =
    sum_by (spend_since mint (now - window_ms)) s.spend_entries

unfoldable pub get_transaction_count_in_window : ℕ → ℕ → ShieldState → ℕ
get_transaction_count_in_window window_ms now s = sum_by (tx_since (now - window_ms)) s.tx_entries

unfoldable pub prune_expired : ℕ → ℕ → ShieldState → ShieldState
prune_expired max_window_ms now s = record {
  spend_entries = filter_by (λ e. leb (now - max_window_ms) e.timestamp) s.spend_entries;
  tx_entries = filter_by (λ e. leb (now - max_window_ms) e.timestamp) s.tx_entries;
}

-- A checkpoint holds copies of the two arrays, which is what a state is here.
unfoldable pub checkpoint : ShieldState → ShieldState
checkpoint s = record { spend_entries = s.spend_entries; tx_entries = s.tx_entries }

unfoldable pub rollback : ShieldState → ShieldState → ShieldState
rollback cp s = record { spend_entries = cp.spend_entries; tx_entries = cp.tx_entries }

unfoldable pub reset : ShieldState → ShieldState
reset s = record { spend_entries = []; tx_entries = [] }
