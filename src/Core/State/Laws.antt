-- ===== src/Core/State/Laws.antt =====
-- What the window queries of the engine's state see of a recorded spend.
use phalnx.Base.{
  ℕ, zero, suc, ◌+◌, ◌-◌, ◌≤◌, ◌<◌, ◌≡◌, ◌&&◌, List, [], ◌∷◌, ◌++◌, String, str_eq, leb,
  if◌then◌else◌, length, length-append, drop, sum_by, sum_by-append, arith,
}
use phalnx.Core.State.{
  ShieldState, SpendEntry, get_spend_in_window, get_transaction_count_in_window, record_spend,
  record_transaction, keep_last, spend_since, tx_since, max_spend_entries, max_tx_entries,
}

module _ {ℓ} {A : Type ℓ} (f : A → ℕ) where
  sum_by-drop-le : (n : ℕ) (xs : List A) → sum_by f (drop n xs) ≤ sum_by f xs
  sum_by-drop-le zero xs = omega arith
  sum_by-drop-le (suc n) [] = omega arith
  sum_by-drop-le (suc n) (x ∷ xs) = omega (arith, sum_by-drop-le n xs)

  sum_by-keep_last-le : (n : ℕ) (xs : List A) → sum_by f (keep_last n xs) ≤ sum_by f xs
  unfolding keep_last
  sum_by-keep_last-le n xs = ground (arith, sum_by-drop-le (length xs - n) xs)

-- What one spend adds to a window.
abbrev pub counted : String → ℕ → ℕ → String → ℕ → ℕ → ℕ
counted mint amount now mint' window_ms now' =
    if str_eq mint mint' && leb (now' - window_ms) now then amount else 0

module _ (mint mint' : String) (amount now now' window_ms : ℕ) (s : ShieldState) where
  appended : List SpendEntry
  appended = s.spend_entries ++ record { mint = mint; amount = amount; timestamp = now } ∷ []

  sum_appended :
      sum_by (spend_since mint' (now' - window_ms)) appended
      ≡ get_spend_in_window mint' window_ms now' s + counted mint amount now mint' window_ms now'
  unfolding appended get_spend_in_window
  sum_appended = omega (
    arith,
    sum_by-append (spend_since mint' (now' - window_ms)) s.spend_entries
        (record { mint = mint; amount = amount; timestamp = now } ∷ []),
  )

  -- Dropping old entries can only lower what a window holds.
  pub get_spend_in_window-record_spend-le :
      get_spend_in_window mint' window_ms now' (record_spend mint amount now s)
      ≤ get_spend_in_window mint' window_ms now' s + counted mint amount now mint' window_ms now'
  unfolding get_spend_in_window record_spend appended
  get_spend_in_window-record_spend-le = omega (
    arith,
    sum_appended,
    sum_by-keep_last-le (spend_since mint' (now' - window_ms)) max_spend_entries appended,
  )

  -- While the state holds fewer than 5000 spends, recording one adds its amount to exactly the
  -- windows of its token that reach back to it.
  get_spend_in_window-record_spend-kept :
      length s.spend_entries < max_spend_entries
      → get_spend_in_window mint' window_ms now' (record_spend mint amount now s)
        ≡ get_spend_in_window mint' window_ms now' s + counted mint amount now mint' window_ms now'
  unfolding get_spend_in_window record_spend keep_last appended
  get_spend_in_window-record_spend-kept h = ground (
    arith,
    sum_appended,
    length-append s.spend_entries (record { mint = mint; amount = amount; timestamp = now } ∷ []),
  )

module _ (now now' window_ms : ℕ) (s : ShieldState) where
  pub get_transaction_count-record_transaction-le :
      get_transaction_count_in_window window_ms now' (record_transaction now s)
      ≤ get_transaction_count_in_window window_ms now' s + 1
  unfolding get_transaction_count_in_window record_transaction
  get_transaction_count-record_transaction-le = ground (
    arith,
    sum_by-keep_last-le (tx_since (now' - window_ms)) max_tx_entries
        (s.tx_entries ++ record { timestamp = now } ∷ []),
    sum_by-append (tx_since (now' - window_ms)) s.tx_entries (record { timestamp = now } ∷ []),
  )

-- A window never grows by the passing of time.
pub get_spend_in_window-later :
    (mint : String) (window_ms now now' : ℕ) (s : ShieldState)
    → now ≤ now'
    → get_spend_in_window mint window_ms now' s ≤ get_spend_in_window mint window_ms now s
unfolding get_spend_in_window
get_spend_in_window-later mint window_ms now now' s h = sum_by_mono_later s.spend_entries
  where
    sum_by_mono_later :
        (es : List SpendEntry)
        → sum_by (spend_since mint (now' - window_ms)) es
          ≤ sum_by (spend_since mint (now - window_ms)) es
    sum_by_mono_later [] = omega arith
    sum_by_mono_later (e ∷ es) = ground (arith, sum_by_mono_later es)
