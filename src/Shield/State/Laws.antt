-- ===== src/Shield/State/Laws.antt =====
-- What the windows of the shield's state see of a recorded spend, pruning included.
use phalnx.Base.{
  ℕ, ◌+◌, ◌-◌, ◌≤◌, ◌≡◌, refl, ap, Bool, true, ◌&&◌, List, [], ◌∷◌, ◌++◌, String, str_eq, leb,
  if◌then◌else◌, length, length-append, length-filter_by-le, filter_by, filter_by-append, sum_by,
  sum_by-append, arith,
}
use phalnx.Core.Policies.{day_ms}
use phalnx.Core.State.{SpendEntry, TxEntry}
use phalnx.Shield.State.{
  ShieldState, get_spend_in_window, get_total_spend_in_window, get_transaction_count_in_window,
  record_spend, record_transaction, prune, is_since, tx_is_since, amount_of,
}

-- Filtering by a weaker test first changes nothing.
pub filter_by-weaker {ℓ} :
    {A : Type ℓ} (p q : A → Bool) (xs : List A)
    → ((a : A) → p a ≡ true → q a ≡ true)
    → filter_by p (filter_by q xs) ≡ filter_by p xs
filter_by-weaker p q [] h = refl
filter_by-weaker p q (x ∷ xs) h = ground (arith, h x, filter_by-weaker p q xs h)

-- Filtering first can only lower a filtered sum.
sum_by-filter_twice-le {ℓ} :
    {A : Type ℓ} (f : A → ℕ) (p q : A → Bool) (xs : List A)
    → sum_by f (filter_by p (filter_by q xs)) ≤ sum_by f (filter_by p xs)
sum_by-filter_twice-le f p q [] = omega arith
sum_by-filter_twice-le f p q (x ∷ xs) = ground (arith, sum_by-filter_twice-le f p q xs)

length-filter_twice-le {ℓ} :
    {A : Type ℓ} (p q : A → Bool) (xs : List A)
    → length (filter_by p (filter_by q xs)) ≤ length (filter_by p xs)
length-filter_twice-le p q [] = omega arith
length-filter_twice-le p q (x ∷ xs) = ground (arith, length-filter_twice-le p q xs)

abbrev pub in_window : String → ℕ → SpendEntry → Bool
in_window mint cutoff e = str_eq e.mint mint && is_since cutoff e

-- What one spend adds to a window.
abbrev pub counted : String → ℕ → ℕ → String → ℕ → ℕ → ℕ
counted mint amount now mint' window_ms now' =
    if str_eq mint mint' && leb (now' - window_ms) now then amount else 0

module _ (mint mint' : String) (amount now now' window_ms : ℕ) (s : ShieldState) where
  unfoldable pub appended : List SpendEntry
  appended = s.spend_entries ++ record { mint = mint; amount = amount; timestamp = now } ∷ []

  pub sum_appended :
      sum_by amount_of (filter_by (in_window mint' (now' - window_ms)) appended)
      ≡ get_spend_in_window mint' window_ms now' s + counted mint amount now mint' window_ms now'
  unfolding appended get_spend_in_window
  sum_appended =
      let p = in_window mint' (now' - window_ms) in
      let new : List SpendEntry = record { mint = mint; amount = amount; timestamp = now } ∷ [] in
      ground (
        arith,
        ap (sum_by amount_of) (filter_by-append p s.spend_entries new),
        sum_by-append amount_of (filter_by p s.spend_entries) (filter_by p new),
      )

  -- Pruning can only lower what a window holds.
  pub get_spend_in_window-record_spend-le :
      get_spend_in_window mint' window_ms now' (record_spend mint amount now s)
      ≤ get_spend_in_window mint' window_ms now' s + counted mint amount now mint' window_ms now'
  unfolding get_spend_in_window record_spend prune appended
  get_spend_in_window-record_spend-le =
      let p = in_window mint' (now' - window_ms) in
      ground
        (arith, sum_appended, sum_by-filter_twice-le amount_of p (is_since (now - day_ms)) appended)

  -- A spend recorded at `now` adds its amount to exactly the windows of its token that reach back to
  -- it, for every window of at most 24 hours read at `now` or later: the pruning of the state is not
  -- seen by such a window.
  pub get_spend_in_window-record_spend :
      window_ms ≤ day_ms
      → now ≤ now'
      → get_spend_in_window mint' window_ms now' (record_spend mint amount now s)
        ≡ get_spend_in_window mint' window_ms now' s + counted mint amount now mint' window_ms now'
  unfolding get_spend_in_window record_spend prune appended
  get_spend_in_window-record_spend short later =
      let p = in_window mint' (now' - window_ms) in
      ground (
        arith,
        sum_appended,
        ap (sum_by amount_of)
            (filter_by-weaker p (is_since (now - day_ms)) appended (λ e h. ground arith)),
      )

  pub get_total_spend-record_spend-le :
      get_total_spend_in_window window_ms now' (record_spend mint amount now s)
      ≤ get_total_spend_in_window window_ms now' s + amount
  unfolding get_total_spend_in_window record_spend prune appended
  get_total_spend-record_spend-le =
      let p = is_since (now' - window_ms) in
      let new : List SpendEntry = record { mint = mint; amount = amount; timestamp = now } ∷ [] in
      ground (
        arith,
        ap (sum_by amount_of) (filter_by-append p s.spend_entries new),
        sum_by-append amount_of (filter_by p s.spend_entries) (filter_by p new),
        sum_by-filter_twice-le amount_of p (is_since (now - day_ms)) appended,
      )

  pub get_total_spend-record_transaction-le :
      get_total_spend_in_window window_ms now' (record_transaction now s)
      ≤ get_total_spend_in_window window_ms now' s
  unfolding get_total_spend_in_window record_transaction prune
  get_total_spend-record_transaction-le = ground (
    arith,
    sum_by-filter_twice-le amount_of (is_since (now' - window_ms)) (is_since (now - day_ms))
        s.spend_entries,
  )

  -- Counting a transaction may prune spends, and adds none.
  pub get_spend_in_window-record_transaction-le :
      get_spend_in_window mint' window_ms now' (record_transaction now s)
      ≤ get_spend_in_window mint' window_ms now' s
  unfolding get_spend_in_window record_transaction prune
  get_spend_in_window-record_transaction-le = ground (
    arith,
    sum_by-filter_twice-le amount_of (in_window mint' (now' - window_ms)) (is_since (now - day_ms))
        s.spend_entries,
  )

module _ (window_ms now now' : ℕ) (s : ShieldState) where
  count_appended :
      length (
        filter_by
          (tx_is_since (now' - window_ms))
          (s.tx_entries ++ record { timestamp = now } ∷ []))
      ≤ get_transaction_count_in_window window_ms now' s + 1
  unfolding get_transaction_count_in_window
  count_appended =
      let p = tx_is_since (now' - window_ms) in
      let new : List TxEntry = record { timestamp = now } ∷ [] in
      omega (
        arith,
        ap length (filter_by-append p s.tx_entries new),
        length-append (filter_by p s.tx_entries) (filter_by p new),
        length-filter_by-le p new,
      )

  pub get_transaction_count-record_transaction-le :
      get_transaction_count_in_window window_ms now' (record_transaction now s)
      ≤ get_transaction_count_in_window window_ms now' s + 1
  unfolding get_transaction_count_in_window record_transaction prune
  get_transaction_count-record_transaction-le = ground (
    arith,
    count_appended,
    length-filter_twice-le (tx_is_since (now' - window_ms)) (tx_is_since (now - day_ms))
        (s.tx_entries ++ record { timestamp = now } ∷ []),
  )

  pub get_transaction_count-record_spend-le :
      (mint : String) (amount : ℕ)
      → get_transaction_count_in_window window_ms now' (record_spend mint amount now s)
        ≤ get_transaction_count_in_window window_ms now' s
  unfolding get_transaction_count_in_window record_spend prune
  get_transaction_count-record_spend-le mint amount = ground (
    arith,
    length-filter_twice-le (tx_is_since (now' - window_ms)) (tx_is_since (now - day_ms))
        s.tx_entries,
  )

-- A window never grows by the passing of time.
sum_later :
    (mint : String) (c c' : ℕ) (es : List SpendEntry)
    → c ≤ c'
    → sum_by amount_of (filter_by (in_window mint c') es)
      ≤ sum_by amount_of (filter_by (in_window mint c) es)
sum_later mint c c' [] h = omega arith
sum_later mint c c' (e ∷ es) h = ground (arith, sum_later mint c c' es h)

count_later :
    (c c' : ℕ) (es : List TxEntry)
    → c ≤ c'
    → length (filter_by (tx_is_since c') es) ≤ length (filter_by (tx_is_since c) es)
count_later c c' [] h = omega arith
count_later c c' (e ∷ es) h = ground (arith, count_later c c' es h)

pub get_spend_in_window-later :
    (mint : String) (window_ms now now' : ℕ) (s : ShieldState)
    → now ≤ now'
    → get_spend_in_window mint window_ms now' s ≤ get_spend_in_window mint window_ms now s
unfolding get_spend_in_window
get_spend_in_window-later mint window_ms now now' s h =
    sum_later mint (now - window_ms) (now' - window_ms) s.spend_entries (omega arith)

pub get_transaction_count-later :
    (window_ms now now' : ℕ) (s : ShieldState)
    → now ≤ now'
    → get_transaction_count_in_window window_ms now' s
      ≤ get_transaction_count_in_window window_ms now s
unfolding get_transaction_count_in_window
get_transaction_count-later window_ms now now' s h =
    count_later (now - window_ms) (now' - window_ms) s.tx_entries (omega arith)
