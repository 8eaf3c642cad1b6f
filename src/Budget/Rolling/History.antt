-- ===== src/Budget/Rolling/History.antt =====
-- The chart of getSpendingHistory: its order, and its total against the rolling budget.
use phalnx.Base.{
  ℕ, ◌+◌, ◌*◌, ◌/◌, ◌≤◌, ◌≡◌, refl, Bool, true, false, List, [], ◌∷◌, Option, none, some, leb, ◌==◌,
  if◌then◌else◌, All, sum_by, arith, inl, inr, Bool-cases,
}
use phalnx.Budget.{EpochBucket, SpendTracker, epoch_duration, window_start_at}
use phalnx.Budget.Rolling.{
  SpendingEpoch, history_points, insert_point, sort_points, get_spending_history, is_expired,
  get_rolling_24h_usd,
}
use phalnx.Budget.Rolling.Laws.{bucket_share, scaled_le, get_rolling-eq-sum}

-- No point is earlier than the one before it.
abbrev pub IsSorted : List SpendingEpoch → Type 0
IsSorted [] = Unit
IsSorted (p ∷ ps) = All (λ q. p.timestamp ≤ q.timestamp) ps × IsSorted ps

All-below :
    (t u : ℕ) (ps : List SpendingEpoch)
    → t ≤ u
    → All (λ q. u ≤ q.timestamp) ps
    → All (λ q. t ≤ q.timestamp) ps
All-below t u [] h all = tt
All-below t u (p ∷ ps) h (first, rest) = (omega (arith, first), All-below t u ps h rest)

insert-below :
    (t : ℕ) (p : SpendingEpoch) (ps : List SpendingEpoch)
    → t ≤ p.timestamp
    → All (λ q. t ≤ q.timestamp) ps
    → All (λ q. t ≤ q.timestamp) (insert_point p ps)
unfolding insert_point
insert-below t p [] h all = (h, tt)
insert-below t p (q ∷ qs) h (first, rest) = elim (Bool-cases (leb p.timestamp q.timestamp)) [
  | inl e ↦ rw e (h, (first, rest))
  | inr e ↦ rw e (first, insert-below t p qs h rest)
]

insert-IsSorted :
    (p : SpendingEpoch) (ps : List SpendingEpoch) → IsSorted ps → IsSorted (insert_point p ps)
unfolding insert_point
insert-IsSorted p [] h = (tt, tt)
insert-IsSorted p (q ∷ qs) (first, rest) = elim (Bool-cases (leb p.timestamp q.timestamp)) [
  | inl e ↦ rw e (
    (ground (arith, e), All-below p.timestamp q.timestamp qs (ground (arith, e)) first),
    (first, rest),
  )
  | inr e ↦
      rw e (insert-below q.timestamp p qs (ground (arith, e)) first, insert-IsSorted p qs rest)
]

sort-IsSorted : (ps : List SpendingEpoch) → IsSorted (sort_points ps)
unfolding sort_points
sort-IsSorted [] = tt
sort-IsSorted (p ∷ ps) = insert-IsSorted p (sort_points ps) (sort-IsSorted ps)

abbrev amount_of_point : SpendingEpoch → ℕ
amount_of_point p = p.usd_amount

insert-sum :
    (p : SpendingEpoch) (ps : List SpendingEpoch)
    → sum_by amount_of_point (insert_point p ps) ≡ p.usd_amount + sum_by amount_of_point ps
unfolding insert_point
insert-sum p [] = refl
insert-sum p (q ∷ qs) = ground (arith, insert-sum p qs)

sort-sum :
    (ps : List SpendingEpoch) → sum_by amount_of_point (sort_points ps) ≡ sum_by amount_of_point ps
unfolding sort_points
sort-sum [] = refl
sort-sum (p ∷ ps) = omega (arith, insert-sum p (sort_points ps), sort-sum ps)

-- A bucket that touches the window is in the chart.
shares_le :
    (now : ℕ) (bs : List EpochBucket)
    → sum_by (bucket_share (now / epoch_duration) (window_start_at now)) bs
      ≤ sum_by amount_of_point (history_points (now / epoch_duration) bs)
unfolding history_points
shares_le now [] = omega arith
shares_le now (b ∷ bs) = ground (
  arith,
  scaled_le epoch_duration (window_start_at now) (b.epoch_id * epoch_duration) b.usd_amount
      (omega arith),
  shares_le now bs,
)

IsSorted-unless :
    (empty : Bool) (ps : List SpendingEpoch) → IsSorted ps → IsSorted (if empty then [] else ps)
IsSorted-unless true ps h = tt
IsSorted-unless false ps h = h

-- The points of the spending history are in the order of time.
pub get_spending_history-IsSorted :
    (tracker : Option SpendTracker) (now : ℕ) → IsSorted (get_spending_history tracker now)
unfolding get_spending_history
get_spending_history-IsSorted none now = tt
get_spending_history-IsSorted (some t) now = IsSorted-unless (now == 0) _ (
    IsSorted-unless (is_expired t (now / epoch_duration)) _
      (sort-IsSorted (history_points (now / epoch_duration) t.buckets)))

-- The rolling total is never above the total of the spending history at the same time.
pub get_rolling-le-history :
    (tracker : SpendTracker) (now : ℕ)
    → get_rolling_24h_usd tracker now
      ≤ sum_by (λ p. p.usd_amount) (get_spending_history (some tracker) now)
unfolding get_spending_history get_rolling_24h_usd
get_rolling-le-history tracker now = elim (Bool-cases (now == 0)) [
  | inl start ↦ ground (arith, start)
  | inr running ↦ elim (Bool-cases (is_expired tracker (now / epoch_duration))) [
    | inl expired ↦ ground (arith, expired)
    | inr used ↦ ground (
      arith,
      running,
      used,
      get_rolling-eq-sum tracker now (ground (arith, running)) used,
      shares_le now tracker.buckets,
      sort-sum (history_points (now / epoch_duration) tracker.buckets),
    )
  ]
]
