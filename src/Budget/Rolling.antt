-- ===== src/Budget/Rolling.antt =====
-- sdk/kit/src/state-resolver.ts, getRolling24hUsd and getSpendingHistory.
pub mod Laws
pub mod Mirror
pub mod Writes
pub mod History
use phalnx.Base.{
  ℕ, ◌+◌, ◌-◌, ◌*◌, ◌/◌, Bool, true, false, ◌||◌, List, [], ◌∷◌, ◌++◌, ltb, leb, ◌==◌,
  if◌then◌else◌, Option, none, some,
}
use phalnx.Budget.{
  EpochBucket, SpendTracker, epoch_duration, num_epochs, window_start_at, scaled_amount, clamp_u64,
}

-- The body of the loop over the buckets: the total after one bucket.
unfoldable pub add_bucket : ℕ → ℕ → ℕ → EpochBucket → ℕ
add_bucket current_epoch window_start total bucket =
    let bucket_start = bucket.epoch_id * epoch_duration in
    let bucket_end = bucket_start + epoch_duration in
    if bucket.usd_amount == 0
    then total
    else if leb bucket_end window_start || ltb current_epoch bucket.epoch_id
    then total
    else total + scaled_amount epoch_duration window_start bucket_start bucket.usd_amount

-- The loop.
unfoldable pub add_buckets : ℕ → ℕ → ℕ → List EpochBucket → ℕ
add_buckets current_epoch window_start total [] = total
add_buckets current_epoch window_start total (bucket ∷ buckets) =
    add_buckets current_epoch window_start (add_bucket current_epoch window_start total bucket)
      buckets

-- No write for more than 144 epochs: all that the tracker holds has expired. (In the source the
-- difference may be negative; it is then below the bound, as the truncated one is.)
abbrev pub is_expired : SpendTracker → ℕ → Bool
is_expired tracker current_epoch = ltb num_epochs (current_epoch - tracker.last_write_epoch)

unfoldable pub get_rolling_24h_usd : SpendTracker → ℕ → ℕ
get_rolling_24h_usd tracker now =
    let current_epoch = now / epoch_duration in
    if now == 0
    then 0
    else if is_expired tracker current_epoch
    then 0
    else clamp_u64 (add_buckets current_epoch (window_start_at now) 0 tracker.buckets)

-- A point of the chart. (`usdAmountFormatted` prints `usd_amount` and is left out.)
pub record SpendingEpoch : Type 0 where
  pub epoch_id : ℕ
  pub timestamp : ℕ
  pub usd_amount : ℕ

-- The points of the buckets that the loop keeps, in the order of the buffer.
unfoldable pub history_points : ℕ → List EpochBucket → List SpendingEpoch
history_points current_epoch [] = []
history_points current_epoch (bucket ∷ buckets) =
    let rest = history_points current_epoch buckets in
    let point : SpendingEpoch = record {
      epoch_id = bucket.epoch_id;
      timestamp = bucket.epoch_id * epoch_duration;
      usd_amount = bucket.usd_amount;
    } in
    if bucket.usd_amount == 0
    then rest
    else if ltb (bucket.epoch_id + num_epochs) current_epoch
    then rest
    else if ltb current_epoch bucket.epoch_id
    then rest
    else point ∷ rest

-- `sort((a, b) => a.timestamp - b.timestamp)`, which is stable: an earlier point goes before equal
-- ones.
unfoldable pub insert_point : SpendingEpoch → List SpendingEpoch → List SpendingEpoch
insert_point p [] = p ∷ []
insert_point p (q ∷ qs) = if leb p.timestamp q.timestamp then p ∷ q ∷ qs else q ∷ insert_point p qs

unfoldable pub sort_points : List SpendingEpoch → List SpendingEpoch
sort_points [] = []
sort_points (p ∷ ps) = insert_point p (sort_points ps)

unfoldable pub get_spending_history : Option SpendTracker → ℕ → List SpendingEpoch
get_spending_history none now = []
get_spending_history (some tracker) now =
    let current_epoch = now / epoch_duration in
    if now == 0
    then []
    else if is_expired tracker current_epoch
    then []
    else sort_points (history_points current_epoch tracker.buckets)
