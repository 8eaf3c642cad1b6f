-- ===== src/Budget/OnChain.antt =====
-- programs/sigil/src/state/tracker.rs: the on-chain tracker that the client's budget mirrors. The
-- machine arithmetic is written out: i64 and u128 saturation, and the overflow check of a write.
use phalnx.Base.{
  ℕ, ◌+◌, ◌-◌, ◌*◌, ◌/◌, ◌%◌, min, ◌||◌, List, [], ◌∷◌, ltb, leb, ◌==◌, if◌then◌else◌, Result, ok,
  err, get_or, set,
}
use phalnx.Budget.{
  EpochBucket, SpendTracker, epoch_duration, num_epochs, rolling_window_seconds, u64_max,
}

abbrev pub i64_max : ℕ
i64_max = 9223372036854775807

abbrev pub u128_max : ℕ
u128_max = 340282366920938463463374607431768211455

-- `saturating_add` and `saturating_mul` of a type with the largest value `limit`.
abbrev pub sat_add : ℕ → ℕ → ℕ → ℕ
sat_add limit a b = min (a + b) limit

abbrev pub sat_mul : ℕ → ℕ → ℕ → ℕ
sat_mul limit a b = min (a * b) limit

pub data SigilError : Type 0 where
  overflow : SigilError

unfoldable pub chain_add_bucket : ℕ → ℕ → ℕ → EpochBucket → ℕ
chain_add_bucket current_epoch window_start_ts total bucket =
    let bucket_start = sat_mul i64_max bucket.epoch_id epoch_duration in
    let bucket_end = sat_add i64_max bucket_start epoch_duration in
    if bucket.usd_amount == 0
    then total
    else if leb bucket_end window_start_ts || ltb current_epoch bucket.epoch_id
    then total
    else if leb window_start_ts bucket_start
    then sat_add u128_max total bucket.usd_amount
    else sat_add u128_max total
        (sat_mul u128_max bucket.usd_amount (bucket_end - window_start_ts) / epoch_duration)

unfoldable pub chain_add_buckets : ℕ → ℕ → ℕ → List EpochBucket → ℕ
chain_add_buckets current_epoch window_start_ts total [] = total
chain_add_buckets current_epoch window_start_ts total (bucket ∷ buckets) =
    chain_add_buckets current_epoch window_start_ts
      (chain_add_bucket current_epoch window_start_ts total bucket) buckets

-- `saturating_sub` on i64 gives a negative start in the first day, and a bucket that starts at 0 or
-- later lies behind it just as it lies behind 0.
unfoldable pub chain_get_rolling_24h_usd : SpendTracker → ℕ → ℕ
chain_get_rolling_24h_usd tracker unix_timestamp =
    let current_epoch = unix_timestamp / epoch_duration in
    let window_start_ts = unix_timestamp - rolling_window_seconds in
    let total = chain_add_buckets current_epoch window_start_ts 0 tracker.buckets in
    if unix_timestamp == 0
    then 0
    else if ltb num_epochs (current_epoch - tracker.last_write_epoch)
    then 0
    else if ltb u64_max total
    then u64_max
    else total

abbrev pub empty_bucket : EpochBucket
empty_bucket = record { epoch_id = 0; usd_amount = 0 }

-- What the bucket holds before the write: its amount, or 0 if it is of another epoch.
abbrev pub carried : EpochBucket → ℕ → ℕ
carried bucket current_epoch = if bucket.epoch_id == current_epoch then bucket.usd_amount else 0

abbrev pub slot_of : ℕ → ℕ
slot_of unix_timestamp = unix_timestamp / epoch_duration % num_epochs

abbrev pub bucket_at : SpendTracker → ℕ → EpochBucket
bucket_at tracker unix_timestamp = get_or tracker.buckets (slot_of unix_timestamp) empty_bucket

-- The buffer has 144 buckets, so that the slot exists.
unfoldable pub record_spend : SpendTracker → ℕ → ℕ → Result SigilError SpendTracker
record_spend tracker unix_timestamp usd_amount =
    let current_epoch = unix_timestamp / epoch_duration in
    let sum = carried (bucket_at tracker unix_timestamp) current_epoch + usd_amount in
    let written : EpochBucket = record { epoch_id = current_epoch; usd_amount = sum } in
    if unix_timestamp == 0
    then err overflow
    else if ltb u64_max sum
    then err overflow
    else ok (record tracker {
      buckets = set tracker.buckets (slot_of unix_timestamp) written;
      last_write_epoch = current_epoch;
    })
