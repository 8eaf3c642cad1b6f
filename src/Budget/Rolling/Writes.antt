-- ===== src/Budget/Rolling/Writes.antt =====
-- A spend that the program records (tracker.rs) and the budget that the client then computes.
use phalnx.Base.{
  ℕ, ◌+◌, ◌-◌, ◌/◌, ◌≤◌, ◌<◌, ◌≡◌, refl, min, List, [], ◌∷◌, ◌==◌, if◌then◌else◌, zero, suc, get_or,
  set, length, sum_by, arith, ap, ok,
}
use phalnx.Budget.{EpochBucket, SpendTracker, epoch_duration, num_epochs, window_start_at, u64_max}
use phalnx.Budget.Rolling.{get_rolling_24h_usd}
use phalnx.Budget.Rolling.Laws.{bucket_share, get_rolling-eq-sum}
use phalnx.Budget.OnChain.{record_spend, empty_bucket, bucket_at, slot_of, carried}

sum_by-set {ℓ} :
    {A : Type ℓ} (f : A → ℕ) (xs : List A) (i : ℕ) (v d : A)
    → i < length xs
    → sum_by f (set xs i v) + f (get_or xs i d) ≡ sum_by f xs + f v
sum_by-set f [] i v d h = absurd (omega arith)
sum_by-set f (x ∷ xs) zero v d h = omega arith
sum_by-set f (x ∷ xs) (suc i) v d h = omega (arith, sum_by-set f xs i v d (omega arith))

le-sum_by-set {ℓ} :
    {A : Type ℓ} (f : A → ℕ) (xs : List A) (i : ℕ) (v : A)
    → i < length xs
    → f v ≤ sum_by f (set xs i v)
le-sum_by-set f [] i v h = absurd (omega arith)
le-sum_by-set f (x ∷ xs) zero v h = omega arith
le-sum_by-set f (x ∷ xs) (suc i) v h = omega (arith, le-sum_by-set f xs i v (omega arith))

-- What the tracker counts for at `now`, before the clamp.
abbrev pub raw_total : SpendTracker → ℕ → ℕ
raw_total tracker now =
    sum_by (bucket_share (now / epoch_duration) (window_start_at now)) tracker.buckets

-- What a bucket that is about to be written still counts for, if it holds another epoch.
abbrev pub stale_share : EpochBucket → ℕ → ℕ
stale_share b now =
    if b.epoch_id == now / epoch_duration
    then 0
    else bucket_share (now / epoch_duration) (window_start_at now) b

abbrev pub written : SpendTracker → ℕ → ℕ → EpochBucket
written tracker now usd_amount = record {
  epoch_id = now / epoch_duration;
  usd_amount = carried (bucket_at tracker now) (now / epoch_duration) + usd_amount;
}

-- A bucket of the current epoch lies inside the window.
share_of_current :
    (b : EpochBucket) (now : ℕ)
    → b.epoch_id ≡ now / epoch_duration
    → bucket_share (now / epoch_duration) (window_start_at now) b ≡ b.usd_amount
share_of_current b now e = ground arith

share_split :
    (b : EpochBucket) (now : ℕ)
    → bucket_share (now / epoch_duration) (window_start_at now) b
      ≡ carried b (now / epoch_duration) + stale_share b now
share_split b now = ground (arith, share_of_current b now)

after_record_spend :
    (tracker after : SpendTracker) (now usd_amount : ℕ)
    → record_spend tracker now usd_amount ≡ ok after
    → (after.buckets ≡ set tracker.buckets (slot_of now) (written tracker now usd_amount))
      × (after.last_write_epoch ≡ now / epoch_duration)
      × (0 < now)
      × (carried (bucket_at tracker now) (now / epoch_duration) + usd_amount ≤ u64_max)
unfolding record_spend
after_record_spend tracker after now usd_amount e = ground arith

-- In a buffer of 144 buckets, a recorded spend raises what the tracker counts for at that moment by
-- its amount, less what the written slot still counted for from another epoch.
raw_total-record_spend :
    (tracker after : SpendTracker) (now usd_amount : ℕ)
    → length tracker.buckets ≡ num_epochs
    → record_spend tracker now usd_amount ≡ ok after
    → raw_total after now + stale_share (bucket_at tracker now) now
      ≡ raw_total tracker now + usd_amount
raw_total-record_spend tracker after now usd_amount n e =
    let (same, stamp, pos, fits) = after_record_spend tracker after now usd_amount e in
    let share = bucket_share (now / epoch_duration) (window_start_at now) in
    omega (
      arith,
      ap (sum_by share) same,
      sum_by-set share tracker.buckets (slot_of now) (written tracker now usd_amount) empty_bucket
          (omega arith),
      share_of_current (written tracker now usd_amount) now refl,
      share_split (bucket_at tracker now) now,
    )

-- The client's budget sees every spend that the program has just recorded in a buffer of 144
-- buckets: it is the total before, with the amount and less what the written slot still counted for
-- from another epoch, clamped to u64, and it is at least the amount.
pub get_rolling-record_spend :
    (tracker after : SpendTracker) (now usd_amount : ℕ)
    → length tracker.buckets ≡ num_epochs
    → record_spend tracker now usd_amount ≡ ok after
    → (get_rolling_24h_usd after now
        ≡ min u64_max
            (raw_total tracker now + usd_amount - stale_share (bucket_at tracker now) now))
      × (usd_amount ≤ get_rolling_24h_usd after now)
get_rolling-record_spend tracker after now usd_amount n e =
    let (same, stamp, pos, fits) = after_record_spend tracker after now usd_amount e in
    let share = bucket_share (now / epoch_duration) (window_start_at now) in
    let new = written tracker now usd_amount in
    let total = get_rolling-eq-sum after now pos (ground arith) in
    let balance = raw_total-record_spend tracker after now usd_amount n e in
    let seen : usd_amount ≤ raw_total after now = omega (
      arith,
      ap (sum_by share) same,
      le-sum_by-set share tracker.buckets (slot_of now) new (omega arith),
      share_of_current new now refl,
    ) in
    (omega (arith, total, balance), omega (arith, total, seen))
