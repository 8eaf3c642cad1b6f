-- ===== src/Budget/Rolling/Laws.antt =====
-- What getRolling24hUsd returns: the sum of what each bucket counts for, and bounds on it.
use phalnx.Base.{
  ℕ, ◌+◌, ◌-◌, ◌*◌, ◌/◌, ◌≤◌, ◌<◌, ◌≡◌, min, Bool, false, ◌&&◌, List, [], ◌∷◌, ltb, leb,
  if◌then◌else◌, sum_by, arith, inl, inr, Bool-cases,
}
use native.Mathlib.Nat.{div-le_of_le-mul, zero-mul, zero-div}
use phalnx.Budget.{
  EpochBucket, SpendTracker, epoch_duration, window_start_at, scaled_amount, u64_max,
}
use phalnx.Budget.Rolling.{add_bucket, add_buckets, is_expired, get_rolling_24h_usd}

-- A bucket overlaps the window if it ends behind the window's start and does not lie in the future.
abbrev pub overlaps : ℕ → ℕ → EpochBucket → Bool
overlaps current window_start b =
    ltb window_start (b.epoch_id * epoch_duration + epoch_duration) && leb b.epoch_id current

-- It lies inside if it also starts in the window.
abbrev pub lies_inside : ℕ → ℕ → EpochBucket → Bool
lies_inside current window_start b =
    leb window_start (b.epoch_id * epoch_duration) && leb b.epoch_id current

abbrev pub bucket_share : ℕ → ℕ → EpochBucket → ℕ
bucket_share current window_start b =
    if overlaps current window_start b
    then scaled_amount epoch_duration window_start (b.epoch_id * epoch_duration) b.usd_amount
    else 0

abbrev pub touching_amount : ℕ → ℕ → EpochBucket → ℕ
touching_amount current window_start b = if overlaps current window_start b then b.usd_amount else 0

abbrev pub inside_amount : ℕ → ℕ → EpochBucket → ℕ
inside_amount current window_start b =
    if lies_inside current window_start b then b.usd_amount else 0

pub scaled_zero : (d w s : ℕ) → scaled_amount d w s 0 ≡ 0
scaled_zero d w s = ground (arith, zero-mul (s + d - w), zero-div d)

share_le : (a o d : ℕ) → o ≤ d → a * o / d ≤ a
share_le a o d h = div-le_of_le-mul d (grind arith)

pub scaled_le : (d w s a : ℕ) → 0 < d → scaled_amount d w s a ≤ a
scaled_le d w s a h = elim (Bool-cases (leb w s)) [
  | inl e ↦ ground arith
  | inr e ↦ ground (arith, share_le a (s + d - w) d (ground arith))
]

pub add_bucket-eq-add :
    (current w t : ℕ) (b : EpochBucket) → add_bucket current w t b ≡ t + bucket_share current w b
unfolding add_bucket
add_bucket-eq-add current w t b = ground arith

pub add_buckets-eq-sum :
    (current w t : ℕ) (bs : List EpochBucket)
    → add_buckets current w t bs ≡ t + sum_by (bucket_share current w) bs
unfolding add_buckets
add_buckets-eq-sum current w t [] = omega arith
add_buckets-eq-sum current w t (b ∷ bs) = omega (
  arith,
  add_buckets-eq-sum current w (add_bucket current w t b) bs,
  add_bucket-eq-add current w t b,
)

inside_le : (current w : ℕ) (b : EpochBucket) → inside_amount current w b ≤ bucket_share current w b
inside_le current w b = ground arith

share_le_touching :
    (current w : ℕ) (b : EpochBucket) → bucket_share current w b ≤ touching_amount current w b
share_le_touching current w b =
    ground
      (arith, scaled_le epoch_duration w (b.epoch_id * epoch_duration) b.usd_amount (omega arith))

touching_le : (current w : ℕ) (b : EpochBucket) → touching_amount current w b ≤ b.usd_amount
touching_le current w b = ground arith

sum_by_mono {ℓ} :
    {A : Type ℓ} (f g : A → ℕ) → ((a : A) → f a ≤ g a) → (xs : List A) → sum_by f xs ≤ sum_by g xs
sum_by_mono f g h [] = omega arith
sum_by_mono f g h (x ∷ xs) = omega (arith, h x, sum_by_mono f g h xs)

-- The budget of a tracker that is in use.
pub get_rolling-eq-sum :
    (tracker : SpendTracker) (now : ℕ)
    → 0 < now
    → is_expired tracker (now / epoch_duration) ≡ false
    → get_rolling_24h_usd tracker now
      ≡ min u64_max
          (sum_by (bucket_share (now / epoch_duration) (window_start_at now)) tracker.buckets)
unfolding get_rolling_24h_usd
get_rolling-eq-sum tracker now h e =
    ground
      (arith, add_buckets-eq-sum (now / epoch_duration) (window_start_at now) 0 tracker.buckets)

-- At a time after 0, for a tracker that is not expired, the rolling total is at least what the
-- buckets inside the window hold, and at most what the buckets that touch the window hold, each
-- clamped to u64.
pub get_rolling_bounds :
    (tracker : SpendTracker) (now : ℕ)
    → 0 < now
    → is_expired tracker (now / epoch_duration) ≡ false
    → (min u64_max
          (sum_by (inside_amount (now / epoch_duration) (window_start_at now)) tracker.buckets)
        ≤ get_rolling_24h_usd tracker now)
      × (get_rolling_24h_usd tracker now
          ≤ min u64_max (
              sum_by
                (touching_amount (now / epoch_duration) (window_start_at now))
                tracker.buckets))
get_rolling_bounds tracker now h e =
    let c = now / epoch_duration in
    let w = window_start_at now in
    omega (
      arith,
      get_rolling-eq-sum tracker now h e,
      sum_by_mono (inside_amount c w) (bucket_share c w) (inside_le c w) tracker.buckets,
      sum_by_mono (bucket_share c w) (touching_amount c w) (share_le_touching c w) tracker.buckets,
    )

pub add_bucket-le :
    (current w t : ℕ) (b : EpochBucket) → add_bucket current w t b ≤ t + b.usd_amount
add_bucket-le current w t b =
    omega (
      arith,
      add_bucket-eq-add current w t b,
      share_le_touching current w b,
      touching_le current w b,
    )
