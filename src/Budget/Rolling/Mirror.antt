-- ===== src/Budget/Rolling/Mirror.antt =====
-- The client's rolling budget and the program's: state-resolver.ts against tracker.rs.
use phalnx.Base.{ℕ, ◌+◌, ◌-◌, ◌*◌, ◌/◌, ◌≤◌, ◌≡◌, refl, List, [], ◌∷◌, All, length, arith}
use phalnx.Budget.{
  EpochBucket, SpendTracker, epoch_duration, num_epochs, window_start_at, u64_max,
  rolling_window_seconds,
}
use phalnx.Budget.Rolling.{add_bucket, add_buckets, get_rolling_24h_usd}
use phalnx.Budget.Rolling.Laws.{add_bucket-le}
use phalnx.Budget.OnChain.{i64_max, chain_add_bucket, chain_add_buckets, chain_get_rolling_24h_usd}

-- A bucket holds a u64.
abbrev pub IsU64Bucket : EpochBucket → Type 0
IsU64Bucket b = b.usd_amount ≤ u64_max

product_bound : (a o : ℕ) → a ≤ u64_max → o ≤ epoch_duration → a * o ≤ u64_max * epoch_duration
product_bound a o h k = grind arith

module _ (now : ℕ) (h : now ≤ i64_max) where
  -- One bucket: neither i64 nor u128 saturates where it would matter.
  chain_add_bucket-eq :
      (t : ℕ) (b : EpochBucket)
      → IsU64Bucket b
      → t ≤ 144 * u64_max
      → chain_add_bucket (now / epoch_duration) (now - rolling_window_seconds) t b
        ≡ add_bucket (now / epoch_duration) (window_start_at now) t b
  unfolding chain_add_bucket add_bucket
  chain_add_bucket-eq t b u s = ground (
    arith,
    product_bound b.usd_amount
        (b.epoch_id * epoch_duration + epoch_duration - (now - rolling_window_seconds)) u,
  )

  chain_add_buckets-eq :
      (t : ℕ) (bs : List EpochBucket)
      → All IsU64Bucket bs
      → t + length bs * u64_max ≤ 144 * u64_max
      → chain_add_buckets (now / epoch_duration) (now - rolling_window_seconds) t bs
        ≡ add_buckets (now / epoch_duration) (window_start_at now) t bs
  unfolding chain_add_buckets add_buckets
  chain_add_buckets-eq t [] u s = refl
  chain_add_buckets-eq t (b ∷ bs) (u, us) s = rw (chain_add_bucket-eq t b u (omega arith)) (
      chain_add_buckets-eq (add_bucket (now / epoch_duration) (window_start_at now) t b) bs us
        (omega (arith, add_bucket-le (now / epoch_duration) (window_start_at now) t b)))

-- For a tracker of 144 buckets of u64 amounts and a clock that fits an i64, the client's rolling
-- total is the one that the program computes.
pub get_rolling-eq-chain :
    (tracker : SpendTracker) (now : ℕ)
    → now ≤ i64_max
    → length tracker.buckets ≡ num_epochs
    → All IsU64Bucket tracker.buckets
    → get_rolling_24h_usd tracker now ≡ chain_get_rolling_24h_usd tracker now
unfolding get_rolling_24h_usd chain_get_rolling_24h_usd
get_rolling-eq-chain tracker now h n u =
    ground (arith, chain_add_buckets-eq now h 0 tracker.buckets u (omega arith))
