-- ===== src/Budget/Agent/Laws.antt =====
-- What getAgentRolling24hUsd returns: its early exits lose nothing.
use phalnx.Base.{
  ℕ, zero, suc, ◌+◌, ◌-◌, ◌*◌, ◌/◌, ◌%◌, ◌≤◌, ◌<◌, ◌≡◌, refl, min, ◌&&◌, ltb, leb, if◌then◌else◌,
  get_or, arith,
}
use phalnx.Budget.{
  AgentContributionEntry, overlay_epoch_duration, overlay_num_epochs, window_start_at,
  scaled_amount, u64_max,
}
use phalnx.Budget.Rolling.Laws.{scaled_zero}
use phalnx.Budget.Agent.{add_contribution, add_contributions, get_agent_rolling_24h_usd}

module _ (current w : ℕ) (entry : AgentContributionEntry) where
  -- What the epoch `k` before the last write counts for, whatever comes before or behind it.
  abbrev pub epoch_share : ℕ → ℕ
  epoch_share k =
      let epoch = entry.last_write_epoch - k in
      let start = epoch * overlay_epoch_duration in
      if leb k entry.last_write_epoch
        && (ltb w (start + overlay_epoch_duration) && leb epoch current)
      then scaled_amount overlay_epoch_duration w start
          (get_or entry.contributions (epoch % overlay_num_epochs) 0)
      else 0

  -- All `rounds` epochs from `k` on, with no early exit.
  pub share_sum : ℕ → ℕ → ℕ
  share_sum zero k = 0
  share_sum (suc rounds) k = epoch_share k + share_sum rounds (k + 1)

  add_contribution-eq :
      (k t : ℕ)
      → k ≤ entry.last_write_epoch
      → w < (entry.last_write_epoch - k) * overlay_epoch_duration + overlay_epoch_duration
      → add_contribution current w entry k t ≡ t + epoch_share k
  unfolding add_contribution
  add_contribution-eq k t h i = ground (
    arith,
    scaled_zero overlay_epoch_duration w ((entry.last_write_epoch - k) * overlay_epoch_duration),
  )

  share_sum_after_last : (rounds k : ℕ) → entry.last_write_epoch < k → share_sum rounds k ≡ 0
  unfolding share_sum
  share_sum_after_last zero k h = refl
  share_sum_after_last (suc rounds) k h =
      ground (arith, share_sum_after_last rounds (k + 1) (omega arith))

  share_sum_before_window :
      (rounds k : ℕ)
      → (entry.last_write_epoch - k) * overlay_epoch_duration + overlay_epoch_duration ≤ w
      → share_sum rounds k ≡ 0
  unfolding share_sum
  share_sum_before_window zero k h = refl
  share_sum_before_window (suc rounds) k h =
      ground (arith, share_sum_before_window rounds (k + 1) (omega arith))

  pub add_contributions-eq-sum :
      (rounds k t : ℕ) → add_contributions current w entry rounds k t ≡ t + share_sum rounds k
  unfolding add_contributions share_sum
  add_contributions-eq-sum zero k t = omega arith
  add_contributions-eq-sum (suc rounds) k t = ground (
    arith,
    add_contributions-eq-sum rounds (k + 1) (add_contribution current w entry k t),
    add_contribution-eq k t,
    share_sum_after_last (suc rounds) k,
    share_sum_before_window (suc rounds) k,
  )

-- For every entry and time after 0 that is not expired, the loop with its two early exits returns
-- the clamped sum over all 24 epochs that the entry can hold.
pub get_agent_rolling-eq-sum :
    (entry : AgentContributionEntry) (now : ℕ)
    → 0 < now
    → now / overlay_epoch_duration ≤ entry.last_write_epoch + overlay_num_epochs
    → get_agent_rolling_24h_usd entry now
      ≡ min u64_max (
          share_sum (now / overlay_epoch_duration) (window_start_at now) entry overlay_num_epochs 0)
unfolding get_agent_rolling_24h_usd
get_agent_rolling-eq-sum entry now h e =
    let c = now / overlay_epoch_duration in
    let w = window_start_at now in
    ground (arith, add_contributions-eq-sum c w entry overlay_num_epochs 0 0)
