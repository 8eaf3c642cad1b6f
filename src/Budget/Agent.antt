-- ===== src/Budget/Agent.antt =====
-- sdk/kit/src/state-resolver.ts, getAgentRolling24hUsd and findAgentOverlaySlot.
pub mod Laws
use phalnx.Base.{
  ℕ, zero, suc, ◌+◌, ◌-◌, ◌*◌, ◌/◌, ◌%◌, Bool, List, [], ◌∷◌, Option, none, some, String, str_eq,
  ltb, leb, ◌==◌, if◌then◌else◌, get_or, length,
}
use phalnx.Budget.{
  AgentContributionEntry, AgentSpendOverlay, overlay_epoch_duration, overlay_num_epochs,
  window_start_at, scaled_amount, clamp_u64,
}

-- What the loop adds for the epoch `last_write_epoch - k`, once neither `break` is taken.
unfoldable pub add_contribution : ℕ → ℕ → AgentContributionEntry → ℕ → ℕ → ℕ
add_contribution current_epoch window_start entry k total =
    let epoch_for_k = entry.last_write_epoch - k in
    let bucket_start = epoch_for_k * overlay_epoch_duration in
    let contribution = get_or entry.contributions (epoch_for_k % overlay_num_epochs) 0 in
    if ltb current_epoch epoch_for_k
    then total
    else if contribution == 0
    then total
    else total + scaled_amount overlay_epoch_duration window_start bucket_start contribution

-- The loop, with its rounds left: it stops before epoch 0, and at the first bucket that ends before
-- the window.
unfoldable pub add_contributions : ℕ → ℕ → AgentContributionEntry → ℕ → ℕ → ℕ → ℕ
add_contributions current_epoch window_start entry zero k total = total
add_contributions current_epoch window_start entry (suc rounds) k total =
    let bucket_end =
      (entry.last_write_epoch - k) * overlay_epoch_duration + overlay_epoch_duration in
    let rest =
      add_contributions current_epoch window_start entry rounds (k + 1)
        (add_contribution current_epoch window_start entry k total) in
    if ltb entry.last_write_epoch k
    then total
    else if leb bucket_end window_start
    then total
    else rest

unfoldable pub get_agent_rolling_24h_usd : AgentContributionEntry → ℕ → ℕ
get_agent_rolling_24h_usd entry now =
    let current_epoch = now / overlay_epoch_duration in
    if now == 0
    then 0
    else if ltb overlay_num_epochs (current_epoch - entry.last_write_epoch)
    then 0
    else clamp_u64
        (add_contributions current_epoch (window_start_at now) entry overlay_num_epochs 0 0)

pub record OverlaySlot : Type 0 where
  pub slot_idx : ℕ
  pub lifetime_spend : ℕ
  pub lifetime_tx_count : ℕ

-- `findIndex`; `bytes_to_address` is the address codec of @solana/kit, `none` where it throws.
module _ (bytes_to_address : List ℕ → Option String) where
  unfoldable pub is_agent : String → AgentContributionEntry → Bool
  is_agent agent_address e = elim (bytes_to_address e.agent) [
    | none ↦ Bool.false
    | some a ↦ str_eq a agent_address
  ]

  unfoldable pub find_slot_from : ℕ → String → List AgentContributionEntry → Option ℕ
  find_slot_from i agent_address [] = none
  find_slot_from i agent_address (e ∷ es) =
      let rest = find_slot_from (i + 1) agent_address es in
      if is_agent agent_address e then some i else rest

  abbrev slot_of : AgentSpendOverlay → ℕ → OverlaySlot
  slot_of overlay i = record {
    slot_idx = i;
    lifetime_spend = get_or overlay.lifetime_spend i 0;
    lifetime_tx_count = get_or overlay.lifetime_tx_count i 0;
  }

  unfoldable pub find_agent_overlay_slot : Option AgentSpendOverlay → String → Option OverlaySlot
  unfolding find_slot_from is_agent
  find_agent_overlay_slot none agent_address = none
  find_agent_overlay_slot (some overlay) agent_address =
      elim (find_slot_from 0 agent_address overlay.entries) [
        | none ↦ none
        | some i ↦ some (slot_of overlay i)
      ]
