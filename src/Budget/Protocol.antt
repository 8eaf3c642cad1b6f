-- ===== src/Budget/Protocol.antt =====
-- sdk/kit/src/state-resolver.ts, bytesMatchAddress and getProtocolSpend.
pub mod Laws
use phalnx.Base.{
  ℕ, zero, suc, ◌+◌, ◌-◌, ◌/◌, Bool, true, false, List, [], ◌∷◌, Option, none, some, String, ltb,
  ◌==◌, if◌then◌else◌, get_elem?, length,
}
use phalnx.Budget.{ProtocolSpendCounter, SpendTracker, epoch_duration, num_epochs}

-- `bytes[i] !== encoded[i]`, where a place behind the end is `undefined`.
abbrev pub same_place : Option ℕ → Option ℕ → Bool
same_place none none = true
same_place none (some b) = false
same_place (some a) none = false
same_place (some a) (some b) = a == b

-- The loop over the places from `i` on.
unfoldable pub places_match : ℕ → ℕ → List ℕ → List ℕ → Bool
places_match zero i bytes encoded = true
places_match (suc rounds) i bytes encoded =
    let rest = places_match rounds (i + 1) bytes encoded in
    if same_place (get_elem? bytes i) (get_elem? encoded i) then rest else false

-- `encode` is the address encoder of @solana/kit.
module _ (encode : String → List ℕ) where
  unfoldable pub bytes_match_address : List ℕ → String → Bool
  unfolding places_match
  bytes_match_address bytes addr =
      if length bytes == length (encode addr) then places_match 32 0 bytes (encode addr) else false

  unfoldable pub counted_spend : ℕ → String → List ProtocolSpendCounter → ℕ
  counted_spend current_epoch protocol [] = 0
  counted_spend current_epoch protocol (counter ∷ counters) =
      let rest = counted_spend current_epoch protocol counters in
      if bytes_match_address counter.protocol protocol
      then (if ltb (current_epoch - counter.window_start) num_epochs
          then counter.window_spend
          else 0)
      else rest

  unfoldable pub get_protocol_spend : SpendTracker → String → ℕ → ℕ
  get_protocol_spend tracker protocol_address now =
      if now == 0
      then 0
      else counted_spend (now / epoch_duration) protocol_address tracker.protocol_counters
