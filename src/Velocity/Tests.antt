-- ===== src/Velocity/Tests.antt =====
-- A tracker with the default configuration, and one that is denied.
use phalnx.Base.{◌+◌, ◌<◌, ◌≡◌, ◌≢◌, ◌↔◌, refl, true, false, [], ◌∷◌, ok, err, arith}
use phalnx.Shield.State.{ShieldState, initial}
use phalnx.Velocity.{VelocityTracker, default_config, velocity_cooldown, is_in_cooldown, check}
use phalnx.Velocity.Laws.{IsCalm, check-passes_iff, check-starts_cooldown}

-- Four checks within the rapid-fire window: the next one is denied.
abbrev busy : VelocityTracker
busy = record {
  config = default_config;
  cooldown_until = 0;
  tx_timestamps = 100 ∷ 200 ∷ 300 ∷ 400 ∷ [];
}

check-passes_iff_example :
    ((check initial false 20000 busy).0 ≡ ok tt)
    ↔ ((is_in_cooldown 20000 busy ≡ false) × IsCalm initial 20000 busy)
check-passes_iff_example = check-passes_iff initial false 20000 busy

idle : is_in_cooldown 500 busy ≡ false
unfolding is_in_cooldown
idle = refl

denied : (check initial true 500 busy).0 ≢ ok tt
unfolding check initial default_config is_in_cooldown phalnx.Velocity.velocity_violations
    phalnx.Velocity.recent_timestamps phalnx.Velocity.reached phalnx.Velocity.check_on_chain_cap
    phalnx.Velocity.conclude phalnx.Shield.State.get_transaction_count_in_window
    phalnx.Shield.State.get_total_spend_in_window
denied h = ground (arith, h)

soon : 9000 < 500 + busy.config.cooldown_ms
unfolding default_config
soon = omega arith

check-starts_cooldown_example :
    let t' = (check initial true 500 busy).1 in
    ((check initial false 9000 t').0 ≡ err (velocity_cooldown ∷ []))
    × ((check initial false 9000 t').1 ≡ t')
check-starts_cooldown_example =
    check-starts_cooldown initial initial true false 500 9000 busy idle denied soon
