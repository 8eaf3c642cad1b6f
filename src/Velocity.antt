-- ===== src/Velocity.antt =====
-- sdk/kit/src/velocity-tracker.ts, the class VelocityTracker. Each method reads the shield's state,
-- which the tracker shares, and the clock's value in milliseconds.
pub mod Laws
mod Tests
use phalnx.Base.{
  ℕ, ◌+◌, ◌-◌, Bool, true, false, List, [], ◌∷◌, ◌++◌, Option, none, some, Result, ok, err, ltb,
  leb, if◌then◌else◌, length, filter_by,
}
use phalnx.Core.Policies.{or_default, day_ms, hour_ms}
use phalnx.Budget.{EffectiveBudget}
use phalnx.Budget.Resolve.{ResolvedVaultState}
use phalnx.Shield.State
use phalnx.Shield.State.{
  ShieldState, get_total_spend_in_window, get_transaction_count_in_window,
  get_effective_global_spent_24h, get_effective_global_remaining, get_effective_agent_spent_24h,
}

pub record RapidFireThreshold : Type 0 where
  pub count : ℕ
  pub window_ms : ℕ

pub record VelocityConfig : Type 0 where
  pub max_tx_per_minute : Option ℕ
  pub max_tx_per_hour : Option ℕ
  pub max_usd_per_hour : Option ℕ
  pub rapid_fire_threshold : Option RapidFireThreshold
  pub cooldown_ms : Option ℕ

-- `Required<VelocityConfig>`.
pub record RequiredConfig : Type 0 where
  pub max_tx_per_minute : ℕ
  pub max_tx_per_hour : ℕ
  pub max_usd_per_hour : ℕ
  pub rapid_fire_threshold : RapidFireThreshold
  pub cooldown_ms : ℕ

unfoldable pub default_config : RequiredConfig
default_config = record {
  max_tx_per_minute = 10;
  max_tx_per_hour = 60;
  max_usd_per_hour = 500000000;
  rapid_fire_threshold = record { count = 5; window_ms = 10000 };
  cooldown_ms = 30000;
}

pub record VelocityTracker : Type 0 where
  pub config : RequiredConfig
  pub cooldown_until : ℕ
  pub tx_timestamps : List ℕ

unfoldable pub config_of : Option VelocityConfig → RequiredConfig
unfolding default_config
config_of none = default_config
config_of (some c) = record {
  max_tx_per_minute = or_default c.max_tx_per_minute default_config.max_tx_per_minute;
  max_tx_per_hour = or_default c.max_tx_per_hour default_config.max_tx_per_hour;
  max_usd_per_hour = or_default c.max_usd_per_hour default_config.max_usd_per_hour;
  rapid_fire_threshold = or_default c.rapid_fire_threshold default_config.rapid_fire_threshold;
  cooldown_ms = or_default c.cooldown_ms default_config.cooldown_ms;
}

unfoldable pub new_tracker : Option VelocityConfig → VelocityTracker
new_tracker config = record { config = config_of config; cooldown_until = 0; tx_timestamps = [] }

-- The rules of the violations, without their texts.
pub data VelocityRule : Type 0 where
  velocity_cooldown velocity_tx_per_minute velocity_tx_per_hour : VelocityRule
  velocity_usd_per_hour velocity_on_chain_cap velocity_rapid_fire : VelocityRule

unfoldable pub is_in_cooldown : ℕ → VelocityTracker → Bool
is_in_cooldown now t = ltb now t.cooldown_until

-- `if (value >= ceiling) violations.push(rule)`.
unfoldable pub reached : ℕ → ℕ → VelocityRule → List VelocityRule
reached value ceiling rule = if leb ceiling value then rule ∷ [] else []

abbrev pub minute_ms : ℕ
minute_ms = 60000

unfoldable pub check_on_chain_cap : Option ResolvedVaultState → ShieldState → List VelocityRule
check_on_chain_cap none state = []
check_on_chain_cap (some rs) state =
    reached (get_effective_global_spent_24h state) rs.global_budget.cap velocity_on_chain_cap

abbrev pub is_recent : ℕ → ℕ → Bool
is_recent cutoff t = leb cutoff t

-- The timestamps of the rapid-fire window. (A negative cutoff is 0 here, which no timestamp is
-- below either.)
unfoldable pub recent_timestamps : ℕ → VelocityTracker → List ℕ
recent_timestamps now t =
    filter_by (is_recent (now - t.config.rapid_fire_threshold.window_ms)) t.tx_timestamps

-- The violations that `check` collects out of a cooldown.
unfoldable pub velocity_violations : ShieldState → ℕ → VelocityTracker → List VelocityRule
velocity_violations state now t =
    reached (get_transaction_count_in_window minute_ms now state) t.config.max_tx_per_minute
      velocity_tx_per_minute
    ++ (reached (get_transaction_count_in_window hour_ms now state) t.config.max_tx_per_hour
          velocity_tx_per_hour
        ++ (reached (get_total_spend_in_window hour_ms now state) t.config.max_usd_per_hour
              velocity_usd_per_hour
            ++ (check_on_chain_cap state.resolved_state state
                ++ reached (length (recent_timestamps now t) + 1)
                    t.config.rapid_fire_threshold.count velocity_rapid_fire)))

-- What follows from the violations: a cooldown, or the timestamp unless this is a dry run.
unfoldable pub conclude :
    List VelocityRule
    → Bool
    → ℕ
    → VelocityTracker
    → Result (List VelocityRule) (Unit {0}) × VelocityTracker
conclude (v ∷ vs) dry_run now t =
    (err (v ∷ vs), record t { cooldown_until = now + t.config.cooldown_ms })
conclude [] true now t = (ok tt, t)
conclude [] false now t = (ok tt, record t { tx_timestamps = t.tx_timestamps ++ now ∷ [] })

-- `check`: what it throws, and the tracker after it.
unfoldable pub check :
    ShieldState
    → Bool
    → ℕ
    → VelocityTracker
    → Result (List VelocityRule) (Unit {0}) × VelocityTracker
check state dry_run now t =
    let kept = record t { tx_timestamps = recent_timestamps now t } in
    if is_in_cooldown now t
    then (err (velocity_cooldown ∷ []), t)
    else conclude (velocity_violations state now t) dry_run now kept

unfoldable pub record_transaction : Option ℕ → ℕ → ShieldState → ShieldState
record_transaction none now state = State.record_transaction now state
record_transaction (some usd) now state =
    State.record_spend "" usd now (State.record_transaction now state)

unfoldable pub get_cooldown_remaining_ms : ℕ → VelocityTracker → ℕ
get_cooldown_remaining_ms now t = if ltb now t.cooldown_until then t.cooldown_until - now else 0

unfoldable pub reset : VelocityTracker → VelocityTracker
reset t = record t { cooldown_until = 0; tx_timestamps = [] }

pub data SpendSource : Type 0 where
  on_chain client_side : SpendSource

pub record SpendStatus : Type 0 where
  pub global_spent_24h : ℕ
  pub global_cap : Option ℕ
  pub global_remaining : Option ℕ
  pub agent_spent_24h : Option ℕ
  pub agent_cap : Option ℕ
  pub source : SpendSource

abbrev cap_of : Option EffectiveBudget → Option ℕ
cap_of none = none
cap_of (some b) = some b.cap

abbrev status_of : Option ResolvedVaultState → ℕ → ShieldState → SpendStatus
status_of none now state = record {
  global_spent_24h = get_total_spend_in_window day_ms now state;
  global_cap = none;
  global_remaining = none;
  agent_spent_24h = none;
  agent_cap = none;
  source = client_side;
}
status_of (some rs) now state = record {
  global_spent_24h = get_effective_global_spent_24h state;
  global_cap = some rs.global_budget.cap;
  global_remaining = get_effective_global_remaining state;
  agent_spent_24h = get_effective_agent_spent_24h state;
  agent_cap = cap_of rs.agent_budget;
  source = on_chain;
}

unfoldable pub get_spend_status : ℕ → ShieldState → SpendStatus
get_spend_status now state = status_of state.resolved_state now state

pub record VelocityStats : Type 0 where
  pub tx_per_minute : ℕ
  pub tx_per_hour : ℕ
  pub usd_per_hour : ℕ
  pub in_cooldown : Bool
  pub cooldown_remaining_ms : ℕ

unfoldable pub get_stats : ShieldState → ℕ → VelocityTracker → VelocityStats
get_stats state now t = record {
  tx_per_minute = get_transaction_count_in_window minute_ms now state;
  tx_per_hour = get_transaction_count_in_window hour_ms now state;
  usd_per_hour = get_total_spend_in_window hour_ms now state;
  in_cooldown = is_in_cooldown now t;
  cooldown_remaining_ms = get_cooldown_remaining_ms now t;
}
