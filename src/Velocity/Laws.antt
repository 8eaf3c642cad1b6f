-- ===== src/Velocity/Laws.antt =====
-- The cooldown and the ceilings of a velocity tracker.
use phalnx.Base.{
  ℕ, ◌+◌, ◌<◌, ◌≡◌, ◌≢◌, ◌↔◌, ◌⊎◌, refl, ap, sym, ◌∙◌, Bool, true, false, List, [], ◌∷◌, Option,
  none, some, Result, ok, err, length, arith, inl, inr, Bool-cases, append-eq-nil,
}
use phalnx.Core.Policies.{hour_ms}
use phalnx.Budget.Resolve.{ResolvedVaultState}
use phalnx.Shield.State.{
  ShieldState, get_total_spend_in_window, get_transaction_count_in_window,
  get_effective_global_spent_24h,
}
use phalnx.Velocity.{
  VelocityTracker, VelocityRule, velocity_cooldown, is_in_cooldown, reached, minute_ms,
  check_on_chain_cap, recent_timestamps, velocity_violations, conclude, check,
}

abbrev pub BelowCap : Option ResolvedVaultState → ShieldState → Type 0
BelowCap none state = Unit
BelowCap (some rs) state = get_effective_global_spent_24h state < rs.global_budget.cap

-- Every ceiling is still above what has happened.
pub record IsCalm (state : ShieldState) (now : ℕ) (t : VelocityTracker) : Type 0 where
  pub per_minute : get_transaction_count_in_window minute_ms now state < t.config.max_tx_per_minute
  pub per_hour : get_transaction_count_in_window hour_ms now state < t.config.max_tx_per_hour
  pub usd : get_total_spend_in_window hour_ms now state < t.config.max_usd_per_hour
  pub cap : BelowCap state.resolved_state state
  pub rapid : length (recent_timestamps now t) + 1 < t.config.rapid_fire_threshold.count

reached_iff :
    (value ceiling : ℕ) (rule : VelocityRule)
    → (reached value ceiling rule ≡ []) ↔ (value < ceiling)
unfolding reached
reached_iff value ceiling rule = ground arith

cap_iff :
    (rs : Option ResolvedVaultState) (state : ShieldState)
    → (check_on_chain_cap rs state ≡ []) ↔ BelowCap rs state
unfolding check_on_chain_cap reached
cap_iff none state = ground arith
cap_iff (some rs) state = ground arith

velocity_violations_iff :
    (state : ShieldState) (now : ℕ) (t : VelocityTracker)
    → (velocity_violations state now t ≡ []) ↔ IsCalm state now t
unfolding velocity_violations
velocity_violations_iff state now t =
    let minute =
      reached_iff (get_transaction_count_in_window minute_ms now state) t.config.max_tx_per_minute
        _ in
    let hour =
      reached_iff (get_transaction_count_in_window hour_ms now state) t.config.max_tx_per_hour _ in
    let usd =
      reached_iff (get_total_spend_in_window hour_ms now state) t.config.max_usd_per_hour _ in
    let cap = cap_iff state.resolved_state state in
    let rapid =
      reached_iff (length (recent_timestamps now t) + 1) t.config.rapid_fire_threshold.count _ in
    (
      λ h.
          let (m, h₁) = append-eq-nil _ _ h in
          let (r, h₂) = append-eq-nil _ _ h₁ in
          let (u, h₃) = append-eq-nil _ _ h₂ in
          let (c, f) = append-eq-nil _ _ h₃ in
          record {
            per_minute = minute.0 m;
            per_hour = hour.0 r;
            usd = usd.0 u;
            cap = cap.0 c;
            rapid = rapid.0 f;
          },
      λ a. rw (minute.1 a.per_minute, hour.1 a.per_hour, usd.1 a.usd, cap.1 a.cap, rapid.1 a.rapid),
    )

conclude_iff :
    (vs : List VelocityRule) (dry_run : Bool) (now : ℕ) (t : VelocityTracker)
    → ((conclude vs dry_run now t).0 ≡ ok tt) ↔ (vs ≡ [])
unfolding conclude
conclude_iff [] true now t = ground arith
conclude_iff [] false now t = ground arith
conclude_iff (v ∷ vs) dry_run now t = ground arith

check-idle :
    (state : ShieldState) (dry_run : Bool) (now : ℕ) (t : VelocityTracker)
    → is_in_cooldown now t ≡ false
    → check state dry_run now t
      ≡ conclude
          (velocity_violations state now t)
          dry_run
          now
          (record t { tx_timestamps = recent_timestamps now t })
unfolding check
check-idle state dry_run now t idle = ground (arith, idle)

-- A check passes exactly if the tracker is not in its cooldown and every ceiling is still above
-- what has happened: the transactions of the last minute and hour, the amounts of the last hour,
-- the synced vault's cap where there is one, and the passed checks of the rapid-fire window with
-- this one.
pub check-passes_iff :
    (state : ShieldState) (dry_run : Bool) (now : ℕ) (t : VelocityTracker)
    → ((check state dry_run now t).0 ≡ ok tt)
      ↔ ((is_in_cooldown now t ≡ false) × IsCalm state now t)
unfolding check
check-passes_iff state dry_run now t =
    let kept = record t { tx_timestamps = recent_timestamps now t } in
    let calm = velocity_violations_iff state now t in
    let passed = conclude_iff (velocity_violations state now t) dry_run now kept in
    elim (Bool-cases (is_in_cooldown now t)) [
      | inl cooling ↦ ground (arith, cooling)
      | inr idle ↦ (
        λ h. (
          idle,
          calm.0 (passed.0 (ap (λ r. r.0) (sym (check-idle state dry_run now t idle)) ∙ h)),
        ),
        λ h. ap (λ r. r.0) (check-idle state dry_run now t idle) ∙ passed.1 (calm.1 h.1),
      )
    ]

-- A check in the cooldown.
abbrev Denied : (Result (List VelocityRule) (Unit {0})) × VelocityTracker → VelocityTracker → Type 0
Denied answer t = (answer.0 ≡ err (velocity_cooldown ∷ [])) × (answer.1 ≡ t)

conclude-denies :
    (vs : List VelocityRule) (dry_run : Bool) (now : ℕ) (t : VelocityTracker)
    → ((conclude vs dry_run now t).0 ≡ ok tt)
      ⊎ ((conclude vs dry_run now t).1.cooldown_until ≡ now + t.config.cooldown_ms)
unfolding conclude
conclude-denies [] true now t = inl refl
conclude-denies [] false now t = inl refl
conclude-denies (v ∷ vs) dry_run now t = inr refl

-- A check that is denied out of a cooldown starts one: until `cooldown_ms` have passed, every further
-- check is denied whatever the shield's state is by then, and leaves the tracker as it is. That
-- holds for a dry run as well.
pub check-starts_cooldown :
    (state state' : ShieldState) (dry_run dry_run' : Bool) (now now' : ℕ) (t : VelocityTracker)
    → is_in_cooldown now t ≡ false
    → (check state dry_run now t).0 ≢ ok tt
    → now' < now + t.config.cooldown_ms
    → let t' = (check state dry_run now t).1 in Denied (check state' dry_run' now' t') t'
unfolding check is_in_cooldown
check-starts_cooldown state state' dry_run dry_run' now now' t idle denied soon =
    let kept = record t { tx_timestamps = recent_timestamps now t } in
    elim (conclude-denies (velocity_violations state now t) dry_run now kept) [
      | inl passed ↦ ground (arith, idle, denied, passed)
      | inr started ↦ ground (arith, idle, started)
    ]
