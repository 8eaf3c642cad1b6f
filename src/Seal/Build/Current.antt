-- ===== src/Seal/Build/Current.antt =====
-- The state that seal() works with.
use mathlib.Core.Path.{subst}
use phalnx.Base.{
  refl, ℕ, ◌+◌, ◌*◌, Bool, true, inl, inr, ◌⊎◌, Result, ok-eq, if◌then◌else◌, ◌≤◌, ◌≡◌, ap, false,
  Option, none, some, ok, ltb, arith,
}
use phalnx.Seal.{SealError, VaultState}
use phalnx.Seal.Build.{Services, SealParams}
use phalnx.Seal.Build.Steps.{or_default, resolve_state}

-- At most as old as given in milliseconds, or 30 seconds.
abbrev pub IsRecent : Option ℕ → VaultState → ℕ → Type 0
IsRecent none state now = now ≤ 30000 + 1000 * state.resolved_at_timestamp
IsRecent (some given) state now = now ≤ given + 1000 * state.resolved_at_timestamp

recent :
    (given : Option ℕ) (state : VaultState) (now : ℕ)
    → ltb (or_default given 30000 + 1000 * state.resolved_at_timestamp) now ≡ false
    → IsRecent given state now
recent none state now h = ground (arith, h)
recent (some given) state now h = ground (arith, h)

module _ {World Transaction : Type 0} (s : Services World Transaction)
    (p : SealParams World Transaction) where
  if-resolved :
      (test : Bool) (old : VaultState) (given : Option ℕ)
      (resolved : Result SealError VaultState × World) (state : VaultState) (w w' : World)
      → ltb (or_default given 30000 + 1000 * old.resolved_at_timestamp) (s.now_ms w) ≡ test
      → (if test then resolved else (ok old, w)) ≡ (ok state, w')
      → ((◌≡◌ {A = Option VaultState} (some old) (some state))
          × IsRecent given state (s.now_ms w)
          × (w ≡ w'))
        ⊎ (resolved ≡ (ok state, w'))
  if-resolved true old given resolved state w w' e h = inr h
  if-resolved false old given resolved state w w' e h =
      let same : old ≡ state = ok-eq (ap (λ r. r.0) h) in
      inl (
        ap (λ x. some x) same,
        subst (λ x. IsRecent given x (s.now_ms w)) same (recent given old (s.now_ms w) e),
        ap (λ r. r.1) h,
      )

  resolve-cases :
      (cached : Option VaultState) (given : Option ℕ)
      (resolved : Result SealError VaultState × World) (state : VaultState) (w w' : World)
      → elim cached [
        | none ↦ resolved
        | some old ↦
            if ltb (or_default given 30000 + 1000 * old.resolved_at_timestamp) (s.now_ms w)
            then resolved
            else (ok old, w)
      ]
        ≡ (ok state, w')
      → ((cached ≡ some state) × IsRecent given state (s.now_ms w) × (w ≡ w'))
        ⊎ (resolved ≡ (ok state, w'))
  resolve-cases none given resolved state w w' h = inr h
  resolve-cases (some old) given resolved state w w' h =
      if-resolved (ltb (or_default given 30000 + 1000 * old.resolved_at_timestamp) (s.now_ms w)) old
        given resolved state w w' refl h

  -- The state that a call works with: the caller's, if it is recent, or the one that the node
  -- answers.
  abbrev pub IsCurrent : VaultState → World → World → Type 0
  IsCurrent state w w' =
      ((p.cached_state ≡ some state) × IsRecent p.max_cache_age_ms state (s.now_ms w) × (w ≡ w'))
      ⊎ (s.resolve_vault_state p.vault p.agent p.network w ≡ (ok state, w'))

  pub resolved-IsCurrent :
      (state : VaultState) (w w' : World)
      → resolve_state s p w ≡ (ok state, w')
      → IsCurrent state w w'
  unfolding resolve_state
  resolved-IsCurrent state w w' h =
      resolve-cases p.cached_state p.max_cache_age_ms
        (s.resolve_vault_state p.vault p.agent p.network w) state w w' h
