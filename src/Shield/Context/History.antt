-- ===== src/Shield/Context/History.antt =====
-- Histories of calls on one context of sdk/kit/src/shield.ts, and what holds at every later time.
use phalnx.Base.{
  ℕ, ◌≤◌, ◌≡◌, ◌∙◌, sym, ap, List, [], ◌∷◌, String, All, Option, none, some, Result, ok, err, arith,
  refl,
}
use phalnx.Core.Policies.{SpendLimit}
use phalnx.Violations.{PolicyViolation}
use phalnx.Inspector.{InspectableInstruction}
use phalnx.Network.{Network}
use phalnx.Policies.{ShieldPolicies, ResolvedPolicies}
use phalnx.Budget.Resolve.{ResolvedVaultState}
use phalnx.Shield.State.{
  ShieldState, initial, reset, sync_from_on_chain, get_spend_in_window,
  get_transaction_count_in_window,
}
use phalnx.Shield.State.Laws.{get_spend_in_window-later, get_transaction_count-later}
use phalnx.Shield.Evaluate.{window_of}
use phalnx.Shield.Context.{Context, shield, enforce, pause, resume, sync, reset_state}
use phalnx.Shield.Context.Recording.{spent}
use phalnx.Shield.Context.Safety.{enforce-eq-ok_iff, enforce-limits}

-- The calls that change the context and leave its policies alone.
pub data Call : Type 0 where
  enforcing : List InspectableInstruction → String → Call
  pausing : Call
  resuming : Call
  syncing : ResolvedVaultState → Call
  resetting : Call

-- A call that throws leaves the context as it was.
abbrev settled {ℓ} : {E : Type ℓ} → Result E Context → Context → Context
settled (ok c') c = c'
settled (err e) c = c

unfoldable pub step : ℕ → Call → Context → Context
step now (enforcing ixs signer) c = settled (enforce ixs signer now c) c
step now pausing c = pause c
step now resuming c = resume c
step now (syncing rs) c = settled (sync rs c) c
step now resetting c = reset_state c

unfoldable pub run : List (ℕ × Call) → Context → Context
run [] c = c
run ((now, call) ∷ calls) c = run calls (step now call c)

-- The clock does not run backwards from `t` through the calls to `now`.
abbrev pub IsOrdered : ℕ → List (ℕ × Call) → ℕ → Type 0
IsOrdered t [] now = t ≤ now
IsOrdered t ((u, call) ∷ calls) now = (t ≤ u) × IsOrdered u calls now

-- Every limit's window holds at most its amount and the rate window at most its number.
abbrev pub IsCapped : ℕ → ResolvedPolicies → ShieldState → Type 0
IsCapped now policies s =
    All (λ l. spent l now s ≤ l.amount) policies.spend_limits
    × (get_transaction_count_in_window policies.rate_limit.window_ms now s
        ≤ policies.rate_limit.max_transactions)

limits_later :
    (limits : List SpendLimit) (now now' : ℕ) (s : ShieldState)
    → now ≤ now'
    → All (λ l. spent l now s ≤ l.amount) limits
    → All (λ l. spent l now' s ≤ l.amount) limits
limits_later [] now now' s h held = tt
limits_later (l ∷ ls) now now' s h (first, rest) = (
  omega (arith, get_spend_in_window-later l.mint (window_of l) now now' s h),
  limits_later ls now now' s h rest,
)

IsCapped-later :
    (now now' : ℕ) (policies : ResolvedPolicies) (s : ShieldState)
    → now ≤ now'
    → IsCapped now policies s
    → IsCapped now' policies s
IsCapped-later now now' policies s h (limits, rate) = (
  limits_later policies.spend_limits now now' s h limits,
  omega (arith, get_transaction_count-later policies.rate_limit.window_ms now now' s h),
)

IsCapped-under :
    (now : ℕ) (p q : ResolvedPolicies) (s : ShieldState)
    → p ≡ q
    → IsCapped now p s
    → IsCapped now q s
IsCapped-under now p q s e held = rw (sym e) held

initial_limits :
    (limits : List SpendLimit) (now : ℕ) → All (λ l. spent l now initial ≤ l.amount) limits
unfolding initial get_spend_in_window
initial_limits [] now = tt
initial_limits (l ∷ ls) now = (omega arith, initial_limits ls now)

initial-IsCapped : (now : ℕ) (policies : ResolvedPolicies) → IsCapped now policies initial
unfolding initial get_spend_in_window get_transaction_count_in_window
initial-IsCapped now policies = (initial_limits policies.spend_limits now, omega arith)

synced_limits :
    (limits : List SpendLimit) (rs : ResolvedVaultState) (n : Option Network) (now : ℕ)
    (s : ShieldState)
    → All (λ l. spent l now s ≤ l.amount) limits
    → All (λ l. spent l now (sync_from_on_chain rs n s) ≤ l.amount) limits
unfolding sync_from_on_chain get_spend_in_window
synced_limits [] rs n now s held = tt
synced_limits (l ∷ ls) rs n now s (first, rest) = (first, synced_limits ls rs n now s rest)

synced-IsCapped :
    (rs : ResolvedVaultState) (n : Option Network) (now : ℕ) (policies : ResolvedPolicies)
    (s : ShieldState)
    → IsCapped now policies s
    → IsCapped now policies (sync_from_on_chain rs n s)
unfolding sync_from_on_chain get_transaction_count_in_window
synced-IsCapped rs n now policies s (limits, rate) =
    (synced_limits policies.spend_limits rs n now s limits, rate)

-- A call leaves the policies alone and the state within them.
abbrev Keeps : ℕ → Context → Context → Type 0
Keeps now c c' = (c'.resolved ≡ c.resolved) × IsCapped now c'.resolved c'.state

enforce-Keeps :
    (ixs : List InspectableInstruction) (signer : String) (now : ℕ) (c : Context)
    (r : Result (List PolicyViolation) Context)
    → enforce ixs signer now c ≡ r
    → IsCapped now c.resolved c.state
    → Keeps now c (settled r c)
enforce-Keeps ixs signer now c (ok c') done held =
    let same = ((enforce-eq-ok_iff ixs signer now c c').0 done).2 in
    (ap (λ d. d.resolved) same, enforce-limits ixs signer now c c' done)
enforce-Keeps ixs signer now c (err e) done held = (refl, held)

sync-Keeps :
    (rs : ResolvedVaultState) (now : ℕ) (c : Context) (n : Option Network)
    → c.sync_network ≡ n
    → IsCapped now c.resolved c.state
    → Keeps now c (settled (sync rs c) c)
unfolding sync
sync-Keeps rs now c none e held = rw e (refl, held)
sync-Keeps rs now c (some n) e held =
    rw e (refl, synced-IsCapped rs (some n) now c.resolved c.state held)

step-Keeps :
    (now : ℕ) (call : Call) (c : Context)
    → IsCapped now c.resolved c.state
    → Keeps now c (step now call c)
unfolding step pause resume reset_state reset
step-Keeps now (enforcing ixs signer) c held =
    enforce-Keeps ixs signer now c (enforce ixs signer now c) refl held
step-Keeps now pausing c held = (refl, held)
step-Keeps now resuming c held = (refl, held)
step-Keeps now (syncing rs) c held = sync-Keeps rs now c c.sync_network refl held
step-Keeps now resetting c held = (refl, initial-IsCapped now c.resolved)

run-Keeps :
    (t now : ℕ) (calls : List (ℕ × Call)) (c : Context)
    → IsOrdered t calls now
    → IsCapped t c.resolved c.state
    → Keeps now c (run calls c)
unfolding run
run-Keeps t now [] c h held = (refl, IsCapped-later t now c.resolved c.state h held)
run-Keeps t now ((u, call) ∷ calls) c (h, ordered) held =
    let c' = step u call c in
    let (same, held') = step-Keeps u call c (IsCapped-later t u c.resolved c.state h held) in
    let (same', held'') = run-Keeps u now calls c' ordered held' in (same' ∙ same, held'')

-- Whatever calls of enforce, pause, resume, sync and resetState a new context receives, as long as
-- the clock does not run backwards, at every time after them each spend limit's window holds at most
-- the limit's amount and the rate window at most its number of transactions, under the policies
-- that the context was made with.
pub run-IsCapped :
    (policies : Option ShieldPolicies) (network : Option Network) (t now : ℕ)
    (calls : List (ℕ × Call))
    → IsOrdered t calls now
    → ((run calls (shield policies network)).resolved ≡ (shield policies network).resolved)
      × IsCapped now (shield policies network).resolved (run calls (shield policies network)).state
unfolding shield
run-IsCapped policies network t now calls ordered =
    let c = shield policies network in
    let (same, held) = run-Keeps t now calls c ordered (initial-IsCapped t c.resolved) in
    (same, IsCapped-under now (run calls c).resolved c.resolved (run calls c).state same held)
