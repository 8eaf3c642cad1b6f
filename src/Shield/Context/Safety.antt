-- ===== src/Shield/Context/Safety.antt =====
-- What one successful `enforce` guarantees.
use phalnx.Base.{
  ℕ, ◌+◌, ◌≤◌, ◌<◌, ◌≡◌, refl, ap, ◌∙◌, sym, true, false, List, [], ◌∷◌, String, All, Option, none,
  some, ok, arith, ◌↔◌,
}
use phalnx.Core.Policies.{SpendLimit}
use phalnx.Inspector.{
  InspectableInstruction, InstructionAnalysis, TokenTransferInfo, analyze_instructions,
}
use phalnx.Network.{Network}
use phalnx.Budget.Resolve.{ResolvedVaultState}
use phalnx.Shield.State.{
  ShieldState, get_transaction_count_in_window, get_effective_global_spent_24h, mark_enforce_used,
}
use phalnx.Shield.Evaluate.{
  evaluate_instructions, violations_of, compute_stablecoin_usd, effective_network,
}
use phalnx.Shield.Evaluate.Laws.{violations_of_iff, IsApproved, WithinLimits, OnChainAllows}
use phalnx.Shield.Context.{Context, enforce, evaluate, record_analysis, is_empty}
use phalnx.Shield.Context.Recording.{
  spent, record_analysis-spent, record_analysis-count, record_analysis-usd,
}

pub is_empty-eq-true {ℓ} : {A : Type ℓ} (xs : List A) → is_empty xs ≡ true → xs ≡ []
is_empty-eq-true [] h = refl
is_empty-eq-true (x ∷ xs) h = cc

-- What is recorded of a transaction.
abbrev pub recorded : List InspectableInstruction → String → ℕ → Context → Context
recorded ixs signer now c = record c {
  state =
      mark_enforce_used
        (record_analysis (analyze_instructions ixs signer) signer c.sync_network now c.state);
}

enforce-cases :
    (ixs : List InspectableInstruction) (signer : String) (now : ℕ) (c c' : Context)
    → enforce ixs signer now c ≡ ok c'
    → (violations_of (analyze_instructions ixs signer) signer c.resolved c.state c.sync_network now
        ≡ [])
      × (c.is_paused ≡ false)
      × (c' ≡ recorded ixs signer now c)
unfolding enforce evaluate evaluate_instructions
enforce-cases ixs signer now c c' done = ground (
  arith,
  is_empty-eq-true (
      violations_of (analyze_instructions ixs signer) signer c.resolved c.state c.sync_network now),
)

enforced :
    (ixs : List InspectableInstruction) (signer : String) (now : ℕ) (c : Context)
    → c.is_paused ≡ false
    → violations_of (analyze_instructions ixs signer) signer c.resolved c.state c.sync_network now
      ≡ []
    → enforce ixs signer now c ≡ ok (recorded ixs signer now c)
unfolding enforce evaluate evaluate_instructions
enforced ixs signer now c running silent = ground (arith, running, silent)

-- Enforcement succeeds exactly if the context is not paused and the transaction meets the policies;
-- it then records the transaction, and nothing else changes.
pub enforce-eq-ok_iff :
    (ixs : List InspectableInstruction) (signer : String) (now : ℕ) (c c' : Context)
    → (enforce ixs signer now c ≡ ok c') ↔ (
        (c.is_paused ≡ false)
        × IsApproved (analyze_instructions ixs signer) signer c.resolved c.state c.sync_network now
        × (c' ≡ recorded ixs signer now c))
unfolding enforce evaluate evaluate_instructions
enforce-eq-ok_iff ixs signer now c c' =
    let a = analyze_instructions ixs signer in
    let decides = violations_of_iff a signer c.resolved c.state c.sync_network now in
    (
      λ done.
          let (silent, running, same) = enforce-cases ixs signer now c c' done in
          (running, decides.0 silent, same),
      λ (running, approved, same).
          enforced ixs signer now c running (decides.1 approved) ∙ ap ok (sym same),
    )

limits_hold :
    (limits : List SpendLimit) (analysis : InstructionAnalysis) (signer : String)
    (network : Option Network) (now : ℕ) (s : ShieldState)
    → WithinLimits analysis.token_transfers signer s now limits
    → All
        (λ l.
          spent l now (mark_enforce_used (record_analysis analysis signer network now s))
          ≤ l.amount)
        limits
limits_hold [] analysis signer network now s h = tt
limits_hold (l ∷ ls) analysis signer network now s (h, hs) = (
  omega (arith, record_analysis-spent signer network now l analysis s),
  limits_hold ls analysis signer network now s hs,
)

-- After a successful `enforce`, every spend limit's window holds at most its amount, and the rate
-- window no more transactions than allowed.
pub enforce-limits :
    (ixs : List InspectableInstruction) (signer : String) (now : ℕ) (c c' : Context)
    → enforce ixs signer now c ≡ ok c'
    → All (λ l. spent l now c'.state ≤ l.amount) c'.resolved.spend_limits
      × (get_transaction_count_in_window c'.resolved.rate_limit.window_ms now c'.state
          ≤ c'.resolved.rate_limit.max_transactions)
enforce-limits ixs signer now c c' done =
    let analysis = analyze_instructions ixs signer in
    let (running, approved, same) = (enforce-eq-ok_iff ixs signer now c c').0 done in
    rw same (
      limits_hold c.resolved.spend_limits analysis signer c.sync_network now c.state
          approved.limits,
      omega (
        arith,
        approved.rate,
        record_analysis-count signer c.sync_network now c.resolved.rate_limit.window_ms analysis
            c.state,
      ),
    )

caps_hold :
    (rs : ResolvedVaultState) (n : Network) (resolved_state : Option ResolvedVaultState)
    (network : Option Network) (ts : List TokenTransferInfo) (signer : String) (s : ShieldState)
    → resolved_state ≡ some rs
    → network ≡ some n
    → OnChainAllows resolved_state network ts signer s
    → 0 < compute_stablecoin_usd ts signer n
    → (get_effective_global_spent_24h s + compute_stablecoin_usd ts signer n ≤ rs.global_budget.cap)
      × (compute_stablecoin_usd ts signer n ≤ rs.max_transaction_usd)
caps_hold rs n none network ts signer s e f h pos = cc
caps_hold rs n (some rs') none ts signer s e f h pos = cc
caps_hold rs n (some rs') (some n') ts signer s e f h pos = ground (arith, e, f, h)

-- Where the context has synced and its network is configured, an `enforce` that succeeds on a
-- transaction in which the signer sends stablecoins raises the vault's effective 24-hour spend by
-- their amount and leaves it within the vault's cap, and the amount is within the maximal
-- transaction size.
pub enforce-caps :
    (rs : ResolvedVaultState) (n : Network) (ixs : List InspectableInstruction) (signer : String)
    (now : ℕ) (c c' : Context)
    → enforce ixs signer now c ≡ ok c'
    → c.state.resolved_state ≡ some rs
    → c.sync_network ≡ some n
    → 0 < compute_stablecoin_usd (analyze_instructions ixs signer).token_transfers signer n
    → (get_effective_global_spent_24h c'.state
        ≡ get_effective_global_spent_24h c.state
          + compute_stablecoin_usd (analyze_instructions ixs signer).token_transfers signer n)
      × (get_effective_global_spent_24h c'.state ≤ rs.global_budget.cap)
      × (compute_stablecoin_usd (analyze_instructions ixs signer).token_transfers signer n
          ≤ rs.max_transaction_usd)
enforce-caps rs n ixs signer now c c' done synced configured pos =
    let analysis = analyze_instructions ixs signer in
    let (running, approved, same) = (enforce-eq-ok_iff ixs signer now c c').0 done in
    let usd =
      record_analysis-usd signer c.sync_network now analysis c.state rs n synced configured in
    let held =
      caps_hold rs n c.state.resolved_state (effective_network c.sync_network c.state)
        analysis.token_transfers signer c.state synced
        (ap (λ m. effective_network m c.state) configured) approved.caps pos in
    rw same (usd, omega (arith, usd, held.0), held.1)
