-- ===== src/Shield/Context/Recording.antt =====
-- What a context records of a transaction that it lets through.
use phalnx.Base.{
  ℕ, ◌+◌, ◌≤◌, ◌≡◌, refl, List, [], ◌∷◌, String, str_eq, Option, some, arith, inl, inr, Bool-cases,
}
use phalnx.Core.Policies.{SpendLimit}
use phalnx.Inspector.{InstructionAnalysis, TokenTransferInfo}
use phalnx.Network.{Network}
use phalnx.Budget.Resolve.{ResolvedVaultState}
use phalnx.Shield.State.{
  ShieldState, get_spend_in_window, get_transaction_count_in_window, record_spend,
  record_transaction, record_usd_spend, mark_enforce_used, prune, get_effective_global_spent_24h,
}
use phalnx.Shield.State.Laws.{
  get_spend_in_window-record_spend-le, get_spend_in_window-record_transaction-le,
  get_transaction_count-record_transaction-le, get_transaction_count-record_spend-le,
}
use phalnx.Shield.Evaluate.{compute_stablecoin_usd, mint_or_empty, window_of, tx_spend}
use phalnx.Shield.Context.{record_outgoing, record_stablecoins, record_analysis}

-- What a limit's window holds at `now`.
abbrev pub spent : SpendLimit → ℕ → ShieldState → ℕ
spent l now s = get_spend_in_window l.mint (window_of l) now s

record_outgoing-le :
    (l : SpendLimit) (signer : String) (now : ℕ) (ts : List TokenTransferInfo) (s : ShieldState)
    → spent l now (record_outgoing signer now ts s) ≤ spent l now s + tx_spend ts signer l.mint
unfolding record_outgoing tx_spend
record_outgoing-le l signer now [] s = omega arith
record_outgoing-le l signer now (t ∷ ts) s = elim (Bool-cases (str_eq t.authority signer)) [
  | inl mine ↦ ground (
    arith,
    mine,
    record_outgoing-le l signer now ts (record_spend (mint_or_empty t.mint) t.amount now s),
    get_spend_in_window-record_spend-le (mint_or_empty t.mint) l.mint t.amount now now (window_of l)
        s,
  )
  | inr other ↦ ground (arith, other, record_outgoing-le l signer now ts s)
]

count_outgoing-le :
    (w : ℕ) (signer : String) (now : ℕ) (ts : List TokenTransferInfo) (s : ShieldState)
    → get_transaction_count_in_window w now (record_outgoing signer now ts s)
      ≤ get_transaction_count_in_window w now s
unfolding record_outgoing
count_outgoing-le w signer now [] s = omega arith
count_outgoing-le w signer now (t ∷ ts) s = elim (Bool-cases (str_eq t.authority signer)) [
  | inl mine ↦ ground (
    arith,
    mine,
    count_outgoing-le w signer now ts (record_spend (mint_or_empty t.mint) t.amount now s),
    get_transaction_count-record_spend-le w now now s (mint_or_empty t.mint) t.amount,
  )
  | inr other ↦ ground (arith, other, count_outgoing-le w signer now ts s)
]

-- Recording leaves the synced baseline and the local additions alone.
outgoing-keeps-sync :
    (signer : String) (now : ℕ) (ts : List TokenTransferInfo) (s : ShieldState)
    → ((record_outgoing signer now ts s).resolved_state ≡ s.resolved_state)
      × ((record_outgoing signer now ts s).local_usd_additions ≡ s.local_usd_additions)
unfolding record_outgoing record_spend prune
outgoing-keeps-sync signer now [] s = (refl, refl)
outgoing-keeps-sync signer now (t ∷ ts) s = elim (Bool-cases (str_eq t.authority signer)) [
  | inl mine ↦ ground (
    arith,
    mine,
    outgoing-keeps-sync signer now ts (record_spend (mint_or_empty t.mint) t.amount now s),
  )
  | inr other ↦ ground (arith, other, outgoing-keeps-sync signer now ts s)
]

pub mark_spent :
    (l : SpendLimit) (now : ℕ) (s : ShieldState) → spent l now (mark_enforce_used s) ≡ spent l now s
unfolding mark_enforce_used get_spend_in_window
mark_spent l now s = refl

pub mark_count :
    (w now : ℕ) (s : ShieldState)
    → get_transaction_count_in_window w now (mark_enforce_used s)
      ≡ get_transaction_count_in_window w now s
unfolding mark_enforce_used get_transaction_count_in_window
mark_count w now s = refl

module _ (signer : String) (network : Option Network) (now : ℕ) where
  pub stablecoins-spent :
      (l : SpendLimit) (ts : List TokenTransferInfo) (rs : Option ResolvedVaultState)
      (s : ShieldState)
      → spent l now (record_stablecoins ts signer rs network s) ≡ spent l now s
  unfolding record_usd_spend get_spend_in_window
  stablecoins-spent l ts rs s = ground arith

  pub stablecoins-count :
      (w : ℕ) (ts : List TokenTransferInfo) (rs : Option ResolvedVaultState) (s : ShieldState)
      → get_transaction_count_in_window w now (record_stablecoins ts signer rs network s)
        ≡ get_transaction_count_in_window w now s
  unfolding record_usd_spend get_transaction_count_in_window
  stablecoins-count w ts rs s = ground arith

  pub record_analysis-spent :
      (l : SpendLimit) (analysis : InstructionAnalysis) (s : ShieldState)
      → spent l now (mark_enforce_used (record_analysis analysis signer network now s))
        ≤ spent l now s + tx_spend analysis.token_transfers signer l.mint
  unfolding record_analysis
  record_analysis-spent l analysis s =
      let ts = analysis.token_transfers in
      let out = record_outgoing signer now ts s in
      let counted = record_transaction now out in
      omega (
        arith,
        mark_spent l now (record_stablecoins ts signer counted.resolved_state network counted),
        stablecoins-spent l ts counted.resolved_state counted,
        get_spend_in_window-record_transaction-le "" l.mint 0 now now (window_of l) out,
        record_outgoing-le l signer now ts s,
      )

  pub record_analysis-count :
      (w : ℕ) (analysis : InstructionAnalysis) (s : ShieldState)
      → get_transaction_count_in_window w now
          (mark_enforce_used (record_analysis analysis signer network now s))
        ≤ get_transaction_count_in_window w now s + 1
  unfolding record_analysis
  record_analysis-count w analysis s =
      let ts = analysis.token_transfers in
      let out = record_outgoing signer now ts s in
      let counted = record_transaction now out in
      omega (
        arith,
        mark_count w now (record_stablecoins ts signer counted.resolved_state network counted),
        stablecoins-count w ts counted.resolved_state counted,
        get_transaction_count-record_transaction-le w now now out,
        count_outgoing-le w signer now ts s,
      )

  -- The stablecoins that leave are added to the local additions where the context syncs.
  pub record_analysis-usd :
      (analysis : InstructionAnalysis) (s : ShieldState) (rs : ResolvedVaultState) (n : Network)
      → s.resolved_state ≡ some rs
      → network ≡ some n
      → get_effective_global_spent_24h
          (mark_enforce_used (record_analysis analysis signer network now s))
        ≡ get_effective_global_spent_24h s
          + compute_stablecoin_usd analysis.token_transfers signer n
  unfolding record_analysis record_transaction prune mark_enforce_used record_usd_spend
      get_effective_global_spent_24h
  record_analysis-usd analysis s rs n synced configured =
      ground (arith, outgoing-keeps-sync signer now analysis.token_transfers s)
