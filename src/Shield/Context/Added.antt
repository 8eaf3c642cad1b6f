-- ===== src/Shield/Context/Added.antt =====
-- What a transaction that enforce() lets through adds to the windows of at most 24 hours.
use mathlib.Core.Path.{subst}
use phalnx.Base.{
  ℕ, ◌+◌, ◌-◌, ◌≤◌, ◌≡◌, refl, ap, ◌∙◌, List, [], ◌∷◌, ◌++◌, String, str_eq, All, All-In, In,
  Option, some, ok, arith, inl, inr, Bool-cases, length, length-append, filter_by, filter_by-append,
  sum_by,
}
use phalnx.Core.Policies.{SpendLimit, day_ms}
use phalnx.Core.State.{TxEntry}
use phalnx.Inspector.{
  InspectableInstruction, InstructionAnalysis, TokenTransferInfo, analyze_instructions,
}
use phalnx.Network.{Network}
use phalnx.Shield.State.{
  ShieldState, get_spend_in_window, get_transaction_count_in_window, record_spend,
  record_transaction, mark_enforce_used, prune, is_since, tx_is_since, amount_of,
}
use phalnx.Shield.State.Laws.{get_spend_in_window-record_spend, filter_by-weaker, in_window}
use phalnx.Shield.Evaluate.{mint_or_empty, window_of, tx_spend}
use phalnx.Shield.Context.{Context, enforce, record_outgoing, record_stablecoins, record_analysis}
use phalnx.Shield.Context.Recording.{
  spent, mark_spent, mark_count, stablecoins-spent, stablecoins-count,
}
use phalnx.Shield.Context.Safety.{enforce-eq-ok_iff, enforce-limits}

-- The transfer names its mint.
abbrev pub IsNamed : TokenTransferInfo → Type 0
IsNamed t = (mint : String) × (t.mint ≡ some mint)

get_spend-record_transaction :
    (mint : String) (window_ms now : ℕ) (s : ShieldState)
    → window_ms ≤ day_ms
    → get_spend_in_window mint window_ms now (record_transaction now s)
      ≡ get_spend_in_window mint window_ms now s
unfolding get_spend_in_window record_transaction prune
get_spend-record_transaction mint window_ms now s short = ground (
  arith,
  ap (sum_by amount_of) (
      filter_by-weaker (in_window mint (now - window_ms)) (is_since (now - day_ms)) s.spend_entries
        (λ e h. ground arith)),
)

get_count-record_spend :
    (mint : String) (amount window_ms now : ℕ) (s : ShieldState)
    → window_ms ≤ day_ms
    → get_transaction_count_in_window window_ms now (record_spend mint amount now s)
      ≡ get_transaction_count_in_window window_ms now s
unfolding get_transaction_count_in_window record_spend prune
get_count-record_spend mint amount window_ms now s short = ground (
  arith,
  ap length (
      filter_by-weaker (tx_is_since (now - window_ms)) (tx_is_since (now - day_ms)) s.tx_entries
        (λ e h. ground arith)),
)

get_count-record_transaction :
    (window_ms now : ℕ) (s : ShieldState)
    → window_ms ≤ day_ms
    → get_transaction_count_in_window window_ms now (record_transaction now s)
      ≡ get_transaction_count_in_window window_ms now s + 1
unfolding get_transaction_count_in_window record_transaction prune
get_count-record_transaction window_ms now s short =
    let p = tx_is_since (now - window_ms) in
    let new : List TxEntry = record { timestamp = now } ∷ [] in
    ground (
      arith,
      ap length (
          filter_by-weaker p (tx_is_since (now - day_ms)) (s.tx_entries ++ new)
            (λ e h. ground arith)),
      ap length (filter_by-append p s.tx_entries new),
      length-append (filter_by p s.tx_entries) (filter_by p new),
    )

record_outgoing-spent :
    (l : SpendLimit) (signer : String) (now : ℕ) (ts : List TokenTransferInfo) (s : ShieldState)
    → window_of l ≤ day_ms
    → All IsNamed ts
    → spent l now (record_outgoing signer now ts s) ≡ spent l now s + tx_spend ts signer l.mint
unfolding record_outgoing tx_spend
record_outgoing-spent l signer now [] s short named = omega arith
record_outgoing-spent l signer now (t ∷ ts) s short ((mint, e), named) =
    elim (Bool-cases (str_eq t.authority signer)) [
      | inl mine ↦ ground (
        arith,
        mine,
        e,
        record_outgoing-spent l signer now ts (record_spend (mint_or_empty t.mint) t.amount now s)
            short named,
        get_spend_in_window-record_spend (mint_or_empty t.mint) l.mint t.amount now now
            (window_of l) s short (omega arith),
      )
      | inr other ↦ ground (arith, other, record_outgoing-spent l signer now ts s short named)
    ]

record_outgoing-count :
    (w : ℕ) (signer : String) (now : ℕ) (ts : List TokenTransferInfo) (s : ShieldState)
    → w ≤ day_ms
    → get_transaction_count_in_window w now (record_outgoing signer now ts s)
      ≡ get_transaction_count_in_window w now s
unfolding record_outgoing
record_outgoing-count w signer now [] s short = refl
record_outgoing-count w signer now (t ∷ ts) s short =
    elim (Bool-cases (str_eq t.authority signer)) [
      | inl mine ↦ ground (
        arith,
        mine,
        record_outgoing-count w signer now ts (record_spend (mint_or_empty t.mint) t.amount now s)
            short,
        get_count-record_spend (mint_or_empty t.mint) t.amount w now s short,
      )
      | inr other ↦ ground (arith, other, record_outgoing-count w signer now ts s short)
    ]

module _ (signer : String) (network : Option Network) (now : ℕ) (analysis : InstructionAnalysis)
    (s : ShieldState) where
  added-spent :
      (l : SpendLimit)
      → window_of l ≤ day_ms
      → All IsNamed analysis.token_transfers
      → spent l now (mark_enforce_used (record_analysis analysis signer network now s))
        ≡ spent l now s + tx_spend analysis.token_transfers signer l.mint
  unfolding record_analysis
  added-spent l short named =
      let ts = analysis.token_transfers in
      let out = record_outgoing signer now ts s in
      let counted = record_transaction now out in
      omega (
        arith,
        mark_spent l now (record_stablecoins ts signer counted.resolved_state network counted),
        stablecoins-spent signer network now l ts counted.resolved_state counted,
        get_spend-record_transaction l.mint (window_of l) now out short,
        record_outgoing-spent l signer now ts s short named,
      )

  added-count :
      (w : ℕ)
      → w ≤ day_ms
      → get_transaction_count_in_window w now
          (mark_enforce_used (record_analysis analysis signer network now s))
        ≡ get_transaction_count_in_window w now s + 1
  unfolding record_analysis
  added-count w short =
      let ts = analysis.token_transfers in
      let out = record_outgoing signer now ts s in
      let counted = record_transaction now out in
      omega (
        arith,
        mark_count w now (record_stablecoins ts signer counted.resolved_state network counted),
        stablecoins-count signer network now w ts counted.resolved_state counted,
        get_count-record_transaction w now out short,
        record_outgoing-count w signer now ts s short,
      )

-- After a successful enforce of a transaction whose transfers name their mints, the window of a spend
-- limit, if it is of at most 24 hours, holds what it held before and what the signer sends of the
-- limit's token in this transaction, which is at most the limit's amount; and the rate window, if it
-- is of at most 24 hours, holds one transaction more than before, and no more than allowed.
pub enforce-added :
    (l : SpendLimit) (ixs : List InspectableInstruction) (signer : String) (now : ℕ)
    (c c' : Context)
    → In l c.resolved.spend_limits
    → window_of l ≤ day_ms
    → c.resolved.rate_limit.window_ms ≤ day_ms
    → All IsNamed (analyze_instructions ixs signer).token_transfers
    → enforce ixs signer now c ≡ ok c'
    → (spent l now c'.state
        ≡ spent l now c.state
          + tx_spend (analyze_instructions ixs signer).token_transfers signer l.mint)
      × (spent l now c'.state ≤ l.amount)
      × (get_transaction_count_in_window c.resolved.rate_limit.window_ms now c'.state
          ≡ get_transaction_count_in_window c.resolved.rate_limit.window_ms now c.state + 1)
      × (get_transaction_count_in_window c.resolved.rate_limit.window_ms now c'.state
          ≤ c.resolved.rate_limit.max_transactions)
enforce-added l ixs signer now c c' inside short short' named done =
    let analysis = analyze_instructions ixs signer in
    let (running, approved, same) = (enforce-eq-ok_iff ixs signer now c c').0 done in
    let kept : c'.resolved ≡ c.resolved = ap (λ x. x.resolved) same in
    let (within, rate) = enforce-limits ixs signer now c c' done in
    let sum = added-spent signer c.sync_network now analysis c.state l short named in
    let count =
      added-count signer c.sync_network now analysis c.state c.resolved.rate_limit.window_ms
        short' in
    (
      ap (λ x. spent l now x.state) same ∙ sum,
      All-In (λ x. spent x now c'.state ≤ x.amount) c.resolved.spend_limits l
          (subst (λ r. All (λ x. spent x now c'.state ≤ x.amount) r.spend_limits) kept within)
          inside,
      ap (λ x. get_transaction_count_in_window c.resolved.rate_limit.window_ms now x.state) same
          ∙ count,
      subst
          (λ r.
            get_transaction_count_in_window r.rate_limit.window_ms now c'.state
            ≤ r.rate_limit.max_transactions)
          kept rate,
    )
