-- ===== src/Shield/Context/PlainTransfers.antt =====
-- Plain transfers, which name no mint, in the spend limits' windows.
use phalnx.Base.{
  ℕ, ◌≤◌, ◌≡◌, false, List, [], ◌∷◌, String, str_eq, All, Option, none, arith, inl, inr, Bool-cases,
}
use phalnx.Core.Policies.{SpendLimit}
use phalnx.Inspector.{InstructionAnalysis, TokenTransferInfo}
use phalnx.Network.{Network}
use phalnx.Shield.State.{ShieldState, record_spend, record_transaction}
use phalnx.Shield.State.Laws.{
  get_spend_in_window-record_spend-le, get_spend_in_window-record_transaction-le,
}
use phalnx.Shield.Evaluate.{mint_or_empty, window_of}
use phalnx.Shield.Context.{record_outgoing, record_analysis}
use phalnx.Shield.Context.Recording.{spent, stablecoins-spent}

plain_outgoing-le :
    (l : SpendLimit) (signer : String) (now : ℕ) (ts : List TokenTransferInfo) (s : ShieldState)
    → str_eq "" l.mint ≡ false
    → All (λ t. t.mint ≡ none) ts
    → spent l now (record_outgoing signer now ts s) ≤ spent l now s
unfolding record_outgoing
plain_outgoing-le l signer now [] s named plain = omega arith
plain_outgoing-le l signer now (t ∷ ts) s named (first, rest) =
    elim (Bool-cases (str_eq t.authority signer)) [
      | inl mine ↦ ground (
        arith,
        mine,
        first,
        named,
        plain_outgoing-le l signer now ts (record_spend (mint_or_empty t.mint) t.amount now s) named
            rest,
        get_spend_in_window-record_spend-le (mint_or_empty t.mint) l.mint t.amount now now
            (window_of l) s,
      )
      | inr other ↦ ground (arith, other, plain_outgoing-le l signer now ts s named rest)
    ]

-- A transaction whose transfers name no mint raises the window of no spend limit with a mint when
-- it is recorded, whatever the signer sends in it.
pub record_analysis-plain :
    (l : SpendLimit) (analysis : InstructionAnalysis) (signer : String) (network : Option Network)
    (now : ℕ) (s : ShieldState)
    → str_eq "" l.mint ≡ false
    → All (λ t. t.mint ≡ none) analysis.token_transfers
    → spent l now (record_analysis analysis signer network now s) ≤ spent l now s
unfolding record_analysis
record_analysis-plain l analysis signer network now s named plain =
    let ts = analysis.token_transfers in
    let out = record_outgoing signer now ts s in
    let counted = record_transaction now out in
    omega (
      arith,
      stablecoins-spent signer network now l ts counted.resolved_state counted,
      get_spend_in_window-record_transaction-le "" l.mint 0 now now (window_of l) out,
      plain_outgoing-le l signer now ts s named plain,
    )
